-- ===== src/Dns/Response/Sample.antt =====
-- A dnslib that reads and writes the header alone, and keeps the other bytes.
use sentinel_dns.Common.{
  ◌/◌, ◌*◌, ◌%◌, ◌≡◌, refl, subst, Bool, true, ◌&&◌, ◌∷◌, arith, leb, ltb, length, drop,
  if◌then◌else◌,
}
use sentinel_dns.Common.Exec.{Error, dns_error, Result, ok, err}
use sentinel_dns.Dns.Models.{Bytes}
use sentinel_dns.Dns.Parser.{word_at, byte_at}
use sentinel_dns.Dns.Response.{Header, Dnslib, is_caught}
use sentinel_dns.Dns.Response.Answers.{IsLawful, Writes}

abbrev pub read_header : Bytes → Header
read_header packet = record {
  id = word_at 0 packet;
  qr = byte_at 2 packet / 128;
  rcode = byte_at 3 packet % 16;
}

abbrev pub parse : Bytes → Result (Header × Bytes)
parse packet =
    if ltb (length packet) 12 then err dns_error else ok (read_header packet, drop 12 packet)

abbrev pub fits : Header → Bool
fits h = leb h.id 65535 && leb h.qr 1 && leb h.rcode 15

abbrev pub packed : Header → Bytes → Bytes
packed h body =
    (h.id / 256) ∷ (h.id % 256) ∷ (128 * h.qr) ∷ h.rcode ∷ 0 ∷ 0 ∷ 0 ∷ 0 ∷ 0 ∷ 0 ∷ 0 ∷ 0 ∷ body

abbrev pub pack : Header × Bytes → Result Bytes
pack (h, body) = if fits h then ok (packed h body) else err dns_error

abbrev pub sample : Dnslib
sample = record {
  Message = Header × Bytes;
  parse = parse;
  reply = λ m. (record (m.0) { qr = 1; rcode = 0 }, m.1);
  header = λ m. m.0;
  with_header = λ h m. (h, m.1);
  pack = pack;
}

packed-Writes : (h : Header) (body : Bytes) → fits h ≡ true → Writes h (packed h body)
packed-Writes h body small = record {
  whole = omega arith;
  id = ground arith;
  qr = ground arith;
  small = ground arith;
  rcode = ground arith;
}

packed_value :
    (h : Header) (body bytes : Bytes)
    → pack (h, body) ≡ ok bytes
    → (fits h ≡ true) × (packed h body ≡ bytes)
packed_value h body bytes e = ground arith

pack-Writes : (m : Header × Bytes) (bytes : Bytes) → pack m ≡ ok bytes → Writes (m.0) bytes
pack-Writes (h, body) bytes e =
    let (small, same) = packed_value h body bytes e in
    subst (Writes h) same (packed-Writes h body small)

id-parse : (packet : Bytes) (m : Header × Bytes) → parse packet ≡ ok m → m.0.id ≡ word_at 0 packet
id-parse packet m e = ground arith

raised_parse : (packet : Bytes) (e : Error) → parse packet ≡ err e → is_caught e ≡ true
unfolding is_caught
raised_parse packet e h = ground arith

raised_pack : (m : Header × Bytes) (e : Error) → pack m ≡ err e → is_caught e ≡ true
unfolding is_caught
raised_pack (m, body) e h = ground arith

pub sample-IsLawful : IsLawful sample
sample-IsLawful = record {
  id-parse = id-parse;
  id-reply = λ m. refl;
  header-with_header = λ h m. refl;
  pack-Writes = pack-Writes;
  raised_parse = raised_parse;
  raised_pack = raised_pack;
}
