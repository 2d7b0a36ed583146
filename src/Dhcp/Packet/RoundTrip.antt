-- ===== src/Dhcp/Packet/RoundTrip.antt =====
-- A packet that is written is read back as it was.
use sentinel_dns.Common.{
  ℕ, ◌+◌, ◌<◌, ◌≡◌, refl, ap, ◌∙◌, true, false, ◌∷◌, ◌++◌, arith, Text, ltb, length, take, drop,
  replicate, take-append_eq, drop-append_add, length-append, text_eq, text_eq_refl, Option-cases,
  inl, inr,
}
use sentinel_dns.Common.Exec.{ok, and_then}
use sentinel_dns.Ipv4
use sentinel_dns.Ipv4.{max_address, from_octets}
use sentinel_dns.Ipv4.RoundTrip.{parse_bound, unpack-packed}
use sentinel_dns.Ipv4.Canonical.{format-parse}
use sentinel_dns.Dhcp.Options.{Bytes}
use sentinel_dns.Dhcp.Packet.{
  Packet, magic_cookie, numbers_fit, post_init, ip_to_bytes, bytes_to_ip, u8, u16, u32, from_bytes,
  fixed, pack16, to_bytes, validate_ip, slice, read_packet,
}

fixed_eq : (size : ℕ) (value : Bytes) → length value ≡ size → fixed size value ≡ value
unfolding fixed
fixed_eq size value h = take-append_eq value (replicate size 0) size h

-- an address text that is accepted has an address, which its four bytes give back
pub record Packs (t : Text) : Type 0 where
  pub address : ℕ
  pub bound : address < max_address
  pub written : ip_to_bytes t ≡ ok (Ipv4.packed address)
  pub read : bytes_to_ip (Ipv4.packed address) ≡ ok t

validate_ip-Packs : (t : Text) → validate_ip t ≡ true → Packs t
unfolding ip_to_bytes bytes_to_ip
validate_ip-Packs t h = elim (Option-cases (Ipv4.parse t)) [
  | inl e ↦ absurd (ground arith)
  | inr (n, e) ↦ record {
    address = n;
    bound = parse_bound t n e;
    written = rw e;
    read = rw (unpack-packed n (parse_bound t n e)) (ap ok (format-parse t n e));
  }
]

-- what follows the addresses
tail : Packet → Bytes
tail p = p.chaddr ++ (p.sname ++ (p.file ++ (magic_cookie ++ p.options)))

module _ (p : Packet) (h16 : length p.chaddr ≡ 16) (h64 : length p.sname ≡ 64)
    (h128 : length p.file ≡ 128) where
  after_chaddr :
      (n k : ℕ)
      → 16 + k ≡ n
      → drop n (tail p) ≡ drop k (p.sname ++ (p.file ++ (magic_cookie ++ p.options)))
  unfolding tail
  after_chaddr n k e = drop-append_add p.chaddr _ n k (omega arith)

  after_sname :
      (n k : ℕ) → 80 + k ≡ n → drop n (tail p) ≡ drop k (p.file ++ (magic_cookie ++ p.options))
  after_sname n k e =
      after_chaddr n (64 + k) (omega arith) ∙ drop-append_add p.sname _ (64 + k) k (omega arith)

  after_file : (n k : ℕ) → 208 + k ≡ n → drop n (tail p) ≡ drop k (magic_cookie ++ p.options)
  after_file n k e =
      after_sname n (128 + k) (omega arith) ∙ drop-append_add p.file _ (128 + k) k (omega arith)

  tail-chaddr : take 16 (tail p) ≡ p.chaddr
  unfolding tail
  tail-chaddr = take-append_eq p.chaddr _ 16 h16

  tail-sname : take 64 (drop 16 (tail p)) ≡ p.sname
  tail-sname = ap (take 64) (after_chaddr 16 0 refl) ∙ take-append_eq p.sname _ 64 h64

  tail-file : take 128 (drop 80 (tail p)) ≡ p.file
  tail-file = ap (take 128) (after_sname 80 0 refl) ∙ take-append_eq p.file _ 128 h128

  tail-cookie : take 4 (drop 208 (tail p)) ≡ magic_cookie
  tail-cookie = ap (take 4) (after_file 208 0 refl)

  tail-options : drop 212 (tail p) ≡ p.options
  tail-options = after_file 212 4 refl

  length-tail : length (tail p) ≡ 212 + length p.options
  unfolding tail
  length-tail = omega (
    arith,
    length-append p.chaddr (p.sname ++ (p.file ++ (magic_cookie ++ p.options))),
    length-append p.sname (p.file ++ (magic_cookie ++ p.options)),
    length-append p.file (magic_cookie ++ p.options),
  )

-- the bytes of the packet, its four addresses being `a`, `b`, `c` and `d`
wire : Packet → ℕ → ℕ → ℕ → ℕ → Bytes
unfolding Ipv4.packed
wire p a b c d =
    p.op
    ∷ p.htype
    ∷ p.hlen
    ∷ p.hops
    ∷ (Ipv4.packed p.xid
        ++ (pack16 p.secs
            ++ (pack16 p.flags
                ++ (Ipv4.packed a
                    ++ (Ipv4.packed b ++ (Ipv4.packed c ++ (Ipv4.packed d ++ tail p)))))))

module _ (p : Packet) (h16 : length p.chaddr ≡ 16) (h64 : length p.sname ≡ 64)
    (h128 : length p.file ≡ 128) (fit : numbers_fit p ≡ true) (good : post_init p ≡ ok p)
    (pa : Packs p.ciaddr) (pb : Packs p.yiaddr) (pc : Packs p.siaddr) (pd : Packs p.giaddr) where
  to_bytes-wire : to_bytes p ≡ ok (wire p pa.address pb.address pc.address pd.address)
  unfolding to_bytes wire tail
  to_bytes-wire = rw (
    pa.written,
    pb.written,
    pc.written,
    pd.written,
    fit,
    fixed_eq 16 p.chaddr h16,
    fixed_eq 64 p.sname h64,
    fixed_eq 128 p.file h128,
  )

  xid_fits : p.xid < max_address
  unfolding numbers_fit
  xid_fits = ground arith

  words_fit : (p.secs < 65536) × (p.flags < 65536)
  unfolding numbers_fit
  words_fit = ground arith

  read_u32 : (n : ℕ) → n < max_address → u32 (Ipv4.packed n) ≡ n
  unfolding u32 Ipv4.packed
  read_u32 n h = omega arith

  read_u16 : (n : ℕ) → n < 65536 → u16 (pack16 n) ≡ n
  unfolding u16
  read_u16 n h = omega arith

  bytes : Bytes
  bytes = wire p pa.address pb.address pc.address pd.address

  read_packet-wire : read_packet bytes p.ciaddr p.yiaddr p.siaddr p.giaddr ≡ p
  unfolding read_packet bytes wire u8
  read_packet-wire = λ i. record {
    op = p.op;
    htype = p.htype;
    hlen = p.hlen;
    hops = p.hops;
    xid = unfold Ipv4.packed in read_u32 p.xid xid_fits i;
    secs = read_u16 p.secs words_fit.0 i;
    flags = read_u16 p.flags words_fit.1 i;
    ciaddr = p.ciaddr;
    yiaddr = p.yiaddr;
    siaddr = p.siaddr;
    giaddr = p.giaddr;
    chaddr = tail-chaddr p h16 h64 h128 i;
    sname = tail-sname p h16 h64 h128 i;
    file = tail-file p h16 h64 h128 i;
    options = tail-options p h16 h64 h128 i;
  }

  long_enough : ltb (length bytes) 240 ≡ false
  unfolding bytes wire
  long_enough = ground (arith, length-tail p h16 h64 h128)

  cookie_there : text_eq (slice 236 4 bytes) magic_cookie ≡ true
  unfolding bytes wire
  cookie_there =
      ap (λ c. text_eq c magic_cookie) (tail-cookie p h16 h64 h128) ∙ text_eq_refl magic_cookie

  addresses :
      (bytes_to_ip (slice 12 4 bytes) ≡ ok p.ciaddr)
      × (bytes_to_ip (slice 16 4 bytes) ≡ ok p.yiaddr)
      × (bytes_to_ip (slice 20 4 bytes) ≡ ok p.siaddr)
      × (bytes_to_ip (slice 24 4 bytes) ≡ ok p.giaddr)
  unfolding bytes wire
  addresses = (pa.read, pb.read, pc.read, pd.read)

  from_bytes-wire : from_bytes bytes ≡ ok p
  unfolding from_bytes
  from_bytes-wire =
      rw
        (
          long_enough, cookie_there, addresses.0, addresses.1, addresses.2, addresses.3,
          read_packet-wire,
        )
        good

-- what `__post_init__` accepted
pub record Accepted (p : Packet) : Type 0 where
  pub chaddr_size : length p.chaddr ≡ 16
  pub sname_size : length p.sname ≡ 64
  pub file_size : length p.file ≡ 128
  pub numbers : numbers_fit p ≡ true
  pub ciaddr_valid : validate_ip p.ciaddr ≡ true
  pub yiaddr_valid : validate_ip p.yiaddr ≡ true
  pub siaddr_valid : validate_ip p.siaddr ≡ true
  pub giaddr_valid : validate_ip p.giaddr ≡ true

accepted : (p : Packet) → post_init p ≡ ok p → Accepted p
unfolding post_init
accepted p good = record {
  chaddr_size = ground arith;
  sname_size = ground arith;
  file_size = ground arith;
  numbers = ground arith;
  ciaddr_valid = ground arith;
  yiaddr_valid = ground arith;
  siaddr_valid = ground arith;
  giaddr_valid = ground arith;
}

-- A packet that `__post_init__` accepts is written by `to_bytes` without an error, and
-- `from_bytes` reads the bytes back as the same packet.
pub from_bytes-to_bytes :
    (p : Packet) → post_init p ≡ ok p → and_then (to_bytes p) from_bytes ≡ ok p
unfolding from_bytes wire bytes
from_bytes-to_bytes p good =
    ap (λ r. and_then r from_bytes)
      (to_bytes-wire p a.chaddr_size a.sname_size a.file_size a.numbers good pa pb pc pd)
    ∙ from_bytes-wire p a.chaddr_size a.sname_size a.file_size a.numbers good pa pb pc pd
  where
    a : Accepted p
    a = accepted p good

    pa : Packs p.ciaddr
    pa = validate_ip-Packs p.ciaddr a.ciaddr_valid

    pb : Packs p.yiaddr
    pb = validate_ip-Packs p.yiaddr a.yiaddr_valid

    pc : Packs p.siaddr
    pc = validate_ip-Packs p.siaddr a.siaddr_valid

    pd : Packs p.giaddr
    pd = validate_ip-Packs p.giaddr a.giaddr_valid
