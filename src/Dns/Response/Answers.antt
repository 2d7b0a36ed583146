-- ===== src/Dns/Response/Answers.antt =====
-- What the builder of dns_engine/response.py answers, given what dnslib documents.
use Prim.Native.Nat.{bit_and, bit_or}
use sentinel_dns.Common.{
  ℕ, ◌/◌, ◌%◌, ◌≤◌, ◌<◌, ◌≡◌, refl, sym, ap, ◌∙◌, subst, Bool, true, false, ◌&&◌, [], ◌∷◌, arith,
  ltb, ◌==◌, length, Bool-cases, all_below, all_below_sound, inl, inr,
}
use sentinel_dns.Common.Exec.{Error, Result, ok, err, Result-cases}
use sentinel_dns.Dns.Models.{Bytes}
use sentinel_dns.Dns.Parser.{word_at, byte_at}
use sentinel_dns.Dns.Response.{
  Header, Dnslib, qr_mask, rcode_mask, transaction_id, minimal_error_response, is_caught,
  or_minimal, set_qr, set_rcode, full_response, build_response,
}

-- where the wire has the fields of a header
pub record Writes (h : Header) (bytes : Bytes) : Type 0 where
  pub whole : 12 ≤ length bytes
  pub id : word_at 0 bytes ≡ h.id
  pub qr : byte_at 2 bytes / 128 ≡ h.qr
  pub small : byte_at 3 bytes ≤ 255
  pub rcode : byte_at 3 bytes % 16 ≡ h.rcode

-- What the code relies on: a parsed message has the transaction id of the packet, a reply has that of
-- the request, an assignment to the header is read back, `pack` writes the header, and what `parse`
-- and `pack` raise is of the classes that the code catches.
pub record IsLawful (d : Dnslib) : Type 0 where
  pub id-parse :
      (packet : Bytes) (m : d.Message) → d.parse packet ≡ ok m → (d.header m).id ≡ word_at 0 packet
  pub id-reply : (m : d.Message) → (d.header (d.reply m)).id ≡ (d.header m).id
  pub header-with_header : (h : Header) (m : d.Message) → d.header (d.with_header h m) ≡ h
  pub pack-Writes :
      (m : d.Message) (bytes : Bytes) → d.pack m ≡ ok bytes → Writes (d.header m) bytes
  pub raised_parse : (packet : Bytes) (e : Error) → d.parse packet ≡ err e → is_caught e ≡ true
  pub raised_pack : (m : d.Message) (e : Error) → d.pack m ≡ err e → is_caught e ≡ true

-- the bytes of a packet are below 256
abbrev pub IsPacket : Bytes → Type 0
IsPacket [] = Unit
IsPacket (b ∷ bytes) = (b ≤ 255) × IsPacket bytes

-- a response with this code to this packet
abbrev pub IsResponse : Bytes → ℕ → Bytes → Type 0
IsResponse packet rcode response =
    Writes (record { id = transaction_id packet; qr = 1; rcode = rcode }) response

-- the flags of a minimal response, for the sixteen codes
flags_ok : ℕ → Bool
flags_ok rcode =
    let flags = bit_or qr_mask (bit_and rcode rcode_mask) in
    flags / 256 % 256 / 128 == 1 && flags % 256 % 16 == rcode

flags_table : all_below 16 flags_ok ≡ true
unfolding flags_ok all_below
flags_table = refl

flags_split :
    (rcode : ℕ)
    → flags_ok rcode ≡ true
    → (bit_or qr_mask (bit_and rcode rcode_mask) / 256 % 256 / 128 ≡ 1)
      × (bit_or qr_mask (bit_and rcode rcode_mask) % 256 % 16 ≡ rcode)
unfolding flags_ok
flags_split rcode e = ground arith

flags_lem :
    (rcode : ℕ)
    → rcode < 16
    → (bit_or qr_mask (bit_and rcode rcode_mask) / 256 % 256 / 128 ≡ 1)
      × (bit_or qr_mask (bit_and rcode rcode_mask) % 256 % 16 ≡ rcode)
flags_lem rcode h = flags_split rcode (all_below_sound 16 flags_ok rcode flags_table h)

transaction_id_bound : (packet : Bytes) → IsPacket packet → transaction_id packet ≤ 65535
unfolding transaction_id
transaction_id_bound [] h = omega arith
transaction_id_bound (a ∷ []) h = omega arith
transaction_id_bound (a ∷ b ∷ rest) h = ground (arith, h.0, h.1.0)

pub minimal_error_response-IsResponse :
    (packet : Bytes) (rcode : ℕ)
    → IsPacket packet
    → rcode < 16
    → IsResponse packet rcode (minimal_error_response packet rcode)
unfolding minimal_error_response
minimal_error_response-IsResponse packet rcode bytes small = record {
  whole = omega arith;
  id = omega (arith, transaction_id_bound packet bytes);
  qr = (flags_lem rcode small).0;
  small = omega arith;
  rcode = (flags_lem rcode small).1;
}

-- with all of dnslib's message known, the reply is a response
module _ (d : Dnslib) (lawful : IsLawful d) where
  answered : ℕ → d.Message → d.Message
  answered rcode m = set_rcode d rcode (set_qr d (d.reply m))

  header-answered :
      (rcode : ℕ) (m : d.Message)
      → d.header (answered rcode m) ≡ record { id = (d.header m).id; qr = 1; rcode = rcode }
  unfolding answered set_rcode set_qr
  header-answered rcode m =
      lawful.header-with_header _ _
      ∙ ap (λ (h : Header). record h { rcode = rcode }) (lawful.header-with_header _ _)
      ∙ ap (λ i. record { id = i; qr = 1; rcode = rcode }) (lawful.id-reply m)

  -- what the `try` block returns or raises
  data Tried (packet : Bytes) (rcode : ℕ) : Result Bytes → Type 0 where
    packed :
        (response : Bytes)
        → Writes (record { id = word_at 0 packet; qr = 1; rcode = rcode }) response
        → Tried packet rcode (ok response)
    raised : (e : Error) → is_caught e ≡ true → Tried packet rcode (err e)

  packed-Tried :
      (packet : Bytes) (rcode : ℕ) (m : d.Message)
      → d.parse packet ≡ ok m
      → Tried packet rcode (d.pack (answered rcode m))
  packed-Tried packet rcode m parsed = elim (Result-cases (d.pack (answered rcode m))) [
    | inl (e, raises) ↦
        subst (Tried packet rcode) (sym raises) (Tried.raised e (lawful.raised_pack _ e raises))
    | inr (response, packs) ↦ subst (Tried packet rcode) (sym packs) (
        Tried.packed response (
          subst (λ h. Writes h response)
            (header-answered rcode m
              ∙ ap (λ i. record { id = i; qr = 1; rcode = rcode })
                  (lawful.id-parse packet m parsed))
            (lawful.pack-Writes _ response packs)))
  ]

  full_response-Tried :
      (packet : Bytes) (rcode : ℕ) → Tried packet rcode (full_response d packet rcode)
  unfolding full_response
  full_response-Tried packet rcode = elim (Result-cases (d.parse packet)) [
    | inl (e, raises) ↦ rw raises (Tried.raised e (lawful.raised_parse packet e raises))
    | inr (m, parses) ↦ rw parses (unfold answered in packed-Tried packet rcode m parses)
  ]

  or_minimal-IsResponse :
      (packet : Bytes) (rcode : ℕ) (r : Result Bytes)
      → IsPacket packet
      → rcode < 16
      → ltb (length packet) 12 ≡ false
      → Tried packet rcode r
      → (response : Bytes) × (or_minimal packet rcode r ≡ ok response)
        × IsResponse packet rcode response
  unfolding or_minimal transaction_id
  or_minimal-IsResponse packet rcode _ bytes small long (Tried.packed response writes) =
      (response, refl, rw (not_short) writes)
    where
      not_short : ltb (length packet) 2 ≡ false
      not_short = ground arith
  or_minimal-IsResponse packet rcode _ bytes small long (Tried.raised e caught) = (
    minimal_error_response packet rcode,
    rw caught refl,
    minimal_error_response-IsResponse packet rcode bytes small,
  )

  -- Where dnslib does what the code relies on, the builder answers every packet, malformed ones
  -- included, with a whole header: it has the packet's transaction id, or 0 where the packet is too
  -- short for one, marks a response, and has the code that was asked for.
  pub build_response-IsResponse :
      (packet : Bytes) (rcode : ℕ)
      → IsPacket packet
      → rcode < 16
      → (response : Bytes) × (build_response d packet rcode ≡ ok response)
        × IsResponse packet rcode response
  unfolding build_response
  build_response-IsResponse packet rcode bytes small = elim (Bool-cases (ltb (length packet) 12)) [
    | inl short ↦ rw short (
      minimal_error_response packet rcode,
      refl,
      minimal_error_response-IsResponse packet rcode bytes small,
    )
    | inr long ↦ rw long (
        or_minimal-IsResponse packet rcode (full_response d packet rcode) bytes small long
          (full_response-Tried packet rcode))
  ]
