-- ===== src/Dns/Response.antt =====
-- `DNSResponseBuilder` of dns_engine/response.py. The package dnslib is a parameter: its messages, of
-- which the code sets two fields of the header, and the calls that may raise.
pub mod Answers
pub mod Sample
mod Tests
use Prim.Native.Nat.{bit_and, bit_or}
use sentinel_dns.Common.{
  ℕ, ◌/◌, ◌%◌, ◌≡◌, Bool, true, false, [], ◌∷◌, ◌++◌, ltb, length, if◌then◌else◌,
}
use sentinel_dns.Common.Exec.{
  Error, value_error, dns_error, buffer_error, index_error, Result, ok, err, and_then,
}
use sentinel_dns.Dns.Models.{Bytes}
use sentinel_dns.Dns.Parser.{word_at}

-- the fields of `DNSRecord.header` that the code, or a law below, speaks of
pub record Header : Type 0 where
  pub id : ℕ
  pub qr : ℕ
  pub rcode : ℕ

-- `DNSRecord` of dnslib: `DNSRecord.parse`, `reply`, `pack`, and the attribute `header`
pub record Dnslib : Type 1 where
  pub Message : Type 0
  pub parse : Bytes → Result Message
  pub reply : Message → Message
  pub header : Message → Header
  pub with_header : Header → Message → Message
  pub pack : Message → Result Bytes

abbrev pub dns_header_size : ℕ
dns_header_size = 12

abbrev pub qr_mask : ℕ
qr_mask = 0x8000

abbrev pub rcode_mask : ℕ
rcode_mask = 0x000F

-- struct.pack("!H", n)
abbrev pub pack_word : ℕ → Bytes
pack_word n = (n / 256 % 256) ∷ (n % 256) ∷ []

-- `_transaction_id`
unfoldable pub transaction_id : Bytes → ℕ
transaction_id packet = if ltb (length packet) 2 then 0 else word_at 0 packet

-- `_minimal_error_response`
unfoldable pub minimal_error_response : Bytes → ℕ → Bytes
unfolding transaction_id
minimal_error_response packet rcode =
    pack_word (transaction_id packet)
    ++ (pack_word (bit_or qr_mask (bit_and rcode rcode_mask))
        ++ (pack_word 0 ++ (pack_word 0 ++ (pack_word 0 ++ pack_word 0))))

-- the classes of the `except` clause
unfoldable pub is_caught : Error → Bool
is_caught dns_error = true
is_caught buffer_error = true
is_caught value_error = true
is_caught index_error = true
is_caught _ = false

-- the `except` clause
unfoldable pub or_minimal : Bytes → ℕ → Result Bytes → Result Bytes
unfolding is_caught minimal_error_response
or_minimal packet rcode (ok response) = ok response
or_minimal packet rcode (err e) =
    if is_caught e then ok (minimal_error_response packet rcode) else err e

module _ (d : Dnslib) where
  open d use {Message, parse, reply, header, with_header, pack}

  -- `reply.header.qr = 1`, then `reply.header.rcode = rcode`
  unfoldable pub set_qr : Message → Message
  set_qr m = with_header (record (header m) { qr = 1 }) m

  unfoldable pub set_rcode : ℕ → Message → Message
  set_rcode rcode m = with_header (record (header m) { rcode = rcode }) m

  -- the `try` block
  unfoldable pub full_response : Bytes → ℕ → Result Bytes
  unfolding set_qr set_rcode
  full_response packet rcode =
      and_then (parse packet) λ request. pack (set_rcode rcode (set_qr (reply request)))

  -- `_build_response`
  unfoldable pub build_response : Bytes → ℕ → Result Bytes
  unfolding minimal_error_response or_minimal full_response
  build_response packet rcode =
      if ltb (length packet) dns_header_size
      then ok (minimal_error_response packet rcode)
      else or_minimal packet rcode (full_response packet rcode)

  -- RCODE.NXDOMAIN, RCODE.FORMERR and RCODE.SERVFAIL
  unfoldable pub nxdomain : Bytes → Result Bytes
  nxdomain packet = build_response packet 3

  unfoldable pub formerr : Bytes → Result Bytes
  formerr packet = build_response packet 1

  unfoldable pub servfail : Bytes → Result Bytes
  servfail packet = build_response packet 2
