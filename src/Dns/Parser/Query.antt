-- ===== src/Dns/Parser/Query.antt =====
-- What `parse` of dns_engine/parser.py accepts.
use Prim.Native.Nat.{bit_and}
use sentinel_dns.Common.{ℕ, ◌+◌, ◌/◌, ◌≤◌, ◌≡◌, refl, false, not, arith, ltb, ◌==◌, length}
use sentinel_dns.Common.Exec.{value_error, ok}
use sentinel_dns.Common.Ensures.{
  Ensures, Ensures-if, Ensures-and_then, Ensures-ok, Ensures-err, Ensures-value,
}
use sentinel_dns.Dns.Models.{Bytes, DnsQuery}
use sentinel_dns.Dns.Parser.{
  word_at, require_length, read_header, validate_header, read_domain, parse,
}
use sentinel_dns.Dns.Parser.Domain.{require_length-le}
use sentinel_dns.Dns.Parser.Bounds.{read_domain_bounds}

-- A standard query with one question of class IN, whose name has 1 to 253 characters.
pub record IsQuery (packet : Bytes) (q : DnsQuery) : Type 0 where
  pub long_enough : 17 ≤ length packet
  pub query_bit : bit_and q.flags 0x8000 ≡ 0
  pub opcode : bit_and q.flags 0x7800 / 2048 ≡ 0
  pub reserved : bit_and q.flags 0x0070 ≡ 0
  pub one_question : q.questions ≡ 1
  pub in_class : q.query_class ≡ 1
  pub named : 1 ≤ length q.domain
  pub bounded : length q.domain ≤ 253
  pub same_id : q.transaction_id ≡ word_at 0 packet
  pub same_flags : q.flags ≡ word_at 2 packet

abbrev Valid : ℕ → ℕ → Type 0
Valid flags questions =
    (bit_and flags 0x8000 ≡ 0)
    × (bit_and flags 0x7800 / 2048 ≡ 0)
    × (bit_and flags 0x0070 ≡ 0)
    × (questions ≡ 1)

validate_header-Valid :
    (flags questions : ℕ) → Ensures (λ _. Valid flags questions) (validate_header flags questions)
unfolding validate_header
validate_header-Valid flags questions =
    Ensures-if (not (bit_and flags 0x8000 == 0)) (λ _. Ensures-err value_error)
      λ a.
        Ensures-if (not (bit_and flags 0x7800 / 2048 == 0)) (λ _. Ensures-err value_error)
          λ b.
            Ensures-if (not (bit_and flags 0x0070 == 0)) (λ _. Ensures-err value_error)
              λ c.
                Ensures-if (not (questions == 1)) (λ _. Ensures-err value_error)
                  λ d. Ensures-ok tt (ground arith, ground arith, ground arith, ground arith)

read_header-Read :
    (packet : Bytes)
    → Ensures
        (λ h. (h.transaction_id ≡ word_at 0 packet) × (h.flags ≡ word_at 2 packet))
        (read_header packet)
unfolding read_header
read_header-Read packet =
    Ensures-if (ltb (length packet) 12) (λ _. Ensures-err value_error)
      λ _. Ensures-ok _ (refl, refl)

tested : (n : ℕ) → not (n == 1) ≡ false → n ≡ 1
tested n h = ground arith

parse-Accepted : (packet : Bytes) → Ensures (IsQuery packet) (parse packet)
unfolding parse
parse-Accepted packet = Ensures-and_then (read_header packet) λ h r.
    Ensures-and_then (validate_header h.flags h.questions) λ u v.
      Ensures-and_then (read_domain packet 12) λ named n.
        Ensures-and_then (require_length packet named.1 4) λ w le.
          Ensures-if (not (word_at (named.1 + 2) packet == 1)) (λ _. Ensures-err value_error)
            λ k.
              let (a, b, c, d) = Ensures-value _ u (validate_header-Valid h.flags h.questions) v in
              let (e, f, g, i) = read_domain_bounds packet 12 named.0 named.1 n in
              let (x, y) = Ensures-value _ h (read_header-Read packet) r in
              let room = require_length-le packet named.1 4 w le in
              Ensures-ok _ (record {
                long_enough = omega arith;
                query_bit = a;
                opcode = b;
                reserved = c;
                one_question = d;
                in_class = tested (word_at (named.1 + 2) packet) k;
                named = e;
                bounded = f;
                same_id = x;
                same_flags = y;
              })

-- What `parse` accepts is a standard query with one question of class IN, whose name has 1 to 253
-- characters; the identifier and the flags are those of the packet, which has at least 17 bytes.
pub parse-IsQuery : (packet : Bytes) (q : DnsQuery) → parse packet ≡ ok q → IsQuery packet q
parse-IsQuery packet q e = Ensures-value (parse packet) q (parse-Accepted packet) e
