-- ===== src/Dns/Parser/Tests.antt =====
-- Runs of dns_engine/parser.py, and its theorems at concrete packets.
use sentinel_dns.Common.{arith, ◌≤◌, ◌<◌, ◌≡◌, refl, some, [], ◌∷◌, codes, text_eq, member, add}
use sentinel_dns.Common.Exec.{Result, ok, err, value_error}
use sentinel_dns.Text
use sentinel_dns.Dns.Models.{Bytes, DnsQuery}
use sentinel_dns.Dns.Parser
use sentinel_dns.Dns.Parser.{
  Loop, enter, read_loop, turns, turn, finish, read_domain, read_header, validate_header, parse,
}
use sentinel_dns.Dns.Parser.Utf8.{decode}
use sentinel_dns.Dns.Parser.Bounds.{read_loop_ends, read_domain_bounds}
use sentinel_dns.Dns.Parser.RoundTrip.{encode_name, name_size, domain_of, read_domain-encode_name}
use sentinel_dns.Dns.Parser.Query.{IsQuery, parse-IsQuery}

evaluated : Unit {0}
unfolding parse read_header validate_header read_domain read_loop turn finish enter decode member
    add text_eq Text.join Text.lower Parser.require_length Parser.end_domain Parser.read_label
    Parser.follow_pointer Parser.decode_label
evaluated = tt

-- `Ad.io`, type A, class IN
abbrev packet : Bytes
packet =
    18 ∷ 52 ∷ 1 ∷ 0 ∷ 0 ∷ 1 ∷ 0 ∷ 0 ∷ 0 ∷ 0 ∷ 0 ∷ 0 ∷ 2 ∷ b'A' ∷ b'd' ∷ 2 ∷ b'i' ∷ b'o' ∷ 0 ∷ 0 ∷ 1
    ∷ 0 ∷ 1 ∷ []

abbrev query : DnsQuery
query = record {
  transaction_id = 4660;
  flags = 256;
  questions = 1;
  answers = 0;
  authority = 0;
  additional = 0;
  domain = codes "ad.io";
  query_type = 1;
  query_class = 1;
}

parses : parse packet ≡ ok query
unfolding evaluated
parses = refl

-- a pointer to itself
loop_refused : read_domain (192 ∷ 0 ∷ []) 0 ≡ err value_error
unfolding evaluated
loop_refused = refl

-- a name behind a pointer, and the offset behind that pointer
pointer_followed : read_domain (1 ∷ b'x' ∷ 0 ∷ 1 ∷ b'w' ∷ 192 ∷ 0 ∷ 7 ∷ []) 3 ≡ ok (codes "w.x", 7)
unfolding evaluated
pointer_followed = refl

read_loop_ends_example : (r : Result Loop) × (read_loop turns (192 ∷ 0 ∷ []) (enter 0) ≡ some r)
read_loop_ends_example = read_loop_ends (192 ∷ 0 ∷ []) 0

read_domain_bounds_example : (1 ≤ 3) × (3 ≤ 253) × (3 < 7) × (7 ≤ 8)
read_domain_bounds_example =
    read_domain_bounds (1 ∷ b'x' ∷ 0 ∷ 1 ∷ b'w' ∷ 192 ∷ 0 ∷ 7 ∷ []) 3 (codes "w.x") 7
      pointer_followed

parse-IsQuery_example : IsQuery packet query
parse-IsQuery_example = parse-IsQuery packet query parses

read_domain-encode_name_example :
    read_domain (7 ∷ 7 ∷ 2 ∷ b'A' ∷ b'd' ∷ 2 ∷ b'i' ∷ b'o' ∷ 0 ∷ 9 ∷ []) 2 ≡ ok (codes "ad.io", 9)
unfolding evaluated encode_name name_size domain_of
read_domain-encode_name_example =
    read_domain-encode_name ((b'A' ∷ b'd' ∷ []) ∷ (b'i' ∷ b'o' ∷ []) ∷ [])
      (codes "Ad" ∷ codes "io" ∷ []) (7 ∷ 7 ∷ []) (9 ∷ [])
      (omega arith, omega arith, refl, (omega arith, omega arith, refl, tt)) (omega arith)
