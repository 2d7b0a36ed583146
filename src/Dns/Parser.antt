-- ===== src/Dns/Parser.antt =====
-- `DNSParser` of dns_engine/parser.py. A packet is a list of bytes, an offset is a natural number (the
-- code makes no other: offsets start at 12 and grow, or come from a pointer), and every failed check
-- raises `ValueError`.
pub mod Utf8
pub mod Query
pub mod RoundTrip
pub mod Domain
pub mod Bounds
mod Tests
use Prim.Native.Nat.{bit_and}
use sentinel_dns.Common.{
  ℕ, zero, suc, ◌+◌, ◌-◌, ◌*◌, ◌/◌, ◌%◌, ◌≡◌, refl, Bool, true, false, not, ◌&&◌, ◌||◌, Option,
  none, some, List, [], ◌∷◌, ◌++◌, Text, leb, ltb, ◌==◌, length, take, drop, member, add, text_eq,
  if◌then◌else◌,
}
use sentinel_dns.Common.Exec.{Error, value_error, Result, ok, err, and_then}
use sentinel_dns.Text.{join, lower}
use sentinel_dns.Dns.Models.{Bytes, DnsQuery}
use sentinel_dns.Dns.Parser.Utf8.{decode}

abbrev pub header_size : ℕ
header_size = 12

abbrev pub max_label_length : ℕ
max_label_length = 63

abbrev pub max_domain_length : ℕ
max_domain_length = 255

abbrev pub max_pointer_jumps : ℕ
max_pointer_jumps = 32

abbrev pub byte_at : ℕ → Bytes → ℕ
byte_at n packet = first (drop n packet)
  where
    first : Bytes → ℕ
    first [] = 0
    first (b ∷ rest) = b

-- "!H" at an offset
abbrev pub word_at : ℕ → Bytes → ℕ
word_at n packet = 256 * byte_at n packet + byte_at (n + 1) packet

-- `_require_length`
unfoldable pub require_length : Bytes → ℕ → ℕ → Result (Unit {0})
require_length packet offset size =
    if ltb (length packet) (offset + size) then err value_error else ok tt

pub record Header : Type 0 where
  pub transaction_id : ℕ
  pub flags : ℕ
  pub questions : ℕ
  pub answers : ℕ
  pub authority : ℕ
  pub additional : ℕ

-- `_read_header`
unfoldable pub read_header : Bytes → Result Header
read_header packet =
    if ltb (length packet) header_size
    then err value_error
    else ok (record {
      transaction_id = word_at 0 packet;
      flags = word_at 2 packet;
      questions = word_at 4 packet;
      answers = word_at 6 packet;
      authority = word_at 8 packet;
      additional = word_at 10 packet;
    })

-- `_validate_header`
unfoldable pub validate_header : ℕ → ℕ → Result (Unit {0})
validate_header flags questions =
    if not (bit_and flags 0x8000 == 0)
    then err value_error
    else if not (bit_and flags 0x7800 / 2048 == 0)
    then err value_error
    else if not (bit_and flags 0x0070 == 0)
    then err value_error
    else if not (questions == 1)
    then err value_error
    else ok tt

-- `_decode_label`
unfoldable pub decode_label : Bytes → Result Text
decode_label label_data = elim (decode label_data) [
  | none ↦ err value_error
  | some label ↦ ok label
]

-- the variables of the loop of `_read_domain`
pub record Loop : Type 0 where
  pub labels : List Text
  pub original_offset : ℕ
  pub current_offset : ℕ
  pub jumped : Bool
  pub pointer_jumps : ℕ
  pub visited_offsets : List ℕ
  pub encoded_length : ℕ

unfoldable pub enter : ℕ → Loop
enter offset = record {
  labels = [];
  original_offset = offset;
  current_offset = offset;
  jumped = false;
  pointer_jumps = 0;
  visited_offsets = [];
  encoded_length = 0;
}

-- a turn of the loop ends it, goes on, or raises
pub data Turn : Type 0 where
  break continue : Loop → Turn

-- the branch of a zero length
unfoldable pub end_domain : Loop → Result Turn
end_domain s = ok (
    Turn.break (record s {
      original_offset = (if s.jumped then s.original_offset else s.current_offset + 1);
      current_offset = s.current_offset + 1;
    }))

-- the branch of a label
unfoldable pub read_label : Bytes → ℕ → Loop → Result Turn
unfolding require_length decode_label
read_label packet size s =
    if ltb max_label_length size
    then err value_error
    else if ltb max_domain_length (s.encoded_length + (1 + size))
    then err value_error
    else and_then (require_length packet (s.current_offset + 1) size) λ _.
      and_then (decode_label (take size (drop (s.current_offset + 1) packet))) λ label. ok (
        Turn.continue (record s {
          labels = s.labels ++ label ∷ [];
          encoded_length = s.encoded_length + (1 + size);
          current_offset = s.current_offset + 1 + size;
        }))

-- the branch of a compression pointer: ((length & 0x3F) << 8) | second_byte
unfoldable pub follow_pointer : Bytes → ℕ → Loop → Result Turn
unfolding require_length
follow_pointer packet size s = and_then (require_length packet s.current_offset 2) λ _.
    let pointer = size % 64 * 256 + byte_at (s.current_offset + 1) packet in
    if leb (length packet) pointer
    then err value_error
    else if ltb max_pointer_jumps (s.pointer_jumps + 1)
    then err value_error
    else if member pointer s.visited_offsets
    then err value_error
    else ok (
        Turn.continue (record s {
          original_offset = (if s.jumped then s.original_offset else s.current_offset + 2);
          pointer_jumps = s.pointer_jumps + 1;
          visited_offsets = add pointer s.visited_offsets;
          current_offset = pointer;
          jumped = true;
        }))

-- one turn of the loop: by the two high bits of the length byte
unfoldable pub turn : Bytes → Loop → Result Turn
unfolding require_length end_domain read_label follow_pointer
turn packet s = and_then (require_length packet s.current_offset 1) λ _.
    let size = byte_at s.current_offset packet in
    if size / 64 == 0
    then (if size == 0 then end_domain s else read_label packet size s)
    else if size / 64 == 3
    then follow_pointer packet size s
    else err value_error

-- The loop, on fuel: `none` when it has not ended after that many turns.
unfoldable pub read_loop : ℕ → Bytes → Loop → Option (Result Loop)
unfolding turn
read_loop zero packet s = none
read_loop (suc fuel) packet s = elim (turn packet s) [
  | err e ↦ some (err e)
  | ok (Turn.break s') ↦ some (ok s')
  | ok (Turn.continue s') ↦ read_loop fuel packet s'
]

-- what `_read_domain` makes of the labels
unfoldable pub finish : Loop → Result (Text × ℕ)
unfolding join lower
finish s =
    let domain = lower (join (b'.' ∷ []) s.labels) in
    if ltb max_domain_length (s.encoded_length + 1)
    then err value_error
    else ok ((if text_eq domain [] then b'.' ∷ [] else domain), s.original_offset)

-- 127 labels and 32 jumps, and the turn that ends the loop
abbrev pub turns : ℕ
turns = 161

abbrev pub or_stuck : Option (Result Loop) → Result Loop
or_stuck none = err value_error
or_stuck (some r) = r

-- `_read_domain`
unfoldable pub read_domain : Bytes → ℕ → Result (Text × ℕ)
unfolding read_loop finish enter
read_domain packet offset = and_then (or_stuck (read_loop turns packet (enter offset))) finish

unfoldable pub parse : Bytes → Result DnsQuery
unfolding read_header validate_header read_domain require_length
parse packet = and_then (read_header packet) λ h.
    and_then (validate_header h.flags h.questions) λ _.
      and_then (read_domain packet header_size) λ named.
        and_then (require_length packet named.1 4) λ _.
          if not (word_at (named.1 + 2) packet == 1)
          then err value_error
          else ok (record {
            transaction_id = h.transaction_id;
            flags = h.flags;
            questions = h.questions;
            answers = h.answers;
            authority = h.authority;
            additional = h.additional;
            domain = named.0;
            query_type = word_at named.1 packet;
            query_class = word_at (named.1 + 2) packet;
          })
