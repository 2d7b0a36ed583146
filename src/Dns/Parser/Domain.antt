-- ===== src/Dns/Parser/Domain.antt =====
-- The loop of `_read_domain` of dns_engine/parser.py: it ends, stays inside the packet, and bounds the
-- name.
use sentinel_dns.Common.{
  ℕ, ◌+◌, ◌-◌, ◌*◌, ◌/◌, ◌%◌, ◌≤◌, ◌<◌, ◌≡◌, true, false, List, [], ◌∷◌, ◌++◌, arith, Text, leb,
  ltb, ◌==◌, length, take, drop, length-take, member,
}
use sentinel_dns.Common.Exec.{value_error, ok}
use sentinel_dns.Common.Ensures.{Ensures, Ensures-if, Ensures-and_then, Ensures-ok, Ensures-err}
use sentinel_dns.Dns.Models.{Bytes}
use sentinel_dns.Dns.Parser.{
  byte_at, require_length, decode_label, Loop, Turn, end_domain, read_label, follow_pointer, turn,
}
use sentinel_dns.Dns.Parser.Utf8.{length-decode}

-- the characters of the labels and a dot for each
unfoldable pub text_size : List Text → ℕ
text_size [] = 0
text_size (l ∷ ls) = length l + 1 + text_size ls

text_size-snoc :
    (ls : List Text) (l : Text) → text_size (ls ++ l ∷ []) ≡ text_size ls + length l + 1
unfolding text_size
text_size-snoc [] l = omega arith
text_size-snoc (k ∷ ls) l = omega (arith, text_size-snoc ls l)

-- what holds whenever the loop begins a turn, for a name at `offset`
pub record Reading (packet : Bytes) (offset : ℕ) (s : Loop) : Type 0 where
  pub short : s.encoded_length ≤ 255
  pub few : s.pointer_jumps ≤ 32
  pub ahead : s.jumped ≡ false → offset ≤ s.current_offset
  pub past : s.jumped ≡ true → offset < s.original_offset
  pub inside : s.jumped ≡ true → s.original_offset ≤ length packet
  pub sized : text_size s.labels ≤ s.encoded_length

-- what holds when it ends
pub record Done (packet : Bytes) (offset : ℕ) (s : Loop) : Type 0 where
  pub past : offset < s.original_offset
  pub inside : s.original_offset ≤ length packet
  pub sized : text_size s.labels ≤ s.encoded_length

-- twice the number of turns that can still follow
abbrev pub left : Loop → ℕ
left s = (255 - s.encoded_length) + 2 * (32 - s.pointer_jumps)

abbrev pub Goes : Bytes → ℕ → Loop → Turn → Type 0
Goes packet offset s (Turn.break s') = Done packet offset s'
Goes packet offset s (Turn.continue s') = Reading packet offset s' × (left s' + 2 ≤ left s)

pub require_length-le :
    (packet : Bytes) (offset size : ℕ) (u : Unit {0})
    → require_length packet offset size ≡ ok u
    → offset + size ≤ length packet
unfolding require_length
require_length-le packet offset size u e = ground arith

length-decode_label : (b : Bytes) (l : Text) → decode_label b ≡ ok l → length l ≤ length b
unfolding decode_label
length-decode_label b l e = length-decode b l (ground arith)

module _ (packet : Bytes) (offset : ℕ) (s : Loop) (h : Reading packet offset s) where
  end_domain-Goes :
      s.current_offset + 1 ≤ length packet → Ensures (Goes packet offset s) (end_domain s)
  unfolding end_domain
  end_domain-Goes fits = Ensures-ok _ (record {
    past = let a = h.ahead in let p = h.past in ground arith;
    inside = let i = h.inside in ground arith;
    sized = h.sized;
  })

  read_label-Goes :
      (size : ℕ) → 1 ≤ size → Ensures (Goes packet offset s) (read_label packet size s)
  unfolding read_label
  read_label-Goes size some_bytes =
      Ensures-if (ltb 63 size) (λ _. Ensures-err value_error)
        λ _.
          Ensures-if (ltb 255 (s.encoded_length + (1 + size))) (λ _. Ensures-err value_error)
            λ short. Ensures-and_then (require_length packet (s.current_offset + 1) size) λ _ e.
              Ensures-and_then (decode_label (take size (drop (s.current_offset + 1) packet)))
                λ label d. Ensures-ok _ (
                  record {
                    short = ground arith;
                    few = h.few;
                    ahead = λ j. let a = h.ahead j in omega arith;
                    past = h.past;
                    inside = h.inside;
                    sized =
                        let z = h.sized in
                        omega (
                          arith,
                          text_size-snoc s.labels label,
                          length-decode_label (take size (drop (s.current_offset + 1) packet)) label
                              d,
                          length-take size (drop (s.current_offset + 1) packet),
                        );
                  },
                  ground arith,
                )

  follow_pointer-Goes : (size : ℕ) → Ensures (Goes packet offset s) (follow_pointer packet size s)
  unfolding follow_pointer
  follow_pointer-Goes size = Ensures-and_then (require_length packet s.current_offset 2) λ u e.
      let pointer = size % 64 * 256 + byte_at (s.current_offset + 1) packet in
      Ensures-if (leb (length packet) pointer) (λ _. Ensures-err value_error)
        λ inside.
          Ensures-if (ltb 32 (s.pointer_jumps + 1)) (λ _. Ensures-err value_error)
            λ few.
              Ensures-if (member pointer s.visited_offsets) (λ _. Ensures-err value_error)
                λ fresh. Ensures-ok _ (
                  record {
                    short = h.short;
                    few = ground arith;
                    ahead = λ j. absurd (ground arith);
                    past = λ _. let a = h.ahead in let p = h.past in ground arith;
                    inside = λ _.
                        let i = h.inside in
                        let le = require_length-le packet s.current_offset 2 u e in ground arith;
                    sized = h.sized;
                  },
                  let f = h.few in ground arith,
                )

  pub turn-Goes : Ensures (Goes packet offset s) (turn packet s)
  unfolding turn
  turn-Goes = Ensures-and_then (require_length packet s.current_offset 1) λ u e.
      let size = byte_at s.current_offset packet in
      Ensures-if (size / 64 == 0)
        (λ _.
          Ensures-if (size == 0)
            (λ _. end_domain-Goes (require_length-le packet s.current_offset 1 u e))
            λ some_bytes. read_label-Goes size (ground arith))
        λ _.
          Ensures-if (size / 64 == 3) (λ _. follow_pointer-Goes size) (λ _. Ensures-err value_error)
