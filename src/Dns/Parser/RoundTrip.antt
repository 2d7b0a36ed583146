-- ===== src/Dns/Parser/RoundTrip.antt =====
-- `_read_domain` of dns_engine/parser.py reads the names that are written without compression.
use mathlib.Core.List.{append_assoc, append-nil}
use sentinel_dns.Common.{
  drop-nil, ℕ, zero, suc, ◌+◌, ◌-◌, ◌*◌, ◌/◌, ◌≤◌, ◌<◌, ◌≡◌, refl, sym, ap, ◌∙◌, true, false, some,
  List, [], ◌∷◌, ◌++◌, arith, Text, ltb, ◌==◌, length, take, drop, length-append, length-drop,
  take-append, drop-append, text_eq, if◌then◌else◌,
}
use sentinel_dns.Common.Exec.{ok, and_then}
use sentinel_dns.Text.{join, lower}
use sentinel_dns.Dns.Models.{Bytes}
use sentinel_dns.Dns.Parser.{
  byte_at, require_length, decode_label, Loop, enter, Turn, end_domain, read_label, turn, read_loop,
  finish, turns, or_stuck, read_domain,
}
use sentinel_dns.Dns.Parser.Utf8.{decode}

-- a name on the wire: each label behind its length, and a zero
unfoldable pub encode_name : List Bytes → Bytes
encode_name [] = 0 ∷ []
encode_name (l ∷ ls) = length l ∷ (l ++ encode_name ls)

unfoldable pub name_size : List Bytes → ℕ
name_size [] = 0
name_size (l ∷ ls) = 1 + length l + name_size ls

-- the labels have 1 to 63 bytes, which are the texts in UTF-8
abbrev pub Decoded : List Bytes → List Text → Type 0
Decoded [] [] = Unit
Decoded (l ∷ ls) (t ∷ ts) = (1 ≤ length l) × (length l ≤ 63) × (decode l ≡ some t) × Decoded ls ts
Decoded _ _ = ⊥

byte_at-drop :
    (n : ℕ) (packet : Bytes) (b : ℕ) (rest : Bytes)
    → drop n packet ≡ b ∷ rest
    → byte_at n packet ≡ b
byte_at-drop n packet b rest e = rw e refl

drop-drop : (k m n : ℕ) (packet : Bytes) → k ≡ m + n → drop k packet ≡ drop n (drop m packet)
drop-drop k zero n packet e = ap (λ j. drop j packet) (omega arith)
drop-drop zero (suc m) n packet e = absurd (omega arith)
drop-drop (suc k) (suc m) n [] e = sym (drop-nil n)
drop-drop (suc k) (suc m) n (x ∷ packet) e = drop-drop k m n packet (omega arith)

drop-suc :
    (n : ℕ) (packet : Bytes) (b : ℕ) (rest : Bytes)
    → drop n packet ≡ b ∷ rest
    → drop (n + 1) packet ≡ rest
drop-suc n packet b rest e = drop-drop (n + 1) n 1 packet refl ∙ ap (drop 1) e

decode_label_ok : (l : Bytes) (t : Text) → decode l ≡ some t → decode_label l ≡ ok t
unfolding decode_label
decode_label_ok l t d = rw (d, decode_label) refl

module _ (packet : Bytes) (s : Loop) where
  abbrev after_label : ℕ → Text → Loop
  after_label size t = record s {
    labels = s.labels ++ t ∷ [];
    encoded_length = s.encoded_length + (1 + size);
    current_offset = s.current_offset + 1 + size;
  }

  turn-label :
      (l : Bytes) (t : Text) (tail : Bytes)
      → drop s.current_offset packet ≡ length l ∷ (l ++ tail)
      → 1 ≤ length l
      → length l ≤ 63
      → decode l ≡ some t
      → s.encoded_length + (1 + length l) ≤ 255
      → turn packet s ≡ ok (Turn.continue (after_label (length l) t))
  unfolding turn read_label require_length
  turn-label l t tail e lo hi d fits =
      rw (inside1, size, low_bits, not_zero, small, short, inside2, label, decode_label_ok l t d)
        refl
    where
      long : length packet - s.current_offset ≡ suc (length l + length tail)
      long =
          sym (length-drop s.current_offset packet) ∙ (ap length e ∙ ap suc (length-append l tail))

      inside1 : ltb (length packet) (s.current_offset + 1) ≡ false
      inside1 = ground (arith, long)

      inside2 : ltb (length packet) (s.current_offset + 1 + length l) ≡ false
      inside2 = ground (arith, long)

      size : byte_at s.current_offset packet ≡ length l
      size = byte_at-drop s.current_offset packet (length l) (l ++ tail) e

      low_bits : (length l / 64 == 0) ≡ true
      low_bits = ground arith

      not_zero : (length l == 0) ≡ false
      not_zero = ground arith

      small : ltb 63 (length l) ≡ false
      small = ground arith

      short : ltb 255 (s.encoded_length + (1 + length l)) ≡ false
      short = ground arith

      label : take (length l) (drop (s.current_offset + 1) packet) ≡ l
      label =
          ap (take (length l)) (drop-suc s.current_offset packet (length l) (l ++ tail) e)
          ∙ take-append l tail

  turn-end : (tail : Bytes) → drop s.current_offset packet ≡ 0 ∷ tail → turn packet s ≡ end_domain s
  unfolding turn require_length
  turn-end tail e = rw (inside, zero_size) refl
    where
      inside : ltb (length packet) (s.current_offset + 1) ≡ false
      inside =
          let long : length packet - s.current_offset ≡ suc (length tail) =
            sym (length-drop s.current_offset packet) ∙ ap length e in
          ground arith

      zero_size : byte_at s.current_offset packet ≡ 0
      zero_size = byte_at-drop s.current_offset packet 0 tail e

-- what the loop makes of the labels `ls`, which are the texts `ts`
record Reads (packet : Bytes) (fuel : ℕ) (s : Loop) (ls : List Bytes) (ts : List Text)
    : Type 0 where
  end_state : Loop
  ends : read_loop fuel packet s ≡ some (ok end_state)
  labels : end_state.labels ≡ s.labels ++ ts
  offset : end_state.original_offset ≡ s.current_offset + name_size ls + 1
  size : end_state.encoded_length ≡ s.encoded_length + name_size ls

read_loop-Reads :
    (ls : List Bytes) (ts : List Text) (packet rest : Bytes) (fuel : ℕ) (s : Loop)
    → Decoded ls ts
    → drop s.current_offset packet ≡ encode_name ls ++ rest
    → s.encoded_length + name_size ls ≤ 254
    → length ls < fuel
    → s.jumped ≡ false
    → Reads packet fuel s ls ts
unfolding read_loop encode_name name_size end_domain
read_loop-Reads ls ts packet rest zero s h e fits enough j = absurd (omega arith)
read_loop-Reads [] [] packet rest (suc fuel) s h e fits enough j = record {
  end_state = record s {
    original_offset = (if s.jumped then s.original_offset else s.current_offset + 1);
    current_offset = s.current_offset + 1;
  };
  ends = rw (turn-end packet s rest e, read_loop) refl;
  labels = sym (append-nil s.labels);
  offset = rw j (omega arith);
  size = omega arith;
}
read_loop-Reads [] (t ∷ ts) packet rest (suc fuel) s h e fits enough j = absurd h
read_loop-Reads (l ∷ ls) [] packet rest (suc fuel) s h e fits enough j = absurd h
read_loop-Reads (l ∷ ls) (t ∷ ts) packet rest (suc fuel) s (lo, hi, d, more) e fits enough j =
    let tail = encode_name ls ++ rest in
    let e' : drop s.current_offset packet ≡ length l ∷ (l ++ tail) =
      e ∙ ap (◌∷◌ (length l)) (append_assoc l (encode_name ls) rest) in
    let s' = after_label packet s (length l) t in
    let next : drop s'.current_offset packet ≡ tail =
      drop-drop s'.current_offset (s.current_offset + 1) (length l) packet refl
      ∙ (ap (drop (length l)) (drop-suc s.current_offset packet (length l) (l ++ tail) e')
          ∙ drop-append l tail) in
    let r = read_loop-Reads ls ts packet rest fuel s' more next (omega arith) (omega arith) j in
    record {
      end_state = r.end_state;
      ends = rw (turn-label packet s l t tail e' lo hi d (omega arith), read_loop) r.ends;
      labels = r.labels ∙ append_assoc s.labels (t ∷ []) ts;
      offset = let o = r.offset in omega arith;
      size = let z = r.size in omega arith;
    }

length-size : (ls : List Bytes) (ts : List Text) → Decoded ls ts → 2 * length ls ≤ name_size ls
unfolding name_size
length-size [] ts h = omega arith
length-size (l ∷ ls) [] h = absurd h
length-size (l ∷ ls) (t ∷ ts) (lo, hi, d, more) = let k = length-size ls ts more in omega arith

-- the labels in lower case with dots between them, and a dot for the root
unfoldable pub domain_of : List Text → Text
domain_of ts =
    let domain = lower (join (b'.' ∷ []) ts) in if text_eq domain [] then b'.' ∷ [] else domain

finish_ok :
    (s : Loop) (ts : List Text) (o : ℕ)
    → s.labels ≡ ts
    → s.original_offset ≡ o
    → s.encoded_length + 1 ≤ 255
    → finish s ≡ ok (domain_of ts, o)
unfolding finish domain_of
finish_ok s ts o labels offset fits = rw (labels, offset, short) refl
  where
    short : ltb 255 (s.encoded_length + 1) ≡ false
    short = ground arith

-- A name that is written without compression, of labels of 1 to 63 bytes that are UTF-8 and of 255
-- bytes at most, is read as its labels in lower case with dots between them, the root as a dot; the
-- offset that comes with it is that of the byte behind the name.
pub read_domain-encode_name :
    (ls : List Bytes) (ts : List Text) (before rest : Bytes)
    → Decoded ls ts
    → name_size ls + 1 ≤ 255
    → read_domain (before ++ (encode_name ls ++ rest)) (length before)
      ≡ ok (domain_of ts, length before + name_size ls + 1)
unfolding read_domain enter
read_domain-encode_name ls ts before rest h fits =
    let packet = before ++ (encode_name ls ++ rest) in
    let r =
      read_loop-Reads ls ts packet rest turns (enter (length before)) h
        (drop-append before (encode_name ls ++ rest)) (omega arith)
        (let k = length-size ls ts h in omega arith) refl in
    ap (λ o. and_then (or_stuck o) finish) r.ends
    ∙ finish_ok r.end_state ts _ r.labels r.offset (let z = r.size in omega arith)
