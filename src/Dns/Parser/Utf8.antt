-- ===== src/Dns/Parser/Utf8.antt =====
-- `bytes.decode("utf-8")` of Python, strict: no overlong form, no surrogate, nothing above U+10FFFF.
use sentinel_dns.Common.{
  ℕ, true, false, suc, refl, ◌+◌, ◌-◌, ◌*◌, Bool, ◌&&◌, ◌||◌, not, Option, none, some, List, [],
  ◌∷◌, Text, leb, ltb, if◌then◌else◌, length, ◌≤◌, ◌≡◌, arith,
}

abbrev Bytes : Type 0
Bytes = List ℕ

abbrev is_tail : ℕ → Bool
is_tail b = leb 128 b && ltb b 192

abbrev with : ℕ → Option Text → Option Text
with c none = none
with c (some s) = some (c ∷ s)

-- the second byte of a sequence of three or four bytes, by the first
abbrev second_of_three : ℕ → ℕ → Bool
second_of_three a b =
    is_tail b && (not (leb a 224) || leb 160 b) && (not (leb 237 a && leb a 237) || ltb b 160)

abbrev second_of_four : ℕ → ℕ → Bool
second_of_four a b = is_tail b && (not (leb a 240) || leb 144 b) && (not (leb 244 a) || ltb b 144)

-- the sequences of two, three and four bytes, and their characters
abbrev is_two : ℕ → ℕ → Bool
is_two a b = leb 194 a && leb a 223 && is_tail b

abbrev two : ℕ → ℕ → ℕ
two a b = (a - 192) * 64 + (b - 128)

abbrev is_three : ℕ → ℕ → ℕ → Bool
is_three a b c = leb 224 a && leb a 239 && second_of_three a b && is_tail c

abbrev three : ℕ → ℕ → ℕ → ℕ
three a b c = (a - 224) * 4096 + (b - 128) * 64 + (c - 128)

abbrev is_four : ℕ → ℕ → ℕ → ℕ → Bool
is_four a b c d = leb 240 a && leb a 244 && second_of_four a b && is_tail c && is_tail d

abbrev four : ℕ → ℕ → ℕ → ℕ → ℕ
four a b c d = (a - 240) * 262144 + (b - 128) * 4096 + (c - 128) * 64 + (d - 128)

unfoldable pub decode : Bytes → Option Text
decode [] = some []
decode (a ∷ []) = if ltb a 128 then some (a ∷ []) else none
decode (a ∷ b ∷ []) =
    let rest = decode (b ∷ []) in
    if ltb a 128 then with a rest else if is_two a b then some ((two a b) ∷ []) else none
decode (a ∷ b ∷ c ∷ []) =
    let rest = decode (b ∷ c ∷ []) in
    let rest2 = decode (c ∷ []) in
    if ltb a 128
    then with a rest
    else if is_two a b
    then with (two a b) rest2
    else if is_three a b c
    then some ((three a b c) ∷ [])
    else none
decode (a ∷ b ∷ c ∷ d ∷ s) =
    let rest = decode (b ∷ c ∷ d ∷ s) in
    let rest2 = decode (c ∷ d ∷ s) in
    let rest3 = decode (d ∷ s) in
    let rest4 = decode s in
    if ltb a 128
    then with a rest
    else if is_two a b
    then with (two a b) rest2
    else if is_three a b c
    then with (three a b c) rest3
    else if is_four a b c d
    then with (four a b c d) rest4
    else none

record Shrinks (n : ℕ) (o : Option Text) : Type 0 where
  bound : (t : Text) → o ≡ some t → length t ≤ n

Shrinks-if :
    (n : ℕ) (b : Bool) {o p : Option Text}
    → Shrinks n o
    → Shrinks n p
    → Shrinks n (if b then o else p)
Shrinks-if n true h k = h
Shrinks-if n false h k = k

Shrinks-none : (n : ℕ) → Shrinks n none
Shrinks-none n = record { bound = λ t e. absurd (ground arith) }

Shrinks-some : (n : ℕ) (t : Text) → length t ≤ n → Shrinks n (some t)
Shrinks-some n t h = record { bound = λ s e. ground arith }

Shrinks-one : (n c : ℕ) → 1 ≤ n → Shrinks n (some (c ∷ []))
Shrinks-one n c h = Shrinks-some n (c ∷ []) (omega arith)

Shrinks-with : (n k c : ℕ) (o : Option Text) → suc k ≤ n → Shrinks k o → Shrinks n (with c o)
Shrinks-with n k c none h s = Shrinks-none n
Shrinks-with n k c (some t) h s = Shrinks-some n (c ∷ t) (let b = s.bound t refl in omega arith)

decode-Shrinks : (b : Bytes) → Shrinks (length b) (decode b)
unfolding decode
decode-Shrinks [] = Shrinks-some 0 [] (omega arith)
decode-Shrinks (a ∷ []) =
    Shrinks-if 1 (ltb a 128) (Shrinks-some 1 (a ∷ []) (omega arith)) (Shrinks-none 1)
decode-Shrinks (a ∷ b ∷ []) =
    Shrinks-if 2 (ltb a 128) (Shrinks-with 2 1 a _ (omega arith) (decode-Shrinks (b ∷ [])))
      (Shrinks-if 2 (is_two a b) (Shrinks-one 2 (two a b) (omega arith)) (Shrinks-none 2))
decode-Shrinks (a ∷ b ∷ c ∷ []) =
    Shrinks-if 3 (ltb a 128) (Shrinks-with 3 2 a _ (omega arith) (decode-Shrinks (b ∷ c ∷ []))) (
      Shrinks-if 3 (is_two a b)
        (Shrinks-with 3 1 (two a b) _ (omega arith) (decode-Shrinks (c ∷ [])))
        (Shrinks-if 3 (is_three a b c) (Shrinks-one 3 (three a b c) (omega arith))
          (Shrinks-none 3)))
decode-Shrinks (a ∷ b ∷ c ∷ d ∷ s) =
    let n = suc (suc (suc (suc (length s)))) in
    Shrinks-if n (ltb a 128) (Shrinks-with n _ a _ (omega arith) (decode-Shrinks (b ∷ c ∷ d ∷ s))) (
      Shrinks-if n (is_two a b)
        (Shrinks-with n _ (two a b) _ (omega arith) (decode-Shrinks (c ∷ d ∷ s)))
        (Shrinks-if n (is_three a b c)
          (Shrinks-with n _ (three a b c) _ (omega arith) (decode-Shrinks (d ∷ s)))
          (Shrinks-if n (is_four a b c d)
            (Shrinks-with n _ (four a b c d) _ (omega arith) (decode-Shrinks s)) (Shrinks-none n))))

-- a text has no more characters than bytes
pub length-decode : (b : Bytes) (s : Text) → decode b ≡ some s → length s ≤ length b
length-decode b s e = (decode-Shrinks b).bound s e
