-- ===== src/Ipv4/RoundTrip.antt =====
-- Reading an address back after it was printed or packed.
use sentinel_dns.Common.{
  inl, inr, Option-cases, ℕ, ◌/◌, ◌%◌, ◌<◌, ◌≡◌, refl, ap, ◌∙◌, Bool, true, false, Option, none,
  some, List, [], ◌∷◌, ◌++◌, arith, Text, ◌==◌, all_below, all_below_sound,
}
use sentinel_dns.Text.{split, join, is_space, strip}
use sentinel_dns.Text.Strip.{NoSpace, NoSpace-append, strip_of_NoSpace}
use sentinel_dns.Ipv4.{
  combine, max_address, parse, format, parse_octet, show_octet, parse_parts, packed, unpack,
  from_octets,
}

is_some_eq : Option ℕ → ℕ → Bool
is_some_eq none n = false
is_some_eq (some m) n = m == n

octet_table : all_below 256 (λ n. is_some_eq (parse_octet (show_octet n)) n) ≡ true
unfolding all_below parse_octet show_octet is_some_eq
octet_table = refl

is_some_eq_sound : (o : Option ℕ) (n : ℕ) → is_some_eq o n ≡ true → o ≡ some n
unfolding is_some_eq
is_some_eq_sound o n h = ground arith

parse_octet-show_octet : (n : ℕ) → n < 256 → parse_octet (show_octet n) ≡ some n
parse_octet-show_octet n h = is_some_eq_sound _ n (all_below_sound 256 _ n octet_table h)

-- no octet holds the separator, and a separator ends the first part
split-show_octet :
    (n : ℕ) (rest : Text)
    → n < 256
    → split b'.' (show_octet n ++ b'.' ∷ rest) ≡ show_octet n ∷ split b'.' rest
unfolding split show_octet
split-show_octet n rest h = ground arith

split-show_octet_last : (n : ℕ) → n < 256 → split b'.' (show_octet n) ≡ show_octet n ∷ []
unfolding split show_octet
split-show_octet_last n h = ground arith

div_mod_256 : (n : ℕ) → n % 256 < 256
div_mod_256 n = omega arith

split-join :
    (a b c d : ℕ)
    → a < 256
    → b < 256
    → c < 256
    → d < 256
    → split b'.' (join (b'.' ∷ []) (show_octet a ∷ show_octet b ∷ show_octet c ∷ show_octet d ∷ []))
      ≡ show_octet a ∷ show_octet b ∷ show_octet c ∷ show_octet d ∷ []
unfolding join
split-join a b c d ha hb hc hd =
    split-show_octet a _ ha
    ∙ ap (◌∷◌ (show_octet a)) (
        split-show_octet b _ hb
        ∙ ap (◌∷◌ (show_octet b))
            (split-show_octet c _ hc ∙ ap (◌∷◌ (show_octet c)) (split-show_octet_last d hd)))

parse-join :
    (a b c d : ℕ)
    → a < 256
    → b < 256
    → c < 256
    → d < 256
    → parse (join (b'.' ∷ []) (show_octet a ∷ show_octet b ∷ show_octet c ∷ show_octet d ∷ []))
      ≡ some (from_octets a b c d)
unfolding parse
parse-join a b c d ha hb hc hd =
    ap parse_parts (split-join a b c d ha hb hc hd)
    ∙ rw (
      parse_octet-show_octet a ha,
      parse_octet-show_octet b hb,
      parse_octet-show_octet c hc,
      parse_octet-show_octet d hd,
    )

from_octets_lem :
    (n : ℕ)
    → n < max_address
    → from_octets (n / 16777216 % 256) (n / 65536 % 256) (n / 256 % 256) (n % 256) ≡ n
from_octets_lem n h = omega arith

-- An address that is printed is read back as itself.
pub parse-format : (n : ℕ) → n < max_address → parse (format n) ≡ some n
unfolding format
parse-format n h =
    parse-join _ _ _ _ (omega arith) (omega arith) (omega arith) (omega arith)
    ∙ ap some (from_octets_lem n h)

pub unpack-packed : (n : ℕ) → n < max_address → unpack (packed n) ≡ some n
unfolding packed unpack
unpack-packed n h = ap some (from_octets_lem n h)

-- Two addresses with one text are one address.
pub format_injective : (m n : ℕ) → m < max_address → n < max_address → format m ≡ format n → m ≡ n
format_injective m n hm hn e = cc (parse-format m hm, parse-format n hn, ap parse e)

pub octet_bound : (o : Text) (n : ℕ) → parse_octet o ≡ some n → n < 256
unfolding parse_octet
octet_bound (a ∷ []) n h = ground arith
octet_bound (a ∷ b ∷ []) n h = ground arith
octet_bound (a ∷ b ∷ c ∷ []) n h = ground arith
octet_bound _ n h = ground arith

combine_bound :
    (a b c d : Text) (n : ℕ)
    → combine (parse_octet a) (parse_octet b) (parse_octet c) (parse_octet d) ≡ some n
    → n < max_address
combine_bound a b c d n h = elim (Option-cases (parse_octet a)) [
  | inl e ↦ absurd (ground arith)
  | inr (x, ea) ↦ elim (Option-cases (parse_octet b)) [
    | inl e ↦ absurd (ground arith)
    | inr (y, eb) ↦ elim (Option-cases (parse_octet c)) [
      | inl e ↦ absurd (ground arith)
      | inr (z, ec) ↦ elim (Option-cases (parse_octet d)) [
        | inl e ↦ absurd (ground arith)
        | inr (w, ed) ↦
            ground (
              arith,
              octet_bound a x ea,
              octet_bound b y eb,
              octet_bound c z ec,
              octet_bound d w ed,
            )
      ]
    ]
  ]
]

parts_bound : (ws : List Text) (n : ℕ) → parse_parts ws ≡ some n → n < max_address
parts_bound (a ∷ b ∷ c ∷ d ∷ []) n h = combine_bound a b c d n h
parts_bound _ n h = absurd (cc)

-- What is read is an address of 32 bits.
pub parse_bound : (s : Text) (n : ℕ) → parse s ≡ some n → n < max_address
unfolding parse
parse_bound s n h = parts_bound (split b'.' s) n h

digit_NoSpace : (n : ℕ) → n < 256 → NoSpace (show_octet n)
unfolding show_octet is_space
digit_NoSpace n h = ground arith

dot_NoSpace : is_space b'.' ≡ false
unfolding is_space
dot_NoSpace = refl

NoSpace-dot : (n : ℕ) (t : Text) → n < 256 → NoSpace t → NoSpace (show_octet n ++ b'.' ∷ t)
NoSpace-dot n t h k = NoSpace-append (show_octet n) (b'.' ∷ t) (digit_NoSpace n h) (dot_NoSpace, k)

NoSpace-dots :
    (a b c d : ℕ)
    → a < 256
    → b < 256
    → c < 256
    → d < 256
    → NoSpace (join (b'.' ∷ []) (show_octet a ∷ show_octet b ∷ show_octet c ∷ show_octet d ∷ []))
unfolding join
NoSpace-dots a b c d ha hb hc hd =
    NoSpace-dot a _ ha (NoSpace-dot b _ hb (NoSpace-dot c _ hc (digit_NoSpace d hd)))

NoSpace-format : (n : ℕ) → NoSpace (format n)
unfolding format
NoSpace-format n =
    NoSpace-dots (n / 16777216 % 256) (n / 65536 % 256) (n / 256 % 256) (n % 256) (omega arith)
      (omega arith) (omega arith) (omega arith)

pub strip-format : (n : ℕ) → strip (format n) ≡ format n
strip-format n = strip_of_NoSpace (format n) (NoSpace-format n)
