-- ===== src/Dhcp/Options/RoundTrip.antt =====
-- Parsing takes as many rounds as there are bytes, gives well-formed options, and undoes encoding.
use sentinel_dns.Common.{
  ℕ, zero, suc, ◌≤◌, ◌≡◌, ◌≢◌, refl, ap, sym, ◌∙◌, Bool, true, false, List, [], ◌∷◌, ◌++◌, arith,
  ltb, ◌==◌, length, take, drop, length-drop, take-append, drop-append, length-append, Bool-cases,
  inl, inr,
}
use mathlib.Core.List.{append_assoc, append-nil}
use sentinel_dns.Common.Exec.{Result, ok, err}
use sentinel_dns.Dhcp.Options.{
  Bytes, DhcpOption, make_option, to_bytes, prepend, parse_from, parse_options, encode_all,
  encode_options, end_option,
}

-- More rounds than bytes change nothing.
pub parse_from-rounds :
    (f g : ℕ) (bytes : Bytes)
    → length bytes ≤ f
    → length bytes ≤ g
    → parse_from f bytes ≡ parse_from g bytes
unfolding parse_from
parse_from-rounds zero zero bytes hf hg = refl
parse_from-rounds zero (suc g) [] hf hg = refl
parse_from-rounds zero (suc g) (c ∷ bytes) hf hg = absurd (omega arith)
parse_from-rounds (suc f) zero [] hf hg = refl
parse_from-rounds (suc f) zero (c ∷ bytes) hf hg = absurd (omega arith)
parse_from-rounds (suc f) (suc g) [] hf hg = refl
parse_from-rounds (suc f) (suc g) (c ∷ []) hf hg =
    rw (parse_from-rounds f g [] (omega arith) (omega arith))
parse_from-rounds (suc f) (suc g) (c ∷ n ∷ bytes) hf hg = rw (
  parse_from-rounds f g (n ∷ bytes) (omega arith) (omega arith),
  parse_from-rounds f g (drop n bytes) (omega (arith, length-drop n bytes))
      (omega (arith, length-drop n bytes)),
)

-- what `DHCPOption` checks, less the codes 0 and 255, which it takes and the wire format reads as the
-- padding and the end
pub record IsOption (o : DhcpOption) : Type 0 where
  pub not_pad : 1 ≤ o.code
  pub not_end : o.code ≤ 254
  pub short : length o.value ≤ 255

abbrev pub All {ℓ} : {A : Type 0} → (A → Type ℓ) → List A → Type ℓ
All P [] = Unit
All P (x ∷ xs) = P x × All P xs

parse_from-option :
    (rounds : ℕ) (o : DhcpOption) (rest : Bytes)
    → IsOption o
    → parse_from (suc rounds) (to_bytes o ++ rest) ≡ prepend (ok o) (parse_from rounds rest)
unfolding parse_from to_bytes make_option
parse_from-option rounds o rest h = ground (
  arith,
  take-append o.value rest,
  drop-append o.value rest,
  length-append o.value rest,
  ap (parse_from rounds) (drop-append o.value rest),
)

parse_options-option :
    (o : DhcpOption) (rest : Bytes)
    → IsOption o
    → parse_options (to_bytes o ++ rest) ≡ prepend (ok o) (parse_options rest)
unfolding parse_options
parse_options-option o rest h =
    parse_from-rounds (length (to_bytes o ++ rest)) (suc (length (to_bytes o ++ rest))) _
      (omega arith) (omega arith)
    ∙ parse_from-option (length (to_bytes o ++ rest)) o rest h
    ∙ ap (prepend (ok o)) (
        parse_from-rounds (length (to_bytes o ++ rest)) (length rest) rest
          (omega (arith, length-append (to_bytes o) rest)) (omega arith))

-- the options in front of those that the rest gives
abbrev pub before : List DhcpOption → Result (List DhcpOption) → Result (List DhcpOption)
before [] r = r
before (o ∷ os) r = prepend (ok o) (before os r)

-- The bytes of the options are read as the options, and what follows them as it would be alone.
pub parse_options-encode_all :
    (os : List DhcpOption) (rest : Bytes)
    → All IsOption os
    → parse_options (encode_all os ++ rest) ≡ before os (parse_options rest)
unfolding encode_all
parse_options-encode_all [] rest h = refl
parse_options-encode_all (o ∷ os) rest h =
    ap parse_options (append_assoc (to_bytes o) (encode_all os) rest)
    ∙ parse_options-option o (encode_all os ++ rest) h.0
    ∙ ap (prepend (ok o)) (parse_options-encode_all os rest h.1)

before_ok : (os : List DhcpOption) → before os (ok []) ≡ ok os
before_ok [] = refl
before_ok (o ∷ os) = rw (before_ok os)

parse_end : (junk : Bytes) → parse_options (end_option ∷ junk) ≡ ok []
unfolding parse_options parse_from
parse_end [] = refl
parse_end (b ∷ junk) = refl

parse_nothing : parse_options [] ≡ ok []
unfolding parse_options parse_from
parse_nothing = refl

-- Options with codes from 1 to 254 and values of 255 bytes at most, which were encoded with an END
-- option or without, are parsed as they were.
pub parse_options-encode_options :
    (os : List DhcpOption) (add_end : Bool)
    → All IsOption os
    → parse_options (encode_options os add_end) ≡ ok os
unfolding encode_options
parse_options-encode_options os true h =
    parse_options-encode_all os (end_option ∷ []) h ∙ ap (before os) (parse_end []) ∙ before_ok os
parse_options-encode_options os false h =
    ap parse_options (sym (append-nil (encode_all os)))
    ∙ parse_options-encode_all os [] h
    ∙ ap (before os) parse_nothing
    ∙ before_ok os

-- What follows the END option is not read.
pub parse_options_after_end :
    (os : List DhcpOption) (junk : Bytes)
    → All IsOption os
    → parse_options (encode_options os true ++ junk) ≡ ok os
unfolding encode_options
parse_options_after_end os junk h =
    ap parse_options (append_assoc (encode_all os) (end_option ∷ []) junk)
    ∙ parse_options-encode_all os (end_option ∷ junk) h
    ∙ ap (before os) (parse_end junk)
    ∙ before_ok os

abbrev pub IsByte : ℕ → Type 0
IsByte b = b ≤ 255

All-drop : (n : ℕ) (bytes : Bytes) → All IsByte bytes → All IsByte (drop n bytes)
All-drop zero bytes h = h
All-drop (suc n) [] h = h
All-drop (suc n) (b ∷ bytes) h = All-drop n bytes h.1

prepend-All :
    (r : Result DhcpOption) (rest : Result (List DhcpOption)) (os : List DhcpOption)
    → ((o : DhcpOption) → r ≡ ok o → IsOption o)
    → ((xs : List DhcpOption) → rest ≡ ok xs → All IsOption xs)
    → prepend r rest ≡ ok os
    → All IsOption os
prepend-All (err e) rest os h k eq = absurd (cc)
prepend-All (ok o) (err e) os h k eq = absurd (cc)
prepend-All (ok o) (ok xs) [] h k eq = absurd (cc)
prepend-All (ok o) (ok xs) (p ∷ ps) h k eq = (h p (cc), k ps (cc))

make_option_ok :
    (code n : ℕ) (bytes : Bytes) (o : DhcpOption)
    → IsByte code
    → code ≢ 0
    → code ≢ end_option
    → make_option code (take n bytes) ≡ ok o
    → IsOption o
unfolding make_option
make_option_ok code n bytes o byte pad end' e = ground arith

All-of_none :
    (os : List DhcpOption) → ◌≡◌ {A = Result (List DhcpOption)} (ok []) (ok os) → All IsOption os
All-of_none [] e = tt
All-of_none (o ∷ os) e = absurd (cc)

parse_from-IsOption :
    (rounds : ℕ) (bytes : Bytes) (os : List DhcpOption)
    → All IsByte bytes
    → parse_from rounds bytes ≡ ok os
    → All IsOption os
unfolding parse_from
parse_from-IsOption zero bytes [] h e = tt
parse_from-IsOption zero bytes (o ∷ os) h e = absurd (cc)
parse_from-IsOption (suc rounds) [] [] h e = tt
parse_from-IsOption (suc rounds) [] (o ∷ os) h e = absurd (cc)
parse_from-IsOption (suc rounds) (c ∷ []) os h e =
    ground (arith, parse_from-IsOption rounds [] os tt)
parse_from-IsOption (suc rounds) (c ∷ n ∷ bytes) os h e = elim (Bool-cases (c == 0)) [
  | inl pad ↦ parse_from-IsOption rounds (n ∷ bytes) os h.1 (rw pad at e)
  | inr not_pad ↦ elim (Bool-cases (c == end_option)) [
    | inl is_end ↦ All-of_none os (ground arith)
    | inr not_end ↦ elim (Bool-cases (ltb (length bytes) n)) [
      | inl over ↦ absurd (ground arith)
      | inr fits ↦
          prepend-All (make_option c (take n bytes)) (parse_from rounds (drop n bytes)) os
            (λ o made. make_option_ok c n bytes o h.0 (ground arith) (ground arith) made)
            (λ xs rest. parse_from-IsOption rounds (drop n bytes) xs (All-drop n bytes h.1.1) rest)
            (ground arith)
    ]
  ]
]

-- Every option that is parsed from bytes has a code from 1 to 254 and a value of 255 bytes at most.
pub parse_options-IsOption :
    (bytes : Bytes) (os : List DhcpOption)
    → All IsByte bytes
    → parse_options bytes ≡ ok os
    → All IsOption os
unfolding parse_options
parse_options-IsOption bytes os h e = parse_from-IsOption (length bytes) bytes os h e

-- Options that were parsed, encoded and parsed again are the same.
pub parse_options_again :
    (bytes : Bytes) (os : List DhcpOption) (add_end : Bool)
    → All IsByte bytes
    → parse_options bytes ≡ ok os
    → parse_options (encode_options os add_end) ≡ ok os
parse_options_again bytes os add_end h e =
    parse_options-encode_options os add_end (parse_options-IsOption bytes os h e)
