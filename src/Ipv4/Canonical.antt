-- ===== src/Ipv4/Canonical.antt =====
-- A text has one address and an address one text: what is read as an address is printed back as it
-- was written.
use sentinel_dns.Common.{
  ℕ, ◌/◌, ◌%◌, ◌<◌, ◌≡◌, refl, sym, ap, ◌∙◌, some, List, [], ◌∷◌, arith, Text, ◌==◌, ==_iff,
  Bool-cases, Option-cases, inl, inr,
}
use sentinel_dns.Text.{split, join, extend}
use sentinel_dns.Ipv4.{parse, format, parse_octet, show_octet, combine, parse_parts, from_octets}
use sentinel_dns.Ipv4.RoundTrip.{octet_bound}

show_octet-parse_octet : (o : Text) (n : ℕ) → parse_octet o ≡ some n → show_octet n ≡ o
unfolding parse_octet show_octet
show_octet-parse_octet (a ∷ []) n h = ground arith
show_octet-parse_octet (a ∷ b ∷ []) n h = ground arith
show_octet-parse_octet (a ∷ b ∷ c ∷ []) n h = ground arith
show_octet-parse_octet _ n h = absurd (cc)

join-extend : (sep c : ℕ) (ws : List Text) → join (sep ∷ []) (extend c ws) ≡ c ∷ join (sep ∷ []) ws
unfolding join
join-extend sep c [] = refl
join-extend sep c (w ∷ []) = refl
join-extend sep c (w ∷ v ∷ ws) = refl

-- the parts of a text are never none
abbrev IsCons : List Text → Type 0
IsCons [] = ⊥
IsCons (w ∷ ws) = Unit

IsCons-extend : (c : ℕ) (ws : List Text) → IsCons (extend c ws)
IsCons-extend c [] = tt
IsCons-extend c (w ∷ ws) = tt

split-IsCons : (sep : ℕ) (s : Text) → IsCons (split sep s)
unfolding split
split-IsCons sep [] = tt
split-IsCons sep (c ∷ s) = elim (Bool-cases (c == sep)) [
  | inl e ↦ rw e tt
  | inr e ↦ rw e (IsCons-extend c (split sep s))
]

join-empty :
    (sep : ℕ) (ws : List Text) → IsCons ws → join (sep ∷ []) ([] ∷ ws) ≡ sep ∷ join (sep ∷ []) ws
unfolding join
join-empty sep [] h = elim h [ ]
join-empty sep (w ∷ ws) h = refl

-- Joining the parts of a text gives the text.
pub join-split : (sep : ℕ) (s : Text) → join (sep ∷ []) (split sep s) ≡ s
unfolding split
join-split sep [] = unfold join in refl
join-split sep (c ∷ s) = elim (Bool-cases (c == sep)) [
  | inl e ↦ rw e (
      join-empty sep (split sep s) (split-IsCons sep s)
      ∙ ap (◌∷◌ sep) (join-split sep s)
      ∙ ap (λ x. x ∷ s) (sym ((==_iff c sep).0 e)))
  | inr e ↦ rw e (join-extend sep c (split sep s) ∙ ap (◌∷◌ c) (join-split sep s))
]

four_octets :
    (a b c d : ℕ)
    → a < 256
    → b < 256
    → c < 256
    → d < 256
    → (from_octets a b c d / 16777216 % 256 ≡ a)
      × (from_octets a b c d / 65536 % 256 ≡ b)
      × (from_octets a b c d / 256 % 256 ≡ c)
      × (from_octets a b c d % 256 ≡ d)
four_octets a b c d ha hb hc hd = omega arith

octets :
    (a b c d : ℕ)
    → a < 256
    → b < 256
    → c < 256
    → d < 256
    → format (from_octets a b c d)
      ≡ join (b'.' ∷ []) (show_octet a ∷ show_octet b ∷ show_octet c ∷ show_octet d ∷ [])
unfolding format
octets a b c d ha hb hc hd = let e = four_octets a b c d ha hb hc hd in rw (e.0, e.1, e.2, e.3)

format-combine :
    (a b c d : Text) (n : ℕ)
    → combine (parse_octet a) (parse_octet b) (parse_octet c) (parse_octet d) ≡ some n
    → format n ≡ join (b'.' ∷ []) (a ∷ b ∷ c ∷ d ∷ [])
format-combine a b c d n h = elim (Option-cases (parse_octet a)) [
  | inl e ↦ absurd (ground arith)
  | inr (x, ea) ↦ elim (Option-cases (parse_octet b)) [
    | inl e ↦ absurd (ground arith)
    | inr (y, eb) ↦ elim (Option-cases (parse_octet c)) [
      | inl e ↦ absurd (ground arith)
      | inr (z, ec) ↦ elim (Option-cases (parse_octet d)) [
        | inl e ↦ absurd (ground arith)
        | inr (w, ed) ↦ read x y z w ea eb ec ed
      ]
    ]
  ]
]
  where
    read :
        (x y z w : ℕ)
        → parse_octet a ≡ some x
        → parse_octet b ≡ some y
        → parse_octet c ≡ some z
        → parse_octet d ≡ some w
        → format n ≡ join (b'.' ∷ []) (a ∷ b ∷ c ∷ d ∷ [])
    read x y z w ea eb ec ed =
        let is : n ≡ from_octets x y z w = ground arith in
        ap format is
        ∙ octets x y z w (octet_bound a x ea) (octet_bound b y eb) (octet_bound c z ec)
            (octet_bound d w ed)
        ∙ rw (
          show_octet-parse_octet a x ea,
          show_octet-parse_octet b y eb,
          show_octet-parse_octet c z ec,
          show_octet-parse_octet d w ed,
        )

format-parts : (ws : List Text) (n : ℕ) → parse_parts ws ≡ some n → format n ≡ join (b'.' ∷ []) ws
format-parts (a ∷ b ∷ c ∷ d ∷ []) n h = format-combine a b c d n h
format-parts _ n h = absurd (cc)

-- A text that is read as an address is the text that the address prints.
pub format-parse : (s : Text) (n : ℕ) → parse s ≡ some n → format n ≡ s
unfolding parse
format-parse s n h = format-parts (split b'.' s) n h ∙ join-split b'.' s
