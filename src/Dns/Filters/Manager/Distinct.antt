-- ===== src/Dns/Filters/Manager/Distinct.antt =====
-- Names without repetition, for dns_engine/filters/manager.py.
use sentinel_dns.Common.{
  ◌≡◌, refl, ap, ◌∙◌, Bool, true, false, not, ◌&&◌, ◌||◌, List, [], ◌∷◌, ◌++◌, map, arith, Text,
  text_eq, text_eq_iff, text_eq_refl, Bool-cases, inl, inr,
}
use sentinel_dns.Common.Dict.{text_eq_sym}
use sentinel_dns.Dns.Blocklist.{text_in}
use sentinel_dns.Dns.Filters.{Filter, filter_name}
use sentinel_dns.Dns.Filters.Manager.{without, replace}

-- no text twice
abbrev pub DistinctTexts : List Text → Type 0
DistinctTexts [] = Unit
DistinctTexts (t ∷ ts) = (text_in t ts ≡ false) × DistinctTexts ts

abbrev pub names : List Filter → List Text
names = map filter_name

pub text_in-names_snoc :
    (k : Text) (g : Filter) (fs : List Filter)
    → text_in k (names (fs ++ g ∷ [])) ≡ (text_in k (names fs) || text_eq (filter_name g) k)
unfolding text_in
text_in-names_snoc k g [] = ground arith
text_in-names_snoc k g (f ∷ fs) = ground (arith, text_in-names_snoc k g fs)

pub DistinctTexts-snoc :
    (g : Filter) (fs : List Filter)
    → DistinctTexts (names fs)
    → text_in (filter_name g) (names fs) ≡ false
    → DistinctTexts (names (fs ++ g ∷ []))
unfolding text_in
DistinctTexts-snoc g [] h new = (refl, tt)
DistinctTexts-snoc g (f ∷ fs) h new = (
  text_in-names_snoc (filter_name f) g fs
      ∙ ground (
        arith,
        text_eq_iff (filter_name f) (filter_name g),
        text_eq_iff (filter_name g) (filter_name f),
      ),
  DistinctTexts-snoc g fs h.1 (ground arith),
)

pub text_in-without :
    (k name : Text) (fs : List Filter)
    → text_in k (names (without name fs)) ≡ (not (text_eq name k) && text_in k (names fs))
unfolding text_in
text_in-without k name [] = ground arith
text_in-without k name (f ∷ fs) = ground (
  arith,
  text_in-without k name fs,
  text_eq_iff (filter_name f) name,
  text_eq_iff (filter_name f) k,
  text_eq_iff name k,
)

pub DistinctTexts-without :
    (name : Text) (fs : List Filter)
    → DistinctTexts (names fs)
    → DistinctTexts (names (without name fs))
DistinctTexts-without name [] h = tt
DistinctTexts-without name (f ∷ fs) h = elim (Bool-cases (text_eq (filter_name f) name)) [
  | inl same ↦ rw same (DistinctTexts-without name fs h.1)
  | inr other ↦ rw other (
    text_in-without (filter_name f) name fs ∙ ground (arith, h.0),
    DistinctTexts-without name fs h.1,
  )
]

pub text_in-replace :
    (k name : Text) (g : Filter) (fs : List Filter)
    → text_eq (filter_name g) k ≡ false
    → text_eq name k ≡ false
    → text_in k (names (replace name g fs)) ≡ text_in k (names fs)
unfolding text_in
text_in-replace k name g [] h e = refl
text_in-replace k name g (f ∷ fs) h e = ground (
  arith,
  text_in-replace k name g fs h e,
  text_eq_iff (filter_name f) name,
  text_eq_iff (filter_name f) k,
  text_eq_iff name k,
)

pub text_in-replace_new :
    (name : Text) (g : Filter) (fs : List Filter)
    → text_in name (names fs) ≡ true
    → text_in (filter_name g) (names (replace name g fs)) ≡ true
unfolding text_in
text_in-replace_new name g [] h = ground (arith, h)
text_in-replace_new name g (f ∷ fs) h =
    ground (arith, text_in-replace_new name g fs, text_eq_refl (filter_name g))

-- the new name is the old one, or is new
abbrev pub is_fresh : Text → Text → List Text → Bool
is_fresh target name ts = text_eq target name || not (text_in target ts)

pub DistinctTexts-replace :
    (name : Text) (g : Filter) (fs : List Filter)
    → DistinctTexts (names fs)
    → is_fresh (filter_name g) name (names fs) ≡ true
    → DistinctTexts (names (replace name g fs))
unfolding text_in
DistinctTexts-replace name g [] h fresh = tt
DistinctTexts-replace name g (f ∷ fs) h fresh = elim (Bool-cases (text_eq (filter_name f) name)) [
  | inl same ↦ rw same (
    ground (
      arith,
      h.0,
      text_eq_iff (filter_name f) name,
      text_eq_iff (filter_name g) name,
      ap (λ t. text_in t (names fs)),
    ),
    h.1,
  )
  | inr other ↦ rw other (
    text_in-replace (filter_name f) name g fs
          (ground (
            arith,
            text_eq_iff (filter_name g) (filter_name f),
            text_eq_iff (filter_name f) (filter_name g),
            text_eq_iff (filter_name g) name,
            text_eq_iff (filter_name f) name,
          ))
          (text_eq_sym (filter_name f) name other)
        ∙ h.0,
    DistinctTexts-replace name g fs h.1 (ground arith),
  )
]
