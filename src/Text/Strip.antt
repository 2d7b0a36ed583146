-- ===== src/Text/Strip.antt =====
-- `strip` leaves a text alone that holds no white space.
use sentinel_dns.Common.{
  Bool-cases, inl, inr, ℕ, ◌≡◌, refl, ap, ◌∙◌, Bool, false, [], ◌∷◌, ◌++◌, Text,
}
use sentinel_dns.Text.{rstrip_cons, is_space, lstrip, rstrip_by, strip}

abbrev pub NoSpace : Text → Type 0
NoSpace [] = Unit
NoSpace (c ∷ s) = (is_space c ≡ false) × NoSpace s

pub NoSpace-append : (s t : Text) → NoSpace s → NoSpace t → NoSpace (s ++ t)
NoSpace-append [] t h k = k
NoSpace-append (c ∷ s) t h k = (h.0, NoSpace-append s t h.1 k)

rstrip_of_NoSpace : (s : Text) → NoSpace s → rstrip_by is_space s ≡ s
unfolding rstrip_by
rstrip_of_NoSpace [] h = refl
rstrip_of_NoSpace (c ∷ []) h = rw h.0
rstrip_of_NoSpace (c ∷ d ∷ s) h = rw (rstrip_of_NoSpace (d ∷ s) h.1)

lstrip_of_NoSpace : (s : Text) → NoSpace s → lstrip s ≡ s
unfolding lstrip
lstrip_of_NoSpace [] h = refl
lstrip_of_NoSpace (c ∷ s) h = rw h.0

pub strip_of_NoSpace : (s : Text) → NoSpace s → strip s ≡ s
unfolding strip
strip_of_NoSpace s h = rw (lstrip_of_NoSpace s h, rstrip_of_NoSpace s h)

-- a text that does not start with white space
abbrev Starts : Text → Type 0
Starts [] = Unit
Starts (c ∷ s) = is_space c ≡ false

lstrip-Starts : (s : Text) → Starts (lstrip s)
unfolding lstrip
lstrip-Starts [] = tt
lstrip-Starts (c ∷ s) = elim (Bool-cases (is_space c)) [
  | inl blank ↦ rw blank (lstrip-Starts s)
  | inr other ↦ rw other other
]

lstrip_of_Starts : (s : Text) → Starts s → lstrip s ≡ s
unfolding lstrip
lstrip_of_Starts [] h = refl
lstrip_of_Starts (c ∷ s) h = rw h

rstrip_cons-Starts : (c : ℕ) (t : Text) → is_space c ≡ false → Starts (rstrip_cons is_space c t)
rstrip_cons-Starts c [] h = rw h h
rstrip_cons-Starts c (d ∷ t) h = h

rstrip-Starts : (s : Text) → Starts s → Starts (rstrip_by is_space s)
unfolding rstrip_by
rstrip-Starts [] h = tt
rstrip-Starts (c ∷ s) h = rstrip_cons-Starts c (rstrip_by is_space s) h

rstrip_cons_idem :
    (p : ℕ → Bool) (c : ℕ) (t : Text)
    → rstrip_by p t ≡ t
    → rstrip_by p (rstrip_cons p c t) ≡ rstrip_cons p c t
unfolding rstrip_by
rstrip_cons_idem p c [] h = elim (Bool-cases (p c)) [
  | inl cut ↦ rw cut
  | inr keep ↦ rw keep (rw keep)
]
rstrip_cons_idem p c (d ∷ t) h = ap (rstrip_cons p c) h

pub rstrip_by_idem : (p : ℕ → Bool) (s : Text) → rstrip_by p (rstrip_by p s) ≡ rstrip_by p s
unfolding rstrip_by
rstrip_by_idem p [] = refl
rstrip_by_idem p (c ∷ s) = rstrip_cons_idem p c (rstrip_by p s) (rstrip_by_idem p s)

-- Stripping twice is stripping once.
pub strip_idem : (s : Text) → strip (strip s) ≡ strip s
unfolding strip
strip_idem s =
    ap (rstrip_by is_space) (
      lstrip_of_Starts (rstrip_by is_space (lstrip s)) (rstrip-Starts (lstrip s) (lstrip-Starts s)))
    ∙ rstrip_by_idem is_space (lstrip s)
