-- ===== src/Common/Dict.antt =====
-- Python's `dict` with `str` keys, in the order of insertion.
use Prim.Native.Nat.{ℕ}
use mathlib.Core.Path.{◌≡◌, refl, ◌∙◌, ap}
use mathlib.Core.Logic.{inl, inr}
use mathlib.Core.Bool.{true, false}
use mathlib.Core.Option.{Option, none, some}
use mathlib.Core.List.{List, [], ◌∷◌, map}
use native.Mathlib.Omega.{arith}
use sentinel_dns.Common.Tests.{Text, text_eq, text_eq_iff, Bool-cases, ◌==◌, ==_iff, if◌then◌else◌}
use sentinel_dns.Common.Lists.{member, Distinct}

abbrev pub Dict {ℓ} : Type ℓ → Type ℓ
Dict V = List (Text × V)

pub text_eq_sym : (s t : Text) → text_eq s t ≡ false → text_eq t s ≡ false
text_eq_sym s t h = ground (arith, text_eq_iff s t, text_eq_iff t s)

module _ {ℓ} {V : Type ℓ} where
  -- d.get(k)
  unfoldable pub get : Text → Dict V → Option V
  get k [] = none
  get k ((j, v) ∷ d) = if text_eq j k then some v else get k d

  -- d[k] = v: a key that is there keeps its place
  unfoldable pub put : Text → V → Dict V → Dict V
  put k v [] = (k, v) ∷ []
  put k v ((j, w) ∷ d) = if text_eq j k then (k, v) ∷ d else (j, w) ∷ put k v d

  -- d.pop(k, None), del d[k]
  unfoldable pub pop : Text → Dict V → Dict V
  pop k [] = []
  pop k ((j, v) ∷ d) = let rest = pop k d in if text_eq j k then rest else (j, v) ∷ rest

  -- list(d.values())
  abbrev pub values : Dict V → List V
  values = map (λ e. e.1)

  pub get-put :
      (k j : Text) (v : V) (d : Dict V)
      → get j (put k v d) ≡ (if text_eq k j then some v else get j d)
  unfolding get put
  get-put k j v [] = refl
  get-put k j v ((i, w) ∷ d) =
      ground (arith, text_eq_iff k j, text_eq_iff i k, text_eq_iff i j, get-put k j v d)

  pub get-pop :
      (k j : Text) (d : Dict V) → get j (pop k d) ≡ (if text_eq k j then none else get j d)
  unfolding get pop
  get-pop k j [] = ground arith
  get-pop k j ((i, w) ∷ d) =
      ground (arith, text_eq_iff k j, text_eq_iff i k, text_eq_iff i j, get-pop k j d)

  -- every key once
  abbrev pub Once : Dict V → Type ℓ
  Once [] = Unit
  Once ((k, v) ∷ d) = (get k d ≡ none) × Once d

  get-put_ne :
      (k j : Text) (v : V) (d : Dict V)
      → text_eq k j ≡ false
      → get j d ≡ none
      → get j (put k v d) ≡ none
  get-put_ne k j v d ne e = get-put k j v d ∙ ground (arith)

  get-pop-none : (k j : Text) (d : Dict V) → get j d ≡ none → get j (pop k d) ≡ none
  get-pop-none k j d e = get-pop k j d ∙ ground (arith)

  pub Once-put : (k : Text) (v : V) (d : Dict V) → Once d → Once (put k v d)
  unfolding put get
  Once-put k v [] h = (refl, tt)
  Once-put k v ((i, w) ∷ d) h = elim (Bool-cases (text_eq i k)) [
    | inl same ↦ rw same (rw (← (text_eq_iff i k).0 same) (h.0, h.1))
    | inr other ↦ rw other (get-put_ne k i v d (text_eq_sym i k other) h.0, Once-put k v d h.1)
  ]

  pub Once-pop : (k : Text) (d : Dict V) → Once d → Once (pop k d)
  unfolding pop
  Once-pop k [] h = tt
  Once-pop k ((i, w) ∷ d) h = elim (Bool-cases (text_eq i k)) [
    | inl same ↦ rw same (Once-pop k d h.1)
    | inr other ↦ rw other (get-pop-none k i d h.0, Once-pop k d h.1)
  ]

-- the entries behind the first one are found as before
get-tail :
    (j k : Text) (v r : ℕ) (d : Dict ℕ)
    → get j d ≡ none
    → get k d ≡ some r
    → get k ((j, v) ∷ d) ≡ some r
unfolding get
get-tail j k v r d gone e = ground (arith, text_eq_iff j k, ap (λ t. get t d))

get-head : (j : Text) (v : ℕ) (d : Dict ℕ) → get j ((j, v) ∷ d) ≡ some v
unfolding get
get-head j v d = ground (arith, text_eq_iff j j)

-- `d.values()` lists what `get` finds
pub values-get :
    (d : Dict ℕ) (r : ℕ) → Once d → member r (values d) ≡ true → (k : Text) × (get k d ≡ some r)
unfolding member
values-get [] r h e = absurd (ground arith)
values-get ((j, v) ∷ d) r h e = elim (Bool-cases (v == r)) [
  | inl same ↦ (j, get-head j v d ∙ ap some ((==_iff v r).0 same))
  | inr other ↦
      let (k, found) = values-get d r h.1 (ground arith) in (k, get-tail j k v r d h.0 found)
]

abbrev pub IsInjective : Dict ℕ → Type 0
IsInjective d = (k j : Text) (r : ℕ) → get k d ≡ some r → get j d ≡ some r → k ≡ j

IsInjective-tail :
    (j : Text) (v : ℕ) (d : Dict ℕ) → get j d ≡ none → IsInjective ((j, v) ∷ d) → IsInjective d
IsInjective-tail j v d gone h k i r e f =
    h k i r (get-tail j k v r d gone e) (get-tail j i v r d gone f)

-- where a value has one key, no value is listed twice
pub values-Distinct : (d : Dict ℕ) → Once d → IsInjective d → Distinct (values d)
values-Distinct [] h inj = tt
values-Distinct ((j, v) ∷ d) h inj = (fresh, values-Distinct d h.1 (IsInjective-tail j v d h.0 inj))
  where
    clash : (k : Text) → get k d ≡ some v → ⊥
    clash k found =
        cc (ap (λ t. get t d) (inj k j v (get-tail j k v v d h.0 found) (get-head j v d)), h.0)

    fresh : member v (values d) ≡ false
    fresh = elim (Bool-cases (member v (values d))) [
      | inl there ↦ let (k, found) = values-get d v h.1 there in absurd (clash k found)
      | inr gone ↦ gone
    ]

module _ {ℓ} {V : Type ℓ} where
  pub get-put_same : (k : Text) (v : V) (d : Dict V) → get k (put k v d) ≡ some v
  get-put_same k v d = get-put k k v d ∙ ground (arith, text_eq_iff k k)

  pub get-put_other :
      (k j : Text) (v : V) (d : Dict V) → text_eq k j ≡ false → get j (put k v d) ≡ get j d
  get-put_other k j v d ne = get-put k j v d ∙ ground arith

  pub get-pop_same : (k : Text) (d : Dict V) → get k (pop k d) ≡ none
  get-pop_same k d = get-pop k k d ∙ ground (arith, text_eq_iff k k)

  pub get-pop_other : (k j : Text) (d : Dict V) → text_eq k j ≡ false → get j (pop k d) ≡ get j d
  get-pop_other k j d ne = get-pop k j d ∙ ground arith
