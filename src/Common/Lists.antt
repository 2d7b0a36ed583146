-- ===== src/Common/Lists.antt =====
-- Lists measured by native numbers, under the library's names, and sets of numbers.
use Prim.Native.Nat.{ℕ, zero, suc, ◌+◌, ◌-◌, min}
use mathlib.Core.Path.{◌≡◌, refl, ap}
use mathlib.Core.Bool.{Bool, true, false, ◌||◌}
use mathlib.Core.List.{List, [], ◌∷◌, ◌++◌}
use native.Mathlib.Omega.{arith}
use sentinel_dns.Common.Tests.{◌==◌, if◌then◌else◌}

module _ {ℓ} {A : Type ℓ} where
  abbrev pub length : List A → ℕ
  length [] = 0
  length (x ∷ xs) = suc (length xs)

  abbrev pub take : ℕ → List A → List A
  take zero xs = []
  take (suc n) [] = []
  take (suc n) (x ∷ xs) = x ∷ take n xs

  abbrev pub drop : ℕ → List A → List A
  drop zero xs = xs
  drop (suc n) [] = []
  drop (suc n) (x ∷ xs) = drop n xs

  abbrev pub replicate : ℕ → A → List A
  replicate zero a = []
  replicate (suc n) a = a ∷ replicate n a

  pub drop-nil : (n : ℕ) → drop n [] ≡ []
  drop-nil zero = refl
  drop-nil (suc n) = refl

  pub length-append : (xs ys : List A) → length (xs ++ ys) ≡ length xs + length ys
  length-append [] ys = omega arith
  length-append (x ∷ xs) ys = omega (arith, length-append xs ys)

  pub length-drop : (n : ℕ) (xs : List A) → length (drop n xs) ≡ length xs - n
  length-drop zero xs = omega arith
  length-drop (suc n) [] = omega arith
  length-drop (suc n) (x ∷ xs) = omega (arith, length-drop n xs)

  pub length-take : (n : ℕ) (xs : List A) → length (take n xs) ≡ min n (length xs)
  length-take zero xs = omega arith
  length-take (suc n) [] = omega arith
  length-take (suc n) (x ∷ xs) = omega (arith, length-take n xs)

  pub take-append : (xs ys : List A) → take (length xs) (xs ++ ys) ≡ xs
  take-append [] ys = refl
  take-append (x ∷ xs) ys = ap (◌∷◌ x) (take-append xs ys)

  pub drop-append : (xs ys : List A) → drop (length xs) (xs ++ ys) ≡ ys
  drop-append [] ys = refl
  drop-append (x ∷ xs) ys = drop-append xs ys

-- Python's `set` of integers: its elements in the order of insertion.
unfoldable pub member : ℕ → List ℕ → Bool
member a [] = false
member a (x ∷ xs) = x == a || member a xs

unfoldable pub add : ℕ → List ℕ → List ℕ
unfolding member
add a xs = if member a xs then xs else xs ++ a ∷ []

-- `discard`, and `remove` where the element is there
unfoldable pub discard : ℕ → List ℕ → List ℕ
discard a [] = []
discard a (x ∷ xs) = let rest = discard a xs in if x == a then rest else x ∷ rest

member-append : (a : ℕ) (xs ys : List ℕ) → member a (xs ++ ys) ≡ (member a xs || member a ys)
unfolding member
member-append a [] ys = refl
member-append a (x ∷ xs) ys = ground (arith, member-append a xs ys)

pub member-add : (a b : ℕ) (xs : List ℕ) → member a (add b xs) ≡ (b == a || member a xs)
unfolding add member
member-add a b xs = ground (arith, member-append a xs (b ∷ []))

pub member-discard :
    (a b : ℕ) (xs : List ℕ) → member a (discard b xs) ≡ (if b == a then false else member a xs)
unfolding discard member
member-discard a b [] = ground arith
member-discard a b (x ∷ xs) = ground (arith, member-discard a b xs)

-- no element twice
abbrev pub Distinct : List ℕ → Type 0
Distinct [] = Unit
Distinct (x ∷ xs) = (member x xs ≡ false) × Distinct xs

Distinct-snoc : (a : ℕ) (xs : List ℕ) → member a xs ≡ false → Distinct xs → Distinct (xs ++ a ∷ [])
unfolding member
Distinct-snoc a [] h d = (refl, tt)
Distinct-snoc a (x ∷ xs) h d =
    (ground (arith, member-append x xs (a ∷ [])), Distinct-snoc a xs (ground arith) d.1)

pub Distinct-add : (a : ℕ) (xs : List ℕ) → Distinct xs → Distinct (add a xs)
unfolding add
Distinct-add a xs d = ground (arith, Distinct-snoc a xs)

pub Distinct-discard : (a : ℕ) (xs : List ℕ) → Distinct xs → Distinct (discard a xs)
unfolding discard
Distinct-discard a [] d = tt
Distinct-discard a (x ∷ xs) d = ground (arith, Distinct-discard a xs d.1, member-discard x a xs)

pub length-add : (a : ℕ) (xs : List ℕ) → member a xs ≡ false → length (add a xs) ≡ suc (length xs)
unfolding add
length-add a xs h = ground (arith, length-append xs (a ∷ []))

length-discard_absent : (a : ℕ) (xs : List ℕ) → member a xs ≡ false → discard a xs ≡ xs
unfolding discard member
length-discard_absent a [] h = refl
length-discard_absent a (x ∷ xs) h = ground (arith, length-discard_absent a xs)

pub length-discard :
    (a : ℕ) (xs : List ℕ)
    → Distinct xs
    → member a xs ≡ true
    → suc (length (discard a xs)) ≡ length xs
unfolding discard member
length-discard a [] d h = ground arith
length-discard a (x ∷ xs) d h = ground (arith, length-discard a xs d.1, length-discard_absent a xs)

-- a slice that starts behind the first list
module _ {ℓ} {A : Type ℓ} where
  pub drop-append_add :
      (xs ys : List A) (n k : ℕ) → length xs + k ≡ n → drop n (xs ++ ys) ≡ drop k ys
  drop-append_add [] ys n k h = ap (λ j. drop j ys) (omega arith)
  drop-append_add (x ∷ xs) ys zero k h = absurd (omega arith)
  drop-append_add (x ∷ xs) ys (suc n) k h = drop-append_add xs ys n k (omega arith)

  pub take-append_eq : (xs ys : List A) (n : ℕ) → length xs ≡ n → take n (xs ++ ys) ≡ xs
  take-append_eq [] ys zero h = refl
  take-append_eq [] ys (suc n) h = absurd (omega arith)
  take-append_eq (x ∷ xs) ys zero h = absurd (omega arith)
  take-append_eq (x ∷ xs) ys (suc n) h = ap (◌∷◌ x) (take-append_eq xs ys n (omega arith))
