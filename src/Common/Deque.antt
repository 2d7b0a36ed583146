-- ===== src/Common/Deque.antt =====
-- Python's `deque(maxlen=…)`, and the slice `xs[-n:]`: the entries at the end.
use Prim.Native.Nat.{ℕ, zero, suc, ◌+◌, ◌-◌, ◌≤◌, min}
use mathlib.Core.Path.{◌≡◌, refl, sym, ap, ◌∙◌}
use mathlib.Core.List.{List, [], ◌∷◌, ◌++◌}
use native.Mathlib.Omega.{arith}
use sentinel_dns.Common.Lists.{length, drop, drop-nil, length-append, length-drop}

module _ {ℓ} {A : Type ℓ} where
  -- xs[-n:], for n above 0
  unfoldable pub last : ℕ → List A → List A
  last n xs = drop (length xs - n) xs

  -- d.append(a)
  unfoldable pub push : ℕ → A → List A → List A
  unfolding last
  push limit a xs = last limit (xs ++ a ∷ [])

  pub length-last : (n : ℕ) (xs : List A) → length (last n xs) ≤ n
  unfolding last
  length-last n xs = omega (arith, length-drop (length xs - n) xs)

  pub last_all : (n : ℕ) (xs : List A) → length xs ≤ n → last n xs ≡ xs
  unfolding last
  last_all n xs h = ap (λ k. drop k xs) (zero_of (length xs) n h)
    where
      zero_of : (a b : ℕ) → a ≤ b → a - b ≡ 0
      zero_of a b h = omega arith

  drop-drop-append : (k : ℕ) (xs ys : List A) → k ≤ length xs → drop k xs ++ ys ≡ drop k (xs ++ ys)
  drop-drop-append zero xs ys h = refl
  drop-drop-append (suc k) [] ys h = absurd (omega arith)
  drop-drop-append (suc k) (x ∷ xs) ys h = drop-drop-append k xs ys (omega arith)

  drop_add : (j k : ℕ) (xs : List A) → drop j (drop k xs) ≡ drop (k + j) xs
  drop_add j zero xs = let e : j ≡ zero + j = omega arith in ap (λ i. drop i xs) e
  drop_add j (suc k) [] = drop-nil j ∙ sym (drop-nil (suc k + j))
  drop_add j (suc k) (x ∷ xs) =
      let e : suc (k + j) ≡ suc k + j = omega arith in drop_add j k xs ∙ ap (λ i. drop i (x ∷ xs)) e

  -- what a bound forgot is not missed by the same bound later
  pub last-append_last : (n : ℕ) (xs ys : List A) → last n (last n xs ++ ys) ≡ last n (xs ++ ys)
  unfolding last
  last-append_last n xs ys =
      ap (λ zs. drop (length zs - n) zs) (drop-drop-append (length xs - n) xs ys (omega arith))
      ∙ drop_add _ (length xs - n) (xs ++ ys)
      ∙ ap (λ k. drop k (xs ++ ys))
          (omega (arith, length-append xs ys, length-drop (length xs - n) (xs ++ ys)))

  -- entries that fill the bound hide those before them
  pub last-append_full : (n : ℕ) (xs ys : List A) → n ≤ length ys → last n (xs ++ ys) ≡ last n ys
  unfolding last
  last-append_full n [] ys h = refl
  last-append_full n (x ∷ xs) ys h =
      ap (λ k. drop k (x ∷ (xs ++ ys)))
        (step (length (xs ++ ys)) n (omega (arith, length-append xs ys)))
      ∙ last-append_full n xs ys h
    where
      step : (a b : ℕ) → b ≤ a → suc a - b ≡ suc (a - b)
      step a b h = omega arith

  pub length-push :
      (limit : ℕ) (a : A) (xs : List A) → length (push limit a xs) ≡ min limit (suc (length xs))
  unfolding push last
  length-push limit a xs =
      omega (
        arith,
        length-append xs (a ∷ []),
        length-drop (length (xs ++ a ∷ []) - limit) (xs ++ a ∷ []),
      )

  pub last-append_snoc :
      (n : ℕ) (a : A) (xs : List A) → last (suc n) (xs ++ a ∷ []) ≡ last n xs ++ a ∷ []
  unfolding last
  last-append_snoc n a xs =
      let e : length (xs ++ a ∷ []) - suc n ≡ length xs - n =
        omega (arith, length-append xs (a ∷ [])) in
      ap (λ k. drop k (xs ++ a ∷ [])) e
      ∙ sym (drop-drop-append (length xs - n) xs (a ∷ []) (omega arith))

  pub last-last : (k n : ℕ) (xs : List A) → k ≤ n → last k (last n xs) ≡ last k xs
  unfolding last
  last-last k n xs h =
      let e : length xs - n + (length (drop (length xs - n) xs) - k) ≡ length xs - k =
        omega (arith, length-drop (length xs - n) xs) in
      drop_add (length (drop (length xs - n) xs) - k) (length xs - n) xs ∙ ap (λ j. drop j xs) e
