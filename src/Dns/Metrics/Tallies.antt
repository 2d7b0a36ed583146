-- ===== src/Dns/Metrics/Tallies.antt =====
-- How often a second is in a list, for the buckets of dns_engine/metrics.py.
use sentinel_dns.Common.{
  ℕ, zero, suc, ◌+◌, ◌-◌, ◌≤◌, ◌<◌, ◌≡◌, refl, sym, ap, ◌∙◌, List, [], ◌∷◌, ◌++◌, arith, ◌==◌,
  length, drop, drop-nil, if◌then◌else◌,
}
use sentinel_dns.Common.Deque.{last}
use sentinel_dns.Dns.Metrics.History.{zeros}

-- how often a second is in the list
unfoldable pub count : ℕ → List ℕ → ℕ
count s [] = 0
count s (t ∷ ts) = let rest = count s ts in if t == s then rest + 1 else rest

-- that of each of `n` seconds in a row, from the second `s` on
unfoldable pub per_second : ℕ → ℕ → List ℕ → List ℕ
unfolding count
per_second s zero ts = []
per_second s (suc n) ts = count s ts ∷ per_second (suc s) n ts

-- no second is later
abbrev pub AreUntil : ℕ → List ℕ → Type 0
AreUntil b [] = Unit
AreUntil b (t ∷ ts) = (t ≤ b) × AreUntil b ts

pub AreUntil-later : (b c : ℕ) (ts : List ℕ) → b ≤ c → AreUntil b ts → AreUntil c ts
AreUntil-later b c [] h k = tt
AreUntil-later b c (t ∷ ts) h k = (omega (arith, k.0), AreUntil-later b c ts h k.1)

pub AreUntil-snoc : (b : ℕ) (ts : List ℕ) → AreUntil b ts → AreUntil b (ts ++ b ∷ [])
AreUntil-snoc b [] h = (omega arith, tt)
AreUntil-snoc b (t ∷ ts) h = (h.0, AreUntil-snoc b ts h.1)

count_later : (b s : ℕ) (ts : List ℕ) → b < s → AreUntil b ts → count s ts ≡ 0
unfolding count
count_later b s [] h k = refl
count_later b s (t ∷ ts) h k = ground (arith, count_later b s ts h k.1, k.0)

per_second_later : (b s n : ℕ) (ts : List ℕ) → b < s → AreUntil b ts → per_second s n ts ≡ zeros n
unfolding per_second
per_second_later b s zero ts h k = refl
per_second_later b s (suc n) ts h k =
    rw (count_later b s ts h k) (ap (◌∷◌ 0) (per_second_later b (suc s) n ts (omega arith) k))

pub per_second-zeros :
    (b s n k : ℕ) (ts : List ℕ)
    → b < s + n
    → AreUntil b ts
    → per_second s n ts ++ zeros k ≡ per_second s (n + k) ts
unfolding per_second
per_second-zeros b s zero k ts h u =
    let e : k ≡ zero + k = omega arith in
    sym (per_second_later b s k ts (omega arith) u) ∙ ap (λ i. per_second s i ts) e
per_second-zeros b s (suc n) k ts h u =
    let e : suc (n + k) ≡ suc n + k = omega arith in
    ap (◌∷◌ (count s ts)) (per_second-zeros b (suc s) n k ts (omega arith) u)
    ∙ ap (λ i. per_second s i ts) e

-- one more in the last of the seconds
pub bump : List ℕ → List ℕ
bump [] = []
bump (x ∷ []) = (x + 1) ∷ []
bump (x ∷ y ∷ ys) = x ∷ bump (y ∷ ys)

pub bump-snoc : (xs : List ℕ) (c : ℕ) → bump (xs ++ c ∷ []) ≡ xs ++ (c + 1) ∷ []
unfolding bump
bump-snoc [] c = refl
bump-snoc (x ∷ []) c = refl
bump-snoc (x ∷ y ∷ ys) c = ap (◌∷◌ x) (bump-snoc (y ∷ ys) c)

length-bump : (xs : List ℕ) → length (bump xs) ≡ length xs
unfolding bump
length-bump [] = refl
length-bump (x ∷ []) = refl
length-bump (x ∷ y ∷ ys) = ap suc (length-bump (y ∷ ys))

drop-bump : (k : ℕ) (xs : List ℕ) → drop k (bump xs) ≡ bump (drop k xs)
unfolding bump
drop-bump zero xs = refl
drop-bump (suc k) [] = refl
drop-bump (suc k) (x ∷ []) = drop-nil k ∙ sym (ap (λ z. bump z) (drop-nil k))
drop-bump (suc k) (x ∷ y ∷ ys) = drop-bump k (y ∷ ys)

pub last-bump : (n : ℕ) (xs : List ℕ) → last n (bump xs) ≡ bump (last n xs)
unfolding last
last-bump n xs = ap (λ k. drop (k - n) (bump xs)) (length-bump xs) ∙ drop-bump (length xs - n) xs

count-snoc :
    (s t : ℕ) (ts : List ℕ)
    → count s (ts ++ t ∷ []) ≡ (if t == s then count s ts + 1 else count s ts)
unfolding count
count-snoc s t [] = ground arith
count-snoc s t (u ∷ ts) = ground (arith, count-snoc s t ts)

pub per_second-snoc :
    (s n : ℕ) (ts : List ℕ)
    → per_second s (suc n) (ts ++ (s + n) ∷ []) ≡ bump (per_second s (suc n) ts)
unfolding per_second bump
per_second-snoc s zero ts = ap (λ c. c ∷ []) (count-snoc s (s + 0) ts ∙ ground arith)
per_second-snoc s (suc n) ts =
    let e : s + suc n ≡ suc s + n = omega arith in
    let other : count s (ts ++ (s + suc n) ∷ []) ≡ count s ts =
      count-snoc s (s + suc n) ts ∙ ground arith in
    rw other (
      ap (λ t. count s ts ∷ per_second (suc s) (suc n) (ts ++ t ∷ [])) e
      ∙ ap (◌∷◌ (count s ts)) (per_second-snoc (suc s) n ts))
