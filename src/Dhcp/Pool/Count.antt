-- ===== src/Dhcp/Pool/Count.antt =====
-- `available_count` against the addresses that `available_addresses` lists.
use sentinel_dns.Common.{
  ℕ, zero, suc, ◌+◌, ◌-◌, ◌≤◌, ◌<◌, ◌≡◌, refl, ap, ◌∙◌, Bool, true, false, ◌||◌, List, [], ◌∷◌, map,
  arith, ◌==◌, member, Distinct, if◌then◌else◌, length,
}
use sentinel_dns.Ipv4
use sentinel_dns.Dhcp.Pool.{Pool, in_range, free_from, available_count, available_addresses}
use sentinel_dns.Dhcp.Pool.Valid.{IsValid}

-- how many of the `n` numbers from `c` pass the test
count_if : ℕ → ℕ → (ℕ → Bool) → ℕ
count_if zero c f = 0
count_if (suc n) c f = (if f c then 1 else 0) + count_if n (c + 1) f

count_if-or :
    (n c : ℕ) (f g : ℕ → Bool)
    → ((i : ℕ) → f i ≡ true → g i ≡ false)
    → count_if n c (λ i. f i || g i) ≡ count_if n c f + count_if n c g
unfolding count_if
count_if-or zero c f g h = omega arith
count_if-or (suc n) c f g h = ground (arith, h c, count_if-or n (c + 1) f g h)

count_if_above : (n c x : ℕ) → x < c → count_if n c (λ i. x == i) ≡ 0
unfolding count_if
count_if_above zero c x h = refl
count_if_above (suc n) c x h = ground (arith, count_if_above n (c + 1) x)

count_if_single : (n c x : ℕ) → c ≤ x → x < c + n → count_if n c (λ i. x == i) ≡ 1
unfolding count_if
count_if_single zero c x lo hi = absurd (omega arith)
count_if_single (suc n) c x lo hi =
    ground (arith, count_if_single n (c + 1) x, count_if_above n (c + 1) x)

count_if_never : (n c : ℕ) → count_if n c (λ i. false) ≡ 0
unfolding count_if
count_if_never zero c = refl
count_if_never (suc n) c = omega (arith, count_if_never n (c + 1))

-- a set within the range has as many elements as the range has numbers of it
count_if-member :
    (n c : ℕ) (xs : List ℕ)
    → Distinct xs
    → ((a : ℕ) → member a xs ≡ true → (c ≤ a) × (a < c + n))
    → count_if n c (λ a. member a xs) ≡ length xs
unfolding member
count_if-member n c [] d h = count_if_never n c
count_if-member n c (x ∷ xs) d h =
    let here = h x (ground arith) in
    count_if-or n c (λ i. x == i) (λ i. member i xs) (λ i e. ground (arith, d.0))
    ∙ omega (
      arith,
      count_if_single n c x here.0 here.1,
      count_if-member n c xs d.1 (λ a m. h a (ground arith)),
    )

taken : Pool → ℕ → Bool
taken p a = member a p.allocated || member a p.reserved

length-free_from : (n c : ℕ) (p : Pool) → length (free_from n c p) + count_if n c (taken p) ≡ n
unfolding free_from count_if taken
length-free_from zero c p = omega arith
length-free_from (suc n) c p = ground (arith, length-free_from n (c + 1) p)

length-map {ℓ κ} :
    {A : Type ℓ} {B : Type κ} (f : A → B) (xs : List A) → length (map f xs) ≡ length xs
length-map f [] = refl
length-map f (x ∷ xs) = ap suc (length-map f xs)

in_range_bounds :
    (p : Pool) (a : ℕ)
    → p.start ≤ p.end
    → in_range p a ≡ true
    → (p.start ≤ a) × (a < p.start + (p.end + 1 - p.start))
in_range_bounds p a o h = ground arith

-- On a valid pool the arithmetic of `available_count` counts the addresses that
-- `available_addresses` lists.
pub available_count-length :
    (p : Pool) → IsValid p → available_count p ≡ length (available_addresses p)
unfolding available_count available_addresses taken
available_count-length p v =
    let n = p.end + 1 - p.start in
    omega (
      arith,
      length-map Ipv4.format (free_from n p.start p),
      length-free_from n p.start p,
      count_if-or n p.start (λ a. member a p.allocated) (λ a. member a p.reserved) v.apart,
      count_if-member n p.start p.allocated v.allocated_once
          (λ a m. in_range_bounds p a v.ordered (v.allocated_within a m)),
      count_if-member n p.start p.reserved v.reserved_once
          (λ a m. in_range_bounds p a v.ordered (v.reserved_within a m)),
    )
