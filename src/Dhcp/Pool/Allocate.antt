-- ===== src/Dhcp/Pool/Allocate.antt =====
-- Which address `allocate` and `allocate_specific` give, and when they raise.
use sentinel_dns.Common.{
  ℕ, zero, suc, ◌+◌, ◌-◌, ◌≤◌, ◌<◌, ◌≡◌, ap, ◌∙◌, ◌⊎◌, inl, inr, Bool, true, false, not, ◌&&◌, ◌||◌,
  List, [], ◌∷◌, ◌++◌, none, some, arith, Text, member, add, discard, if◌then◌else◌, Option-cases,
}
use sentinel_dns.Common.Exec.{Error, ok, err, pool_error, pool_exhausted}
use sentinel_dns.Ipv4
use sentinel_dns.Ipv4.{max_address}
use sentinel_dns.Ipv4.RoundTrip.{parse-format, strip-format}
use sentinel_dns.Dhcp.Pool.{
  Pool, or_pool_error, parse_ipv4, allocate, allocate_specific, release, first_free, in_range,
  is_free,
}
use sentinel_dns.Dhcp.Pool.Valid.{IsValid, first_free-IsFree}

-- allocated or reserved
abbrev pub unavailable : Pool → ℕ → Bool
unavailable p a = member a p.allocated || member a p.reserved

-- every address from `lo` up to, but not including, `hi` is allocated or reserved
abbrev pub AllTaken : Pool → ℕ → ℕ → Type 0
AllTaken p lo hi = (b : ℕ) → lo ≤ b → b < hi → unavailable p b ≡ true

first_free_below :
    (rounds current : ℕ) (p : Pool) (a b : ℕ)
    → first_free rounds current p ≡ some a
    → current ≤ b
    → b < a
    → is_free p b ≡ false
unfolding first_free
first_free_below zero current p a b h lo hi = cc
first_free_below (suc rounds) current p a b h lo hi =
    ground (arith, first_free_below rounds (current + 1) p a b)

first_free-none :
    (rounds current : ℕ) (p : Pool) (b : ℕ)
    → first_free rounds current p ≡ none
    → current ≤ b
    → b < current + rounds
    → is_free p b ≡ false
unfolding first_free
first_free-none zero current p b h lo hi = absurd (omega arith)
first_free-none (suc rounds) current p b h lo hi =
    ground (arith, first_free-none rounds (current + 1) p b)

-- what `allocate` does when it gives the address `a`
pub record Gives (p : Pool) (a : ℕ) : Type 0 where
  pub within : in_range p a ≡ true
  pub free : unavailable p a ≡ false
  pub lowest : AllTaken p p.start a
  pub result : allocate p ≡ (ok (Ipv4.format a), record p { allocated = p.allocated ++ a ∷ [] })

-- what `allocate` does on a full pool
pub record IsExhausted (p : Pool) : Type 0 where
  pub full : AllTaken p p.start (p.end + 1)
  pub result : allocate p ≡ (err pool_exhausted, p)

-- `allocate` gives the lowest free address of the range and records it, or raises on a pool with no
-- free address and changes nothing.
pub allocate_lem : (p : Pool) → ((a : ℕ) × Gives p a) ⊎ IsExhausted p
unfolding allocate add
allocate_lem p = elim (Option-cases (first_free (p.end + 1 - p.start) p.start p)) [
  | inl e ↦ inr (record {
    full = λ b lo hi.
        let k = first_free-none (p.end + 1 - p.start) p.start p b e lo (omega arith) in
        ground arith;
    result = rw (e, allocate);
  })
  | inr (a, e) ↦
      let found = first_free-IsFree _ _ p a e in
      inl (
        a,
        record {
          within = ground (arith, found);
          free = ground (arith, found);
          lowest = λ b lo hi.
              let k = first_free_below (p.end + 1 - p.start) p.start p a b e lo hi in ground arith;
          result = rw (e, allocate) (ground (arith, found));
        },
      )
]

pub parse_ipv4-format : (a : ℕ) → a < max_address → parse_ipv4 (Ipv4.format a) ≡ ok a
unfolding parse_ipv4
parse_ipv4-format a h = ap or_pool_error (ap Ipv4.parse (strip-format a) ∙ parse-format a h)

-- A requested address is given exactly when it lies in the range and is free; otherwise the call
-- raises and changes nothing.
pub allocate_specific_lem :
    (t : Text) (a : ℕ) (p : Pool)
    → parse_ipv4 t ≡ ok a
    → allocate_specific t p ≡ (
        if in_range p a && not (unavailable p a)
        then (ok (Ipv4.format a), record p { allocated = p.allocated ++ a ∷ [] })
        else (err pool_error, p))
unfolding allocate_specific add
allocate_specific_lem t a p h = ground arith

-- A text that is no address is refused, and changes nothing.
pub allocate_specific_bad :
    (t : Text) (e : Error) (p : Pool) → parse_ipv4 t ≡ err e → allocate_specific t p ≡ (err e, p)
unfolding allocate_specific
allocate_specific_bad t e p h = ground arith

discard-snoc : (a : ℕ) (xs : List ℕ) → member a xs ≡ false → discard a (xs ++ a ∷ []) ≡ xs
unfolding discard member
discard-snoc a [] h = ground arith
discard-snoc a (x ∷ xs) h = ground (arith, discard-snoc a xs)

member-snoc : (a : ℕ) (xs : List ℕ) → member a (xs ++ a ∷ []) ≡ true
unfolding member
member-snoc a [] = ground arith
member-snoc a (x ∷ xs) = ground (arith, member-snoc a xs)

-- Releasing the address that a call of `allocate` gave restores the pool that the call found.
pub release-allocate :
    (p q : Pool) (t : Text) → IsValid p → allocate p ≡ (ok t, q) → release t q ≡ (ok true, p)
unfolding release
release-allocate p q t v e = elim (allocate_lem p) [
  | inr x ↦ absurd (ground (arith, x.result))
  | inl (a, g) ↦
      let bound : a < max_address = ground (arith, g.within, v.bounded) in
      ground (
        arith,
        g.result,
        g.free,
        parse_ipv4-format a bound,
        discard-snoc a p.allocated,
        member-snoc a p.allocated,
      )
]

-- An allocated address is released; releasing another changes nothing.
pub release_lem :
    (a : ℕ) (p : Pool)
    → a < max_address
    → release (Ipv4.format a) p ≡ (
        if member a p.allocated
        then (ok true, record p { allocated = discard a p.allocated })
        else (ok false, p))
unfolding release
release_lem a p h = ground (arith, parse_ipv4-format a h)
