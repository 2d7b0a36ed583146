-- ===== src/Dhcp/Pool.antt =====
-- `DHCPAddressPool` of dhcp/pool.py. An address is its integer, and a set of addresses is the list
-- of its elements in the order of insertion. Every method runs under the pool's lock from its first
-- access to its last, so a call is one step.
pub mod Valid
pub mod Allocate
pub mod Count
mod Tests
use sentinel_dns.Common.{
  ℕ, zero, suc, ◌+◌, ◌-◌, ◌≡◌, refl, Bool, true, false, not, ◌&&◌, ◌||◌, Option, none, some, List,
  [], ◌∷◌, map, Text, codes, leb, ltb, ◌==◌, length, member, add, discard, if◌then◌else◌,
}
use sentinel_dns.Common.Exec.{
  Error, pool_error, pool_exhausted, Result, ok, err, and_then, Exec, pure, raise, lift, gets,
  modify, ◌>>=◌, ◌>>◌,
}
use sentinel_dns.Text.{strip}
use sentinel_dns.Ipv4

pub record Pool : Type 0 where
  pub start : ℕ
  pub end : ℕ
  pub allocated : List ℕ
  pub reserved : List ℕ

-- the `except ValueError` of `_parse_ipv4`
abbrev pub or_pool_error : Option ℕ → Result ℕ
or_pool_error none = err pool_error
or_pool_error (some ip) = ok ip

-- `_parse_ipv4`
unfoldable pub parse_ipv4 : Text → Result ℕ
parse_ipv4 address = or_pool_error (Ipv4.parse (strip address))

-- `__init__`
unfoldable pub init : Text → Text → Result Pool
init start end = and_then (parse_ipv4 start) λ s. and_then (parse_ipv4 end) λ e.
    if ltb e s
    then err pool_error
    else ok (record { start = s; end = e; allocated = []; reserved = [] })

-- the test `int(self.start) <= int(ip) <= int(self.end)`
abbrev pub in_range : Pool → ℕ → Bool
in_range p ip = leb p.start ip && leb ip p.end

-- the test of the allocation loops
abbrev pub is_free : Pool → ℕ → Bool
is_free p ip = not (member ip p.allocated) && not (member ip p.reserved)

pub contains : Text → Exec Pool Bool
unfolding ◌>>=◌
contains address = do ip ← lift (parse_ipv4 address); gets (λ p. in_range p ip)

unfoldable pub reserve : Text → Exec Pool (Unit {0})
unfolding contains ◌>>=◌
reserve address = do
  ip ← lift (parse_ipv4 address)
  inside ← contains address
  if not inside then raise pool_error else do
    taken ← gets (λ p. member ip p.allocated)
    if taken then raise pool_error else modify (λ p. record p { reserved = add ip p.reserved })

unfoldable pub unreserve : Text → Exec Pool (Unit {0})
unfolding ◌>>=◌
unreserve address = do
  ip ← lift (parse_ipv4 address)
  modify (λ p. record p { reserved = discard ip p.reserved })

pub is_reserved : Text → Exec Pool Bool
unfolding ◌>>=◌
is_reserved address = do ip ← lift (parse_ipv4 address); gets (λ p. member ip p.reserved)

pub is_allocated : Text → Exec Pool Bool
unfolding ◌>>=◌
is_allocated address = do ip ← lift (parse_ipv4 address); gets (λ p. member ip p.allocated)

-- The loop of `allocate`: `rounds` counts the addresses from `current` to the end of the range.
unfoldable pub first_free : ℕ → ℕ → Pool → Option ℕ
first_free zero current p = none
first_free (suc rounds) current p =
    let rest = first_free rounds (current + 1) p in if is_free p current then some current else rest

unfoldable pub allocate : Exec Pool Text
allocate p = elim (first_free (p.end + 1 - p.start) p.start p) [
  | none ↦ (err pool_exhausted, p)
  | some ip ↦ (ok (Ipv4.format ip), record p { allocated = add ip p.allocated })
]

unfoldable pub allocate_specific : Text → Exec Pool Text
unfolding contains ◌>>=◌
allocate_specific address = do
  ip ← lift (parse_ipv4 address)
  inside ← contains address
  if not inside then raise pool_error else do
    held_back ← gets (λ p. member ip p.reserved)
    if held_back then raise pool_error else do
      taken ← gets (λ p. member ip p.allocated)
      if taken
          then raise pool_error
          else do modify (λ p. record p { allocated = add ip p.allocated }); pure (Ipv4.format ip)

unfoldable pub release : Text → Exec Pool Bool
unfolding ◌>>=◌
release address = do
  ip ← lift (parse_ipv4 address)
  taken ← gets (λ p. member ip p.allocated)
  if not taken
      then pure false
      else do modify (λ p. record p { allocated = discard ip p.allocated }); pure true

-- `max(0, total - unavailable)`: the subtraction on ℕ stops at 0
unfoldable pub available_count : Pool → ℕ
available_count p = (p.end + 1 - p.start) - (length p.allocated + length p.reserved)

-- The loop of `available_addresses`.
unfoldable pub free_from : ℕ → ℕ → Pool → List ℕ
free_from zero current p = []
free_from (suc rounds) current p =
    let rest = free_from rounds (current + 1) p in
    if is_free p current then current ∷ rest else rest

unfoldable pub available_addresses : Pool → List Text
available_addresses p = map Ipv4.format (free_from (p.end + 1 - p.start) p.start p)

pub allocated_count : Pool → ℕ
allocated_count p = length p.allocated

pub reserved_count : Pool → ℕ
reserved_count p = length p.reserved

-- `sorted(…, key=int)`
insert_sorted : ℕ → List ℕ → List ℕ
insert_sorted a [] = a ∷ []
insert_sorted a (b ∷ bs) = if leb a b then a ∷ b ∷ bs else b ∷ insert_sorted a bs

pub sorted : List ℕ → List ℕ
unfolding insert_sorted
sorted [] = []
sorted (a ∷ as') = insert_sorted a (sorted as')

pub allocated_addresses : Pool → List Text
unfolding sorted
allocated_addresses p = map Ipv4.format (sorted p.allocated)

pub reserved_addresses : Pool → List Text
unfolding sorted
reserved_addresses p = map Ipv4.format (sorted p.reserved)
