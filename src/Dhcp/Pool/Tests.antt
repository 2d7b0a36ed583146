-- ===== src/Dhcp/Pool/Tests.antt =====
-- Runs of the pool, and its theorems at concrete inputs.
use sentinel_dns.Common.{ℕ, ◌≡◌, ◌⊎◌, refl, true, [], ◌∷◌, Text, codes, member, add, discard}
use sentinel_dns.Common.Exec.{ok, err, pool_error}
use sentinel_dns.Text.{split, strip}
use sentinel_dns.Ipv4
use sentinel_dns.Dhcp.Pool
use sentinel_dns.Dhcp.Pool.{
  Pool, parse_ipv4, init, reserve, allocate, allocate_specific, release, in_range, is_free,
}
use sentinel_dns.Dhcp.Pool.Valid
use sentinel_dns.Dhcp.Pool.Valid.{IsValid}
use sentinel_dns.Dhcp.Pool.Allocate.{Gives, IsExhausted, allocate_lem}

abbrev start : Text
start = codes "192.168.1.100"

abbrev end : Text
end = codes " 192.168.1.102 "

abbrev three : Pool
three = record { start = 3232235876; end = 3232235878; allocated = []; reserved = [] }

-- opens everything that a run computes with
evaluated : Unit {0}
unfolding init parse_ipv4 reserve allocate allocate_specific release Pool.first_free Pool.free_from
    Pool.available_count Pool.available_addresses Ipv4.parse Ipv4.parse_octet Ipv4.format split
    strip member add discard
evaluated = tt

made : init start end ≡ ok three
unfolding evaluated
made = refl

reversed : init end start ≡ err pool_error
unfolding evaluated
reversed = refl

-- one address reserved, one allocated
abbrev two_left : Pool
two_left = record three { allocated = 3232235876 ∷ []; reserved = 3232235878 ∷ [] }

runs :
    (reserve (codes "192.168.1.102") three ≡ (ok tt, record three { reserved = 3232235878 ∷ [] }))
    × (allocate (record three { reserved = 3232235878 ∷ [] }) ≡ (ok start, two_left))
    × (release start two_left ≡ (ok true, record two_left { allocated = [] }))
    × (reserve start two_left ≡ (err pool_error, two_left))
    × (Pool.available_addresses two_left ≡ codes "192.168.1.101" ∷ [])
unfolding evaluated
runs = (refl, refl, refl, refl, refl)

three-IsValid : IsValid three
three-IsValid = (Valid.init-IsValid start end three made).0

-- `run-IsValid`, at a reservation and two allocations
two_left-IsValid : IsValid two_left
unfolding evaluated
two_left-IsValid =
    Valid.allocate-IsValid (record three { reserved = 3232235878 ∷ [] })
      (Valid.reserve-IsValid (codes "192.168.1.102") three three-IsValid)

init-IsValid_example : IsValid three × (three.allocated ≡ []) × (three.reserved ≡ [])
init-IsValid_example = Valid.init-IsValid start end three made

allocate_lem_example : ((a : ℕ) × Gives two_left a) ⊎ IsExhausted two_left
allocate_lem_example = allocate_lem two_left

parsed : parse_ipv4 (codes "192.168.1.101") ≡ ok 3232235877
unfolding evaluated
parsed = refl

allocated : allocate three ≡ (ok start, record three { allocated = 3232235876 ∷ [] })
unfolding evaluated
allocated = refl

run-IsValid_example : IsValid (Valid.run (Valid.call_reserve end ∷ Valid.call_allocate ∷ []) three)
run-IsValid_example =
    Valid.run-IsValid (Valid.call_reserve end ∷ Valid.call_allocate ∷ []) three three-IsValid
