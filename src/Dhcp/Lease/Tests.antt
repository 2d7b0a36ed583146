-- ===== src/Dhcp/Lease/Tests.antt =====
-- Runs of the lease manager, and its theorems at concrete inputs.
use sentinel_dns.Common.{
  ℕ, ◌+◌, ◌-◌, ◌*◌, ◌<◌, ◌≡◌, refl, true, false, none, some, List, [], ◌∷◌, arith, Text, codes,
  text_eq, member, add, discard, ◌≤◌, length,
}
use sentinel_dns.Common.Exec.{ok, err, lease_error, pool_exhausted, lease_not_found, ◌>>=◌}
use sentinel_dns.Common.Dict
use sentinel_dns.Text.{split, strip}
use sentinel_dns.Ipv4
use sentinel_dns.Dhcp.Pool
use sentinel_dns.Dhcp.Pool.{Pool}
use sentinel_dns.Dhcp.Pool.Valid
use sentinel_dns.Dhcp.Lease
use sentinel_dns.Dhcp.Lease.{Manager, second}
use sentinel_dns.Dhcp.Lease.Consistent.{IsConsistent}
use sentinel_dns.Dhcp.Lease.Runs.{Call, run, step, run-IsConsistent}
use sentinel_dns.Dhcp.Lease.Exclusive.{IsLeaseOf}
use sentinel_dns.Dhcp.Lease.Exclusive
use sentinel_dns.Dhcp.Lease.Deadline

-- opens everything that a run computes with
evaluated : Unit {0}
unfolding Pool.init Pool.parse_ipv4 Pool.reserve Pool.allocate Pool.allocate_specific Pool.release
    Pool.first_free Ipv4.parse Ipv4.parse_octet Ipv4.format split strip member add discard text_eq
    Dict.get Dict.put Dict.pop Lease.create Lease.create_new Lease.create_specific Lease.move_lease
    Lease.take_specific Lease.take_unless Lease.bind_address Lease.add_lease Lease.renew
    Lease.renew_found Lease.extend Lease.release Lease.release_found Lease.remove_lease Lease.live
    Lease.get_by_client Lease.get_by_ip Lease.expire_leases Lease.collect_expired Lease.remove_all
    Lease.time Lease.with_pool Lease.expired Lease.validate_client_id Lease.validate_duration
    Lease.clear Lease.init run step ◌>>=◌
evaluated = tt

abbrev start : Text
start = codes "10.0.0.1"

abbrev end : Text
end = codes "10.0.0.2"

abbrev pool : Pool
pool = record { start = 167772161; end = 167772162; allocated = []; reserved = [] }

abbrev blank : Lease.Lease
blank = record { client_id = []; ip_address = []; lease_start = 0; lease_end = 0; hostname = none }

-- a clock that stands at one second
abbrev new : Manager
new = Lease.init pool (λ r. blank) (λ k. second)

abbrev ann : Text
ann = codes "ann"

abbrev bob : Text
bob = codes "bob"

abbrev with_ann : Manager
with_ann = (Lease.create ann 60 none new).1

pool_made : Pool.init start end ≡ ok pool
unfolding evaluated
pool_made = refl

new-IsConsistent : IsConsistent new
new-IsConsistent =
    Exclusive.init-IsConsistent pool (λ r. blank) (λ k. second)
      (Valid.init-IsValid start end pool pool_made).0 refl

created :
    Lease.create (codes " ann ") 60 none new ≡ (ok 0, (Lease.create (codes " ann ") 60 none new).1)
unfolding evaluated
created = refl

-- a second client, and then a third one that the pool has no address for
abbrev calls : List Call
calls = Call.create ann 60 none ∷ Call.create bob 60 none ∷ []

abbrev both : Manager
both = run calls new

runs :
    ((Lease.create ann 90 none both).0 ≡ ok 0)
    × ((Lease.create (codes "eve") 60 none both).0 ≡ err pool_exhausted)
    × ((Lease.create_specific (codes "eve") start 60 none both).0 ≡ err lease_error)
    × ((Lease.renew (codes "eve") 60 both).0 ≡ err lease_not_found)
    × ((Lease.release bob both).0 ≡ ok true)
    × ((Lease.expire_leases both).0 ≡ ok 0)
unfolding evaluated
runs = (refl, refl, refl, refl, refl, refl)

both-IsConsistent : IsConsistent both
both-IsConsistent = run-IsConsistent calls new new-IsConsistent

run-IsConsistent_example : IsConsistent (run calls new)
run-IsConsistent_example = run-IsConsistent calls new new-IsConsistent

ann_has : Dict.get ann both.by_client ≡ some 0
unfolding evaluated
ann_has = refl

run_exclusive_example : ann ≡ ann
run_exclusive_example =
    Exclusive.run_exclusive start end pool (λ r. blank) (λ k. second) calls ann ann 0 0 pool_made
      ann_has ann_has refl

specific :
    Lease.create_specific bob end 60 none new
    ≡ (ok 0, (Lease.create_specific bob end 60 none new).1)
unfolding evaluated
specific = refl

renewed : Lease.renew ann 90 both ≡ (ok 0, (Lease.renew ann 90 both).1)
unfolding evaluated
renewed = refl

abbrev after_renew : Manager
after_renew = (Lease.renew ann 90 both).1

released : Lease.release bob both ≡ (ok true, (Lease.release bob both).1)
unfolding evaluated
released = refl

ann_named : text_eq (strip ann) [] ≡ false
unfolding evaluated
ann_named = refl

ann_stripped : Dict.get (strip ann) both.by_client ≡ some 0
unfolding evaluated
ann_stripped = refl

ann_early : both.readings both.reads < (both.objects 0).lease_end
unfolding evaluated
ann_early = omega arith

-- the clock of `both` from now on reads the time at which the leases end
abbrev later : Manager
later = record both { readings = λ k. 61 * second }

later-IsConsistent : IsConsistent later
later-IsConsistent = Exclusive.other_clock both (λ k. 61 * second) both-IsConsistent

ann_late : (later.objects 0).lease_end ≤ later.readings later.reads
unfolding evaluated
ann_late = omega arith

standing : (t : ℕ) → Deadline.Monotone (λ k. t)
standing t i j h = omega arith

expire_leases_late_example : Dict.get ann (Lease.expire_leases later).1.by_client ≡ none
expire_leases_late_example =
    Deadline.expire_leases_late later ann 0 later-IsConsistent (standing (61 * second)) ann_has
      ann_late

ann_early_enough :
    both.readings (both.reads + (length both.by_client - 1)) < (both.objects 0).lease_end
unfolding evaluated
ann_early_enough = omega arith

both_clock : Deadline.Monotone both.readings
unfolding evaluated
both_clock = λ i j h. omega arith

expire_leases_early_example : Dict.get ann (Lease.expire_leases both).1.by_client ≡ some 0
expire_leases_early_example =
    Deadline.expire_leases_early both ann 0 both-IsConsistent both_clock ann_has ann_early_enough
