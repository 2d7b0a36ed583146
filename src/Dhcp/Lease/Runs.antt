-- ===== src/Dhcp/Lease/Runs.antt =====
-- Every sequence of calls, by the DHCP server and by the management interface, which reserves and
-- unreserves addresses of the same pool.
use sentinel_dns.Common.{ℕ, ◌≡◌, Option, List, [], ◌∷◌, arith, Text}
use sentinel_dns.Common.Triple.{Triple_state}
use sentinel_dns.Dhcp.Pool
use sentinel_dns.Dhcp.Pool.{Pool, parse_ipv4, in_range}
use sentinel_dns.Dhcp.Pool.Valid
use sentinel_dns.Dhcp.Lease
use sentinel_dns.Dhcp.Lease.{Manager, second, with_pool}
use sentinel_dns.Dhcp.Lease.Consistent.{IsConsistent, Leased}
use sentinel_dns.Dhcp.Lease.Lookup.{Client, get_by_client-Client, get_by_ip-IsConsistent}
use sentinel_dns.Dhcp.Lease.Preserve.{
  create-Client, create_specific-Client, renew-Client, release-Client,
}
use sentinel_dns.Dhcp.Lease.Expire.{expire_leases-IsConsistent, clear-IsConsistent}

pub data Call : Type 0 where
  get_by_client get_by_ip release reserve unreserve : Text → Call
  create : Text → ℕ → Option Text → Call
  create_specific : Text → Text → ℕ → Option Text → Call
  renew : Text → ℕ → Call
  expire_leases clear : Call

-- the manager after a call, whether it returned or raised
unfoldable pub step : Call → Manager → Manager
step (Call.get_by_client client_id) m = (Lease.get_by_client client_id m).1
step (Call.get_by_ip a) m = (Lease.get_by_ip a m).1
step (Call.release client_id) m = (Lease.release client_id m).1
step (Call.reserve a) m = (with_pool (Pool.reserve a) m).1
step (Call.unreserve a) m = (with_pool (Pool.unreserve a) m).1
step (Call.create client_id lease_time hostname) m =
    (Lease.create client_id lease_time hostname m).1
step (Call.create_specific client_id a lease_time hostname) m =
    (Lease.create_specific client_id a lease_time hostname m).1
step (Call.renew client_id lease_time) m = (Lease.renew client_id lease_time m).1
step Call.expire_leases m = (Lease.expire_leases m).1
step Call.clear m = (Lease.clear m).1

unfoldable pub run : List Call → Manager → Manager
run [] m = m
run (c ∷ cs) m = run cs (step c m)

reserve-allocated : (a : Text) (p : Pool) → (Pool.reserve a p).1.allocated ≡ p.allocated
unfolding Pool.reserve
reserve-allocated a p = ground arith

unreserve-allocated : (a : Text) (p : Pool) → (Pool.unreserve a p).1.allocated ≡ p.allocated
unfolding Pool.unreserve
unreserve-allocated a p = ground arith

leased_same :
    (m : Manager) (p : Pool) (a : Text)
    → p.allocated ≡ m.pool.allocated
    → Leased m a
    → Leased (record m { pool = p }) a
leased_same m p a same (n, small, at, taken) = (n, small, at, rw same taken)

-- what the invariant needs of the pool is its validity and its allocated addresses
other_pool :
    (m : Manager) (p : Pool)
    → IsConsistent m
    → Valid.IsValid p
    → p.allocated ≡ m.pool.allocated
    → IsConsistent (record m { pool = p })
other_pool m p h v same = record {
  valid = v;
  once = h.once;
  client_of = h.client_of;
  client_ip = h.client_ip;
  client_ref = h.client_ref;
  ip_of = h.ip_of;
  ip_client = h.ip_client;
  leased = λ a r e. leased_same m p a same (h.leased a r e);
  held = λ n e. h.held n (rw (← same) e);
}

Client-state : (c : Text) (o : Option ℕ) (m : Manager) → Client c o m → IsConsistent m
Client-state c o m h = h.0

step-IsConsistent : (c : Call) (m : Manager) → IsConsistent m → IsConsistent (step c m)
unfolding step with_pool
step-IsConsistent (Call.get_by_client client_id) m h =
    Triple_state (get_by_client-Client client_id) (λ _ _ k. k.0) (λ _ k. k) m h
step-IsConsistent (Call.get_by_ip a) m h = get_by_ip-IsConsistent a m h
step-IsConsistent (Call.release client_id) m h =
    Triple_state (release-Client client_id) (λ _ _ k. k.0) (λ _ k. k) m h
step-IsConsistent (Call.reserve a) m h =
    other_pool m _ h (Valid.reserve-IsValid a m.pool h.valid) (reserve-allocated a m.pool)
step-IsConsistent (Call.unreserve a) m h =
    other_pool m _ h (Valid.unreserve-IsValid a m.pool h.valid) (unreserve-allocated a m.pool)
step-IsConsistent (Call.create client_id lease_time hostname) m h =
    Triple_state (create-Client client_id lease_time hostname) (λ _ _ k. k.0) (λ _ k. k) m h
step-IsConsistent (Call.create_specific client_id a lease_time hostname) m h =
    Triple_state (create_specific-Client client_id a lease_time hostname) (λ _ _ k. k.0) (λ _ k. k)
      m h
step-IsConsistent (Call.renew client_id lease_time) m h =
    Triple_state (renew-Client client_id lease_time) (λ _ _ k. k.0) (λ _ k. k) m h
step-IsConsistent Call.expire_leases m h = expire_leases-IsConsistent m h
step-IsConsistent Call.clear m h = clear-IsConsistent m h

-- From a consistent manager, whatever the calls, the manager and its pool stay consistent.
pub run-IsConsistent : (cs : List Call) (m : Manager) → IsConsistent m → IsConsistent (run cs m)
unfolding run
run-IsConsistent [] m h = h
run-IsConsistent (c ∷ cs) m h = run-IsConsistent cs (step c m) (step-IsConsistent c m h)
