-- ===== src/Dhcp/Lease/Exclusive.antt =====
-- What the callers of the lease manager rely on: exclusive addresses, and the lease that `create`,
-- `create_specific`, `renew` and `release` leave.
use sentinel_dns.Common.{
  ℕ, ◌+◌, ◌*◌, ◌<◌, ◌≡◌, ap, Bool, true, false, Option, none, some, List, [], arith, Text, text_eq,
  Bool-cases, inl, inr, member,
}
use sentinel_dns.Common.Exec.{
  Result, ok, err, Result-cases, ◌>>=◌, raise, continue, lease_not_found,
}
use sentinel_dns.Common.Triple.{Triple-ok}
use sentinel_dns.Common.Dict
use sentinel_dns.Text.{strip}
use sentinel_dns.Text.Strip.{strip_idem}
use sentinel_dns.Ipv4
use sentinel_dns.Dhcp.Pool
use sentinel_dns.Dhcp.Pool.{Pool, parse_ipv4, in_range}
use sentinel_dns.Dhcp.Pool.Valid
use sentinel_dns.Dhcp.Lease
use sentinel_dns.Dhcp.Lease.{Manager, second, expired}
use sentinel_dns.Dhcp.Lease.Consistent.{IsConsistent}
use sentinel_dns.Dhcp.Lease.Lookup.{Client}
use sentinel_dns.Dhcp.Lease.Preserve.{
  create-Client, create_specific-Client, renew-Client, release-Client,
}
use sentinel_dns.Dhcp.Lease.Runs.{Call, run, run-IsConsistent}

-- A new manager over a valid pool with nothing allocated is consistent.
pub init-IsConsistent :
    (p : Pool) (objects : ℕ → Lease.Lease) (readings : ℕ → ℕ)
    → Valid.IsValid p
    → p.allocated ≡ []
    → IsConsistent (Lease.init p objects readings)
unfolding Lease.init Dict.get member
init-IsConsistent p objects readings v none' = record {
  valid = v;
  once = tt;
  client_of = λ c r e. absurd (cc);
  client_ip = λ c r e. absurd (cc);
  client_ref = λ c r e. absurd (cc);
  ip_of = λ a r e. absurd (cc);
  ip_client = λ a r e. absurd (cc);
  leased = λ a r e. absurd (cc);
  held = λ n e. absurd (nothing n e);
}
  where
    nothing : (n : ℕ) → member n p.allocated ≡ true → ⊥
    nothing n e = cc (ap (member n) none')

-- On a consistent manager two clients with one address are one client.
pub exclusive_address :
    (m : Manager) (c d : Text) (q r : ℕ)
    → IsConsistent m
    → Dict.get c m.by_client ≡ some q
    → Dict.get d m.by_client ≡ some r
    → (m.objects q).ip_address ≡ (m.objects r).ip_address
    → c ≡ d
exclusive_address m c d q r h e f same = cc (
  h.client_of c q e,
  h.client_of d r f,
  h.client_ip c q e,
  h.client_ip d r f,
  ap (λ a. Dict.get a m.by_ip) same,
)

-- After any calls on a new manager over the pool that `DHCPAddressPool(start, end)` builds, two
-- clients whose leases have one address are one client.
pub run_exclusive :
    (start end : Text) (p : Pool) (objects : ℕ → Lease.Lease) (readings : ℕ → ℕ) (cs : List Call)
    (c d : Text) (q r : ℕ)
    → Pool.init start end ≡ ok p
    → Dict.get c (run cs (Lease.init p objects readings)).by_client ≡ some q
    → Dict.get d (run cs (Lease.init p objects readings)).by_client ≡ some r
    → ((run cs (Lease.init p objects readings)).objects q).ip_address
      ≡ ((run cs (Lease.init p objects readings)).objects r).ip_address
    → c ≡ d
run_exclusive start end p objects readings cs c d q r made e f same =
    let (valid, nothing, _) = Valid.init-IsValid start end p made in
    exclusive_address (run cs (Lease.init p objects readings)) c d q r
      (run-IsConsistent cs (Lease.init p objects readings)
        (init-IsConsistent p objects readings valid nothing))
      e f same

-- what holds of the lease behind `r` if it is the lease of the client `c`
pub record IsLeaseOf (m : Manager) (c : Text) (r : ℕ) : Type 0 where
  pub by_client : Dict.get c m.by_client ≡ some r
  pub client_id : (m.objects r).client_id ≡ c
  pub by_ip : Dict.get (m.objects r).ip_address m.by_ip ≡ some r
  pub address : ℕ
  pub printed : (m.objects r).ip_address ≡ Ipv4.format address
  pub within : in_range m.pool address ≡ true
  pub not_reserved : member address m.pool.reserved ≡ false

IsLeaseOf-Client : (m : Manager) (c : Text) (r : ℕ) → Client c (some r) m → IsLeaseOf m c r
IsLeaseOf-Client m c r (h, e) =
    let at = h.client_ip c r e in
    let (n, small, printed, taken) = h.leased (m.objects r).ip_address r at in
    record {
      by_client = e;
      client_id = h.client_of c r e;
      by_ip = at;
      address = n;
      printed = printed;
      within = h.valid.allocated_within n taken;
      not_reserved = h.valid.apart n taken;
    }

-- If `create` returns a lease, that is the client's lease: both dicts have it, its address is in the
-- pool's range, and the address is not reserved in the pool.
pub create-IsLeaseOf :
    (client_id : Text) (lease_time : ℕ) (hostname : Option Text) (m m' : Manager) (r : ℕ)
    → IsConsistent m
    → Lease.create client_id lease_time hostname m ≡ (ok r, m')
    → IsLeaseOf m' (strip client_id) r
create-IsLeaseOf client_id lease_time hostname m m' r h e =
    IsLeaseOf-Client m' (strip client_id) r
      (Triple-ok (create-Client client_id lease_time hostname) m m' r h e)

-- If `create_specific` returns a lease, whatever address is asked for, that is the client's lease:
-- both dicts have it, its address is in the pool's range, and the address is not reserved in the pool.
pub create_specific-IsLeaseOf :
    (client_id a : Text) (lease_time : ℕ) (hostname : Option Text) (m m' : Manager) (r : ℕ)
    → IsConsistent m
    → Lease.create_specific client_id a lease_time hostname m ≡ (ok r, m')
    → IsLeaseOf m' (strip client_id) r
create_specific-IsLeaseOf client_id a lease_time hostname m m' r h e =
    IsLeaseOf-Client m' (strip client_id) r
      (Triple-ok (create_specific-Client client_id a lease_time hostname) m m' r h e)

-- a removal that is followed by a raise returns nothing
remove_then_raise :
    (q r : ℕ) (m m' : Manager)
    → ¬ ((Lease.remove_lease q >>= λ _. raise {A = ℕ} lease_not_found) m ≡ (ok r, m'))
unfolding ◌>>=◌
remove_then_raise q r m m' e = go (Lease.remove_lease q m).0 (Lease.remove_lease q m).1 e
  where
    go :
        (o : Result (Unit {0})) (s : Manager)
        → continue o s (λ _. raise {A = ℕ} lease_not_found) ≡ (ok r, m')
        → ⊥
    go (ok _) s e = cc e
    go (err _) s e = cc e

renewed : ℕ → ℕ → Manager → Manager
unfolding Lease.extend ◌>>=◌
renewed r d m =
    (Lease.extend r (m.readings (m.reads + 1)) d (record m { reads = m.reads + 1 + 1 })).1

renew_found_times :
    (o : Option ℕ) (d : ℕ) (m m' : Manager) (r : ℕ)
    → Lease.renew_found o d m ≡ (ok r, m')
    → (o ≡ some r) × (m' ≡ renewed r d m)
unfolding Lease.renew_found Lease.time renewed
renew_found_times none d m m' r e = absurd (cc)
renew_found_times (some q) d m m' r e =
    elim (Bool-cases (expired (m.objects q) (m.readings m.reads))) [
      | inl late ↦
          absurd (remove_then_raise q r (record m { reads = m.reads + 1 }) m' (rw (← e) (rw late)))
      | inr early ↦ ground (arith, early)
    ]

renewed_times :
    (r d : ℕ) (m m' : Manager)
    → m' ≡ renewed r d m
    → ((m'.objects r).lease_start ≡ m.readings (m.reads + 1))
      × ((m'.objects r).lease_end ≡ m.readings (m.reads + 1) + d * second)
      × ((m'.objects r).ip_address ≡ (m.objects r).ip_address)
unfolding renewed
renewed_times r d m m' e = rw e (ground arith, ground arith, ground arith)

renew_times :
    (client_id : Text) (lease_time : ℕ) (m m' : Manager) (r : ℕ)
    → Lease.renew client_id lease_time m ≡ (ok r, m')
    → ((m'.objects r).lease_start ≡ m.readings (m.reads + 1))
      × ((m'.objects r).lease_end ≡ m.readings (m.reads + 1) + lease_time * second)
      × ((m'.objects r).ip_address ≡ (m.objects r).ip_address)
unfolding Lease.renew Lease.validate_duration ◌>>=◌
renew_times client_id lease_time m m' r e =
    elim (Result-cases (Lease.validate_client_id client_id)) [
      | inl (_, bad) ↦ absurd (ground (arith, bad))
      | inr (c, good) ↦
          renewed_times r lease_time m m'
            (renew_found_times (Dict.get c m.by_client) lease_time m m' r (ground (arith, good))).1
    ]

-- If `renew` returns a lease, it is the client's lease under both dicts, it starts at the reading
-- that the call takes last and ends `lease_time` seconds later, and its client and its address are
-- as before.
pub renew-IsLeaseOf :
    (client_id : Text) (lease_time : ℕ) (m m' : Manager) (r : ℕ)
    → IsConsistent m
    → Lease.renew client_id lease_time m ≡ (ok r, m')
    → IsLeaseOf m' (strip client_id) r
      × ((m'.objects r).lease_start ≡ m.readings (m.reads + 1))
      × ((m'.objects r).lease_end ≡ m.readings (m.reads + 1) + lease_time * second)
      × ((m'.objects r).ip_address ≡ (m.objects r).ip_address)
renew-IsLeaseOf client_id lease_time m m' r h e =
    let times = renew_times client_id lease_time m m' r e in
    (
      IsLeaseOf-Client m' (strip client_id) r
          (Triple-ok (renew-Client client_id lease_time) m m' r h e),
      times.0,
      times.1,
      times.2,
    )

-- After `release` the client has no lease, on a consistent manager.
pub release-none :
    (client_id : Text) (m m' : Manager) (b : Bool)
    → IsConsistent m
    → Lease.release client_id m ≡ (ok b, m')
    → Dict.get (strip client_id) m'.by_client ≡ none
release-none client_id m m' b h e = (Triple-ok (release-Client client_id) m m' b h e).1

-- `create` for a client whose lease has not ended gives that lease again, and changes nothing but
-- the reading of the clock.
pub create_again :
    (client_id : Text) (lease_time : ℕ) (hostname : Option Text) (m : Manager) (r : ℕ)
    → text_eq (strip client_id) [] ≡ false
    → 0 < lease_time
    → Dict.get (strip client_id) m.by_client ≡ some r
    → m.readings m.reads < (m.objects r).lease_end
    → Lease.create client_id lease_time hostname m ≡ (ok r, record m { reads = m.reads + 1 })
unfolding Lease.create Lease.get_by_client Lease.live Lease.create_new Lease.time
    Lease.validate_client_id Lease.validate_duration Lease.expired ◌>>=◌
create_again client_id lease_time hostname m r named positive found early =
    ground (arith, strip_idem client_id)

-- the invariant says nothing of the clock
pub other_clock :
    (m : Manager) (readings : ℕ → ℕ)
    → IsConsistent m
    → IsConsistent (record m { readings = readings })
other_clock m readings h = record {
  valid = h.valid;
  once = h.once;
  client_of = h.client_of;
  client_ip = h.client_ip;
  client_ref = h.client_ref;
  ip_of = h.ip_of;
  ip_client = h.ip_client;
  leased = h.leased;
  held = h.held;
}
