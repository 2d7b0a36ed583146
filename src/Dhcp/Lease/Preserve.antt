-- ===== src/Dhcp/Lease/Preserve.antt =====
-- Every method keeps the invariant, and what it returns is the client's lease afterwards.
use sentinel_dns.Common.{
  not, ℕ, ◌+◌, ◌*◌, ◌≡◌, ◌⊎◌, refl, ap, subst, ◌∙◌, true, false, ◌&&◌, ◌++◌, Option, none, some, [],
  ◌∷◌, arith, Text, text_eq, Bool-cases, inl, inr, add,
}
use sentinel_dns.Common.Exec.{
  Error, pool_error, lease_error, lease_not_found, Result, ok, err, Result-cases, Exec, modify,
  ◌>>=◌,
}
use sentinel_dns.Common.Triple.{
  Triple, Triple-pure, Triple-raise, Triple-bind, Triple-gets, Triple-lift_bind, Triple-if,
  Triple_weaken,
}
use sentinel_dns.Common.Dict
use sentinel_dns.Text.{strip}
use sentinel_dns.Text.Strip.{strip_idem}
use sentinel_dns.Ipv4
use sentinel_dns.Dhcp.Pool
use sentinel_dns.Dhcp.Pool.{Pool, parse_ipv4, in_range, is_free}
use sentinel_dns.Dhcp.Pool.Allocate.{
  unavailable, allocate_lem, allocate_specific_lem, allocate_specific_bad,
}
use sentinel_dns.Dhcp.Lease.{
  Lease, Manager, second, time, expired, validate_client_id, validate_duration, with_pool,
  get_by_client, add_lease, bind_address, create_new, create, extend, renew_found, renew,
  release_found, release, take_specific, take_unless, move_lease, create_specific,
}
use sentinel_dns.Dhcp.Lease.Consistent.{IsConsistent, IsConsistent-reads}
use sentinel_dns.Dhcp.Lease.Insert.{take_address, added-IsConsistent, new_client}
use sentinel_dns.Dhcp.Lease.Lookup.{
  Client, Client-reads, Triple-time, Held-of_Client, remove_lease-Client, validate_client_id_ok,
  get_by_client-Client, get_by_ip-Client,
}

-- what the two calls of the pool have in common: they give a free address of the range, or raise
-- and change nothing
abbrev Granted : Pool → Result Text × Pool → Type 0
Granted p out =
    ((e : Error) × (out ≡ (err e, p)))
    ⊎ ((n : ℕ) × (in_range p n ≡ true)
        × (is_free p n ≡ true)
        × (out ≡ (ok (Ipv4.format n), take_address n p)))

allocate-Granted : (p : Pool) → Granted p (Pool.allocate p)
unfolding add
allocate-Granted p = elim (allocate_lem p) [
  | inl (n, g) ↦ inr (n, g.within, ground (arith, g.free), ground (arith, g.result, g.free))
  | inr full ↦ inl (_, full.result)
]

take_address_free :
    (n : ℕ) (p : Pool)
    → is_free p n ≡ true
    → record p { allocated = p.allocated ++ n ∷ [] } ≡ take_address n p
unfolding add
take_address_free n p free = ground arith

allocate_specific-Granted : (a : Text) (p : Pool) → Granted p (Pool.allocate_specific a p)
allocate_specific-Granted a p = elim (Result-cases (parse_ipv4 a)) [
  | inl (e, bad) ↦ inl (e, allocate_specific_bad a e p bad)
  | inr (n, good) ↦ elim (Bool-cases (in_range p n && not (unavailable p n))) [
    | inl free ↦ inr (
      n,
      ground arith,
      ground arith,
      allocate_specific_lem a n p good
          ∙ rw free (ap (λ q. (ok (Ipv4.format n), q)) (take_address_free n p (ground arith))),
    )
    | inr taken ↦ inl (pool_error, allocate_specific_lem a n p good ∙ rw taken)
  ]
]

-- Binding an address that the pool gives makes it the client's lease.
with_pool-bind :
    (f : Exec Pool Text) (c : Text) (lease_time : ℕ) (hostname : Option Text)
    → ((p : Pool) → Granted p (f p))
    → Triple
        (Client c none)
        (do ip ← with_pool f; bind_address c ip lease_time hostname)
        (λ r. Client c (some r))
        IsConsistent
unfolding with_pool bind_address add_lease time ◌>>=◌
with_pool-bind f c lease_time hostname granted = record {
  at = λ m h. elim (granted m.pool) [
    | inl (e, raised) ↦ rw raised h.0
    | inr (n, within, free, given) ↦ rw given (
      IsConsistent-reads (m.reads + 1)
          (added-IsConsistent h.0 (lease_at m n) n h.1 refl within free),
      new_client h.0 (lease_at m n) n h.1 refl within free,
    )
  ];
}
  where
    lease_at : Manager → ℕ → Lease
    lease_at m n = record {
      client_id = c;
      ip_address = Ipv4.format n;
      lease_start = m.readings m.reads;
      lease_end = m.readings m.reads + lease_time * second;
      hostname = hostname;
    }

create_new-Client :
    (o : Option ℕ) (c : Text) (lease_time : ℕ) (hostname : Option Text)
    → Triple (Client c o) (create_new o c lease_time hostname) (λ r. Client c (some r)) IsConsistent
unfolding create_new
create_new-Client none c lease_time hostname =
    with_pool-bind Pool.allocate c lease_time hostname allocate-Granted
create_new-Client (some r) c lease_time hostname = Triple-pure r

-- `get_by_client` on an identifier that was validated before
get_by_client_valid :
    (client_id c : Text)
    → validate_client_id client_id ≡ ok c
    → Triple IsConsistent (get_by_client c) (Client (strip client_id)) IsConsistent
get_by_client_valid client_id c e =
    subst (λ t. Triple IsConsistent (get_by_client c) (Client t) IsConsistent)
      (ap strip (validate_client_id_ok client_id c e) ∙ strip_idem client_id)
      (get_by_client-Client c)

-- `create` returns the lease that the client has afterwards.
pub create-Client :
    (client_id : Text) (lease_time : ℕ) (hostname : Option Text)
    → Triple IsConsistent
        (create client_id lease_time hostname)
        (λ r. Client (strip client_id) (some r))
        IsConsistent
unfolding create
create-Client client_id lease_time hostname =
    Triple-lift_bind (validate_client_id client_id) λ c valid.
      Triple-lift_bind (validate_duration lease_time) λ d _.
        Triple-bind (get_by_client_valid client_id c valid) λ existing.
          rw (validate_client_id_ok client_id c valid)
            (create_new-Client existing (strip client_id) d hostname)

-- writing the times of a lease object keeps the invariant
extend-Client :
    (c : Text) (o : Option ℕ) (r now lease_time : ℕ)
    → Triple (Client c o) (extend r now lease_time) (λ _. Client c o) IsConsistent
unfolding extend modify
extend-Client c o r now lease_time = record { at = λ m h. (kept m h.0, h.1) }
  where
    kept : (m : Manager) → IsConsistent m → IsConsistent (extend r now lease_time m).1
    kept m h = record {
      valid = h.valid;
      once = h.once;
      client_of = λ k q e. ground (arith, h.client_of k q);
      client_ip = λ k q e. ground (arith, h.client_ip k q);
      client_ref = h.client_ref;
      ip_of = λ a q e. ground (arith, h.ip_of a q);
      ip_client = λ a q e. ground (arith, h.ip_client a q);
      leased = h.leased;
      held = h.held;
    }

renew_found-Client :
    (c : Text) (o : Option ℕ) (lease_time : ℕ)
    → Triple (Client c o) (renew_found o lease_time) (λ r. Client c (some r)) IsConsistent
unfolding renew_found
renew_found-Client c none lease_time =
    Triple_weaken (λ m h. h.0) (λ _ m h. h) (Triple-raise lease_not_found)
renew_found-Client c (some r) lease_time =
    Triple-bind (Triple-time (Client-reads c (some r))) λ now.
      Triple-bind (Triple-gets (λ m. m.objects r)) λ lease.
        Triple-if (expired lease now)
          (λ _.
            Triple-bind
              (Triple_weaken (λ m h. (Held-of_Client c r m h.0, inl (h.0.0.client_of c r h.0.1)))
                (λ _ m h. h.0) (remove_lease-Client c r))
              (λ _. Triple-raise lease_not_found))
          (λ _.
            Triple-bind
              (Triple_weaken (λ m h. h.0) (λ _ m h. h) (Triple-time (Client-reads c (some r))))
              (λ now'.
                Triple-bind (extend-Client c (some r) r now' lease_time) (λ _. Triple-pure r)))

-- `renew` returns the lease that the client has.
pub renew-Client :
    (client_id : Text) (lease_time : ℕ)
    → Triple IsConsistent
        (renew client_id lease_time)
        (λ r. Client (strip client_id) (some r))
        IsConsistent
unfolding renew
renew-Client client_id lease_time = Triple-lift_bind (validate_client_id client_id) λ c valid.
    Triple-lift_bind (validate_duration lease_time) λ d _.
      Triple-bind (Triple-gets (λ m. Dict.get c m.by_client)) λ o.
        Triple_weaken (λ m h. (h.0, rw (← validate_client_id_ok client_id c valid) h.1))
          (λ _ m h. h) (renew_found-Client (strip client_id) o d)

release_found-Client :
    (c : Text) (o : Option ℕ)
    → Triple (Client c o) (release_found o) (λ _. Client c none) IsConsistent
unfolding release_found
release_found-Client c none = Triple-pure false
release_found-Client c (some r) =
    Triple-bind
      (Triple_weaken (λ m h. (Held-of_Client c r m h, inl (h.0.client_of c r h.1))) (λ _ m h. h)
        (remove_lease-Client c r))
      (λ _. Triple-pure true)

-- After `release` the client has no lease.
pub release-Client :
    (client_id : Text)
    → Triple IsConsistent (release client_id) (λ _. Client (strip client_id) none) IsConsistent
unfolding release
release-Client client_id = Triple-lift_bind (validate_client_id client_id) λ c valid.
    Triple-bind (Triple-gets (λ m. Dict.get c m.by_client)) λ o.
      Triple_weaken (λ m h. (h.0, rw (← validate_client_id_ok client_id c valid) h.1)) (λ _ m h. h)
        (release_found-Client (strip client_id) o)

take_specific-Client :
    (c a : Text) (lease_time : ℕ) (hostname : Option Text)
    → Triple
        (Client c none)
        (take_specific c a lease_time hostname)
        (λ r. Client c (some r))
        IsConsistent
unfolding take_specific take_unless
take_specific-Client c a lease_time hostname =
    Triple-bind (get_by_ip-Client c a) λ existing. branch existing
  where
    branch :
        (o : Option ℕ)
        → Triple
            (Client c none)
            (take_unless o c a lease_time hostname)
            (λ r. Client c (some r))
            IsConsistent
    branch none =
        with_pool-bind (Pool.allocate_specific a) c lease_time hostname
          (allocate_specific-Granted a)
    branch (some r) = Triple_weaken (λ m h. h.0) (λ _ m h. h) (Triple-raise lease_error)

move_lease-Client :
    (c a : Text) (o : Option ℕ) (lease_time : ℕ) (hostname : Option Text)
    → strip c ≡ c
    → Triple
        (Client c o)
        (move_lease o c a lease_time hostname)
        (λ r. Client c (some r))
        IsConsistent
unfolding move_lease
move_lease-Client c a none lease_time hostname stripped =
    take_specific-Client c a lease_time hostname
move_lease-Client c a (some r) lease_time hostname stripped =
    Triple-bind (Triple-gets (λ m. m.objects r)) λ existing.
      Triple-if (text_eq existing.ip_address a)
        (λ _.
          Triple_weaken (λ m h. h.0.0) (λ q m h. subst (λ t. Client t (some q) m) stripped h)
            (renew-Client c lease_time))
        (λ _.
          Triple-bind
            (Triple_weaken (λ m h. h.0.0) (λ q m h. subst (λ t. Client t none m) stripped h)
              (release-Client c))
            (λ _. take_specific-Client c a lease_time hostname))

-- `create_specific` returns the lease that the client has afterwards.
pub create_specific-Client :
    (client_id a : Text) (lease_time : ℕ) (hostname : Option Text)
    → Triple IsConsistent
        (create_specific client_id a lease_time hostname)
        (λ r. Client (strip client_id) (some r))
        IsConsistent
unfolding create_specific
create_specific-Client client_id a lease_time hostname =
    Triple-lift_bind (validate_client_id client_id) λ c valid.
      Triple-lift_bind (validate_duration lease_time) λ d _.
        Triple-bind (get_by_client_valid client_id c valid) λ existing.
          rw (validate_client_id_ok client_id c valid)
            (move_lease-Client (strip client_id) a existing d hostname (strip_idem client_id))
