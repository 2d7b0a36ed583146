-- ===== src/Dhcp/Lease/Consistent.antt =====
-- The invariant of the lease manager and its pool, and the two changes that keep it: taking a lease
-- out and putting a new one in.
use sentinel_dns.Common.{
  ℕ, ◌<◌, ◌≡◌, ◌≢◌, ap, sym, ◌∙◌, true, false, some, arith, Text, text_eq, text_eq_iff, member,
  discard, member-discard, Bool-cases, inl, inr,
}
use sentinel_dns.Common.Exec.{ok, ◌>>=◌}
use sentinel_dns.Common.Dict
use sentinel_dns.Common.Dict.{get-put, get-pop}
use sentinel_dns.Ipv4
use sentinel_dns.Ipv4.{max_address}
use sentinel_dns.Ipv4.RoundTrip.{format_injective}
use sentinel_dns.Dhcp.Pool.Valid
use sentinel_dns.Dhcp.Pool.Allocate.{release_lem}
use sentinel_dns.Dhcp.Lease.{Manager, remove_lease, with_pool}

-- the address behind a text of the dict by address
abbrev pub Leased : Manager → Text → Type 0
Leased m a = (n : ℕ) × (n < max_address) × (a ≡ Ipv4.format n) × (member n m.pool.allocated ≡ true)

pub record IsConsistent (m : Manager) : Type 0 where
  pub valid : Valid.IsValid m.pool
  pub once : Dict.Once m.by_client
  pub client_of : (c : Text) (r : ℕ) → Dict.get c m.by_client ≡ some r → (m.objects r).client_id ≡ c
  pub client_ip :
      (c : Text) (r : ℕ)
      → Dict.get c m.by_client ≡ some r
      → Dict.get (m.objects r).ip_address m.by_ip ≡ some r
  pub client_ref : (c : Text) (r : ℕ) → Dict.get c m.by_client ≡ some r → r < m.next
  pub ip_of : (a : Text) (r : ℕ) → Dict.get a m.by_ip ≡ some r → (m.objects r).ip_address ≡ a
  pub ip_client :
      (a : Text) (r : ℕ)
      → Dict.get a m.by_ip ≡ some r
      → Dict.get (m.objects r).client_id m.by_client ≡ some r
  pub leased : (a : Text) (r : ℕ) → Dict.get a m.by_ip ≡ some r → Leased m a
  pub held :
      (n : ℕ)
      → member n m.pool.allocated ≡ true
      → (r : ℕ) × (Dict.get (Ipv4.format n) m.by_ip ≡ some r)

-- the reading of the clock is no part of the invariant
pub IsConsistent-reads :
    {m : Manager} (k : ℕ) → IsConsistent m → IsConsistent (record m { reads = k })
IsConsistent-reads k h = record {
  valid = h.valid;
  once = h.once;
  client_of = h.client_of;
  client_ip = h.client_ip;
  client_ref = h.client_ref;
  ip_of = h.ip_of;
  ip_client = h.ip_client;
  leased = h.leased;
  held = h.held;
}

-- the manager without the lease behind `r`, whose address is `n`
abbrev pub removed : ℕ → ℕ → Manager → Manager
removed r n m = record m {
  pool = record m.pool { allocated = discard n m.pool.allocated };
  by_client = Dict.pop (m.objects r).client_id m.by_client;
  by_ip = Dict.pop (m.objects r).ip_address m.by_ip;
}

module _ {m : Manager} (h : IsConsistent m) (r : ℕ)
    (own : Dict.get (m.objects r).client_id m.by_client ≡ some r) where
  -- the address of a lease that the manager holds
  pub address_of : Leased m (m.objects r).ip_address
  address_of = h.leased (m.objects r).ip_address r (h.client_ip (m.objects r).client_id r own)

  pub remove_lease_lem : remove_lease r m ≡ (ok tt, removed r address_of.0 m)
  unfolding remove_lease with_pool ◌>>=◌ address_of
  remove_lease_lem =
      let (n, bound, e, allocated) = address_of in rw e (rw (release_lem n m.pool bound, allocated))

  module _ (n : ℕ) (bound : n < max_address) (here : (m.objects r).ip_address ≡ Ipv4.format n)
      (allocated : member n m.pool.allocated ≡ true) where
    -- another reference than `r` has another client and another address
    other_client :
        (c : Text) (q : ℕ)
        → Dict.get c (removed r n m).by_client ≡ some q
        → (Dict.get c m.by_client ≡ some q) × (text_eq (m.objects r).client_id c ≡ false)
    other_client c q e = ground (arith, get-pop (m.objects r).client_id c m.by_client)

    other_ip :
        (a : Text) (q : ℕ)
        → Dict.get a (removed r n m).by_ip ≡ some q
        → (Dict.get a m.by_ip ≡ some q) × (text_eq (m.objects r).ip_address a ≡ false)
    other_ip a q e = ground (arith, get-pop (m.objects r).ip_address a m.by_ip)

    stays_held :
        (k q : ℕ)
        → Dict.get (Ipv4.format k) m.by_ip ≡ some q
        → n ≢ k
        → k < max_address
        → Dict.get (Ipv4.format k) (removed r n m).by_ip ≡ some q
    stays_held k q found apart small =
        get-pop (m.objects r).ip_address (Ipv4.format k) m.by_ip
        ∙ elim (Bool-cases (text_eq (m.objects r).ip_address (Ipv4.format k))) [
          | inl same ↦ absurd (
              apart (
                format_injective n k bound small
                  (sym here ∙ (text_eq_iff (m.objects r).ip_address (Ipv4.format k)).0 same)))
          | inr other ↦ rw other found
        ]

    apart_of : (k : ℕ) → member k (discard n m.pool.allocated) ≡ true → n ≢ k
    apart_of k e = ground (arith, member-discard k n m.pool.allocated)

    still_allocated :
        (k : ℕ) → member k (discard n m.pool.allocated) ≡ true → member k m.pool.allocated ≡ true
    still_allocated k e = ground (arith, member-discard k n m.pool.allocated)

    removed-held :
        (k : ℕ)
        → member k (discard n m.pool.allocated) ≡ true
        → (q : ℕ) × (Dict.get (Ipv4.format k) (removed r n m).by_ip ≡ some q)
    removed-held k e = (
      (h.held k (still_allocated k e)).0,
      stays_held k _ (h.held k (still_allocated k e)).1 (apart_of k e)
          (Valid.allocated_bound k h.valid (still_allocated k e)),
    )

    -- an address that is not taken out is allocated still
    removed-leased :
        (a : Text)
        → Leased m a
        → text_eq (m.objects r).ip_address a ≡ false
        → Leased (removed r n m) a
    removed-leased a (k, small, e, old) other = (
      k,
      small,
      e,
      ground (
        arith,
        member-discard k n m.pool.allocated,
        text_eq_iff (m.objects r).ip_address a,
        ap Ipv4.format,
      ),
    )

    -- two references with one address are one
    same_ip :
        (c : Text) (q : ℕ)
        → Dict.get c m.by_client ≡ some q
        → (m.objects r).ip_address ≡ (m.objects q).ip_address
        → (m.objects r).client_id ≡ c
    same_ip c q e same = cc (
      h.client_of c q e,
      h.client_ip c q e,
      h.client_ip (m.objects r).client_id r own,
      ap (λ a. Dict.get a m.by_ip) same,
    )

    -- two references with one client are one
    same_client :
        (a : Text) (q : ℕ)
        → Dict.get a m.by_ip ≡ some q
        → (m.objects r).client_id ≡ (m.objects q).client_id
        → (m.objects r).ip_address ≡ a
    same_client a q e same =
        cc (h.ip_of a q e, h.ip_client a q e, own, ap (λ c. Dict.get c m.by_client) same)

    removed-client_ip :
        (c : Text) (q : ℕ)
        → Dict.get c (removed r n m).by_client ≡ some q
        → Dict.get (m.objects q).ip_address (removed r n m).by_ip ≡ some q
    removed-client_ip c q e =
        let old = other_client c q e in
        ground (
          arith,
          old,
          get-pop (m.objects r).ip_address (m.objects q).ip_address m.by_ip,
          h.client_ip c q old.0,
          text_eq_iff (m.objects r).ip_address (m.objects q).ip_address,
          text_eq_iff (m.objects r).client_id c,
          same_ip c q old.0,
        )

    removed-ip_client :
        (a : Text) (q : ℕ)
        → Dict.get a (removed r n m).by_ip ≡ some q
        → Dict.get (m.objects q).client_id (removed r n m).by_client ≡ some q
    removed-ip_client a q e =
        let old = other_ip a q e in
        ground (
          arith,
          old,
          get-pop (m.objects r).client_id (m.objects q).client_id m.by_client,
          h.ip_client a q old.0,
          text_eq_iff (m.objects r).client_id (m.objects q).client_id,
          text_eq_iff (m.objects r).ip_address a,
          same_client a q old.0,
        )

    pub removed-IsConsistent : IsConsistent (removed r n m)
    removed-IsConsistent = record {
      valid = Valid.allocated-discard n h.valid;
      once = Dict.Once-pop (m.objects r).client_id m.by_client h.once;
      client_of = λ c q e. h.client_of c q (other_client c q e).0;
      client_ip = removed-client_ip;
      client_ref = λ c q e. h.client_ref c q (other_client c q e).0;
      ip_of = λ a q e. h.ip_of a q (other_ip a q e).0;
      ip_client = removed-ip_client;
      leased = λ a q e. removed-leased a (h.leased a q (other_ip a q e).0) (other_ip a q e).1;
      held = removed-held;
    }

-- A lease that the manager holds can be taken out, with what the call returns and leaves.
pub remove_lease-IsConsistent :
    {m : Manager} (r : ℕ)
    → IsConsistent m
    → Dict.get (m.objects r).client_id m.by_client ≡ some r
    → (n : ℕ) × (remove_lease r m ≡ (ok tt, removed r n m)) × IsConsistent (removed r n m)
remove_lease-IsConsistent {m} r h own =
    let at = address_of h r own in
    (at.0, remove_lease_lem h r own, removed-IsConsistent h r own at.0 at.1 at.2 at.3)
