-- ===== src/Dhcp/Lease/Insert.antt =====
-- A new lease, on an address that was free, keeps the invariant of the lease manager.
use sentinel_dns.Common.{
  ◌⊎◌, ℕ, suc, ◌<◌, ◌≡◌, ap, sym, ◌∙◌, true, none, some, arith, Text, text_eq_iff, text_eq_refl,
  member, add, member-add, inl, inr,
}
use sentinel_dns.Common.Dict
use sentinel_dns.Common.Dict.{get-put, get-pop}
use sentinel_dns.Ipv4
use sentinel_dns.Ipv4.{max_address}
use sentinel_dns.Ipv4.RoundTrip.{format_injective}
use sentinel_dns.Dhcp.Pool.{Pool, in_range, is_free}
use sentinel_dns.Dhcp.Pool.Valid
use sentinel_dns.Dhcp.Lease.{Lease, Manager, update}
use sentinel_dns.Dhcp.Lease.Consistent.{IsConsistent, Leased}

-- the pool with one more allocated address
abbrev pub take_address : ℕ → Pool → Pool
take_address n p = record p { allocated = add n p.allocated }

-- the manager with the new lease `l` on the address `n`
abbrev pub added : Lease → ℕ → Manager → Manager
added l n m = record m {
  pool = take_address n m.pool;
  by_client = Dict.put l.client_id m.next m.by_client;
  by_ip = Dict.put l.ip_address m.next m.by_ip;
  objects = update m.objects m.next l;
  next = suc m.next;
}

module _ {m : Manager} (h : IsConsistent m) (l : Lease) (n : ℕ)
    (new : Dict.get l.client_id m.by_client ≡ none) (here : l.ip_address ≡ Ipv4.format n)
    (within : in_range m.pool n ≡ true) (free : is_free m.pool n ≡ true) where
  bound : n < max_address
  bound = ground (arith, h.valid.bounded)

  not_leased : (r : ℕ) → ¬ (Dict.get l.ip_address m.by_ip ≡ some r)
  not_leased r e =
      let (k, small, same, taken) = h.leased l.ip_address r e in
      clash k small (sym here ∙ same) taken
    where
      clash :
          (k : ℕ)
          → k < max_address
          → Ipv4.format n ≡ Ipv4.format k
          → member k m.pool.allocated ≡ true
          → ⊥
      clash k small same taken = ground (arith, format_injective n k bound small same)

  -- an entry of the new dict is the new one or an old one
  client_entry :
      (c : Text) (q : ℕ)
      → Dict.get c (added l n m).by_client ≡ some q
      → ((q ≡ m.next) × (l.client_id ≡ c)) ⊎ (Dict.get c m.by_client ≡ some q)
  client_entry c q e =
      ground (arith, get-put l.client_id c m.next m.by_client, text_eq_iff l.client_id c)

  ip_entry :
      (a : Text) (q : ℕ)
      → Dict.get a (added l n m).by_ip ≡ some q
      → ((q ≡ m.next) × (l.ip_address ≡ a)) ⊎ (Dict.get a m.by_ip ≡ some q)
  ip_entry a q e = ground (arith, get-put l.ip_address a m.next m.by_ip, text_eq_iff l.ip_address a)

  old_object : (q : ℕ) → q < m.next → (added l n m).objects q ≡ m.objects q
  old_object q lt = ground arith

  new_object : (added l n m).objects m.next ≡ l
  new_object = ground arith

  -- an old entry of a dict stays, and names an object that the call leaves alone
  ip_stays :
      (a : Text) (q : ℕ) → Dict.get a m.by_ip ≡ some q → Dict.get a (added l n m).by_ip ≡ some q
  ip_stays a q e = ground (
    arith,
    get-put l.ip_address a m.next m.by_ip,
    text_eq_iff l.ip_address a,
    ap (λ t. Dict.get t m.by_ip),
    not_leased q,
  )

  client_stays :
      (c : Text) (q : ℕ)
      → Dict.get c m.by_client ≡ some q
      → Dict.get c (added l n m).by_client ≡ some q
  client_stays c q e =
      ground (arith, get-put l.client_id c m.next m.by_client, text_eq_iff l.client_id c, new)

  ref_of_ip : (a : Text) (q : ℕ) → Dict.get a m.by_ip ≡ some q → q < m.next
  ref_of_ip a q e = h.client_ref _ q (h.ip_client a q e)

  new_ip : Dict.get l.ip_address (added l n m).by_ip ≡ some m.next
  new_ip =
      ground (arith, get-put l.ip_address l.ip_address m.next m.by_ip, text_eq_refl l.ip_address)

  pub new_client : Dict.get l.client_id (added l n m).by_client ≡ some m.next
  new_client =
      ground (arith, get-put l.client_id l.client_id m.next m.by_client, text_eq_refl l.client_id)

  added-client_of :
      (c : Text) (q : ℕ)
      → Dict.get c (added l n m).by_client ≡ some q
      → ((added l n m).objects q).client_id ≡ c
  added-client_of c q e = elim (client_entry c q e) [
    | inl (is_next, same) ↦ rw is_next (rw new_object same)
    | inr old ↦ rw (old_object q (h.client_ref c q old)) (h.client_of c q old)
  ]

  added-client_ip :
      (c : Text) (q : ℕ)
      → Dict.get c (added l n m).by_client ≡ some q
      → Dict.get ((added l n m).objects q).ip_address (added l n m).by_ip ≡ some q
  added-client_ip c q e = elim (client_entry c q e) [
    | inl (is_next, same) ↦ rw is_next (rw new_object new_ip)
    | inr old ↦
        rw (old_object q (h.client_ref c q old))
          (ip_stays (m.objects q).ip_address q (h.client_ip c q old))
  ]

  added-client_ref :
      (c : Text) (q : ℕ) → Dict.get c (added l n m).by_client ≡ some q → q < suc m.next
  added-client_ref c q e = elim (client_entry c q e) [
    | inl (is_next, same) ↦ omega arith
    | inr old ↦ omega (arith, h.client_ref c q old)
  ]

  added-ip_of :
      (a : Text) (q : ℕ)
      → Dict.get a (added l n m).by_ip ≡ some q
      → ((added l n m).objects q).ip_address ≡ a
  added-ip_of a q e = elim (ip_entry a q e) [
    | inl (is_next, same) ↦ rw is_next (rw new_object same)
    | inr old ↦ rw (old_object q (ref_of_ip a q old)) (h.ip_of a q old)
  ]

  added-ip_client :
      (a : Text) (q : ℕ)
      → Dict.get a (added l n m).by_ip ≡ some q
      → Dict.get ((added l n m).objects q).client_id (added l n m).by_client ≡ some q
  added-ip_client a q e = elim (ip_entry a q e) [
    | inl (is_next, same) ↦ rw is_next (rw new_object new_client)
    | inr old ↦
        rw (old_object q (ref_of_ip a q old))
          (client_stays (m.objects q).client_id q (h.ip_client a q old))
  ]

  leased_still : (a : Text) → Leased m a → Leased (added l n m) a
  leased_still a (k, small, same, taken) =
      (k, small, same, ground (arith, member-add k n m.pool.allocated))

  added-leased :
      (a : Text) (q : ℕ) → Dict.get a (added l n m).by_ip ≡ some q → Leased (added l n m) a
  added-leased a q e = elim (ip_entry a q e) [
    | inl (is_next, same) ↦
        (n, bound, sym same ∙ here, ground (arith, member-add n n m.pool.allocated))
    | inr old ↦ leased_still a (h.leased a q old)
  ]

  new_ip_at : Dict.get (Ipv4.format n) (added l n m).by_ip ≡ some m.next
  new_ip_at = rw (← here) new_ip

  added_member :
      (k : ℕ)
      → member k (add n m.pool.allocated) ≡ true
      → (n ≡ k) ⊎ (member k m.pool.allocated ≡ true)
  added_member k e = ground (arith, member-add k n m.pool.allocated)

  added-held :
      (k : ℕ)
      → member k (add n m.pool.allocated) ≡ true
      → (q : ℕ) × (Dict.get (Ipv4.format k) (added l n m).by_ip ≡ some q)
  added-held k e = elim (added_member k e) [
    | inl same ↦ (m.next, rw (← same) new_ip_at)
    | inr old ↦ ((h.held k old).0, ip_stays (Ipv4.format k) _ (h.held k old).1)
  ]

  pub added-IsConsistent : IsConsistent (added l n m)
  added-IsConsistent = record {
    valid = Valid.allocated-add n h.valid within (ground arith);
    once = Dict.Once-put l.client_id m.next m.by_client h.once;
    client_of = added-client_of;
    client_ip = added-client_ip;
    client_ref = added-client_ref;
    ip_of = added-ip_of;
    ip_client = added-ip_client;
    leased = added-leased;
    held = added-held;
  }
