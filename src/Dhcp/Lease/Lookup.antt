-- ===== src/Dhcp/Lease/Lookup.antt =====
-- The lookups of the lease manager: what they return is what the manager holds afterwards.
use sentinel_dns.Common.{ℕ, ◌+◌, ◌≡◌, ◌⊎◌, Option, none, some, arith, Text, text_eq_iff, inl, inr}
use sentinel_dns.Common.Exec.{ok}
use sentinel_dns.Common.Triple.{
  Triple, Triple-pure, Triple-bind, Triple-gets, Triple-lift, Triple-if, Triple_weaken,
  Triple_state,
}
use sentinel_dns.Common.Dict
use sentinel_dns.Common.Dict.{get-put, get-pop}
use sentinel_dns.Text.{strip}
use sentinel_dns.Dhcp.Lease.{
  Manager, time, expired, validate_client_id, remove_lease, live, get_by_client, get_by_ip,
}
use sentinel_dns.Dhcp.Lease.Consistent.{IsConsistent, IsConsistent-reads, remove_lease-IsConsistent}

-- the manager is consistent, and `o` is its entry for the client `c`
abbrev pub Client : Text → Option ℕ → Manager → Type 0
Client c o m = IsConsistent m × (Dict.get c m.by_client ≡ o)

-- the manager holds the lease behind `r`
abbrev pub Held : ℕ → Manager → Type 0
Held r m = IsConsistent m × (Dict.get (m.objects r).client_id m.by_client ≡ some r)

-- a predicate that does not depend on how often the clock was read
abbrev pub IsStable : (Manager → Type 0) → Type 0
IsStable P = (m : Manager) (k : ℕ) → P m → P (record m { reads = k })

pub Triple-time : {P E : Manager → Type 0} → IsStable P → Triple P time (λ now. P) E
unfolding time
Triple-time keep = record { at = λ m h. keep m (m.reads + 1) h }

pub Client-reads : (c : Text) (o : Option ℕ) → IsStable (Client c o)
Client-reads c o m k h = (IsConsistent-reads k h.0, h.1)

pub Held-of_Client : (c : Text) (r : ℕ) (m : Manager) → Client c (some r) m → Held r m
Held-of_Client c r m h = (h.0, rw (h.0.client_of c r h.1) h.1)

-- Taking out a lease leaves no entry for its client, and brings none back for another.
pub remove_lease-Client :
    (c : Text) (r : ℕ)
    → Triple
        (λ m. Held r m × (((m.objects r).client_id ≡ c) ⊎ (Dict.get c m.by_client ≡ none)))
        (remove_lease r)
        (λ _. Client c none)
        IsConsistent
remove_lease-Client c r = record {
  at = λ m (h, why).
      let (n, e, kept) = remove_lease-IsConsistent r h.0 h.1 in rw e (kept, absent m why);
}
  where
    absent :
        (m : Manager)
        → ((m.objects r).client_id ≡ c) ⊎ (Dict.get c m.by_client ≡ none)
        → Dict.get c (Dict.pop (m.objects r).client_id m.by_client) ≡ none
    absent m why = ground (
      arith,
      get-pop (m.objects r).client_id c m.by_client,
      text_eq_iff (m.objects r).client_id c,
    )

live_lem :
    {P : Manager → Type 0} {Q : Option ℕ → Manager → Type 0} (r : ℕ)
    → IsStable P
    → Triple P (remove_lease r) (λ _. Q none) IsConsistent
    → ((m : Manager) → P m → Q (some r) m)
    → Triple P (live (some r)) Q IsConsistent
unfolding live
live_lem r stable taken kept = Triple-bind (Triple-time stable) λ now.
    Triple-bind (Triple-gets (λ m. m.objects r)) λ lease.
      Triple-if (expired lease now)
        (λ _. Triple-bind (Triple_weaken (λ m h. h.0) (λ _ m h. h) taken) (λ _. Triple-pure none))
        (λ _. Triple_weaken (λ m h. kept m h.0) (λ _ m h. h) (Triple-pure (some r)))

live-Client : (c : Text) (o : Option ℕ) → Triple (Client c o) (live o) (Client c) IsConsistent
unfolding live
live-Client c none = Triple-pure none
live-Client c (some r) =
    live_lem r (Client-reads c (some r))
      (Triple_weaken (λ m h. (Held-of_Client c r m h, inl (h.0.client_of c r h.1))) (λ _ m h. h)
        (remove_lease-Client c r))
      (λ m h. h)

-- the manager has no lease for the client `c`, and `o` is its entry for the address `a`
abbrev pub Address : Text → Text → Option ℕ → Manager → Type 0
Address c a o m = IsConsistent m × (Dict.get c m.by_client ≡ none) × (Dict.get a m.by_ip ≡ o)

Held-of_Address : (c a : Text) (r : ℕ) (m : Manager) → Address c a (some r) m → Held r m
Held-of_Address c a r m h = (h.0, h.0.ip_client a r h.2)

-- the same for an entry found by address, for a client that has no lease
live-Address :
    (c a : Text) (o : Option ℕ) → Triple (Address c a o) (live o) (λ _. Client c none) IsConsistent
unfolding live
live-Address c a none = Triple_weaken (λ m h. (h.0, h.1)) (λ _ m h. h) (Triple-pure none)
live-Address c a (some r) =
    live_lem r (λ m k h. (IsConsistent-reads k h.0, h.1, h.2))
      (Triple_weaken (λ m h. (Held-of_Address c a r m h, inr h.1)) (λ _ m h. h)
        (remove_lease-Client c r))
      (λ m h. (h.0, h.1))

pub validate_client_id_ok :
    (client_id c : Text) → validate_client_id client_id ≡ ok c → c ≡ strip client_id
unfolding validate_client_id
validate_client_id_ok client_id c e = ground arith

-- `get_by_client` returns the entry that the manager holds afterwards.
pub get_by_client-Client :
    (client_id : Text)
    → Triple IsConsistent (get_by_client client_id) (Client (strip client_id)) IsConsistent
unfolding get_by_client
get_by_client-Client client_id = Triple-bind (Triple-lift (validate_client_id client_id)) λ c.
    Triple-bind (Triple-gets (λ m. Dict.get c m.by_client)) λ entry.
      Triple_weaken (λ m h. (h.0.0, rw (← validate_client_id_ok client_id c h.0.1) h.1))
        (λ _ m h. h) (live-Client (strip client_id) entry)

-- `get_by_ip` gives no lease to a client that has none.
pub get_by_ip-Client :
    (c a : Text) → Triple (Client c none) (get_by_ip a) (λ _. Client c none) IsConsistent
unfolding get_by_ip
get_by_ip-Client c a =
    Triple-bind (Triple-gets (λ m. Dict.get a m.by_ip))
      λ entry. Triple_weaken (λ m h. (h.0.0, h.0.1, h.1)) (λ _ m h. h) (live-Address c a entry)

-- the same, for any client
remove_lease-keeps : (r : ℕ) → Triple (Held r) (remove_lease r) (λ _. IsConsistent) IsConsistent
remove_lease-keeps r = record {
  at = λ m h. let (n, e, kept) = remove_lease-IsConsistent r h.0 h.1 in rw e kept;
}

live-keeps :
    (a : Text) (o : Option ℕ)
    → Triple
        (λ m. IsConsistent m × (Dict.get a m.by_ip ≡ o))
        (live o)
        (λ _. IsConsistent)
        IsConsistent
unfolding live
live-keeps a none = Triple_weaken (λ m h. h.0) (λ _ m h. h) (Triple-pure none)
live-keeps a (some r) =
    live_lem r (λ m k h. (IsConsistent-reads k h.0, h.1))
      (Triple_weaken (λ m h. (h.0, h.0.ip_client a r h.1)) (λ _ m h. h) (remove_lease-keeps r))
      (λ m h. h.0)

pub get_by_ip-IsConsistent :
    (a : Text) (m : Manager) → IsConsistent m → IsConsistent (get_by_ip a m).1
unfolding get_by_ip
get_by_ip-IsConsistent a m h =
    Triple_state {Q = λ _. IsConsistent}
      (Triple-bind (Triple-gets (λ m. Dict.get a m.by_ip)) λ entry. live-keeps a entry) (λ _ _ k. k)
      (λ _ k. k) m h
