-- ===== src/Dhcp/Lease/Deadline.antt =====
-- Which leases `expire_leases` removes, against a clock that does not go back; and what `clear`
-- leaves.
use sentinel_dns.Common.{
  ℕ, suc, ◌+◌, ◌-◌, ◌<◌, ◌≤◌, ◌≡◌, refl, ap, ◌∙◌, true, false, none, some, List, [], ◌∷◌, arith,
  Text, if◌then◌else◌, Bool-cases, Option-cases, inl, inr, member, length,
}
use sentinel_dns.Common.Exec.{◌>>=◌}
use sentinel_dns.Common.Dict
use sentinel_dns.Ipv4
use sentinel_dns.Dhcp.Lease.{Lease, Manager, expired, remove_all, expire_leases, clear}
use sentinel_dns.Dhcp.Lease.Consistent.{IsConsistent}
use sentinel_dns.Dhcp.Lease.Expire.{
  remove_all-none, remove_all-get, remove_all-IsConsistent, values-Holds, due, due_now, read_all,
  due-Holds, expire_leases_lem,
}

-- a clock that does not go back
abbrev pub Monotone : (ℕ → ℕ) → Type 0
Monotone readings = (i j : ℕ) → i ≤ j → readings i ≤ readings j

module _ (q : ℕ) (objects : ℕ → Lease) (readings : ℕ → ℕ) (mono : Monotone readings) where
  due_late :
      (rs : List ℕ) (k : ℕ)
      → member q rs ≡ true
      → (objects q).lease_end ≤ readings k
      → member q (due rs objects readings k) ≡ true
  unfolding member due expired
  due_late [] k there late = there
  due_late (r ∷ rs) k there late = ground (arith, due_late rs (k + 1), mono k (k + 1))

  due_early :
      (rs : List ℕ) (k : ℕ)
      → readings (k + (length rs - 1)) < (objects q).lease_end
      → member q (due rs objects readings k) ≡ false
  unfolding member due expired
  due_early [] k early = refl
  due_early (r ∷ []) k early =
      let here : k ≡ k + 0 = omega arith in ground (arith, ap readings here)
  due_early (r ∷ s ∷ rs) k early =
      let shifted : k + 1 + (length (s ∷ rs) - 1) ≡ k + (length (r ∷ s ∷ rs) - 1) = omega arith in
      let rest = due_early (s ∷ rs) (k + 1) (rw shifted early) in
      ground (arith, rest, mono k (k + (length (r ∷ s ∷ rs) - 1)))

value_of :
    (c : Text) (q : ℕ) (d : Dict.Dict ℕ) → Dict.get c d ≡ some q → member q (Dict.values d) ≡ true
unfolding Dict.get member
value_of c q [] e = cc
value_of c q ((j, v) ∷ d) e = ground (arith, value_of c q d)

length-values : (d : Dict.Dict ℕ) → length (Dict.values d) ≡ length d
length-values [] = refl
length-values (e ∷ d) = ap suc (length-values d)

module _ (m : Manager) (c : Text) (q : ℕ) (h : IsConsistent m) (mono : Monotone m.readings)
    (found : Dict.get c m.by_client ≡ some q) where
  after_expiry :
      Dict.get c (expire_leases m).1.by_client ≡ (if member q (due_now m) then none else some q)
  after_expiry =
      rw (expire_leases_lem m h) (remove_all-get c q (due_now m) (read_all m) (due-Holds m h) found)

  -- `expire_leases` takes the lease of a client away if it had ended when the call began, on a
  -- consistent manager whose clock does not go back.
  pub expire_leases_late :
      (m.objects q).lease_end ≤ m.readings m.reads → Dict.get c (expire_leases m).1.by_client ≡ none
  expire_leases_late late =
      after_expiry
      ∙ rw (
          due_late q m.objects m.readings mono (Dict.values m.by_client) m.reads
            (value_of c q m.by_client found) late)

  -- `expire_leases` leaves the lease of a client alone if it has not ended by the last reading that
  -- the call takes, on a consistent manager whose clock does not go back.
  pub expire_leases_early :
      m.readings (m.reads + (length m.by_client - 1)) < (m.objects q).lease_end
      → Dict.get c (expire_leases m).1.by_client ≡ some q
  expire_leases_early early =
      after_expiry
      ∙ rw (
          due_early q m.objects m.readings mono (Dict.values m.by_client) m.reads
            (rw (length-values m.by_client) early))

remove_all-nothing :
    (c : Text) (m : Manager)
    → IsConsistent m
    → Dict.get c (remove_all (Dict.values m.by_client) m).1.by_client ≡ none
remove_all-nothing c m h = elim (Option-cases (Dict.get c m.by_client)) [
  | inl gone ↦ remove_all-none c (Dict.values m.by_client) m (values-Holds m h) gone
  | inr (q, found) ↦
      remove_all-get c q (Dict.values m.by_client) m (values-Holds m h) found
      ∙ rw (value_of c q m.by_client found)
]

clear_lem : (m : Manager) → clear m ≡ remove_all (Dict.values m.by_client) m
unfolding clear ◌>>=◌
clear_lem m = refl

no_address :
    (m : Manager)
    → IsConsistent m
    → ((c : Text) → Dict.get c m.by_client ≡ none)
    → (n : ℕ) → member n m.pool.allocated ≡ false
no_address m h empty n = elim (Bool-cases (member n m.pool.allocated)) [
  | inl taken ↦
      let (r, found) = h.held n taken in
      absurd (cc (empty (m.objects r).client_id, h.ip_client (Ipv4.format n) r found))
  | inr free ↦ free
]

-- After `clear` on a consistent manager no client has a lease and no address of the pool is
-- allocated.
pub clear-nothing :
    (m : Manager)
    → IsConsistent m
    → ((c : Text) → Dict.get c (clear m).1.by_client ≡ none)
      × ((n : ℕ) → member n (clear m).1.pool.allocated ≡ false)
clear-nothing m h =
    let kept = remove_all-IsConsistent (Dict.values m.by_client) m (values-Holds m h) in
    rw (clear_lem m) (
      (λ c. remove_all-nothing c m h),
      no_address (remove_all (Dict.values m.by_client) m).1 kept.1 (λ c. remove_all-nothing c m h),
    )
