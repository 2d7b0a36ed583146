-- ===== src/Dhcp/Lease/Expire.antt =====
-- `expire_leases` and `clear`: the removal of several leases.
use sentinel_dns.Common.{
  ℕ, ◌+◌, ◌≡◌, refl, ap, sym, ◌∙◌, true, false, none, some, List, [], ◌∷◌, arith, Text, ◌==◌,
  text_eq_iff, if◌then◌else◌, Bool-cases, inl, inr, member, Distinct, length,
}
use sentinel_dns.Common.Exec.{ok, ◌>>=◌}
use sentinel_dns.Common.Dict
use sentinel_dns.Common.Dict.{get-pop}
use sentinel_dns.Dhcp.Lease.{
  Lease, Manager, time, expired, collect_expired, remove_all, expire_leases, clear,
}
use sentinel_dns.Dhcp.Lease.Consistent.{
  IsConsistent, IsConsistent-reads, removed, remove_lease-IsConsistent,
}
use sentinel_dns.Dhcp.Lease.Lookup.{Held}

-- the manager holds each lease of the list, and none is listed twice
pub record Holds (rs : List ℕ) (m : Manager) : Type 0 where
  pub consistent : IsConsistent m
  pub distinct : Distinct rs
  pub each : (r : ℕ) → member r rs ≡ true → Dict.get (m.objects r).client_id m.by_client ≡ some r

pub Holds-tail :
    (r n : ℕ) (rs : List ℕ) (m : Manager)
    → Holds (r ∷ rs) m
    → IsConsistent (removed r n m)
    → Holds rs (removed r n m)
unfolding member
Holds-tail r n rs m h kept = record {
  consistent = kept;
  distinct = h.distinct.1;
  each = λ q there.
      get-pop (m.objects r).client_id (m.objects q).client_id m.by_client
      ∙ ground (
        arith,
        h.distinct.0,
        h.each q,
        h.each r,
        text_eq_iff (m.objects r).client_id (m.objects q).client_id,
        ap (λ t. Dict.get t m.by_client),
      );
}

pub Held-head : (r : ℕ) (rs : List ℕ) (m : Manager) → Holds (r ∷ rs) m → Held r m
unfolding member
Held-head r rs m h = (h.consistent, h.each r (ground arith))

-- Removing leases that the manager holds keeps the invariant and raises nothing.
pub remove_all-IsConsistent :
    (rs : List ℕ) (m : Manager)
    → Holds rs m
    → ((remove_all rs m).0 ≡ ok tt) × IsConsistent (remove_all rs m).1
unfolding remove_all ◌>>=◌
remove_all-IsConsistent [] m h = (refl, h.consistent)
remove_all-IsConsistent (r ∷ rs) m h =
    let own = Held-head r rs m h in
    let (n, e, kept) = remove_lease-IsConsistent r own.0 own.1 in
    rw e (remove_all-IsConsistent rs (removed r n m) (Holds-tail r n rs m h kept))

-- the leases whose `expired` is true, each at the reading that the loop takes for it
unfoldable pub due : List ℕ → (ℕ → Lease) → (ℕ → ℕ) → ℕ → List ℕ
due [] objects readings k = []
due (r ∷ rs) objects readings k =
    let rest = due rs objects readings (k + 1) in
    if expired (objects r) (readings k) then r ∷ rest else rest

pub collect_expired_lem :
    (rs : List ℕ) (m : Manager)
    → collect_expired rs m
      ≡ (ok (due rs m.objects m.readings m.reads), record m { reads = m.reads + length rs })
unfolding collect_expired due time ◌>>=◌
collect_expired_lem [] m = ground arith
collect_expired_lem (r ∷ rs) m =
    rw (collect_expired_lem rs (record m { reads = m.reads + 1 })) (ground arith)

pub remove_all-none :
    (c : Text) (rs : List ℕ) (m : Manager)
    → Holds rs m
    → Dict.get c m.by_client ≡ none
    → Dict.get c (remove_all rs m).1.by_client ≡ none
unfolding remove_all ◌>>=◌
remove_all-none c [] m h e = e
remove_all-none c (r ∷ rs) m h e =
    let own = Held-head r rs m h in
    let (n, done, kept) = remove_lease-IsConsistent r own.0 own.1 in
    rw done (
      remove_all-none c rs (removed r n m) (Holds-tail r n rs m h kept)
        (get-pop (m.objects r).client_id c m.by_client ∙ ground arith))

-- one removal, seen by the client `c` whose lease is `q`
get_after_removal :
    (c : Text) (q r : ℕ) (m : Manager)
    → Held r m
    → Dict.get c m.by_client ≡ some q
    → Dict.get c (Dict.pop (m.objects r).client_id m.by_client) ≡ (if r == q then none else some q)
get_after_removal c q r m h e =
    get-pop (m.objects r).client_id c m.by_client
    ∙ ground (
      arith,
      h.1,
      h.0.client_of c q,
      text_eq_iff (m.objects r).client_id c,
      ap (λ t. Dict.get t m.by_client),
    )

-- The leases of the list are gone afterwards, and all others are as before.
pub remove_all-get :
    (c : Text) (q : ℕ) (rs : List ℕ) (m : Manager)
    → Holds rs m
    → Dict.get c m.by_client ≡ some q
    → Dict.get c (remove_all rs m).1.by_client ≡ (if member q rs then none else some q)
unfolding remove_all member ◌>>=◌
remove_all-get c q [] m h e = e
remove_all-get c q (r ∷ rs) m h e =
    let own = Held-head r rs m h in
    let (n, done, kept) = remove_lease-IsConsistent r own.0 own.1 in
    let tail = Holds-tail r n rs m h kept in
    let after = get_after_removal c q r m own e in
    rw done (elim (Bool-cases (r == q)) [
      | inl same ↦ rw same (remove_all-none c rs (removed r n m) tail (after ∙ rw same))
      | inr other ↦ rw other (remove_all-get c q rs (removed r n m) tail (after ∙ rw other))
    ])

pub values-Holds : (m : Manager) → IsConsistent m → Holds (Dict.values m.by_client) m
values-Holds m h = record {
  consistent = h;
  distinct =
      Dict.values-Distinct m.by_client h.once
        (λ k j r e f. sym (h.client_of k r e) ∙ h.client_of j r f);
  each = λ r there.
      let (k, found) = Dict.values-get m.by_client r h.once there in
      rw (h.client_of k r found) found;
}

member-due :
    (q : ℕ) (rs : List ℕ) (objects : ℕ → Lease) (readings : ℕ → ℕ) (k : ℕ)
    → member q (due rs objects readings k) ≡ true
    → member q rs ≡ true
unfolding member due
member-due q [] objects readings k e = e
member-due q (r ∷ rs) objects readings k e =
    ground (arith, member-due q rs objects readings (k + 1))

due-Distinct :
    (rs : List ℕ) (objects : ℕ → Lease) (readings : ℕ → ℕ) (k : ℕ)
    → Distinct rs
    → Distinct (due rs objects readings k)
unfolding due
due-Distinct [] objects readings k d = tt
due-Distinct (r ∷ rs) objects readings k d = elim (Bool-cases (expired (objects r) (readings k))) [
  | inl late ↦ rw late (fresh, due-Distinct rs objects readings (k + 1) d.1)
  | inr early ↦ rw early (due-Distinct rs objects readings (k + 1) d.1)
]
  where
    fresh : member r (due rs objects readings (k + 1)) ≡ false
    fresh = elim (Bool-cases (member r (due rs objects readings (k + 1)))) [
      | inl there ↦ absurd (ground (arith, member-due r rs objects readings (k + 1), d.0))
      | inr gone ↦ gone
    ]

-- what `expire_leases` removes
abbrev pub due_now : Manager → List ℕ
due_now m = due (Dict.values m.by_client) m.objects m.readings m.reads

-- the manager after the first loop
abbrev pub read_all : Manager → Manager
read_all m = record m { reads = m.reads + length (Dict.values m.by_client) }

pub due-Holds : (m : Manager) → IsConsistent m → Holds (due_now m) (read_all m)
due-Holds m h =
    let all = values-Holds m h in
    record {
      consistent = IsConsistent-reads (m.reads + length (Dict.values m.by_client)) h;
      distinct = due-Distinct (Dict.values m.by_client) m.objects m.readings m.reads all.distinct;
      each = λ r there.
          all.each r (member-due r (Dict.values m.by_client) m.objects m.readings m.reads there);
    }

pub expire_leases_lem :
    (m : Manager)
    → IsConsistent m
    → expire_leases m ≡ (ok (length (due_now m)), (remove_all (due_now m) (read_all m)).1)
unfolding expire_leases ◌>>=◌
expire_leases_lem m h =
    let removal = remove_all-IsConsistent (due_now m) (read_all m) (due-Holds m h) in
    rw (collect_expired_lem (Dict.values m.by_client) m) (rw removal.0)

pub expire_leases-IsConsistent : (m : Manager) → IsConsistent m → IsConsistent (expire_leases m).1
expire_leases-IsConsistent m h =
    rw (expire_leases_lem m h) (remove_all-IsConsistent (due_now m) (read_all m) (due-Holds m h)).1

pub clear-IsConsistent : (m : Manager) → IsConsistent m → IsConsistent (clear m).1
unfolding clear ◌>>=◌
clear-IsConsistent m h = (remove_all-IsConsistent (Dict.values m.by_client) m (values-Holds m h)).1
