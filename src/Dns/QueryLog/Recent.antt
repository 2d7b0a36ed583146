-- ===== src/Dns/QueryLog/Recent.antt =====
-- What `record` of dns_engine/query_log.py leaves in memory and in the file.
use mathlib.Core.List.{reverse}
use mathlib.Core.Path.{ap₂}
use mathlib.Mathlib.Data.List.Basic.{reverse-concat'}
use Prim.Native.Nat.{min, max}
use sentinel_dns.Common.{
  ℕ, suc, ◌+◌, ◌-◌, ◌≤◌, ◌≡◌, refl, ap, ◌∙◌, subst, true, false, ◌||◌, Option, none, some, List, [],
  ◌∷◌, ◌++◌, map, arith, ltb, ◌==◌, Bool-cases, inl, inr,
}
use sentinel_dns.Common.Exec.{Result, ok, err, pure, modify, caught, catch, ◌>>=◌, ◌>>◌}
use sentinel_dns.Common.Deque.{last, push, last-last, last-append_snoc}
use sentinel_dns.Common.Triple.{Keeps, Keeps-pure, Keeps-catch, Keeps-bind, Triple_state}
use sentinel_dns.Dns.QueryLog.{
  Entry, QueryLog, Event, persistence, valid_entries, write_file, rewrite_file, lines_of,
  append_persistent, is_os_error, cleanup_found, cleanup_expired, is_valid, new_entry, enter,
  record_event, recent,
}

-- the entries in memory
abbrev pub Remembers : ℕ → List Entry → QueryLog → Type 0
Remembers n entries q = (q.max_entries ≡ n) × (q.entries ≡ entries)

module _ (n : ℕ) (entries : List Entry) where
  pub write_file-Keeps :
      (file : Option (List (Option Entry))) → Keeps (Remembers n entries) (write_file file)
  unfolding write_file
  write_file-Keeps file = record {
    at = λ q h. elim (Bool-cases (q.faults q.operations)) [ inl e ↦ rw e h | inr e ↦ rw e h ];
  }

  append_persistent-Keeps : (entry : Entry) → Keeps (Remembers n entries) (append_persistent entry)
  unfolding append_persistent
  append_persistent-Keeps entry = record {
    at = λ q h. (write_file-Keeps (some (lines_of q.file ++ some entry ∷ []))).at q h;
  }

  cleanup_found-Keeps :
      (now : ℕ) (file : Option (List (Option Entry)))
      → Keeps (Remembers n entries) (cleanup_found now file)
  unfolding cleanup_found rewrite_file
  cleanup_found-Keeps now none = Keeps-pure tt
  cleanup_found-Keeps now (some lines) =
      Keeps-catch is_os_error (write_file-Keeps (some (map some (valid_entries now lines))))
        (Keeps-pure tt)

  cleanup_expired-Keeps : (now : ℕ) → Keeps (Remembers n entries) (cleanup_expired now)
  unfolding cleanup_expired
  cleanup_expired-Keeps now = record { at = λ q h. (cleanup_found-Keeps now q.file).at q h }

  persist-Keeps :
      (entry : Entry)
      → Keeps
          (Remembers n entries)
          (catch (λ e. true) (append_persistent entry >> cleanup_expired entry.timestamp) (pure tt))
  persist-Keeps entry =
      Keeps-catch (λ e. true)
        (Keeps-bind (append_persistent-Keeps entry) λ _. cleanup_expired-Keeps entry.timestamp)
        (Keeps-pure tt)

module _ (event : Event) (q : QueryLog) where
  -- the entry that `record` makes
  abbrev pub entry : Entry
  entry = new_entry (q.readings q.reads) event

  pub remembered :
      is_valid event ≡ true
      → Remembers q.max_entries (push q.max_entries entry q.entries) (record_event event q).1
  unfolding record_event enter modify ◌>>=◌
  remembered valid = rw valid (
      Triple_state (persist-Keeps q.max_entries (push q.max_entries entry q.entries) entry)
        (λ _ s h. h) (λ s h. h)
        (record q { reads = q.reads + 1; entries = push q.max_entries entry q.entries })
        (refl, refl))

caught_all : (r : Result (Unit {0})) (s : QueryLog) → (caught (λ e. true) (pure tt) r s).0 ≡ ok tt
unfolding pure
caught_all (ok a) s = refl
caught_all (err e) s = refl

module _ (event : Event) (q : QueryLog) where
  record_event_ok : is_valid event ≡ true → (record_event event q).0 ≡ ok tt
  unfolding record_event enter modify catch ◌>>=◌
  record_event_ok valid = rw valid (caught_all _ _)

  -- `record` does not raise for an event that passes its checks, whether or not the writes to the file
  -- succeed, and `recent` then gives the event's entry first and behind it the newest of the entries
  -- that were there.
  pub recent-record_event :
      (limit : ℕ)
      → 1 ≤ q.max_entries
      → is_valid event ≡ true
      → ((record_event event q).0 ≡ ok tt)
        × (recent limit (record_event event q).1
            ≡ entry event q ∷ reverse (last (max 1 (min limit q.max_entries) - 1) q.entries))
  unfolding recent push
  recent-record_event limit room valid = (
    record_event_ok valid,
    ap₂ (λ n entries. reverse (last (max 1 (min limit n)) entries)) (remembered event q valid).0
          (remembered event q valid).1
        ∙ newest (max 1 (min limit q.max_entries)) (omega arith) (omega arith),
  )
    where
      newest :
          (k : ℕ)
          → 1 ≤ k
          → k ≤ q.max_entries
          → reverse (last k (push q.max_entries (entry event q) q.entries))
            ≡ entry event q ∷ reverse (last (k - 1) q.entries)
      newest k one few =
          let e : k ≡ suc (k - 1) = omega arith in
          ap reverse (
            last-last k q.max_entries (q.entries ++ entry event q ∷ []) few
            ∙ ap (λ i. last i (q.entries ++ entry event q ∷ [])) e
            ∙ last-append_snoc (k - 1) (entry event q) q.entries)
          ∙ reverse-concat' (last (k - 1) q.entries) (entry event q)

-- the file behind an event whose two writes succeed
abbrev pub AreFresh : ℕ → List Entry → Type 0
AreFresh now [] = Unit
AreFresh now (e ∷ es) = ((1 ≤ e.timestamp) × (now ≤ e.timestamp + persistence)) × AreFresh now es

valid_entries-AreFresh :
    (now : ℕ) (lines : List (Option Entry)) → AreFresh now (valid_entries now lines)
unfolding valid_entries
valid_entries-AreFresh now [] = tt
valid_entries-AreFresh now (none ∷ lines) = valid_entries-AreFresh now lines
valid_entries-AreFresh now (some e ∷ lines) =
    elim (Bool-cases (e.timestamp == 0 || ltb persistence (now - e.timestamp))) [
      | inl old ↦ rw old (valid_entries-AreFresh now lines)
      | inr fresh ↦ rw fresh ((ground arith, ground arith), valid_entries-AreFresh now lines)
    ]

valid_entries-snoc :
    (now : ℕ) (lines : List (Option Entry)) (e : Entry)
    → 1 ≤ now
    → e.timestamp ≡ now
    → valid_entries now (lines ++ some e ∷ []) ≡ valid_entries now lines ++ e ∷ []
unfolding valid_entries
valid_entries-snoc now [] e h k = ground (arith, h, k)
valid_entries-snoc now (none ∷ lines) e h k = valid_entries-snoc now lines e h k
valid_entries-snoc now (some f ∷ lines) e h k =
    elim (Bool-cases (f.timestamp == 0 || ltb persistence (now - f.timestamp))) [
      | inl old ↦ rw old (valid_entries-snoc now lines e h k)
      | inr fresh ↦ rw fresh (ap (◌∷◌ f) (valid_entries-snoc now lines e h k))
    ]

module _ (event : Event) (q : QueryLog) where
  written :
      is_valid event ≡ true
      → q.faults q.operations ≡ false
      → q.faults (q.operations + 1) ≡ false
      → (record_event event q).1.file
        ≡ some (
            map some
              (valid_entries (q.readings q.reads) (lines_of q.file ++ some (entry event q) ∷ [])))
  unfolding record_event enter modify catch append_persistent write_file cleanup_expired
      cleanup_found rewrite_file ◌>>=◌
  written valid first second = rw (valid, first, second) refl

  -- Behind an event that passes the checks and whose two writes to the file succeed, the file has the
  -- entries that were in it and are no older than 24 hours, in their order, and then the event's.
  pub record_event_file :
      1 ≤ q.readings q.reads
      → is_valid event ≡ true
      → q.faults q.operations ≡ false
      → q.faults (q.operations + 1) ≡ false
      → let now = q.readings q.reads in
        let kept = valid_entries now (lines_of q.file) in
        ((record_event event q).1.file ≡ some (map some (kept ++ entry event q ∷ [])))
        × AreFresh now (kept ++ entry event q ∷ [])
  unfolding new_entry
  record_event_file began valid first second = (
    written valid first second ∙ ap (λ es. some (map some es)) same,
    subst (AreFresh (q.readings q.reads)) same (
        valid_entries-AreFresh (q.readings q.reads) (lines_of q.file ++ some (entry event q) ∷ [])),
  )
    where
      same :
          valid_entries (q.readings q.reads) (lines_of q.file ++ some (entry event q) ∷ [])
          ≡ valid_entries (q.readings q.reads) (lines_of q.file) ++ entry event q ∷ []
      same = valid_entries-snoc (q.readings q.reads) (lines_of q.file) (entry event q) began refl
