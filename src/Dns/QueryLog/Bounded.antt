-- ===== src/Dns/QueryLog/Bounded.antt =====
-- The bounds of the entries in memory of dns_engine/query_log.py, over every sequence of calls.
use sentinel_dns.Common.{
  ℕ, zero, suc, ◌≤◌, ◌≡◌, refl, sym, subst, true, false, Option, none, some, List, [], ◌∷◌, ◌++◌,
  arith, length, drop, Bool-cases, inl, inr,
}
use sentinel_dns.Common.Exec.{raise, err, value_error}
use sentinel_dns.Common.Triple.{Keeps, Keeps-pure, Keeps-catch, Triple_state}
use sentinel_dns.Common.Deque.{last, push, length-last}
use sentinel_dns.Dns.QueryLog
use sentinel_dns.Dns.QueryLog.{
  Entry, QueryLog, Event, clean_domain, is_rcode, is_valid, new_entry, remove_found, write_file,
  is_os_error,
}
use sentinel_dns.Dns.QueryLog.Recent.{Remembers, entry, remembered, write_file-Keeps}

-- an entry that `record` may make
pub record IsSane (e : Entry) : Type 0 where
  pub domain : (1 ≤ length e.domain) × (length e.domain ≤ 253)
  pub query_type : e.query_type ≤ 65535
  pub query_class : e.query_class ≤ 65535
  pub rcode : is_rcode e.rcode ≡ true

abbrev pub AreSane : List Entry → Type 0
AreSane [] = Unit
AreSane (e ∷ es) = IsSane e × AreSane es

pub record IsBoundedLog (q : QueryLog) : Type 0 where
  pub room : 1 ≤ q.max_entries
  pub bounded : length q.entries ≤ q.max_entries
  pub sane : AreSane q.entries

pub data Call : Type 0 where
  record_event : Event → Call
  clear : Call

unfoldable pub step : Call → QueryLog → QueryLog
step (Call.record_event event) q = (QueryLog.record_event event q).1
step Call.clear q = (QueryLog.clear q).1

unfoldable pub run : List Call → QueryLog → QueryLog
run [] q = q
run (call ∷ calls) q = run calls (step call q)

AreSane-append : (xs ys : List Entry) → AreSane xs → AreSane ys → AreSane (xs ++ ys)
AreSane-append [] ys h k = k
AreSane-append (x ∷ xs) ys h k = (h.0, AreSane-append xs ys h.1 k)

AreSane-drop : (n : ℕ) (xs : List Entry) → AreSane xs → AreSane (drop n xs)
AreSane-drop zero xs h = h
AreSane-drop (suc n) [] h = tt
AreSane-drop (suc n) (x ∷ xs) h = AreSane-drop n xs h.1

AreSane-push : (n : ℕ) (e : Entry) (xs : List Entry) → IsSane e → AreSane xs → AreSane (push n e xs)
unfolding push last
AreSane-push n e xs h k = AreSane-drop _ _ (AreSane-append xs (e ∷ []) k (h, tt))

new_entry-IsSane : (now : ℕ) (event : Event) → is_valid event ≡ true → IsSane (new_entry now event)
unfolding new_entry is_valid
new_entry-IsSane now event h = record {
  domain = (ground arith, ground arith);
  query_type = ground arith;
  query_class = ground arith;
  rcode = ground arith;
}

Remembers-IsBoundedLog :
    (n : ℕ) (entries : List Entry) (q : QueryLog)
    → 1 ≤ n
    → length entries ≤ n
    → AreSane entries
    → Remembers n entries q
    → IsBoundedLog q
Remembers-IsBoundedLog n entries q h k s r = record {
  room = subst (λ m. 1 ≤ m) (sym r.0) h;
  bounded = ground (arith, r.0, r.1);
  sane = subst AreSane (sym r.1) s;
}

-- an event that fails a check leaves everything as it was
pub refused :
    (event : Event) (q : QueryLog)
    → is_valid event ≡ false
    → QueryLog.record_event event q ≡ (err value_error, q)
unfolding QueryLog.record_event raise
refused event q invalid = rw invalid refl

remove_found-Keeps :
    (n : ℕ) (entries : List Entry) (file : Option (List (Option Entry)))
    → Keeps (Remembers n entries) (remove_found file)
unfolding remove_found
remove_found-Keeps n entries none = Keeps-pure tt
remove_found-Keeps n entries (some lines) =
    Keeps-catch is_os_error (write_file-Keeps n entries none) (Keeps-pure tt)

record_event-IsBoundedLog :
    (event : Event) (q : QueryLog) → IsBoundedLog q → IsBoundedLog (QueryLog.record_event event q).1
record_event-IsBoundedLog event q h = elim (Bool-cases (is_valid event)) [
  | inl valid ↦
      Remembers-IsBoundedLog q.max_entries (push q.max_entries (entry event q) q.entries) _ h.room
        (unfold push in length-last q.max_entries (q.entries ++ entry event q ∷ []))
        (AreSane-push q.max_entries (entry event q) q.entries
          (new_entry-IsSane (q.readings q.reads) event valid) h.sane)
        (remembered event q valid)
  | inr invalid ↦ subst (λ p. IsBoundedLog p.1) (sym (refused event q invalid)) h
]

clear-IsBoundedLog : (q : QueryLog) → IsBoundedLog q → IsBoundedLog (QueryLog.clear q).1
unfolding QueryLog.clear
clear-IsBoundedLog q h = Remembers-IsBoundedLog q.max_entries [] _ h.room (omega arith) tt (
    Triple_state (remove_found-Keeps q.max_entries [] q.file) (λ _ s k. k) (λ s k. k)
      (record q { entries = [] }) (refl, refl))

step-IsBoundedLog : (call : Call) (q : QueryLog) → IsBoundedLog q → IsBoundedLog (step call q)
unfolding step
step-IsBoundedLog (Call.record_event event) q h = record_event-IsBoundedLog event q h
step-IsBoundedLog Call.clear q h = clear-IsBoundedLog q h

-- From a log within its bounds, whatever the events and whatever the writes to the file do: there are
-- never more than `max_entries` entries in memory, and every entry has a domain of 1 to 253
-- characters, a type and a class below 65536, and a response code below 16 or none.
pub run-IsBoundedLog :
    (calls : List Call) (q : QueryLog) → IsBoundedLog q → IsBoundedLog (run calls q)
unfolding run
run-IsBoundedLog [] q h = h
run-IsBoundedLog (call ∷ calls) q h =
    run-IsBoundedLog calls (step call q) (step-IsBoundedLog call q h)
