-- ===== src/Dns/QueryLog.antt =====
-- `DNSQueryLog` of dns_engine/query_log.py: the entries in memory, and the file of the last 24 hours. A
-- line of the file is the entry that it encodes, or `none` where `json.loads` or `from_dict` finds no
-- entry in it; encoding and decoding an entry gives it back. Whether a write to the file raises `OSError`
-- is read from `faults`, one for each. Each `time()` takes the next reading of the clock, in
-- microseconds, to which a latency in milliseconds is rounded. No caller gives `record` a timestamp.
pub mod Bounded
pub mod Recent
mod Tests
use Prim.Native.Nat.{min, max}
use mathlib.Core.List.{reverse}
use sentinel_dns.Common.{
  ℕ, ◌+◌, ◌-◌, ◌≡◌, Bool, true, false, not, ◌&&◌, ◌||◌, Option, none, some, List, [], ◌∷◌, ◌++◌,
  map, Text, leb, ltb, ◌==◌, length, if◌then◌else◌,
}
use sentinel_dns.Common.Exec.{
  Error, value_error, os_error, Result, ok, err, Exec, pure, raise, modify, catch, ◌>>=◌, ◌>>◌,
}
use sentinel_dns.Common.Deque.{last, push}
use sentinel_dns.Text.{strip, lower}
use sentinel_dns.Dns.Blocklist.{rstrip_dots}
use sentinel_dns.Dns.Metrics.{Latency}

pub data QueryStatus : Type 0 where
  allowed blocked error : QueryStatus

pub data CacheStatus : Type 0 where
  hit miss not_used : CacheStatus

pub data UpstreamStatus : Type 0 where
  success failed unused : UpstreamStatus

pub record Entry : Type 0 where
  pub timestamp : ℕ
  pub domain : Text
  pub query_type : ℕ
  pub query_class : ℕ
  pub status : QueryStatus
  pub cache : CacheStatus
  pub upstream : UpstreamStatus
  pub rcode : Option ℕ
  pub latency : ℕ

pub record QueryLog : Type 0 where
  pub max_entries : ℕ
  pub entries : List Entry
  pub file : Option (List (Option Entry))
  pub faults : ℕ → Bool
  pub operations : ℕ
  pub readings : ℕ → ℕ
  pub reads : ℕ

-- 24 hours
abbrev pub persistence : ℕ
persistence = 86400000000

-- the loop of `_cleanup_and_load` and of `_cleanup_expired` over the lines
unfoldable pub valid_entries : ℕ → List (Option Entry) → List Entry
valid_entries now [] = []
valid_entries now (none ∷ lines) = valid_entries now lines
valid_entries now (some entry ∷ lines) =
    let rest = valid_entries now lines in
    if entry.timestamp == 0 || ltb persistence (now - entry.timestamp) then rest else entry ∷ rest

-- one operation on the file, which raises or writes what it is given
unfoldable pub write_file : Option (List (Option Entry)) → Exec QueryLog (Unit {0})
unfolding raise
write_file file q =
    if q.faults q.operations
    then (err os_error, record q { operations = q.operations + 1 })
    else (ok tt, record q { file = file; operations = q.operations + 1 })

-- `_rewrite_file`
unfoldable pub rewrite_file : List Entry → Exec QueryLog (Unit {0})
unfolding write_file
rewrite_file entries = write_file (some (map some entries))

abbrev pub lines_of : Option (List (Option Entry)) → List (Option Entry)
lines_of none = []
lines_of (some lines) = lines

-- `_append_persistent`
unfoldable pub append_persistent : Entry → Exec QueryLog (Unit {0})
unfolding write_file
append_persistent entry q = write_file (some (lines_of q.file ++ some entry ∷ [])) q

abbrev pub is_os_error : Error → Bool
is_os_error os_error = true
is_os_error _ = false

-- `_cleanup_expired`
unfoldable pub cleanup_found : ℕ → Option (List (Option Entry)) → Exec QueryLog (Unit {0})
unfolding pure catch rewrite_file valid_entries
cleanup_found now none = pure tt
cleanup_found now (some lines) =
    catch is_os_error (rewrite_file (valid_entries now lines)) (pure tt)

unfoldable pub cleanup_expired : ℕ → Exec QueryLog (Unit {0})
unfolding cleanup_found
cleanup_expired now q = cleanup_found now q.file q

-- `sort` by the timestamp, which keeps the order of equals
unfoldable pub insert_entry : Entry → List Entry → List Entry
insert_entry entry [] = entry ∷ []
insert_entry entry (e ∷ es) =
    let rest = insert_entry entry es in
    if leb entry.timestamp e.timestamp then entry ∷ e ∷ es else e ∷ rest

unfoldable pub sort_entries : List Entry → List Entry
unfolding insert_entry
sort_entries [] = []
sort_entries (entry ∷ entries) = insert_entry entry (sort_entries entries)

-- `_cleanup_and_load`
unfoldable pub load_found : Option (List (Option Entry)) → Exec QueryLog (Unit {0})
unfolding pure modify catch rewrite_file valid_entries sort_entries last ◌>>=◌
load_found none q = pure tt q
load_found (some lines) q =
    let valid = sort_entries (valid_entries (q.readings q.reads) lines) in
    catch is_os_error
      (modify (λ p. record p { entries = last p.max_entries valid; reads = p.reads + 1 })
        >> rewrite_file valid)
      (pure tt) q

unfoldable pub cleanup_and_load : Exec QueryLog (Unit {0})
unfolding load_found
cleanup_and_load q = load_found q.file q

-- `__init__`
unfoldable pub init : ℕ → QueryLog → Result QueryLog
unfolding cleanup_and_load
init max_entries q =
    if ltb max_entries 1
    then err value_error
    else ok (cleanup_and_load (record q { max_entries = max_entries; entries = [] })).1

-- what `record` checks and makes of its arguments
unfoldable pub clean_domain : Text → Text
unfolding strip lower rstrip_dots
clean_domain domain = rstrip_dots (lower (strip domain))

abbrev pub is_rcode : Option ℕ → Bool
is_rcode none = true
is_rcode (some rcode) = leb rcode 15

abbrev pub is_finite : Latency → Bool
is_finite (Latency.microseconds n) = true
is_finite _ = false

abbrev pub value_of : Latency → ℕ
value_of (Latency.microseconds n) = n
value_of _ = 0

-- the arguments of `record`
pub record Event : Type 0 where
  pub domain : Text
  pub query_type : ℕ
  pub query_class : ℕ
  pub status : QueryStatus
  pub cache : CacheStatus
  pub upstream : UpstreamStatus
  pub rcode : Option ℕ
  pub latency : Latency

unfoldable pub is_valid : Event → Bool
unfolding clean_domain
is_valid event =
    let domain = clean_domain event.domain in
    not (length domain == 0)
    && leb (length domain) 253
    && leb event.query_type 65535
    && leb event.query_class 65535
    && is_rcode event.rcode
    && is_finite event.latency

unfoldable pub new_entry : ℕ → Event → Entry
unfolding clean_domain
new_entry now event = record {
  timestamp = now;
  domain = clean_domain event.domain;
  query_type = event.query_type;
  query_class = event.query_class;
  status = event.status;
  cache = event.cache;
  upstream = event.upstream;
  rcode = event.rcode;
  latency = value_of event.latency;
}

-- the block under the lock
unfoldable pub enter : Entry → Exec QueryLog (Unit {0})
unfolding modify catch pure append_persistent cleanup_expired push ◌>>=◌
enter entry =
    modify (λ q. record q { entries = push q.max_entries entry q.entries })
    >> catch (λ e. true) (append_persistent entry >> cleanup_expired entry.timestamp) (pure tt)

unfoldable pub record_event : Event → Exec QueryLog (Unit {0})
unfolding is_valid new_entry enter raise
record_event event q =
    if is_valid event
    then enter (new_entry (q.readings q.reads) event) (record q { reads = q.reads + 1 })
    else raise value_error q

-- `recent`
unfoldable pub recent : ℕ → QueryLog → List Entry
unfolding last
recent limit q = reverse (last (max 1 (min limit q.max_entries)) q.entries)

-- `clear`; the file is removed where there is one
unfoldable pub remove_found : Option (List (Option Entry)) → Exec QueryLog (Unit {0})
unfolding pure catch write_file
remove_found none = pure tt
remove_found (some lines) = catch is_os_error (write_file none) (pure tt)

unfoldable pub clear : Exec QueryLog (Unit {0})
unfolding remove_found
clear q = remove_found q.file (record q { entries = [] })

-- `__len__`
abbrev pub size : QueryLog → ℕ
size q = length q.entries
