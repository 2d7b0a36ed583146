-- ===== src/Dns/QueryLog/Tests.antt =====
-- Runs of dns_engine/query_log.py, and its theorems at concrete events.
use sentinel_dns.Common.{ℕ, ◌+◌, ◌≡◌, refl, none, some, [], ◌∷◌, arith, codes, ltb}
use sentinel_dns.Common.Exec.{ok, err, value_error, pure, raise, modify, catch, ◌>>=◌}
use sentinel_dns.Common.Deque.{last, push}
use sentinel_dns.Text
use sentinel_dns.Dns.Blocklist
use sentinel_dns.Dns.Metrics.{Latency}
use sentinel_dns.Dns.QueryLog
use sentinel_dns.Dns.QueryLog.{
  Entry, QueryLog, Event, QueryStatus, CacheStatus, UpstreamStatus, record_event, recent, clear,
  init, valid_entries, lines_of,
}
use sentinel_dns.Dns.QueryLog.Recent.{recent-record_event}
use sentinel_dns.Dns.QueryLog.Bounded
use sentinel_dns.Dns.QueryLog.Bounded.{IsSane, IsBoundedLog, Call, run, run-IsBoundedLog}

evaluated : Unit {0}
unfolding record_event recent clear init valid_entries last push catch modify pure raise ◌>>=◌ run
    Bounded.step QueryLog.is_valid QueryLog.new_entry QueryLog.enter QueryLog.clean_domain
    QueryLog.append_persistent QueryLog.cleanup_expired QueryLog.cleanup_found QueryLog.write_file
    QueryLog.rewrite_file QueryLog.remove_found QueryLog.cleanup_and_load QueryLog.load_found
    QueryLog.sort_entries QueryLog.insert_entry Blocklist.rstrip_dots Text.strip Text.lstrip
    Text.rstrip_by Text.is_space Text.lower Text.lower_char
evaluated = tt

abbrev event : Event
event = record {
  domain = codes " A.b. ";
  query_type = 1;
  query_class = 1;
  status = QueryStatus.allowed;
  cache = CacheStatus.miss;
  upstream = UpstreamStatus.success;
  rcode = some 0;
  latency = Latency.microseconds 900;
}

abbrev made : ℕ → Entry
made now = record {
  timestamp = now;
  domain = codes "a.b";
  query_type = 1;
  query_class = 1;
  status = QueryStatus.allowed;
  cache = CacheStatus.miss;
  upstream = UpstreamStatus.success;
  rcode = some 0;
  latency = 900;
}

-- two entries of memory; the first write to the file fails
abbrev log : QueryLog
log = record {
  max_entries = 2;
  entries = made 5 ∷ made 7 ∷ [];
  file = some (some (made 5) ∷ none ∷ some (made 7) ∷ []);
  faults = λ n. ltb n 1;
  operations = 0;
  readings = λ n. n + 86400000006;
  reads = 0;
}

abbrev writable : QueryLog
writable = record log { operations = 1 }

unwritten :
    record_event event log
    ≡ (ok tt, record log { entries = made 7 ∷ made 86400000006 ∷ []; operations = 1; reads = 1 })
unfolding evaluated
unwritten = refl

-- the root domain is no domain for the log
root_refused : record_event (record event { domain = codes "." }) log ≡ (err value_error, log)
unfolding evaluated
root_refused = refl

-- loading sorts by time, and keeps what is left of the last 24 hours
loads :
    init 1 writable
    ≡ ok (record writable {
      max_entries = 1;
      entries = made 7 ∷ [];
      file = some (some (made 7) ∷ []);
      operations = 2;
      reads = 1;
    })
unfolding evaluated
loads = refl

recent-record_event_example :
    ((record_event event log).0 ≡ ok tt)
    × (recent 5 (record_event event log).1 ≡ made 86400000006 ∷ made 7 ∷ [])
unfolding evaluated
recent-record_event_example = recent-record_event event log 5 (omega arith) refl

made-IsSane : (now : ℕ) → IsSane (made now)
made-IsSane now = record {
  domain = omega arith;
  query_type = omega arith;
  query_class = omega arith;
  rcode = refl;
}

log-IsBoundedLog : IsBoundedLog log
log-IsBoundedLog = record {
  room = omega arith;
  bounded = omega arith;
  sane = (made-IsSane 5, (made-IsSane 7, tt));
}

run-IsBoundedLog_example : IsBoundedLog (run (Call.record_event event ∷ Call.clear ∷ []) log)
run-IsBoundedLog_example =
    run-IsBoundedLog (Call.record_event event ∷ Call.clear ∷ []) log log-IsBoundedLog
