-- ===== src/Dns/Metrics/Tests.antt =====
-- Runs of dns_engine/metrics.py, and its theorems at concrete calls.
use sentinel_dns.Common.{
  ◌-◌, suc, Bool-cases, inl, inr, ℕ, ◌*◌, ◌≡◌, refl, List, [], ◌∷◌, arith, codes, length, ltb,
  if◌then◌else◌,
}
use sentinel_dns.Common.Deque.{last, push}
use sentinel_dns.Text
use sentinel_dns.Dns.Metrics
use sentinel_dns.Dns.Metrics.{
  Metrics, Latency, history_size, now_second, init, snapshot, close_bucket, close_buckets,
  rotate_bucket, count_rcode,
}
use sentinel_dns.Dns.Metrics.Seconds
use sentinel_dns.Dns.Metrics.Tallies.{per_second}
use sentinel_dns.Dns.Metrics.Seconds.{IsForward, logged, snapshot_recent_queries}
use sentinel_dns.Dns.Metrics.Bounded
use sentinel_dns.Dns.Metrics.Bounded.{Call, IsWithin, run, init-IsWithin, run-IsWithin}

evaluated : Unit {0}
unfolding run Seconds.log Seconds.log_all Bounded.step Metrics.record_query Metrics.record_allowed
    Metrics.record_blocked Metrics.record_security_event Metrics.record_cache_hit
    Metrics.record_cache_miss Metrics.record_upstream_success Metrics.record_upstream_failure
    Metrics.record_rcode Metrics.record_latency snapshot Metrics.reset init close_bucket
    close_buckets rotate_bucket count_rcode last push Text.strip Text.lstrip Text.rstrip_by
    Text.is_space
evaluated = tt

-- a clock of one second for each of the first three readings, and of an hour behind them
abbrev late : ℕ → ℕ
late n = (if ltb n 3 then n else 3600) * 1000000

abbrev zero_clock : ℕ → ℕ
zero_clock n = 0

abbrev calls : List Call
calls =
    Call.record_query
    ∷ Call.record_query
    ∷ Call.record_rcode 19
    ∷ Call.record_latency Latency.negative
    ∷ Call.record_latency (Latency.microseconds 7)
    ∷ Call.record_security_event (codes "  ") (codes " r ") [] (codes "E")
    ∷ []

abbrev busy : Metrics
busy = run calls (init late zero_clock)

counts :
    busy.total_queries ∷ busy.nxdomain ∷ busy.latency_total ∷ busy.ticks ∷ busy.query_history
    ≡ 2 ∷ 1 ∷ 7 ∷ 3 ∷ 0 ∷ 1 ∷ []
unfolding evaluated
counts = refl

event_texts :
    busy.security_events
    ≡ record {
      timestamp = 0;
      event_type = codes "E";
      filter_name = codes "Unknown";
      action = codes "BLOCKED";
      reason = codes "r";
    }
      ∷ []
unfolding evaluated
event_texts = refl

-- after an idle hour the bucket of the last query is still counted, as one of sixty-one
old_bucket : (snapshot busy).0.query_rate ≡ (1, 61)
unfolding evaluated
old_bucket = refl

long_blocked : length (snapshot busy).0.recent_blocked ≡ 61
unfolding evaluated
long_blocked = refl

late-IsForward : IsForward late
late-IsForward i j h = elim (Bool-cases (ltb i 3)) [
  | inl early ↦ rw early (elim (Bool-cases (ltb j 3)) [
    | inl also ↦ rw also (ground arith)
    | inr later ↦ rw later (ground arith)
  ])
  | inr later ↦ rw later (elim (Bool-cases (ltb j 3)) [
    | inl before ↦ absurd (ground arith)
    | inr also ↦ rw also (omega arith)
  ])
]

snapshot_recent_queries_example :
    (snapshot busy).0.recent_queries
    ≡ last 60 (
        per_second 0
          (suc (now_second busy - (logged calls late zero_clock).since))
          (logged calls late zero_clock).seconds)
unfolding evaluated
snapshot_recent_queries_example = snapshot_recent_queries calls late zero_clock late-IsForward

-- one query in each of the seconds 1 and 2
log_of_calls : logged calls late zero_clock ≡ record { since = 0; seconds = 1 ∷ 2 ∷ [] }
unfolding evaluated
log_of_calls = refl

run-IsWithin_example : IsWithin busy
run-IsWithin_example = run-IsWithin calls (init late zero_clock) (init-IsWithin late zero_clock)
