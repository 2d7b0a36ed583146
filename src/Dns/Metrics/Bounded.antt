-- ===== src/Dns/Metrics/Bounded.antt =====
-- The bounds that dns_engine/metrics.py promises, over every sequence of calls.
use Prim.Native.Nat.{min, bit_and}
use sentinel_dns.Common.{
  ℕ, zero, suc, ◌+◌, ◌-◌, ◌≤◌, ◌≡◌, List, [], ◌∷◌, ◌++◌, arith, Text, codes, ◌==◌, length, drop,
  length-take, Bool-cases, inl, inr,
}
use sentinel_dns.Common.Deque.{last, push, length-last, length-push}
use sentinel_dns.Text.{strip}
use sentinel_dns.Dns.Metrics
use sentinel_dns.Dns.Metrics.{
  SecurityEvent, Metrics, Latency, history_size, security_event_history_size, now_second, ticked,
  or_default, sum, close_bucket, close_buckets, rotate_bucket, count_rcode,
}

-- the texts of a kept event
pub record IsSmall (event : SecurityEvent) : Type 0 where
  pub event_type : length event.event_type ≤ 100
  pub filter_name : length event.filter_name ≤ 100
  pub action : length event.action ≤ 50
  pub reason : length event.reason ≤ 200

abbrev pub AreSmall : List SecurityEvent → Type 0
AreSmall [] = Unit
AreSmall (event ∷ events) = IsSmall event × AreSmall events

pub record IsWithin (m : Metrics) : Type 0 where
  pub queries : length m.query_history ≤ history_size
  pub blocked : length m.blocked_history ≡ length m.query_history
  pub counted : sum m.query_history + m.current_bucket_queries ≤ m.total_queries
  pub counted_blocked : sum m.blocked_history + m.current_bucket_blocked ≤ m.blocked_queries
  pub events : length m.security_events ≤ security_event_history_size
  pub small : AreSmall m.security_events
  pub latency : m.max_latency ≤ m.latency_total

AreSmall-append : (xs ys : List SecurityEvent) → AreSmall xs → AreSmall ys → AreSmall (xs ++ ys)
AreSmall-append [] ys h k = k
AreSmall-append (x ∷ xs) ys h k = (h.0, AreSmall-append xs ys h.1 k)

AreSmall-drop : (n : ℕ) (xs : List SecurityEvent) → AreSmall xs → AreSmall (drop n xs)
AreSmall-drop zero xs h = h
AreSmall-drop (suc n) [] h = tt
AreSmall-drop (suc n) (x ∷ xs) h = AreSmall-drop n xs h.1

AreSmall-push :
    (n : ℕ) (event : SecurityEvent) (xs : List SecurityEvent)
    → IsSmall event
    → AreSmall xs
    → AreSmall (push n event xs)
unfolding push last
AreSmall-push n event xs h k = AreSmall-drop _ _ (AreSmall-append xs (event ∷ []) k (h, tt))

sum-append : (xs : List ℕ) (n : ℕ) → sum (xs ++ n ∷ []) ≡ sum xs + n
sum-append [] n = omega arith
sum-append (x ∷ xs) n = omega (arith, sum-append xs n)

sum-drop : (n : ℕ) (xs : List ℕ) → sum (drop n xs) ≤ sum xs
sum-drop zero xs = omega arith
sum-drop (suc n) [] = omega arith
sum-drop (suc n) (x ∷ xs) = omega (arith, sum-drop n xs)

sum-push : (limit n : ℕ) (xs : List ℕ) → sum (push limit n xs) ≤ sum xs + n
unfolding push last
sum-push limit n xs =
    omega (arith, sum-append xs n, sum-drop (length (xs ++ n ∷ []) - limit) (xs ++ n ∷ []))

close_bucket-IsWithin : (m : Metrics) → IsWithin m → IsWithin (close_bucket m)
unfolding close_bucket
close_bucket-IsWithin m h = ground (
  arith,
  length-push history_size m.current_bucket_queries m.query_history,
  length-push history_size m.current_bucket_blocked m.blocked_history,
  sum-push history_size m.current_bucket_queries m.query_history,
  sum-push history_size m.current_bucket_blocked m.blocked_history,
)

close_buckets-IsWithin : (n : ℕ) (m : Metrics) → IsWithin m → IsWithin (close_buckets n m)
unfolding close_buckets
close_buckets-IsWithin zero m h = h
close_buckets-IsWithin (suc n) m h =
    close_buckets-IsWithin n (close_bucket m) (close_bucket-IsWithin m h)

-- a write to a field that the bounds do not speak of
with_second :
    (now : ℕ) (m : Metrics) → IsWithin m → IsWithin (record m { current_bucket_second = now })
with_second now m h = ground arith

rotate_bucket-IsWithin : (now : ℕ) (m : Metrics) → IsWithin m → IsWithin (rotate_bucket now m)
unfolding rotate_bucket
rotate_bucket-IsWithin now m h = elim (Bool-cases (now == m.current_bucket_second)) [
  | inl same ↦ rw same h
  | inr other ↦ rw other (
      with_second now _
        (close_buckets-IsWithin (min (now - m.current_bucket_second) history_size) m h))
]

ticked-IsWithin : (m : Metrics) → IsWithin m → IsWithin (ticked m)
ticked-IsWithin m h = ground arith

pub data Call : Type 0 where
  record_query record_allowed record_blocked : Call
  record_security_event : Text → Text → Text → Text → Call
  record_cache_hit record_cache_miss record_upstream_success record_upstream_failure : Call
  record_rcode : ℕ → Call
  record_latency : Latency → Call
  snapshot reset : Call

unfoldable pub step : Call → Metrics → Metrics
step Call.record_query m = Metrics.record_query m
step Call.record_allowed m = Metrics.record_allowed m
step Call.record_blocked m = Metrics.record_blocked m
step (Call.record_security_event filter_name reason action event_type) m =
    Metrics.record_security_event filter_name reason action event_type m
step Call.record_cache_hit m = Metrics.record_cache_hit m
step Call.record_cache_miss m = Metrics.record_cache_miss m
step Call.record_upstream_success m = Metrics.record_upstream_success m
step Call.record_upstream_failure m = Metrics.record_upstream_failure m
step (Call.record_rcode rcode) m = Metrics.record_rcode rcode m
step (Call.record_latency latency) m = Metrics.record_latency latency m
step Call.snapshot m = (Metrics.snapshot m).1
step Call.reset m = Metrics.reset m

-- the calls, one after the other
unfoldable pub run : List Call → Metrics → Metrics
run [] m = m
run (call ∷ calls) m = run calls (step call m)

query-IsWithin :
    (m : Metrics)
    → IsWithin m
    → IsWithin (record m {
      total_queries = m.total_queries + 1;
      current_bucket_queries = m.current_bucket_queries + 1;
    })
query-IsWithin m h = ground arith

blocked-IsWithin :
    (m : Metrics)
    → IsWithin m
    → IsWithin (record m {
      blocked_queries = m.blocked_queries + 1;
      current_bucket_blocked = m.current_bucket_blocked + 1;
    })
blocked-IsWithin m h = ground arith

event-IsWithin :
    (filter_name reason action event_type : Text) (m : Metrics)
    → IsWithin m
    → IsWithin (Metrics.record_security_event filter_name reason action event_type m)
unfolding Metrics.record_security_event last push
event-IsWithin filter_name reason action event_type m h = record {
  queries = h.queries;
  blocked = h.blocked;
  counted = h.counted;
  counted_blocked = h.counted_blocked;
  events = length-last security_event_history_size (m.security_events ++ _ ∷ []);
  small =
      AreSmall-push security_event_history_size _ m.security_events
        (record {
          event_type =
              omega (arith, length-take 100 (or_default (strip event_type) (codes "DNS_FILTER")));
          filter_name =
              omega (arith, length-take 100 (or_default (strip filter_name) (codes "Unknown")));
          action = omega (arith, length-take 50 (or_default (strip action) (codes "BLOCKED")));
          reason = omega (arith, length-take 200 (strip reason));
        })
        h.small;
  latency = h.latency;
}

count_rcode-IsWithin : (rcode : ℕ) (m : Metrics) → IsWithin m → IsWithin (count_rcode rcode m)
unfolding count_rcode
count_rcode-IsWithin rcode m h = ground arith

latency-IsWithin :
    (latency : Latency) (m : Metrics) → IsWithin m → IsWithin (Metrics.record_latency latency m)
unfolding Metrics.record_latency
latency-IsWithin Latency.not_a_number m h = h
latency-IsWithin Latency.infinite m h = h
latency-IsWithin Latency.negative m h = h
latency-IsWithin (Latency.microseconds value) m h = ground arith

step-IsWithin : (call : Call) (m : Metrics) → IsWithin m → IsWithin (step call m)
unfolding step Metrics.record_query Metrics.record_allowed Metrics.record_blocked
    Metrics.record_cache_hit Metrics.record_cache_miss Metrics.record_upstream_success
    Metrics.record_upstream_failure Metrics.record_rcode Metrics.snapshot Metrics.reset
step-IsWithin Call.record_query m h =
    query-IsWithin _ (rotate_bucket-IsWithin (now_second m) (ticked m) (ticked-IsWithin m h))
step-IsWithin Call.record_allowed m h = ground arith
step-IsWithin Call.record_blocked m h =
    blocked-IsWithin _ (rotate_bucket-IsWithin (now_second m) (ticked m) (ticked-IsWithin m h))
step-IsWithin (Call.record_security_event filter_name reason action event_type) m h =
    event-IsWithin filter_name reason action event_type m h
step-IsWithin Call.record_cache_hit m h = ground arith
step-IsWithin Call.record_cache_miss m h = ground arith
step-IsWithin Call.record_upstream_success m h = ground arith
step-IsWithin Call.record_upstream_failure m h = ground arith
step-IsWithin (Call.record_rcode rcode) m h = count_rcode-IsWithin (bit_and rcode 0x0F) m h
step-IsWithin (Call.record_latency latency) m h = latency-IsWithin latency m h
step-IsWithin Call.snapshot m h =
    rotate_bucket-IsWithin (now_second m) (ticked m) (ticked-IsWithin m h)
step-IsWithin Call.reset m h = ground arith

-- From a collector within its bounds, whatever the calls: a history has at most sixty buckets, the
-- two have the same length, their sums with the open bucket never exceed the totals, and at most a
-- hundred events are kept, whose texts have at most 100, 100, 50 and 200 characters; no latency is
-- above the sum of all.
pub run-IsWithin : (calls : List Call) (m : Metrics) → IsWithin m → IsWithin (run calls m)
unfolding run
run-IsWithin [] m h = h
run-IsWithin (call ∷ calls) m h = run-IsWithin calls (step call m) (step-IsWithin call m h)

pub init-IsWithin : (monotonic readings : ℕ → ℕ) → IsWithin (Metrics.init monotonic readings)
unfolding Metrics.init
init-IsWithin monotonic readings = ground arith
