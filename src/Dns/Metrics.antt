-- ===== src/Dns/Metrics.antt =====
-- `DNSMetrics` of dns_engine/metrics.py. Each `time.monotonic()` takes the next of one clock's readings,
-- each `time.time()` the next of the other's, in microseconds. A latency that is a finite number is a
-- whole number of microseconds, and the sum of latencies is exact. The class attributes are constants.
pub mod History
pub mod Bounded
pub mod Tallies
pub mod Seconds
mod Tests
use Prim.Native.Nat.{bit_and, min}
use sentinel_dns.Common.{
  ℕ, zero, suc, ◌+◌, ◌-◌, ◌*◌, ◌/◌, ◌≡◌, Bool, true, false, ◌||◌, List, [], ◌∷◌, ◌++◌, Text, codes,
  ltb, ◌==◌, length, take, if◌then◌else◌,
}
use sentinel_dns.Common.Deque.{last, push}
use sentinel_dns.Text.{strip}

abbrev pub history_size : ℕ
history_size = 60

abbrev pub security_event_history_size : ℕ
security_event_history_size = 100

pub record SecurityEvent : Type 0 where
  pub timestamp : ℕ
  pub event_type : Text
  pub filter_name : Text
  pub action : Text
  pub reason : Text

pub record Metrics : Type 0 where
  pub total_queries : ℕ
  pub allowed_queries : ℕ
  pub blocked_queries : ℕ
  pub cache_hits : ℕ
  pub cache_misses : ℕ
  pub upstream_success : ℕ
  pub upstream_failures : ℕ
  pub formerr : ℕ
  pub nxdomain : ℕ
  pub servfail : ℕ
  pub noerror : ℕ
  pub other_rcodes : ℕ
  pub latency_total : ℕ
  pub max_latency : ℕ
  pub query_history : List ℕ
  pub blocked_history : List ℕ
  pub current_bucket_second : ℕ
  pub current_bucket_queries : ℕ
  pub current_bucket_blocked : ℕ
  pub security_events : List SecurityEvent
  pub monotonic : ℕ → ℕ
  pub ticks : ℕ
  pub readings : ℕ → ℕ
  pub reads : ℕ

-- int(time.monotonic())
abbrev pub now_second : Metrics → ℕ
now_second m = m.monotonic m.ticks / 1000000

abbrev pub ticked : Metrics → Metrics
ticked m = record m { ticks = m.ticks + 1 }

-- `__init__`
unfoldable pub init : (ℕ → ℕ) → (ℕ → ℕ) → Metrics
init monotonic readings = record {
  total_queries = 0;
  allowed_queries = 0;
  blocked_queries = 0;
  cache_hits = 0;
  cache_misses = 0;
  upstream_success = 0;
  upstream_failures = 0;
  formerr = 0;
  nxdomain = 0;
  servfail = 0;
  noerror = 0;
  other_rcodes = 0;
  latency_total = 0;
  max_latency = 0;
  query_history = [];
  blocked_history = [];
  current_bucket_second = monotonic 0 / 1000000;
  current_bucket_queries = 0;
  current_bucket_blocked = 0;
  security_events = [];
  monotonic = monotonic;
  ticks = 1;
  readings = readings;
  reads = 0;
}

-- a turn of the loop of `_rotate_bucket_locked`
unfoldable pub close_bucket : Metrics → Metrics
close_bucket m = record m {
  query_history = push history_size m.current_bucket_queries m.query_history;
  blocked_history = push history_size m.current_bucket_blocked m.blocked_history;
  current_bucket_queries = 0;
  current_bucket_blocked = 0;
}

-- its loop
unfoldable pub close_buckets : ℕ → Metrics → Metrics
unfolding close_bucket
close_buckets zero m = m
close_buckets (suc n) m = close_buckets n (close_bucket m)

-- `_rotate_bucket_locked`: where the second is earlier, `range` of a negative number is empty
unfoldable pub rotate_bucket : ℕ → Metrics → Metrics
unfolding close_buckets
rotate_bucket now m =
    if now == m.current_bucket_second
    then m
    else record (close_buckets (min (now - m.current_bucket_second) history_size) m) {
      current_bucket_second = now;
    }

unfoldable pub record_query : Metrics → Metrics
unfolding rotate_bucket
record_query m =
    let rotated = rotate_bucket (now_second m) (ticked m) in
    record rotated {
      total_queries = rotated.total_queries + 1;
      current_bucket_queries = rotated.current_bucket_queries + 1;
    }

unfoldable pub record_allowed : Metrics → Metrics
record_allowed m = record m { allowed_queries = m.allowed_queries + 1 }

unfoldable pub record_blocked : Metrics → Metrics
unfolding rotate_bucket
record_blocked m =
    let rotated = rotate_bucket (now_second m) (ticked m) in
    record rotated {
      blocked_queries = rotated.blocked_queries + 1;
      current_bucket_blocked = rotated.current_bucket_blocked + 1;
    }

-- s or default
abbrev pub or_default : Text → Text → Text
or_default [] default = default
or_default (c ∷ s) default = c ∷ s

unfoldable pub record_security_event : Text → Text → Text → Text → Metrics → Metrics
unfolding strip
record_security_event filter_name reason action event_type m = record m {
  security_events =
      push security_event_history_size
        (record {
          timestamp = m.readings m.reads;
          event_type = take 100 (or_default (strip event_type) (codes "DNS_FILTER"));
          filter_name = take 100 (or_default (strip filter_name) (codes "Unknown"));
          action = take 50 (or_default (strip action) (codes "BLOCKED"));
          reason = take 200 (strip reason);
        })
        m.security_events;
  reads = m.reads + 1;
}

unfoldable pub record_cache_hit : Metrics → Metrics
record_cache_hit m = record m { cache_hits = m.cache_hits + 1 }

unfoldable pub record_cache_miss : Metrics → Metrics
record_cache_miss m = record m { cache_misses = m.cache_misses + 1 }

unfoldable pub record_upstream_success : Metrics → Metrics
record_upstream_success m = record m { upstream_success = m.upstream_success + 1 }

unfoldable pub record_upstream_failure : Metrics → Metrics
record_upstream_failure m = record m { upstream_failures = m.upstream_failures + 1 }

-- `rcode & 0x0F`, then the counter of the code
unfoldable pub count_rcode : ℕ → Metrics → Metrics
count_rcode rcode m =
    if rcode == 0
    then record m { noerror = m.noerror + 1 }
    else if rcode == 1
    then record m { formerr = m.formerr + 1 }
    else if rcode == 2
    then record m { servfail = m.servfail + 1 }
    else if rcode == 3
    then record m { nxdomain = m.nxdomain + 1 }
    else record m { other_rcodes = m.other_rcodes + 1 }

unfoldable pub record_rcode : ℕ → Metrics → Metrics
unfolding count_rcode
record_rcode rcode = count_rcode (bit_and rcode 0x0F)

-- a float: what `record_latency` ignores, or a number of microseconds
pub data Latency : Type 0 where
  not_a_number infinite negative : Latency
  microseconds : ℕ → Latency

unfoldable pub record_latency : Latency → Metrics → Metrics
record_latency (Latency.microseconds value) m = record m {
  latency_total = m.latency_total + value;
  max_latency = if ltb m.max_latency value then value else m.max_latency;
}
record_latency _ m = m

unfoldable pub reset : Metrics → Metrics
reset m = record m {
  total_queries = 0;
  allowed_queries = 0;
  blocked_queries = 0;
  cache_hits = 0;
  cache_misses = 0;
  upstream_success = 0;
  upstream_failures = 0;
  formerr = 0;
  nxdomain = 0;
  servfail = 0;
  noerror = 0;
  other_rcodes = 0;
  latency_total = 0;
  max_latency = 0;
  query_history = [];
  blocked_history = [];
  current_bucket_second = now_second m;
  current_bucket_queries = 0;
  current_bucket_blocked = 0;
  security_events = [];
  ticks = m.ticks + 1;
}

-- the snapshot's fields that are no copies of a counter; an average is a sum and a divisor
pub record Snapshot : Type 0 where
  pub counters : Metrics
  pub average_latency : ℕ × ℕ
  pub query_rate : ℕ × ℕ
  pub recent_queries : List ℕ
  pub recent_blocked : List ℕ
  pub security_events : List SecurityEvent

abbrev pub sum : List ℕ → ℕ
sum [] = 0
sum (n ∷ ns) = n + sum ns

unfoldable pub snapshot : Metrics → Snapshot × Metrics
unfolding rotate_bucket last
snapshot m =
    let rotated = rotate_bucket (now_second m) (ticked m) in
    let recent = rotated.query_history ++ rotated.current_bucket_queries ∷ [] in
    (
      record {
        counters = rotated;
        average_latency =
            if rotated.total_queries == 0
            then (0, 1)
            else (rotated.latency_total, rotated.total_queries);
        query_rate = (sum recent, if ltb (length recent) 1 then 1 else length recent);
        recent_queries = last history_size recent;
        recent_blocked =
            last history_size rotated.blocked_history ++ rotated.current_bucket_blocked ∷ [];
        security_events = rotated.security_events;
      },
      rotated,
    )
