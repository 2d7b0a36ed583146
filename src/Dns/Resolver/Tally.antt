-- ===== src/Dns/Resolver/Tally.antt =====
-- The counters of dns_engine/metrics.py, and what each call of dns_engine/resolver.py adds to them.
use Prim.Native.Nat.{bit_and, min}
use sentinel_dns.Common.{
  ℕ, zero, suc, ◌+◌, ◌-◌, ◌%◌, ◌≤◌, ◌≡◌, refl, ap, ◌∙◌, Bool, true, false, arith, ltb, ◌==◌, length,
  if◌then◌else◌, Bool-cases, all_below, all_below_sound, inl, inr,
}
use sentinel_dns.Dns.Models.{Bytes}
use sentinel_dns.Dns.Parser.{byte_at}
use sentinel_dns.Dns.Response.Answers.{IsResponse}
use sentinel_dns.Dns.Metrics
use sentinel_dns.Dns.Metrics.{
  Metrics, Latency, history_size, close_bucket, close_buckets, rotate_bucket, now_second, ticked,
  count_rcode,
}
use sentinel_dns.Dns.Resolver.{get_rcode, count_response}

-- the counters alone
pub record Tally : Type 0 where
  pub total : ℕ
  pub allowed : ℕ
  pub blocked : ℕ
  pub hits : ℕ
  pub misses : ℕ
  pub success : ℕ
  pub failures : ℕ
  pub formerr : ℕ
  pub nxdomain : ℕ
  pub servfail : ℕ
  pub noerror : ℕ
  pub other : ℕ

abbrev pub tally : Metrics → Tally
tally m = record {
  total = m.total_queries;
  allowed = m.allowed_queries;
  blocked = m.blocked_queries;
  hits = m.cache_hits;
  misses = m.cache_misses;
  success = m.upstream_success;
  failures = m.upstream_failures;
  formerr = m.formerr;
  nxdomain = m.nxdomain;
  servfail = m.servfail;
  noerror = m.noerror;
  other = m.other_rcodes;
}

-- Every query is a cache hit, a cache miss, or malformed and answered FORMERR; a miss is blocked or
-- allowed, an allowed query has an upstream success or failure; every answer has one response code,
-- a blocked query's NXDOMAIN and a failed one's SERVFAIL.
pub record IsAccounted (t : Tally) : Type 0 where
  pub looked : t.hits + t.misses ≤ t.total
  pub malformed : t.total ≤ t.hits + t.misses + t.formerr
  pub filtered : t.misses ≡ t.allowed + t.blocked
  pub forwarded : t.allowed ≡ t.success + t.failures
  pub coded : t.formerr + t.nxdomain + t.servfail + t.noerror + t.other ≡ t.total
  pub refused : t.blocked ≤ t.nxdomain
  pub failed : t.failures ≤ t.servfail

tally-close_buckets : (n : ℕ) (m : Metrics) → tally (close_buckets n m) ≡ tally m
unfolding close_buckets close_bucket
tally-close_buckets zero m = refl
tally-close_buckets (suc n) m = tally-close_buckets n (close_bucket m)

tally-rotate_bucket : (now : ℕ) (m : Metrics) → tally (rotate_bucket now m) ≡ tally m
unfolding rotate_bucket
tally-rotate_bucket now m = elim (Bool-cases (now == m.current_bucket_second)) [
  | inl same ↦ rw same refl
  | inr other ↦ rw other (tally-close_buckets (min (now - m.current_bucket_second) history_size) m)
]

pub tally-record_query :
    (m : Metrics)
    → tally (Metrics.record_query m) ≡ record (tally m) { total = m.total_queries + 1 }
unfolding Metrics.record_query
tally-record_query m =
    ap (λ (t : Tally). record t { total = t.total + 1 })
      (tally-rotate_bucket (now_second m) (ticked m))

pub tally-record_blocked :
    (m : Metrics)
    → tally (Metrics.record_blocked m) ≡ record (tally m) { blocked = m.blocked_queries + 1 }
unfolding Metrics.record_blocked
tally-record_blocked m =
    ap (λ (t : Tally). record t { blocked = t.blocked + 1 })
      (tally-rotate_bucket (now_second m) (ticked m))

pub tally-record_latency :
    (latency : Latency) (m : Metrics) → tally (Metrics.record_latency latency m) ≡ tally m
unfolding Metrics.record_latency
tally-record_latency Latency.not_a_number m = refl
tally-record_latency Latency.infinite m = refl
tally-record_latency Latency.negative m = refl
tally-record_latency (Latency.microseconds n) m = refl

-- the counter of a code
unfoldable pub coded : ℕ → Tally → Tally
coded rcode t =
    if rcode == 0
    then record t { noerror = t.noerror + 1 }
    else if rcode == 1
    then record t { formerr = t.formerr + 1 }
    else if rcode == 2
    then record t { servfail = t.servfail + 1 }
    else if rcode == 3
    then record t { nxdomain = t.nxdomain + 1 }
    else record t { other = t.other + 1 }

tally-count_rcode : (rcode : ℕ) (m : Metrics) → tally (count_rcode rcode m) ≡ coded rcode (tally m)
unfolding count_rcode coded
tally-count_rcode rcode m = ground arith

-- the code of a response with a whole header, which is masked twice
abbrev pub code_of : Bytes → ℕ
code_of response = bit_and (bit_and (byte_at 3 response) 0x0F) 0x0F

pub tally-count_response :
    (response : Bytes) (m : Metrics)
    → 12 ≤ length response
    → tally (count_response (get_rcode response) m) ≡ coded (code_of response) (tally m)
unfolding get_rcode Metrics.record_rcode
tally-count_response response m whole =
    let long : ltb (length response) 4 ≡ false = ground arith in
    rw long (tally-count_rcode (code_of response) m)

low_bits : ℕ → Bool
low_bits b = bit_and (bit_and b 0x0F) 0x0F == b % 16

low_bits_table : all_below 256 low_bits ≡ true
unfolding low_bits all_below
low_bits_table = refl

bit_and-byte : (b : ℕ) → low_bits b ≡ true → bit_and (bit_and b 0x0F) 0x0F ≡ b % 16
unfolding low_bits
bit_and-byte b e = ground arith

pub code_of-IsResponse :
    (packet response : Bytes) (rcode : ℕ)
    → IsResponse packet rcode response
    → code_of response ≡ rcode
code_of-IsResponse packet response rcode is =
    bit_and-byte (byte_at 3 response)
      (all_below_sound 256 low_bits (byte_at 3 response) low_bits_table (omega (arith, is.small)))
    ∙ is.rcode
