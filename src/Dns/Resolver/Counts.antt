-- ===== src/Dns/Resolver/Counts.antt =====
-- The counters of dns_engine/metrics.py behind every sequence of packets of dns_engine/resolver.py.
use sentinel_dns.Common.{ℕ, ◌+◌, ◌≤◌, ◌≡◌, refl, sym, ap, ◌∙◌, subst, List, [], ◌∷◌, arith, length}
use sentinel_dns.Dns.Models.{Bytes}
use sentinel_dns.Dns.Response.{Dnslib}
use sentinel_dns.Dns.Response.Answers.{IsLawful, IsPacket}
use sentinel_dns.Dns.Upstream.{Network}
use sentinel_dns.Dns.Metrics
use sentinel_dns.Dns.Metrics.{Metrics, Latency}
use sentinel_dns.Dns.Resolver.{
  Resolver, get_rcode, count_response, record_response_metrics, record_latency, record_query_event,
  record_security_event, recorded, resolve,
}
use sentinel_dns.Dns.Resolver.Branches.{Outcome, resolve-Outcome}
use sentinel_dns.Dns.Resolver.Whole.{AreWhole}
use sentinel_dns.Dns.Resolver.Serve.{Outcome-Whole, ArePackets, serve, resolve-Whole}
use sentinel_dns.Dns.Resolver.Tally.{
  Tally, IsAccounted, tally, coded, code_of, tally-record_query, tally-record_blocked,
  tally-record_latency, tally-count_response, code_of-IsResponse,
}

-- one query more, in each of the ways through `resolve`
module _ (t : Tally) (h : IsAccounted t) where
  malformed-IsAccounted : IsAccounted (coded 1 (record t { total = t.total + 1 }))
  unfolding coded
  malformed-IsAccounted = ground arith

  hit-IsAccounted :
      (rcode : ℕ) → IsAccounted (coded rcode (record t { total = t.total + 1; hits = t.hits + 1 }))
  unfolding coded
  hit-IsAccounted rcode = ground arith

  blocked-IsAccounted :
      IsAccounted
        (coded 3 (record t { total = t.total + 1; misses = t.misses + 1; blocked = t.blocked + 1 }))
  unfolding coded
  blocked-IsAccounted = ground arith

  failed-IsAccounted : IsAccounted (
      coded 2 (record t {
        total = t.total + 1;
        misses = t.misses + 1;
        allowed = t.allowed + 1;
        failures = t.failures + 1;
      }))
  unfolding coded
  failed-IsAccounted = ground arith

  forwarded-IsAccounted :
      (rcode : ℕ)
      → IsAccounted (
          coded rcode (record t {
            total = t.total + 1;
            misses = t.misses + 1;
            allowed = t.allowed + 1;
            success = t.success + 1;
          }))
  unfolding coded
  forwarded-IsAccounted rcode = ground arith

-- the end of each branch
finish :
    (latency : Latency) (response : Bytes) (m : Metrics) (t : Tally)
    → 12 ≤ length response
    → tally m ≡ t
    → tally (Metrics.record_latency latency (count_response (get_rcode response) m))
      ≡ coded (code_of response) t
finish latency response m t whole e =
    tally-record_latency latency (count_response (get_rcode response) m)
    ∙ tally-count_response response m whole
    ∙ ap (coded (code_of response)) e

finish-IsAccounted :
    (latency : Latency) (response : Bytes) (m : Metrics) (t : Tally) (rcode : ℕ)
    → 12 ≤ length response
    → code_of response ≡ rcode
    → tally m ≡ t
    → IsAccounted (coded rcode t)
    → IsAccounted (tally (Metrics.record_latency latency (count_response (get_rcode response) m)))
finish-IsAccounted latency response m t rcode whole code e h =
    subst IsAccounted (sym (finish latency response m t whole e ∙ ap (λ c. coded c t) code)) h

module _ (d : Dnslib) (n : Network) where
  Outcome-IsAccounted :
      (packet : Bytes) (r : Resolver n.State n.Client) (response : Bytes)
      (r' : Resolver n.State n.Client)
      → Outcome d n packet r response r'
      → 12 ≤ length response
      → IsAccounted (tally r.metrics)
      → IsAccounted (tally r'.metrics)
  unfolding recorded record_query_event record_latency record_response_metrics record_security_event
      Metrics.record_cache_hit Metrics.record_cache_miss Metrics.record_allowed
      Metrics.record_upstream_success Metrics.record_upstream_failure Metrics.record_security_event
  Outcome-IsAccounted packet r _ _ (Outcome.malformed e response parses is) whole h =
      finish-IsAccounted _ response _ _ 1 whole (code_of-IsResponse packet response 1 is)
        (tally-record_query r.metrics) (malformed-IsAccounted (tally r.metrics) h)
  Outcome-IsAccounted packet r _ _ (Outcome.hit query cached parses hits) whole h =
      finish-IsAccounted _ cached _ _ (code_of cached) whole refl
        (ap (λ (t : Tally). record t { hits = t.hits + 1 }) (tally-record_query r.metrics))
        (hit-IsAccounted (tally r.metrics) h (code_of cached))
  Outcome-IsAccounted packet r _ _ (Outcome.blocked query response parses misses refuses is) whole
        h =
      finish-IsAccounted _ response _ _ 3 whole (code_of-IsResponse packet response 3 is)
        (tally-record_blocked (Metrics.record_cache_miss (Metrics.record_query r.metrics))
          ∙ ap (λ (t : Tally). record t { misses = t.misses + 1; blocked = t.blocked + 1 })
              (tally-record_query r.metrics))
        (blocked-IsAccounted (tally r.metrics) h)
  Outcome-IsAccounted packet r _ _
        (Outcome.failed query e network response parses misses allows asks is) whole h =
      finish-IsAccounted _ response _ _ 2 whole (code_of-IsResponse packet response 2 is)
        (ap
          (λ (t : Tally). record t {
            misses = t.misses + 1;
            allowed = t.allowed + 1;
            failures = t.failures + 1;
          })
          (tally-record_query r.metrics))
        (failed-IsAccounted (tally r.metrics) h)
  Outcome-IsAccounted packet r _ _
        (Outcome.forwarded query network response parses misses allows asks) whole h =
      finish-IsAccounted _ response _ _ (code_of response) whole refl
        (ap
          (λ (t : Tally). record t {
            misses = t.misses + 1;
            allowed = t.allowed + 1;
            success = t.success + 1;
          })
          (tally-record_query r.metrics))
        (forwarded-IsAccounted (tally r.metrics) h (code_of response))

  -- Whatever the packets, the filters and the upstream servers do, the counters stay in step: from a
  -- resolver whose counters are accounted, as they are in a new one, every query is a cache hit, a
  -- cache miss, or answered FORMERR; the misses are the allowed and the blocked queries, the allowed
  -- ones are the upstream successes and failures, the response codes add up to the queries, and there
  -- is an NXDOMAIN for each blocked query and a SERVFAIL for each upstream failure.
  pub serve-IsAccounted :
      (packets : List Bytes) (r : Resolver n.State n.Client)
      → IsLawful d
      → ArePackets d n packets
      → AreWhole r.cache.cache
      → IsAccounted (tally r.metrics)
      → IsAccounted (tally (serve d n packets r).1.metrics)
  unfolding serve
  serve-IsAccounted [] r lawful bytes whole h = h
  serve-IsAccounted (packet ∷ packets) r lawful bytes whole h =
      serve-IsAccounted packets (resolve d n packet r).1 lawful bytes.1
        (resolve-Whole d n packet r lawful bytes.0 whole).1 (one packet bytes.0)
    where
      one :
          (packet : Bytes) → IsPacket packet → IsAccounted (tally (resolve d n packet r).1.metrics)
      one packet is =
          let (response, r', resolves, outcome) = resolve-Outcome d n lawful packet is r in
          rw resolves (
            Outcome-IsAccounted packet r response r' outcome
              (Outcome-Whole d n packet r response r' outcome whole).0 h)
