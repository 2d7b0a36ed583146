-- ===== src/Dns/Resolver/Branches.antt =====
-- The five ways through `resolve` of dns_engine/resolver.py: what each returns and leaves.
use sentinel_dns.Common.{
  ◌+◌, ◌≡◌, refl, ap, true, false, Option, none, some, [], ◌∷◌, ◌++◌, arith, Bool-cases, inl, inr,
}
use sentinel_dns.Common.Exec.{Error, Result, ok, err, pure, lift, modify, ◌>>=◌}
use sentinel_dns.Dns.Models.{Bytes, DnsQuery}
use sentinel_dns.Dns.Parser
use sentinel_dns.Dns.Cache
use sentinel_dns.Dns.Cache.{Cache}
use sentinel_dns.Dns.Response
use sentinel_dns.Dns.Response.{Dnslib}
use sentinel_dns.Dns.Response.Answers.{IsLawful, IsPacket, IsResponse, build_response-IsResponse}
use sentinel_dns.Dns.Upstream
use sentinel_dns.Dns.Upstream.{Network}
use sentinel_dns.Dns.Metrics
use sentinel_dns.Dns.QueryLog.{QueryStatus, CacheStatus, UpstreamStatus}
use sentinel_dns.Dns.Filters
use sentinel_dns.Dns.Resolver
use sentinel_dns.Dns.Resolver.{
  Resolver, with_metrics, record_response_metrics, record_latency, record_security_event, recorded,
  answered, forward, decide, looked_up, parsed, resolve,
}

module _ (d : Dnslib) (n : Network) where
  -- the metrics and the clock behind the first lines of `resolve`
  abbrev pub begun : Resolver n.State n.Client → Resolver n.State n.Client
  begun r = record r { metrics = Metrics.record_query r.metrics; ticks = r.ticks + 1 }

  abbrev pub with_cache : Cache → Resolver n.State n.Client → Resolver n.State n.Client
  with_cache c r = record r { cache = c }

  abbrev pub missed : DnsQuery → Resolver n.State n.Client → Resolver n.State n.Client
  missed query r =
      with_metrics Metrics.record_cache_miss (with_cache (Cache.lookup query r.cache).1 (begun r))

  -- behind the upstream's answer
  abbrev pub asked : DnsQuery → n.State → Resolver n.State n.Client → Resolver n.State n.Client
  asked query network r = record (missed query r) {
    metrics = Metrics.record_allowed (missed query r).metrics;
    logged = r.logged ++ (query.domain, query.query_type) ∷ [];
    network = network;
  }

  -- the response, and the resolver behind `resolve`, in each of the five ways
  pub data Outcome (packet : Bytes) (r : Resolver n.State n.Client)
      : Bytes → Resolver n.State n.Client → Type 0 where
    malformed :
        (e : Error) (response : Bytes)
        → Parser.parse packet ≡ err e
        → IsResponse packet 1 response
        → Outcome packet r response
            (record_latency (r.perf r.ticks) (record_response_metrics response (begun r)))
    hit :
        (query : DnsQuery) (cached : Bytes)
        → Parser.parse packet ≡ ok query
        → (Cache.lookup query r.cache).0 ≡ some cached
        → Outcome packet r cached (
            recorded query
              (r.perf r.ticks)
              QueryStatus.allowed
              CacheStatus.hit
              UpstreamStatus.unused
              cached
              (record_response_metrics cached (
                with_metrics Metrics.record_cache_hit
                  (with_cache (Cache.lookup query r.cache).1 (begun r)))))
    blocked :
        (query : DnsQuery) (response : Bytes)
        → Parser.parse packet ≡ ok query
        → (Cache.lookup query r.cache).0 ≡ none
        → (Filters.evaluate r.filter_manager query).allowed ≡ false
        → IsResponse packet 3 response
        → Outcome packet r response (
            recorded query
              (r.perf r.ticks)
              QueryStatus.blocked
              CacheStatus.miss
              UpstreamStatus.unused
              response
              (record_response_metrics response (
                record_security_event
                  (Filters.evaluate r.filter_manager query)
                  (with_metrics Metrics.record_blocked (missed query r)))))
    failed :
        (query : DnsQuery) (e : Error) (network : n.State) (response : Bytes)
        → Parser.parse packet ≡ ok query
        → (Cache.lookup query r.cache).0 ≡ none
        → (Filters.evaluate r.filter_manager query).allowed ≡ true
        → Upstream.query n r.upstream packet r.network ≡ (err e, network)
        → IsResponse packet 2 response
        → Outcome packet r response (
            recorded query
              (r.perf r.ticks)
              QueryStatus.allowed
              CacheStatus.miss
              UpstreamStatus.failed
              response
              (record_response_metrics response
                (with_metrics Metrics.record_upstream_failure (asked query network r))))
    forwarded :
        (query : DnsQuery) (network : n.State) (response : Bytes)
        → Parser.parse packet ≡ ok query
        → (Cache.lookup query r.cache).0 ≡ none
        → (Filters.evaluate r.filter_manager query).allowed ≡ true
        → Upstream.query n r.upstream packet r.network ≡ (ok response, network)
        → Outcome packet r response (
            recorded query
              (r.perf r.ticks)
              QueryStatus.allowed
              CacheStatus.miss
              UpstreamStatus.success
              response
              (with_cache (Cache.store query response (Cache.lookup query r.cache).1) (
                record_response_metrics response
                  (with_metrics Metrics.record_upstream_success (asked query network r)))))

  -- an action that returns with an outcome
  abbrev pub Ends :
      Bytes → Resolver n.State n.Client → Result Bytes × Resolver n.State n.Client → Type 0
  Ends packet r (ok response, r') = Outcome packet r response r'
  Ends packet r (err e, r') = ⊥

  module _ (lawful : IsLawful d) (packet : Bytes) (bytes : IsPacket packet)
      (r : Resolver n.State n.Client) where
    malformed-Ends :
        (e : Error)
        → Parser.parse packet ≡ err e
        → Ends packet r (Resolver.malformed d n packet (r.perf r.ticks) (begun r))
    unfolding Resolver.malformed modify lift pure ◌>>=◌ Response.formerr
    malformed-Ends e parses =
        let (response, built, is) =
          build_response-IsResponse d lawful packet 1 bytes (omega arith) in
        rw built (Outcome.malformed e response parses is)

    blocked-Ends :
        (query : DnsQuery)
        → Parser.parse packet ≡ ok query
        → (Cache.lookup query r.cache).0 ≡ none
        → (Filters.evaluate r.filter_manager query).allowed ≡ false
        → Ends packet r (
            Resolver.blocked d n query packet
              (r.perf r.ticks)
              (Filters.evaluate r.filter_manager query)
              (missed query r))
    unfolding Resolver.blocked modify lift pure ◌>>=◌ Response.nxdomain
    blocked-Ends query parses misses refuses =
        let (response, built, is) =
          build_response-IsResponse d lawful packet 3 bytes (omega arith) in
        rw built (Outcome.blocked query response parses misses refuses is)

    answered-Ends :
        (query : DnsQuery) (network : n.State) (answer : Result Bytes)
        → Parser.parse packet ≡ ok query
        → (Cache.lookup query r.cache).0 ≡ none
        → (Filters.evaluate r.filter_manager query).allowed ≡ true
        → Upstream.query n r.upstream packet r.network ≡ (answer, network)
        → Ends packet r (answered d n query packet (r.perf r.ticks) answer (asked query network r))
    unfolding answered modify lift pure ◌>>=◌ Response.servfail
    answered-Ends query network (err e) parses misses allows asks =
        let (response, built, is) =
          build_response-IsResponse d lawful packet 2 bytes (omega arith) in
        rw built (Outcome.failed query e network response parses misses allows asks is)
    answered-Ends query network (ok response) parses misses allows asks =
        Outcome.forwarded query network response parses misses allows asks

    decide-Ends :
        (query : DnsQuery)
        → Parser.parse packet ≡ ok query
        → (Cache.lookup query r.cache).0 ≡ none
        → Ends packet r (
            decide d n query packet
              (r.perf r.ticks)
              (Filters.evaluate r.filter_manager query)
              (missed query r))
    unfolding decide forward
    decide-Ends query parses misses =
        elim (Bool-cases (Filters.evaluate r.filter_manager query).allowed) [
          | inl allows ↦ rw allows (answered-Ends query _ _ parses misses allows refl)
          | inr refuses ↦ rw refuses (blocked-Ends query parses misses refuses)
        ]

    looked_up-Ends :
        (query : DnsQuery) (looked : Option Bytes)
        → Parser.parse packet ≡ ok query
        → (Cache.lookup query r.cache).0 ≡ looked
        → Ends packet r (
            looked_up d n query packet
              (r.perf r.ticks)
              looked
              (with_cache (Cache.lookup query r.cache).1 (begun r)))
    unfolding looked_up Resolver.hit modify pure ◌>>=◌
    looked_up-Ends query none parses looks = decide-Ends query parses looks
    looked_up-Ends query (some cached) parses looks = Outcome.hit query cached parses looks

    parsed-Ends :
        (result : Result DnsQuery)
        → Parser.parse packet ≡ result
        → Ends packet r (parsed d n packet (r.perf r.ticks) result (begun r))
    unfolding parsed
    parsed-Ends (err e) parses = malformed-Ends e parses
    parsed-Ends (ok query) parses = looked_up-Ends query (Cache.lookup query r.cache).0 parses refl

    resolve-Ends : Ends packet r (resolve d n packet r)
    unfolding resolve
    resolve-Ends = parsed-Ends (Parser.parse packet) refl

    ended :
        (result : Result Bytes) (r' : Resolver n.State n.Client)
        → Ends packet r (result, r')
        → (response : Bytes) × (result ≡ ok response) × Outcome packet r response r'
    ended (ok response) r' outcome = (response, refl, outcome)
    ended (err e) r' never = absurd never

    -- `resolve` answers every packet, in one of the five ways
    pub resolve-Outcome :
        (response : Bytes) × (r' : Resolver n.State n.Client) × (resolve d n packet r
          ≡ (ok response, r'))
        × Outcome packet r response r'
    resolve-Outcome =
        let (response, answers, outcome) =
          ended (resolve d n packet r).0 (resolve d n packet r).1 resolve-Ends in
        (
          response,
          (resolve d n packet r).1,
          ap (λ result. (result, (resolve d n packet r).1)) answers,
          outcome,
        )
