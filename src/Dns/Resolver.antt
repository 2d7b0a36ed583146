-- ===== src/Dns/Resolver.antt =====
-- `DNSResolver` of dns_engine/resolver.py, and `DNSLogger` of dns_engine/logger.py as the lines it logs.
-- The package dnslib and the clients of the upstream servers are parameters. Each `perf_counter()`
-- takes the next reading of its clock, in microseconds. What is printed is left out. The recording
-- methods of the metrics, which the code calls in `try` blocks, do not raise; the parser raises no
-- other class than `ValueError`.
pub mod Branches
pub mod Sample
pub mod Whole
pub mod Serve
pub mod Answers
pub mod Tally
pub mod Counts
mod Tests
use Prim.Native.Nat.{bit_and}
use sentinel_dns.Common.{
  ℕ, ◌+◌, ◌-◌, ◌≡◌, Bool, true, false, Option, none, some, List, [], ◌∷◌, ◌++◌, Text, codes, ltb,
  ◌==◌, length, if◌then◌else◌,
}
use sentinel_dns.Common.Exec.{Error, Result, ok, err, Exec, pure, lift, modify, ◌>>=◌, ◌>>◌}
use sentinel_dns.Dns.Models.{Bytes, DnsQuery, FilterDecision}
use sentinel_dns.Dns.Parser
use sentinel_dns.Dns.Parser.{byte_at}
use sentinel_dns.Dns.Cache
use sentinel_dns.Dns.Cache.{Cache}
use sentinel_dns.Dns.Response
use sentinel_dns.Dns.Response.{Dnslib}
use sentinel_dns.Dns.Upstream
use sentinel_dns.Dns.Upstream.{Network, Upstream, Description}
use sentinel_dns.Dns.Metrics
use sentinel_dns.Dns.Metrics.{Metrics, Latency}
use sentinel_dns.Dns.QueryLog
use sentinel_dns.Dns.QueryLog.{QueryLog, QueryStatus, CacheStatus, UpstreamStatus}
use sentinel_dns.Dns.Filters
use sentinel_dns.Dns.Filters.{Filters}

-- the attributes; `logged` is what the logger has logged, `network` the state behind the clients
pub record Resolver (State Client : Type 0) : Type 0 where
  pub cache : Cache
  pub filter_manager : Filters
  pub upstream : Upstream Client
  pub metrics : Metrics
  pub query_log : QueryLog
  pub logged : List (Text × ℕ)
  pub network : State
  pub perf : ℕ → ℕ
  pub ticks : ℕ

-- `_get_rcode`
unfoldable pub get_rcode : Bytes → Option ℕ
get_rcode response =
    if ltb (length response) 4 then none else some (bit_and (byte_at 3 response) 0x0F)

-- the difference of two readings
abbrev pub elapsed : ℕ → ℕ → Latency
elapsed started now =
    if ltb now started then Latency.negative else Latency.microseconds (now - started)

abbrev pub count_response : Option ℕ → Metrics → Metrics
count_response none m = m
count_response (some rcode) m = Metrics.record_rcode rcode m

module _ {State Client : Type 0} where
  -- a call of a method of the metrics
  abbrev pub with_metrics : (Metrics → Metrics) → Resolver State Client → Resolver State Client
  with_metrics f r = record r { metrics = f r.metrics }

  -- `_record_response_metrics`
  unfoldable pub record_response_metrics : Bytes → Resolver State Client → Resolver State Client
  unfolding get_rcode
  record_response_metrics response = with_metrics (count_response (get_rcode response))

  -- `_record_latency`
  unfoldable pub record_latency : ℕ → Resolver State Client → Resolver State Client
  record_latency started r = record r {
    metrics = Metrics.record_latency (elapsed started (r.perf r.ticks)) r.metrics;
    ticks = r.ticks + 1;
  }

  -- `_record_query_event`: what `record` raises is swallowed
  unfoldable pub record_query_event :
      DnsQuery
      → ℕ
      → QueryStatus
      → CacheStatus
      → UpstreamStatus
      → Bytes
      → Resolver State Client
      → Resolver State Client
  unfolding get_rcode QueryLog.record_event
  record_query_event query started status cache upstream response r = record r {
    query_log =
        (QueryLog.record_event
          (record {
            domain = query.domain;
            query_type = query.query_type;
            query_class = query.query_class;
            status = status;
            cache = cache;
            upstream = upstream;
            rcode = if length response == 0 then none else get_rcode response;
            latency = elapsed started (r.perf r.ticks);
          })
          r.query_log).1;
    ticks = r.ticks + 1;
  }

  -- `_record_security_event`
  unfoldable pub record_security_event :
      FilterDecision → Resolver State Client → Resolver State Client
  record_security_event decision = with_metrics (
      Metrics.record_security_event decision.filter_name decision.reason (codes "BLOCKED")
        (codes "DNS_FILTER"))

  -- what each branch that has a query does with its response at the end
  unfoldable pub recorded :
      DnsQuery
      → ℕ
      → QueryStatus
      → CacheStatus
      → UpstreamStatus
      → Bytes
      → Resolver State Client
      → Resolver State Client
  unfolding record_query_event record_latency
  recorded query started status cache upstream response r =
      record_latency started (record_query_event query started status cache upstream response r)

module _ (d : Dnslib) (n : Network) where
  -- the branch of a `ValueError` of the parser
  unfoldable pub malformed : Bytes → ℕ → Exec (Resolver n.State n.Client) Bytes
  unfolding pure lift modify record_response_metrics record_latency Response.formerr ◌>>=◌
  malformed packet started = lift (Response.formerr d packet) >>= λ response.
      modify (record_response_metrics response) >> modify (record_latency started) >> pure response

  -- the branch of a cache hit
  unfoldable pub hit : DnsQuery → ℕ → Bytes → Exec (Resolver n.State n.Client) Bytes
  unfolding pure modify record_response_metrics recorded Metrics.record_cache_hit ◌>>=◌
  hit query started cached =
      modify (with_metrics Metrics.record_cache_hit)
      >> modify (record_response_metrics cached)
      >> modify
          (recorded query started QueryStatus.allowed CacheStatus.hit UpstreamStatus.unused cached)
      >> pure cached

  -- the branch of a query that a filter blocks
  unfoldable pub blocked :
      DnsQuery → Bytes → ℕ → FilterDecision → Exec (Resolver n.State n.Client) Bytes
  unfolding pure lift modify record_response_metrics record_security_event recorded
      Response.nxdomain Metrics.record_blocked ◌>>=◌
  blocked query packet started decision =
      modify (with_metrics Metrics.record_blocked)
      >> modify (record_security_event decision)
      >> lift (Response.nxdomain d packet)
      >>= λ response.
          modify (record_response_metrics response)
          >> modify (
              recorded query started QueryStatus.blocked CacheStatus.miss UpstreamStatus.unused
                response)
          >> pure response

  -- what follows the call of the upstream
  unfoldable pub answered :
      DnsQuery → Bytes → ℕ → Result Bytes → Exec (Resolver n.State n.Client) Bytes
  unfolding pure lift modify record_response_metrics recorded Response.servfail Cache.store
      Metrics.record_upstream_failure Metrics.record_upstream_success ◌>>=◌
  answered query packet started (err e) =
      modify (with_metrics Metrics.record_upstream_failure)
      >> lift (Response.servfail d packet)
      >>= λ response.
          modify (record_response_metrics response)
          >> modify (
              recorded query started QueryStatus.allowed CacheStatus.miss UpstreamStatus.failed
                response)
          >> pure response
  answered query packet started (ok response) =
      modify (with_metrics Metrics.record_upstream_success)
      >> modify (record_response_metrics response)
      >> modify (λ r. record r { cache = Cache.store query response r.cache })
      >> modify (
          recorded query started QueryStatus.allowed CacheStatus.miss UpstreamStatus.success
            response)
      >> pure response

  -- the branch of a query that the filters allow
  unfoldable pub forward : DnsQuery → Bytes → ℕ → Exec (Resolver n.State n.Client) Bytes
  unfolding answered Upstream.query Metrics.record_allowed
  forward query packet started r =
      let asked = Upstream.query n r.upstream packet r.network in
      answered query packet started asked.0 (record r {
        metrics = Metrics.record_allowed r.metrics;
        logged = r.logged ++ (query.domain, query.query_type) ∷ [];
        network = asked.1;
      })

  unfoldable pub decide :
      DnsQuery → Bytes → ℕ → FilterDecision → Exec (Resolver n.State n.Client) Bytes
  unfolding blocked forward
  decide query packet started decision =
      if decision.allowed
      then forward query packet started
      else blocked query packet started decision

  -- the branches of the cache lookup
  unfoldable pub looked_up :
      DnsQuery → Bytes → ℕ → Option Bytes → Exec (Resolver n.State n.Client) Bytes
  unfolding hit decide Metrics.record_cache_miss Filters.evaluate
  looked_up query packet started (some cached) r = hit query started cached r
  looked_up query packet started none r =
      decide query packet started (Filters.evaluate r.filter_manager query)
        (with_metrics Metrics.record_cache_miss r)

  unfoldable pub parsed : Bytes → ℕ → Result DnsQuery → Exec (Resolver n.State n.Client) Bytes
  unfolding malformed looked_up Cache.lookup
  parsed packet started (err e) r = malformed packet started r
  parsed packet started (ok query) r =
      let looked = Cache.lookup query r.cache in
      looked_up query packet started looked.0 (record r { cache = looked.1 })

  unfoldable pub resolve : Bytes → Exec (Resolver n.State n.Client) Bytes
  unfolding parsed Parser.parse Metrics.record_query
  resolve packet r =
      parsed packet (r.perf r.ticks) (Parser.parse packet)
        (record r { metrics = Metrics.record_query r.metrics; ticks = r.ticks + 1 })

  -- `replace_upstream`, where `same` says that the new upstream is the object that is there
  unfoldable pub replace_upstream :
      Upstream n.Client → Bool → Resolver n.State n.Client → Resolver n.State n.Client
  unfolding Upstream.close
  replace_upstream upstream same r = record r {
    upstream = upstream;
    network = if same then r.network else (Upstream.close n r.upstream r.network).1;
  }

  -- `upstream_info`
  unfoldable pub upstream_info : Resolver n.State n.Client → Description
  unfolding Upstream.description
  upstream_info r = Upstream.description r.upstream
