-- ===== src/Dns/Resolver/Answers.antt =====
-- What dns_engine/resolver.py answers to one packet, by the branch that it takes.
use sentinel_dns.Common.{
  ◌+◌, ◌*◌, ◌≤◌, ◌≡◌, refl, ap, subst, true, false, none, some, [], ◌∷◌, arith, ltb, length, take,
  if◌then◌else◌,
}
use sentinel_dns.Common.Exec.{Error, ok, err, modify, lift, pure, ◌>>=◌}
use sentinel_dns.Dns.Models.{Bytes, DnsQuery}
use sentinel_dns.Dns.Parser
use sentinel_dns.Dns.Parser.{word_at}
use sentinel_dns.Dns.Cache.{second, lookup}
use sentinel_dns.Dns.Cache.Lookup.{lookup-store}
use sentinel_dns.Dns.Response.{Dnslib, transaction_id}
use sentinel_dns.Dns.Response.Answers.{IsLawful, IsPacket, IsResponse, build_response-IsResponse}
use sentinel_dns.Dns.Upstream.{Network}
use sentinel_dns.Dns.Upstream.Answers.{query-IsAnswer}
use sentinel_dns.Dns.Filters
use sentinel_dns.Dns.Response
use sentinel_dns.Dns.Upstream
use sentinel_dns.Dns.Resolver
use sentinel_dns.Dns.Resolver.{
  parsed, looked_up, decide, forward, answered, Resolver, record_response_metrics, record_latency,
  record_query_event, record_security_event, recorded, resolve,
}
use sentinel_dns.Dns.Resolver.Branches.{Outcome, resolve-Outcome}

word_at-take :
    (packet response : Bytes)
    → 12 ≤ length response
    → 12 ≤ length packet
    → take 2 response ≡ take 2 packet
    → word_at 0 response ≡ transaction_id packet
unfolding transaction_id
word_at-take [] response h k e = absurd (omega arith)
word_at-take (a ∷ []) response h k e = absurd (omega arith)
word_at-take (a ∷ b ∷ packet) [] h k e = absurd (omega arith)
word_at-take (a ∷ b ∷ packet) (x ∷ []) h k e = absurd (omega arith)
word_at-take (a ∷ b ∷ packet) (x ∷ y ∷ response) h k e = ground (arith, e)

module _ (d : Dnslib) (n : Network) where
  -- the transaction id of an answer that is not from the cache
  id-Outcome :
      (packet : Bytes) (r : Resolver n.State n.Client) (response : Bytes)
      (r' : Resolver n.State n.Client)
      → Outcome d n packet r response r'
      → ((query : DnsQuery) → Parser.parse packet ≡ ok query → (lookup query r.cache).0 ≡ none)
      → word_at 0 response ≡ transaction_id packet
  id-Outcome packet r _ _ (Outcome.malformed e response parses is) uncached = is.id
  id-Outcome packet r _ _ (Outcome.hit query cached parses hits) uncached =
      absurd (ground (arith, hits, uncached query parses))
  id-Outcome packet r _ _ (Outcome.blocked query response parses misses refuses is) uncached = is.id
  id-Outcome packet r _ _ (Outcome.failed query e network response parses misses allows asks is)
        uncached =
      is.id
  id-Outcome packet r _ _ (Outcome.forwarded query network response parses misses allows asks)
        uncached =
      let (is, _, long) =
        query-IsAnswer n r.upstream packet r.network response (ap (λ x. x.0) asks) in
      word_at-take packet response is.whole long is.same_id

  -- An answer that is not from the cache has the transaction id of the packet, whether it comes from an
  -- upstream server or is an error response; it is 0 where the packet is too short for one.
  pub resolve_id :
      (packet : Bytes) (r : Resolver n.State n.Client) (response : Bytes)
      → IsLawful d
      → IsPacket packet
      → ((query : DnsQuery) → Parser.parse packet ≡ ok query → (lookup query r.cache).0 ≡ none)
      → (resolve d n packet r).0 ≡ ok response
      → word_at 0 response ≡ transaction_id packet
  resolve_id packet r response lawful bytes uncached e =
      let (b, r', resolves, outcome) = resolve-Outcome d n lawful packet bytes r in
      let same : b ≡ response = ground (arith, resolves, e) in
      subst (λ x. word_at 0 x ≡ transaction_id packet) same
        (id-Outcome packet r b r' outcome uncached)

  -- A query for a domain that a filter refuses, and that is not in the cache, is answered with an
  -- NXDOMAIN response of the packet's transaction id; the clients of the upstream servers are not
  -- called, the query is not logged, and the cache has what the lookup left.
  pub resolve_blocked :
      (packet : Bytes) (r : Resolver n.State n.Client) (query : DnsQuery)
      → IsLawful d
      → IsPacket packet
      → Parser.parse packet ≡ ok query
      → (lookup query r.cache).0 ≡ none
      → (Filters.evaluate r.filter_manager query).allowed ≡ false
      → let (result, r') = resolve d n packet r in
        ((response : Bytes) × (result ≡ ok response) × IsResponse packet 3 response)
        × (r'.network ≡ r.network)
        × (r'.logged ≡ r.logged)
        × (r'.cache ≡ (lookup query r.cache).1)
  unfolding resolve parsed looked_up decide Resolver.blocked Response.nxdomain modify lift pure
      ◌>>=◌ recorded record_query_event record_latency record_response_metrics record_security_event
  resolve_blocked packet r query lawful bytes parses uncached refuses =
      let (response, built, is) = build_response-IsResponse d lawful packet 3 bytes (omega arith) in
      rw (parses, uncached, refuses, built) ((response, refl, is), refl, refl, refl)

  -- A query that the filters allow, that is not in the cache, and for which the upstream query raises,
  -- is answered with a SERVFAIL response of the packet's transaction id, and nothing is cached.
  pub resolve_failed :
      (packet : Bytes) (r : Resolver n.State n.Client) (query : DnsQuery) (e : Error)
      (network : n.State)
      → IsLawful d
      → IsPacket packet
      → Parser.parse packet ≡ ok query
      → (lookup query r.cache).0 ≡ none
      → (Filters.evaluate r.filter_manager query).allowed ≡ true
      → Upstream.query n r.upstream packet r.network ≡ (err e, network)
      → let (result, r') = resolve d n packet r in
        ((response : Bytes) × (result ≡ ok response) × IsResponse packet 2 response)
        × (r'.network ≡ network)
        × (r'.cache ≡ (lookup query r.cache).1)
  unfolding resolve parsed looked_up decide forward answered Response.servfail modify lift pure
      ◌>>=◌ recorded record_query_event record_latency record_response_metrics
  resolve_failed packet r query e network lawful bytes parses uncached allows asks =
      let (response, built, is) = build_response-IsResponse d lawful packet 2 bytes (omega arith) in
      rw (parses, uncached, allows, asks, built) ((response, refl, is), refl, refl)

  -- A query that the filters allow and that is not in the cache is answered with what the upstream
  -- query returns, unchanged, and the next lookup of the domain finds it in the cache for
  -- `default_ttl` seconds.
  pub resolve_forwarded :
      (packet : Bytes) (r : Resolver n.State n.Client) (query : DnsQuery) (response : Bytes)
      (network : n.State)
      → Parser.parse packet ≡ ok query
      → (lookup query r.cache).0 ≡ none
      → (Filters.evaluate r.filter_manager query).allowed ≡ true
      → Upstream.query n r.upstream packet r.network ≡ (ok response, network)
      → 1 ≤ (lookup query r.cache).1.max_cache_size
      → let (result, r') = resolve d n packet r in
        let c = (lookup query r.cache).1 in
        (result ≡ ok response)
        × (r'.network ≡ network)
        × ((lookup query r'.cache).0 ≡ (
            if ltb (c.readings (c.reads + 2)) (c.readings c.reads + c.default_ttl * second)
            then some response
            else none))
  unfolding resolve parsed looked_up decide forward answered modify lift pure ◌>>=◌ recorded
      record_query_event record_latency record_response_metrics
  resolve_forwarded packet r query response network parses uncached allows asks room =
      let (is, _, _) = query-IsAnswer n r.upstream packet r.network response (ap (λ x. x.0) asks) in
      let whole : 1 ≤ length response = omega (arith, is.whole) in
      rw (parses, uncached, allows, asks)
        (refl, refl, lookup-store query response (lookup query r.cache).1 room whole)
