-- ===== src/Dns/Resolver/Serve.antt =====
-- The answers of dns_engine/resolver.py to a sequence of packets.
use sentinel_dns.Common.{◌≤◌, ◌≡◌, ap, subst, some, List, [], ◌∷◌, length}
use sentinel_dns.Common.Exec.{Result, ok, err}
use sentinel_dns.Dns.Models.{Bytes, DnsQuery}
use sentinel_dns.Dns.Cache.{Cache, lookup}
use sentinel_dns.Dns.Cache.Lookup.{lookup_fresh}
use sentinel_dns.Dns.Cache.Runs.{lookup-Looked}
use sentinel_dns.Dns.Response.{Dnslib}
use sentinel_dns.Dns.Response.Answers.{IsLawful, IsPacket}
use sentinel_dns.Dns.Upstream.{Network}
use sentinel_dns.Dns.Upstream.Answers.{query-IsAnswer}
use sentinel_dns.Dns.Resolver.{
  Resolver, record_response_metrics, record_latency, record_query_event, record_security_event,
  recorded, resolve,
}
use sentinel_dns.Dns.Resolver.Whole.{AreWhole, AreWhole-get, AreWhole-store, AreWhole-Looked}
use sentinel_dns.Dns.Resolver.Branches.{Outcome, resolve-Outcome}

module _ (d : Dnslib) (n : Network) where
  -- a whole header, and a cache of whole responses
  abbrev pub Whole : Bytes → Resolver n.State n.Client → Type 0
  Whole response r = (12 ≤ length response) × AreWhole r.cache.cache

  looked-AreWhole :
      (query : DnsQuery) (r : Resolver n.State n.Client)
      → AreWhole r.cache.cache
      → AreWhole (lookup query r.cache).1.cache
  looked-AreWhole query r h = AreWhole-Looked query r.cache _ (lookup-Looked query r.cache) h

  cached-whole :
      (query : DnsQuery) (c : Cache) (cached : Bytes)
      → AreWhole c.cache
      → (lookup query c).0 ≡ some cached
      → 12 ≤ length cached
  cached-whole query c cached h hits =
      let (entry, there, is, early) =
        lookup_fresh query c (lookup query c).1 cached (ap (λ x. (x, (lookup query c).1)) hits) in
      subst (λ (b : Bytes). 12 ≤ length b) is (AreWhole-get query.domain entry c.cache h there)

  pub Outcome-Whole :
      (packet : Bytes) (r : Resolver n.State n.Client) (response : Bytes)
      (r' : Resolver n.State n.Client)
      → Outcome d n packet r response r'
      → AreWhole r.cache.cache
      → Whole response r'
  unfolding recorded record_query_event record_latency record_response_metrics record_security_event
  Outcome-Whole packet r _ _ (Outcome.malformed e response parses is) h = (is.whole, h)
  Outcome-Whole packet r _ _ (Outcome.hit query cached parses hits) h =
      (cached-whole query r.cache cached h hits, looked-AreWhole query r h)
  Outcome-Whole packet r _ _ (Outcome.blocked query response parses misses refuses is) h =
      (is.whole, looked-AreWhole query r h)
  Outcome-Whole packet r _ _ (Outcome.failed query e network response parses misses allows asks is)
        h =
      (is.whole, looked-AreWhole query r h)
  Outcome-Whole packet r _ _ (Outcome.forwarded query network response parses misses allows asks)
        h =
      let (is, _, _) = query-IsAnswer n r.upstream packet r.network response (ap (λ x. x.0) asks) in
      (
        is.whole,
        AreWhole-store query response (lookup query r.cache).1 is.whole (looked-AreWhole query r h),
      )

  -- the answers to a sequence of packets
  unfoldable pub serve :
      List Bytes → Resolver n.State n.Client → List (Result Bytes) × Resolver n.State n.Client
  serve [] r = ([], r)
  serve (packet ∷ packets) r =
      let answer = resolve d n packet r in
      let rest = serve packets answer.1 in (answer.0 ∷ rest.0, rest.1)

  abbrev pub ArePackets : List Bytes → Type 0
  ArePackets [] = Unit
  ArePackets (packet ∷ packets) = IsPacket packet × ArePackets packets

  -- one answer for each packet: a response with a whole header
  abbrev pub Answered : Result Bytes → Type 0
  Answered (ok response) = 12 ≤ length response
  Answered (err e) = ⊥

  abbrev pub AreAnswered : List Bytes → List (Result Bytes) → Type 0
  AreAnswered [] [] = Unit
  AreAnswered (packet ∷ packets) (answer ∷ answers) = Answered answer × AreAnswered packets answers
  AreAnswered _ _ = ⊥

  pub resolve-Whole :
      (packet : Bytes) (r : Resolver n.State n.Client)
      → IsLawful d
      → IsPacket packet
      → AreWhole r.cache.cache
      → Answered (resolve d n packet r).0 × AreWhole (resolve d n packet r).1.cache.cache
  resolve-Whole packet r lawful bytes h =
      let (response, r', resolves, outcome) = resolve-Outcome d n lawful packet bytes r in
      rw resolves (Outcome-Whole packet r response r' outcome h)

  -- Whatever the packets are, malformed ones included, whatever the upstream servers do and whatever
  -- the filters say: the resolver gives one answer for each packet, which is a response with at least
  -- the twelve bytes of a header, and never raises. It is enough that dnslib does what the code relies
  -- on and that the cached responses it begins with are whole.
  pub serve-AreAnswered :
      (packets : List Bytes) (r : Resolver n.State n.Client)
      → IsLawful d
      → ArePackets packets
      → AreWhole r.cache.cache
      → AreAnswered packets (serve packets r).0
  unfolding serve
  serve-AreAnswered [] r lawful bytes h = tt
  serve-AreAnswered (packet ∷ packets) r lawful bytes h =
      let (answered, whole) = resolve-Whole packet r lawful bytes.0 h in
      (answered, serve-AreAnswered packets (resolve d n packet r).1 lawful bytes.1 whole)
