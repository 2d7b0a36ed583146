-- ===== src/Dns/Resolver/Tests.antt =====
-- Runs of dns_engine/resolver.py with a small dnslib and an upstream that answers or fails, and its
-- theorems at concrete packets.
use sentinel_dns.Common.{
  ℕ, ◌+◌, ◌*◌, ◌≡◌, refl, none, some, List, [], ◌∷◌, ◌++◌, arith, codes, text_eq, member, add, ltb,
  if◌then◌else◌,
}
use sentinel_dns.Common.Exec.{ok, os_error, pure, raise, lift, modify, catch, ◌>>=◌}
use sentinel_dns.Common.Dict
use sentinel_dns.Common.Deque.{last, push}
use sentinel_dns.Text
use sentinel_dns.Dns.Models
use sentinel_dns.Dns.Models.{Bytes, DnsQuery}
use sentinel_dns.Dns.Parser
use sentinel_dns.Dns.Parser.{word_at}
use sentinel_dns.Dns.Parser.Utf8.{decode}
use sentinel_dns.Dns.Cache
use sentinel_dns.Dns.Cache.{lookup, second}
use sentinel_dns.Dns.Blocklist
use sentinel_dns.Dns.Filters
use sentinel_dns.Dns.Filters.{Filter}
use sentinel_dns.Dns.Metrics
use sentinel_dns.Dns.Response
use sentinel_dns.Dns.Response.Answers.{IsResponse}
use sentinel_dns.Dns.Response.Sample.{sample, sample-IsLawful}
use sentinel_dns.Dns.Upstream
use sentinel_dns.Dns.Upstream.{Network}
use sentinel_dns.Dns.Resolver
use sentinel_dns.Dns.Resolver.{Resolver, resolve}
use sentinel_dns.Dns.Resolver.Sample.{network, resolver, packet, query}
use sentinel_dns.Dns.Resolver.Serve.{serve, AreAnswered, serve-AreAnswered}
use sentinel_dns.Dns.Resolver.Answers.{
  resolve_id, resolve_blocked, resolve_failed, resolve_forwarded,
}
use sentinel_dns.Dns.Resolver.Tally.{IsAccounted, tally}
use sentinel_dns.Dns.Resolver.Counts.{serve-IsAccounted}

evaluated : Unit {0}
unfolding resolve serve lookup last push catch modify pure raise lift ◌>>=◌ Resolver.parsed
    Resolver.looked_up Resolver.decide Resolver.forward Resolver.answered Resolver.blocked
    Resolver.hit Resolver.malformed Resolver.recorded Resolver.record_query_event
    Resolver.record_latency Resolver.record_response_metrics Resolver.record_security_event
    Resolver.get_rcode Cache.lookup_found Cache.store Cache.evict Cache.move_to_end Models.expired
    Models.register_hit Parser.parse Parser.read_header Parser.validate_header Parser.read_domain
    Parser.read_loop Parser.turn Parser.finish Parser.enter Parser.require_length Parser.end_domain
    Parser.read_label Parser.follow_pointer Parser.decode_label decode member add text_eq Text.join
    Text.lower Text.lower_char Text.strip Text.lstrip Text.rstrip_by Text.is_space Dict.get Dict.put
    Dict.pop Response.formerr Response.nxdomain Response.servfail Response.build_response
    Response.minimal_error_response Response.transaction_id Response.full_response
    Response.or_minimal Response.set_qr Response.set_rcode Response.is_caught Upstream.query
    Upstream.ask Upstream.validate_response Filters.evaluate Filters.evaluate_from
    Filters.evaluate_filter Filters.evaluate_blacklist Filters.evaluate_adblock
    Filters.evaluate_custom Filters.is_listed Blocklist.contains Blocklist.text_in
    Blocklist.rstrip_dots
evaluated = tt

parses : Parser.parse (packet 7 1 (codes "a")) ≡ ok (query 7 1 (codes "a"))
unfolding evaluated
parses = refl

ads_parses : Parser.parse (packet 7 1 (codes "ads")) ≡ ok (query 7 1 (codes "ads"))
unfolding evaluated
ads_parses = refl

-- The second query has another id and another type than the first; its answer is that of the first.
other_query :
    (serve sample network (packet 7 1 (codes "a") ∷ packet 8 28 (codes "a") ∷ []) resolver).0
    ≡ ok (packet 7 1 (codes "a") ++ 9 ∷ []) ∷ ok (packet 7 1 (codes "a") ++ 9 ∷ []) ∷ []
unfolding evaluated
other_query = refl

-- a packet that is malformed, one that is blocked, one that is forwarded, and one whose upstream fails
abbrev packets : List Bytes
packets = (5 ∷ []) ∷ packet 1 1 (codes "ads") ∷ packet 2 1 (codes "a") ∷ packet 3 1 (codes "b") ∷ []

serve-AreAnswered_example :
    AreAnswered sample network packets (serve sample network packets resolver).0
serve-AreAnswered_example =
    serve-AreAnswered sample network packets resolver sample-IsLawful (omega arith) tt

resolver-IsAccounted : IsAccounted (tally resolver.metrics)
unfolding Metrics.init
resolver-IsAccounted = omega arith

serve-IsAccounted_example : IsAccounted (tally (serve sample network packets resolver).1.metrics)
serve-IsAccounted_example =
    serve-IsAccounted sample network packets resolver sample-IsLawful (omega arith) tt
      resolver-IsAccounted

resolve_id_example : word_at 0 (packet 7 1 (codes "a") ++ 9 ∷ []) ≡ 7
unfolding evaluated
resolve_id_example =
    resolve_id sample network (packet 7 1 (codes "a")) resolver (packet 7 1 (codes "a") ++ 9 ∷ [])
      sample-IsLawful (omega arith) (λ q e. refl) refl

resolve_blocked_example :
    let (result, r') = resolve sample network (packet 7 1 (codes "ads")) resolver in
    ((response : Bytes) × (result ≡ ok response) × IsResponse (packet 7 1 (codes "ads")) 3 response)
    × (r'.network ≡ 0)
    × (r'.logged ≡ [])
    × (r'.cache ≡ (lookup (query 7 1 (codes "ads")) resolver.cache).1)
resolve_blocked_example =
    resolve_blocked sample network (packet 7 1 (codes "ads")) resolver (query 7 1 (codes "ads"))
      sample-IsLawful (omega arith) ads_parses (unfold evaluated in refl) (unfold evaluated in refl)

-- behind one call of the upstream, which then fails
abbrev later : Resolver ℕ (Unit {0})
later = record resolver { network = 1 }

resolve_failed_example :
    let (result, r') = resolve sample network (packet 7 1 (codes "a")) later in
    ((response : Bytes) × (result ≡ ok response) × IsResponse (packet 7 1 (codes "a")) 2 response)
    × (r'.network ≡ 2)
    × (r'.cache ≡ (lookup (query 7 1 (codes "a")) later.cache).1)
resolve_failed_example =
    resolve_failed sample network (packet 7 1 (codes "a")) later (query 7 1 (codes "a")) os_error 2
      sample-IsLawful (omega arith) parses (unfold evaluated in refl) (unfold evaluated in refl)
      (unfold evaluated in refl)

resolve_forwarded_example :
    let (result, r') = resolve sample network (packet 7 1 (codes "a")) resolver in
    let c = (lookup (query 7 1 (codes "a")) resolver.cache).1 in
    (result ≡ ok (packet 7 1 (codes "a") ++ 9 ∷ []))
    × (r'.network ≡ 1)
    × ((lookup (query 7 1 (codes "a")) r'.cache).0 ≡ (
        if ltb (c.readings (c.reads + 2)) (c.readings c.reads + c.default_ttl * second)
        then some (packet 7 1 (codes "a") ++ 9 ∷ [])
        else none))
resolve_forwarded_example =
    resolve_forwarded sample network (packet 7 1 (codes "a")) resolver (query 7 1 (codes "a"))
      (packet 7 1 (codes "a") ++ 9 ∷ []) 1 parses (unfold evaluated in refl)
      (unfold evaluated in refl) (unfold evaluated in refl) (unfold evaluated in omega arith)
