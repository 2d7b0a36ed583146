-- ===== src/Dns/Cache/Tests.antt =====
-- Runs of dns_engine/cache.py, and its theorems at concrete caches.
use sentinel_dns.Common.{ℕ, ◌*◌, ◌≡◌, refl, some, [], ◌∷◌, arith, Text, text_eq, codes}
use sentinel_dns.Common.Dict.{get, put, pop}
use sentinel_dns.Dns.Models
use sentinel_dns.Dns.Models.{Bytes, DnsQuery, CacheEntry}
use sentinel_dns.Dns.Cache.{
  Cache, second, lookup, store, remove_expired, lookup_found, move_to_end, evict, expired_domains,
  remove_domains,
}
use sentinel_dns.Dns.Cache.Lookup.{lookup-store}
use sentinel_dns.Dns.Cache.Recency.{domains, remove, store_recency, lookup_recency}
use sentinel_dns.Dns.Cache.Runs
use sentinel_dns.Dns.Cache.Runs.{Call, IsBounded, run, run-IsBounded, lookups, run_counts}

evaluated : Unit {0}
unfolding lookup store remove_expired lookup_found move_to_end evict expired_domains remove_domains
    get put pop text_eq Models.expired Models.register_hit run Runs.step
evaluated = tt

abbrev query : Text → DnsQuery
query domain = record {
  transaction_id = 7;
  flags = 256;
  questions = 1;
  answers = 0;
  authority = 0;
  additional = 0;
  domain = domain;
  query_type = 1;
  query_class = 1;
}

-- a clock of one second for each reading
abbrev seconds : ℕ → ℕ
seconds n = n * second

abbrev small : Cache
small = record {
  default_ttl = 300;
  max_cache_size = 2;
  cache = [];
  hits = 0;
  misses = 0;
  readings = seconds;
  reads = 0;
}

abbrev full : Cache
full =
    run
      (Call.store (query (codes "a")) (1 ∷ [])
        ∷ Call.store (query (codes "b")) (2 ∷ [])
        ∷ Call.lookup (query (codes "a"))
        ∷ [])
      small

-- `a` was used after `b`, so that `b` goes
oldest_goes : domains (store (query (codes "c")) (3 ∷ []) full).cache ≡ codes "a" ∷ codes "c" ∷ []
unfolding evaluated
oldest_goes = refl

answers : (lookup (query (codes "a")) full).0 ≡ some (1 ∷ [])
unfolding evaluated
answers = refl

small-IsBounded : IsBounded small
small-IsBounded = record { room = omega arith; once = tt; bounded = omega arith }

run-IsBounded_example : IsBounded full
run-IsBounded_example =
    run-IsBounded
      (Call.store (query (codes "a")) (1 ∷ [])
        ∷ Call.store (query (codes "b")) (2 ∷ [])
        ∷ Call.lookup (query (codes "a"))
        ∷ [])
      small small-IsBounded

lookup-store_example :
    (lookup (query (codes "a")) (store (query (codes "a")) (9 ∷ []) small)).0 ≡ some (9 ∷ [])
lookup-store_example = lookup-store (query (codes "a")) (9 ∷ []) small (omega arith) (omega arith)

store_recency_example :
    domains (store (query (codes "c")) (3 ∷ []) full).cache ≡ codes "a" ∷ codes "c" ∷ []
unfolding evaluated remove
store_recency_example = store_recency (query (codes "c")) (3 ∷ []) full (omega arith) (omega arith)

lookup_recency_example :
    domains (lookup (query (codes "b")) full).1.cache ≡ codes "a" ∷ codes "b" ∷ []
unfolding evaluated remove
lookup_recency_example = lookup_recency (query (codes "b")) full
