-- ===== src/Dns/Cache.antt =====
-- `DNSCache` of dns_engine/cache.py: an `OrderedDict` whose first entry is the one used longest ago.
-- No entry leaves the cache, so that the write of `register_hit` is a write to the dict. Each `time()`
-- takes the next of the clock's readings, in microseconds. The class attributes are fields, since the
-- methods read them from the object.
pub mod Order
pub mod Lookup
pub mod Sweep
pub mod Recency
pub mod Runs
mod Tests
use sentinel_dns.Common.{
  ℕ, zero, suc, ◌+◌, ◌*◌, ◌≡◌, refl, Bool, true, false, Option, none, some, List, [], ◌∷◌, ◌++◌,
  Text, leb, ltb, ◌==◌, length, if◌then◌else◌,
}
use sentinel_dns.Common.Dict
use sentinel_dns.Common.Dict.{Dict}
use sentinel_dns.Dns.Models.{Bytes, DnsQuery, CacheEntry, expired, register_hit}

pub record Cache : Type 0 where
  pub default_ttl : ℕ
  pub max_cache_size : ℕ
  pub cache : Dict CacheEntry
  pub hits : ℕ
  pub misses : ℕ
  pub readings : ℕ → ℕ
  pub reads : ℕ

abbrev pub second : ℕ
second = 1000000

-- `__init__`
abbrev pub init : (ℕ → ℕ) → Cache
init readings = record {
  default_ttl = 300;
  max_cache_size = 10000;
  cache = [];
  hits = 0;
  misses = 0;
  readings = readings;
  reads = 0;
}

-- `OrderedDict.move_to_end`
unfoldable pub move_to_end : Text → Dict CacheEntry → Dict CacheEntry
move_to_end k d = elim (Dict.get k d) [ none ↦ d | some e ↦ Dict.pop k d ++ (k, e) ∷ [] ]

unfoldable pub lookup_found : Option CacheEntry → DnsQuery → Cache → Option Bytes × Cache
unfolding move_to_end
lookup_found none query c = (none, record c { misses = c.misses + 1 })
lookup_found (some entry) query c =
    if expired entry (c.readings c.reads)
    then (
      none,
      record c {
        cache = Dict.pop query.domain c.cache;
        misses = c.misses + 1;
        reads = c.reads + 1;
      },
    )
    else (
      some entry.response,
      record c {
        cache = move_to_end query.domain (Dict.put query.domain (register_hit entry) c.cache);
        hits = c.hits + 1;
        reads = c.reads + 1;
      },
    )

unfoldable pub lookup : DnsQuery → Cache → Option Bytes × Cache
lookup query c = lookup_found (Dict.get query.domain c.cache) query c

-- the `while` loop of `store`: `popitem(last=False)` while there are too many entries
unfoldable pub evict : ℕ → Dict CacheEntry → Dict CacheEntry
evict limit [] = []
evict limit (entry ∷ d) =
    let rest = evict limit d in if ltb limit (suc (length d)) then rest else entry ∷ d

unfoldable pub store : DnsQuery → Bytes → Cache → Cache
unfolding move_to_end
store query response c = if length response == 0 then c else record c {
  cache = evict c.max_cache_size (
      move_to_end query.domain (
        Dict.put query.domain
          (record {
            response = response;
            expires_at = c.readings c.reads + c.default_ttl * second;
            created_at = c.readings (c.reads + 1);
            hits = 0;
          })
          c.cache));
  reads = c.reads + 2;
}

unfoldable pub clear : Cache → Cache
clear c = record c { cache = []; hits = 0; misses = 0 }

-- the list `expired` of `remove_expired`
unfoldable pub expired_domains : ℕ → Dict CacheEntry → List Text
expired_domains now [] = []
expired_domains now ((domain, entry) ∷ d) =
    let rest = expired_domains now d in if leb entry.expires_at now then domain ∷ rest else rest

-- its loop: the entries and the count
unfoldable pub remove_domains : List Text → Dict CacheEntry → Dict CacheEntry
remove_domains [] d = d
remove_domains (domain ∷ domains) d = remove_domains domains (Dict.pop domain d)

unfoldable pub remove_expired : Cache → ℕ × Cache
remove_expired c =
    let domains = expired_domains (c.readings c.reads) c.cache in
    (length domains, record c { cache = remove_domains domains c.cache; reads = c.reads + 1 })

unfoldable pub size : Cache → ℕ
size c = length c.cache
