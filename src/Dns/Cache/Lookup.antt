-- ===== src/Dns/Cache/Lookup.antt =====
-- What `lookup` and `store` of dns_engine/cache.py answer and leave.
use sentinel_dns.Common.{
  ◌+◌, ◌*◌, ◌≤◌, ◌<◌, ◌≡◌, refl, sym, ap, ◌∙◌, true, false, none, some, [], ◌∷◌, ◌++◌, arith, leb,
  ltb, ◌==◌, length, if◌then◌else◌, Bool-cases, Option-cases, inl, inr,
}
use sentinel_dns.Common.Dict.{get, pop}
use sentinel_dns.Dns.Models.{Bytes, DnsQuery, CacheEntry, expired, register_hit}
use sentinel_dns.Dns.Cache.{Cache, second, lookup_found, lookup, store}
use sentinel_dns.Dns.Cache.Order.{move_to_end-put, stored, evict-stored, get-stored}

-- the entry that `store` makes
abbrev pub new_entry : Bytes → Cache → CacheEntry
new_entry response c = record {
  response = response;
  expires_at = c.readings c.reads + c.default_ttl * second;
  created_at = c.readings (c.reads + 1);
  hits = 0;
}

pub store_full :
    (query : DnsQuery) (response : Bytes) (c : Cache)
    → 1 ≤ c.max_cache_size
    → 1 ≤ length response
    → store query response c ≡ record c {
      cache = stored c.max_cache_size query.domain (new_entry response c) c.cache;
      reads = c.reads + 2;
    }
unfolding store
store_full query response c room some_bytes = rw (nonempty) (
    ap (λ d. record c { cache = d; reads = c.reads + 2 })
      (evict-stored c.max_cache_size query.domain (new_entry response c) c.cache room))
  where
    nonempty : (length response == 0) ≡ false
    nonempty = ground arith

-- the three ways of `lookup`
pub lookup_missing :
    (query : DnsQuery) (c : Cache)
    → get query.domain c.cache ≡ none
    → lookup query c ≡ (none, record c { misses = c.misses + 1 })
unfolding lookup lookup_found
lookup_missing query c e = rw e refl

pub lookup_late :
    (query : DnsQuery) (c : Cache) (entry : CacheEntry)
    → get query.domain c.cache ≡ some entry
    → entry.expires_at ≤ c.readings c.reads
    → lookup query c ≡ (
      none,
      record c { cache = pop query.domain c.cache; misses = c.misses + 1; reads = c.reads + 1 },
    )
unfolding lookup lookup_found expired
lookup_late query c entry e late = rw (e, over) refl
  where
    over : leb entry.expires_at (c.readings c.reads) ≡ true
    over = ground arith

pub lookup_hit :
    (query : DnsQuery) (c : Cache) (entry : CacheEntry)
    → get query.domain c.cache ≡ some entry
    → c.readings c.reads < entry.expires_at
    → lookup query c ≡ (
      some entry.response,
      record c {
        cache = pop query.domain c.cache ++ (query.domain, register_hit entry) ∷ [];
        hits = c.hits + 1;
        reads = c.reads + 1;
      },
    )
unfolding lookup lookup_found expired
lookup_hit query c entry e early =
    rw (e, under)
      (ap
        (λ d. (some entry.response, record c { cache = d; hits = c.hits + 1; reads = c.reads + 1 }))
        (move_to_end-put query.domain (register_hit entry) c.cache))
  where
    under : leb entry.expires_at (c.readings c.reads) ≡ false
    under = ground arith

-- A response that is not empty is found by the next lookup of its domain for `default_ttl` seconds
-- from the reading that `store` took, and no longer.
pub lookup-store :
    (query : DnsQuery) (response : Bytes) (c : Cache)
    → 1 ≤ c.max_cache_size
    → 1 ≤ length response
    → (lookup query (store query response c)).0 ≡ (
        if ltb (c.readings (c.reads + 2)) (c.readings c.reads + c.default_ttl * second)
        then some response
        else none)
lookup-store query response c room some_bytes =
    rw (store_full query response c room some_bytes)
      (elim (Bool-cases (ltb (c.readings (c.reads + 2)) (new_entry response c).expires_at)) [
        | inl early ↦
            rw early
              (ap (λ x. x.0) (lookup_hit query after (new_entry response c) found (ground arith)))
        | inr late ↦
            rw late
              (ap (λ x. x.0) (lookup_late query after (new_entry response c) found (ground arith)))
      ])
  where
    after : Cache
    after = record c {
      cache = stored c.max_cache_size query.domain (new_entry response c) c.cache;
      reads = c.reads + 2;
    }

    found : get query.domain after.cache ≡ some (new_entry response c)
    found = get-stored c.max_cache_size query.domain (new_entry response c) c.cache

-- An answer of `lookup` is the response of the domain's entry, which has not expired at the reading
-- that the call takes.
pub lookup_fresh :
    (query : DnsQuery) (c c' : Cache) (response : Bytes)
    → lookup query c ≡ (some response, c')
    → (entry : CacheEntry) × (get query.domain c.cache ≡ some entry)
      × (entry.response ≡ response)
      × (c.readings c.reads < entry.expires_at)
lookup_fresh query c c' response e = elim (Option-cases (get query.domain c.cache)) [
  | inl gone ↦ absurd (missed (ap (λ x. x.0) (sym (lookup_missing query c gone) ∙ e)))
  | inr (entry, there) ↦ elim (Bool-cases (leb entry.expires_at (c.readings c.reads))) [
    | inl late ↦
        absurd (missed (ap (λ x. x.0) (sym (lookup_late query c entry there (ground arith)) ∙ e)))
    | inr early ↦ (
      entry,
      there,
      same (ap (λ x. x.0) (sym (lookup_hit query c entry there (ground arith)) ∙ e)),
      ground arith,
    )
  ]
]
  where
    missed : none ≡ some response → ⊥
    missed k = ground arith

    same : {r : Bytes} → some r ≡ some response → r ≡ response
    same k = ground arith
