-- ===== src/Dns/Cache/Runs.antt =====
-- Every sequence of calls of dns_engine/cache.py.
use sentinel_dns.Common.{
  ℕ, suc, ◌+◌, ◌≤◌, ◌≡◌, refl, sym, ap, ◌∙◌, subst, none, some, List, [], ◌∷◌, ◌++◌, arith, Text,
  leb, ◌==◌, length, length-append, Bool-cases, Option-cases, inl, inr,
}
use sentinel_dns.Common.Dict.{Dict, get, pop, get-pop_same, Once, Once-pop}
use sentinel_dns.Dns.Models.{Bytes, DnsQuery, CacheEntry, register_hit}
use sentinel_dns.Dns.Cache
use sentinel_dns.Dns.Cache.{Cache}
use sentinel_dns.Dns.Cache.Order.{length-pop, Once-snoc, length-stored, Once-stored}
use sentinel_dns.Dns.Cache.Lookup.{new_entry, store_full, lookup_missing, lookup_late, lookup_hit}
use sentinel_dns.Dns.Cache.Sweep.{Once-keep, length-keep, remove_expired_lem}

-- no domain twice, and no more entries than allowed
pub record IsBounded (c : Cache) : Type 0 where
  pub room : 1 ≤ c.max_cache_size
  pub once : Once c.cache
  pub bounded : length c.cache ≤ c.max_cache_size

pub data Call : Type 0 where
  lookup : DnsQuery → Call
  store : DnsQuery → Bytes → Call
  clear remove_expired : Call

unfoldable pub step : Call → Cache → Cache
step (Call.lookup query) c = (Cache.lookup query c).1
step (Call.store query response) c = Cache.store query response c
step Call.clear c = Cache.clear c
step Call.remove_expired c = (Cache.remove_expired c).1

unfoldable pub run : List Call → Cache → Cache
run [] c = c
run (call ∷ calls) c = run calls (step call c)

-- the cache after `lookup`
pub data Looked (query : DnsQuery) (c : Cache) : Cache → Type 0 where
  missing : get query.domain c.cache ≡ none → Looked query c (record c { misses = c.misses + 1 })
  late :
      Looked query c
        (record c { cache = pop query.domain c.cache; misses = c.misses + 1; reads = c.reads + 1 })
  hit :
      (entry : CacheEntry)
      → get query.domain c.cache ≡ some entry
      → Looked query c (record c {
        cache = pop query.domain c.cache ++ (query.domain, register_hit entry) ∷ [];
        hits = c.hits + 1;
        reads = c.reads + 1;
      })

pub lookup-Looked : (query : DnsQuery) (c : Cache) → Looked query c (Cache.lookup query c).1
lookup-Looked query c = elim (Option-cases (get query.domain c.cache)) [
  | inl gone ↦
      subst (λ x. Looked query c x.1) (sym (lookup_missing query c gone)) (Looked.missing gone)
  | inr (entry, there) ↦ elim (Bool-cases (leb entry.expires_at (c.readings c.reads))) [
    | inl over ↦
        subst (λ x. Looked query c x.1) (sym (lookup_late query c entry there (ground arith)))
          Looked.late
    | inr early ↦
        subst (λ x. Looked query c x.1) (sym (lookup_hit query c entry there (ground arith)))
          (Looked.hit entry there)
  ]
]

length-pop_le : (k : Text) (d : Dict CacheEntry) → length (pop k d) ≤ length d
unfolding pop
length-pop_le k [] = omega arith
length-pop_le k ((j, v) ∷ d) = ground (arith, length-pop_le k d)

Looked-IsBounded :
    (query : DnsQuery) (c c' : Cache) → Looked query c c' → IsBounded c → IsBounded c'
Looked-IsBounded query c _ (Looked.missing e) h = record {
  room = h.room;
  once = h.once;
  bounded = h.bounded;
}
Looked-IsBounded query c _ Looked.late h = record {
  room = h.room;
  once = Once-pop query.domain c.cache h.once;
  bounded = let le = length-pop_le query.domain c.cache in let b = h.bounded in omega arith;
}
Looked-IsBounded query c _ (Looked.hit entry there) h = record {
  room = h.room;
  once =
      Once-snoc query.domain (register_hit entry) (pop query.domain c.cache)
        (Once-pop query.domain c.cache h.once) (get-pop_same query.domain c.cache);
  bounded =
      let b = h.bounded in
      omega (
        arith,
        length-append (pop query.domain c.cache) ((query.domain, register_hit entry) ∷ []),
        length-pop query.domain entry c.cache h.once there,
      );
}

store-IsBounded :
    (query : DnsQuery) (response : Bytes) (c : Cache)
    → IsBounded c
    → IsBounded (Cache.store query response c)
unfolding Cache.store
store-IsBounded query [] c h = h
store-IsBounded query (b ∷ response) c h =
    subst IsBounded (sym (store_full query (b ∷ response) c h.room (omega arith))) (record {
      room = h.room;
      once = Once-stored c.max_cache_size query.domain (new_entry (b ∷ response) c) c.cache h.once;
      bounded =
          length-stored c.max_cache_size query.domain (new_entry (b ∷ response) c) c.cache h.room;
    })

remove_expired-IsBounded : (c : Cache) → IsBounded c → IsBounded (Cache.remove_expired c).1
remove_expired-IsBounded c h = subst IsBounded (sym (remove_expired_lem c h.once).0) (record {
  room = h.room;
  once = Once-keep (c.readings c.reads) c.cache h.once;
  bounded = let k = length-keep (c.readings c.reads) c.cache in let b = h.bounded in omega arith;
})

step-IsBounded : (call : Call) (c : Cache) → IsBounded c → IsBounded (step call c)
unfolding step Cache.clear
step-IsBounded (Call.lookup query) c h = Looked-IsBounded query c _ (lookup-Looked query c) h
step-IsBounded (Call.store query response) c h = store-IsBounded query response c h
step-IsBounded Call.clear c h = record { room = h.room; once = tt; bounded = omega arith }
step-IsBounded Call.remove_expired c h = remove_expired-IsBounded c h

-- From a cache within its bounds, whatever the calls, the cache stays within its bounds: it has no domain twice and never
-- more than `max_cache_size` entries.
pub run-IsBounded : (calls : List Call) (c : Cache) → IsBounded c → IsBounded (run calls c)
unfolding run
run-IsBounded [] c h = h
run-IsBounded (call ∷ calls) c h = run-IsBounded calls (step call c) (step-IsBounded call c h)

-- the lookups since the cache was last cleared, of which there were `n` before
unfoldable pub lookups : ℕ → List Call → ℕ
lookups n [] = n
lookups n (Call.lookup query ∷ calls) = lookups (suc n) calls
lookups n (Call.store query response ∷ calls) = lookups n calls
lookups n (Call.clear ∷ calls) = lookups 0 calls
lookups n (Call.remove_expired ∷ calls) = lookups n calls

counted : Cache → ℕ
counted c = c.hits + c.misses

Looked-counted :
    (query : DnsQuery) (c c' : Cache) → Looked query c c' → counted c' ≡ suc (counted c)
unfolding counted
Looked-counted query c _ (Looked.missing e) = omega arith
Looked-counted query c _ Looked.late = omega arith
Looked-counted query c _ (Looked.hit entry there) = omega arith

store-counted :
    (query : DnsQuery) (response : Bytes) (c : Cache)
    → counted (Cache.store query response c) ≡ counted c
unfolding counted Cache.store
store-counted query response c = elim (Bool-cases (length response == 0)) [
  | inl nothing ↦ rw nothing refl
  | inr something ↦ rw something refl
]

-- `hits + misses`, of which `hit_ratio` takes the share of the hits, is the number of lookups since
-- the cache was new or was last cleared.
pub run_counts :
    (calls : List Call) (c : Cache)
    → (run calls c).hits + (run calls c).misses ≡ lookups (c.hits + c.misses) calls
unfolding run step lookups Cache.clear Cache.remove_expired
run_counts [] c = refl
run_counts (Call.lookup query ∷ calls) c =
    run_counts calls _
    ∙ ap (λ n. lookups n calls) (unfold counted in Looked-counted query c _ (lookup-Looked query c))
run_counts (Call.store query response ∷ calls) c =
    run_counts calls _
    ∙ ap (λ n. lookups n calls) (unfold counted in store-counted query response c)
run_counts (Call.clear ∷ calls) c = run_counts calls (Cache.clear c)
run_counts (Call.remove_expired ∷ calls) c = run_counts calls (Cache.remove_expired c).1
