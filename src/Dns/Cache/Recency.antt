-- ===== src/Dns/Cache/Recency.antt =====
-- The order of use in dns_engine/cache.py: an abstract list of the domains, the one used longest ago
-- first, which the methods of the cache follow.
use sentinel_dns.Common.{
  ℕ, zero, suc, ◌-◌, ◌≤◌, ◌≡◌, refl, sym, ap, ◌∙◌, none, some, List, [], ◌∷◌, ◌++◌, arith, Text,
  leb, length, map, drop, text_eq, if◌then◌else◌, Bool-cases, Option-cases, inl, inr,
}
use sentinel_dns.Common.Dict.{Dict, get, pop}
use sentinel_dns.Dns.Models.{Bytes, DnsQuery, CacheEntry, register_hit}
use sentinel_dns.Dns.Cache.{Cache, lookup, store}
use sentinel_dns.Dns.Cache.Order.{stored}
use sentinel_dns.Dns.Cache.Lookup.{new_entry, store_full, lookup_missing, lookup_late, lookup_hit}

abbrev pub domains : Dict CacheEntry → List Text
domains = map (λ e. e.0)

unfoldable pub remove : Text → List Text → List Text
remove k [] = []
remove k (j ∷ ks) = let rest = remove k ks in if text_eq j k then rest else j ∷ rest

-- `k` is used now, and at most `limit` domains stay
abbrev pub touch : ℕ → Text → List Text → List Text
touch limit k ks = drop (suc (length (remove k ks)) - limit) (remove k ks) ++ k ∷ []

domains-pop : (k : Text) (d : Dict CacheEntry) → domains (pop k d) ≡ remove k (domains d)
unfolding pop remove
domains-pop k [] = refl
domains-pop k ((j, v) ∷ d) = elim (Bool-cases (text_eq j k)) [
  | inl same ↦ rw same (domains-pop k d)
  | inr other ↦ rw other (ap (◌∷◌ j) (domains-pop k d))
]

domains-append : (d e : Dict CacheEntry) → domains (d ++ e) ≡ domains d ++ domains e
domains-append [] e = refl
domains-append ((k, v) ∷ d) e = ap (◌∷◌ k) (domains-append d e)

domains-drop : (n : ℕ) (d : Dict CacheEntry) → domains (drop n d) ≡ drop n (domains d)
domains-drop zero d = refl
domains-drop (suc n) [] = refl
domains-drop (suc n) ((k, v) ∷ d) = domains-drop n d

length-domains : (d : Dict CacheEntry) → length (domains d) ≡ length d
length-domains [] = refl
length-domains ((k, v) ∷ d) = ap suc (length-domains d)

domains-stored :
    (limit : ℕ) (k : Text) (v : CacheEntry) (d : Dict CacheEntry)
    → domains (stored limit k v d) ≡ touch limit k (domains d)
domains-stored limit k v d =
    domains-append (drop (suc (length (pop k d)) - limit) (pop k d)) ((k, v) ∷ [])
    ∙ ap (λ ks. ks ++ k ∷ [])
        (domains-drop (suc (length (pop k d)) - limit) (pop k d)
          ∙ (ap (λ n. drop (suc n - limit) (domains (pop k d))) (sym (length-domains (pop k d)))
              ∙ ap (λ ks. drop (suc (length ks) - limit) ks) (domains-pop k d)))

-- Storing a response that is not empty makes its domain the last used one, and drops the domains used
-- longest ago, as many as there are too many.
pub store_recency :
    (query : DnsQuery) (response : Bytes) (c : Cache)
    → 1 ≤ c.max_cache_size
    → 1 ≤ length response
    → domains (store query response c).cache ≡ touch c.max_cache_size query.domain (domains c.cache)
store_recency query response c room some_bytes =
    ap (λ s. domains s.cache) (store_full query response c room some_bytes)
    ∙ domains-stored c.max_cache_size query.domain (new_entry response c) c.cache

remove_absent : (k : Text) (d : Dict CacheEntry) → get k d ≡ none → remove k (domains d) ≡ domains d
unfolding get remove
remove_absent k [] e = refl
remove_absent k ((j, v) ∷ d) e = ground (arith, remove_absent k d)

-- A lookup that answers makes its domain the last used one; a lookup that does not answer leaves the
-- order of the other domains, and the domain itself is gone.
pub lookup_recency :
    (query : DnsQuery) (c : Cache)
    → domains (lookup query c).1.cache ≡ (elim (lookup query c).0 [
      | none ↦ remove query.domain (domains c.cache)
      | some response ↦ remove query.domain (domains c.cache) ++ query.domain ∷ []
    ])
lookup_recency query c = elim (Option-cases (get query.domain c.cache)) [
  | inl gone ↦ rw (lookup_missing query c gone) (sym (remove_absent query.domain c.cache gone))
  | inr (entry, there) ↦ elim (Bool-cases (leb entry.expires_at (c.readings c.reads))) [
    | inl over ↦
        rw (lookup_late query c entry there (ground arith)) (domains-pop query.domain c.cache)
    | inr early ↦ rw (lookup_hit query c entry there (ground arith)) (
        domains-append (pop query.domain c.cache) ((query.domain, register_hit entry) ∷ [])
        ∙ ap (λ ks. ks ++ query.domain ∷ []) (domains-pop query.domain c.cache))
  ]
]
