-- ===== src/Dns/Resolver/Whole.antt =====
-- Caches of dns_engine/cache.py whose responses have a whole DNS header.
use sentinel_dns.Common.{
  ℕ, suc, ◌≤◌, ◌≡◌, subst, some, [], ◌∷◌, ◌++◌, Text, arith, ltb, ◌==◌, length, text_eq, Bool-cases,
  Option-cases, inl, inr,
}
use sentinel_dns.Common.Dict.{Dict, get, put, pop}
use sentinel_dns.Dns.Models.{Bytes, DnsQuery, CacheEntry, register_hit}
use sentinel_dns.Dns.Cache.{Cache, move_to_end, evict, store}
use sentinel_dns.Dns.Cache.Runs.{Looked}

-- every cached response has a whole header
abbrev pub AreWhole : Dict CacheEntry → Type 0
AreWhole [] = Unit
AreWhole ((domain, entry) ∷ d) = (12 ≤ length entry.response) × AreWhole d

pub AreWhole-get :
    (k : Text) (entry : CacheEntry) (d : Dict CacheEntry)
    → AreWhole d
    → get k d ≡ some entry
    → 12 ≤ length entry.response
unfolding get
AreWhole-get k entry [] h e = absurd (ground (arith, e))
AreWhole-get k entry ((j, v) ∷ d) h e = elim (Bool-cases (text_eq j k)) [
  | inl same ↦
      let this : v ≡ entry = ground (arith, same, e) in
      subst (λ (x : CacheEntry). 12 ≤ length x.response) this h.0
  | inr other ↦ AreWhole-get k entry d h.1 (ground (arith, other, e))
]

AreWhole-pop : (k : Text) (d : Dict CacheEntry) → AreWhole d → AreWhole (pop k d)
unfolding pop
AreWhole-pop k [] h = tt
AreWhole-pop k ((j, v) ∷ d) h = elim (Bool-cases (text_eq j k)) [
  | inl same ↦ rw same (AreWhole-pop k d h.1)
  | inr other ↦ rw other (h.0, AreWhole-pop k d h.1)
]

AreWhole-put :
    (k : Text) (entry : CacheEntry) (d : Dict CacheEntry)
    → 12 ≤ length entry.response
    → AreWhole d
    → AreWhole (put k entry d)
unfolding put
AreWhole-put k entry [] whole h = (whole, tt)
AreWhole-put k entry ((j, v) ∷ d) whole h = elim (Bool-cases (text_eq j k)) [
  | inl same ↦ rw same (whole, h.1)
  | inr other ↦ rw other (h.0, AreWhole-put k entry d whole h.1)
]

AreWhole-snoc :
    (k : Text) (entry : CacheEntry) (d : Dict CacheEntry)
    → 12 ≤ length entry.response
    → AreWhole d
    → AreWhole (d ++ (k, entry) ∷ [])
AreWhole-snoc k entry [] whole h = (whole, tt)
AreWhole-snoc k entry (x ∷ d) whole h = (h.0, AreWhole-snoc k entry d whole h.1)

AreWhole-move_to_end : (k : Text) (d : Dict CacheEntry) → AreWhole d → AreWhole (move_to_end k d)
unfolding move_to_end
AreWhole-move_to_end k d h = elim (Option-cases (get k d)) [
  | inl gone ↦ rw (gone, move_to_end) h
  | inr (entry, there) ↦
      rw (there, move_to_end)
        (AreWhole-snoc k entry (pop k d) (AreWhole-get k entry d h there) (AreWhole-pop k d h))
]

AreWhole-evict : (limit : ℕ) (d : Dict CacheEntry) → AreWhole d → AreWhole (evict limit d)
unfolding evict
AreWhole-evict limit [] h = tt
AreWhole-evict limit (x ∷ d) h = elim (Bool-cases (ltb limit (suc (length d)))) [
  | inl many ↦ rw many (AreWhole-evict limit d h.1)
  | inr few ↦ rw few h
]

pub AreWhole-store :
    (query : DnsQuery) (response : Bytes) (c : Cache)
    → 12 ≤ length response
    → AreWhole c.cache
    → AreWhole (store query response c).cache
unfolding store
AreWhole-store query response c whole h = elim (Bool-cases (length response == 0)) [
  | inl nothing ↦ rw nothing h
  | inr something ↦ rw something (
      AreWhole-evict c.max_cache_size _
        (AreWhole-move_to_end query.domain _ (AreWhole-put query.domain _ c.cache whole h)))
]

pub AreWhole-Looked :
    (query : DnsQuery) (c c' : Cache) → Looked query c c' → AreWhole c.cache → AreWhole c'.cache
AreWhole-Looked query c _ (Looked.missing gone) h = h
AreWhole-Looked query c _ Looked.late h = AreWhole-pop query.domain c.cache h
AreWhole-Looked query c _ (Looked.hit entry there) h =
    AreWhole-snoc query.domain (register_hit entry) (pop query.domain c.cache)
      (unfold register_hit in AreWhole-get query.domain entry c.cache h there)
      (AreWhole-pop query.domain c.cache h)
