-- ===== src/Dns/Cache/Sweep.antt =====
-- `remove_expired` of dns_engine/cache.py.
use sentinel_dns.Common.{
  ℕ, ◌+◌, ◌≡◌, refl, sym, ap, ◌∙◌, subst, ◌⊎◌, Bool, true, false, ◌||◌, Option, none, some, List,
  [], ◌∷◌, arith, Text, leb, length, text_eq, text_eq_iff, if◌then◌else◌, Bool-cases, inl, inr,
}
use sentinel_dns.Common.Dict.{Dict, get, pop, Once}
use sentinel_dns.Dns.Models.{CacheEntry}
use sentinel_dns.Dns.Cache.{Cache, expired_domains, remove_domains, remove_expired}
use sentinel_dns.Dns.Cache.Order.{length-pop_absent}

-- the entries that have not expired, in their order
pub keep : ℕ → Dict CacheEntry → Dict CacheEntry
keep now [] = []
keep now ((domain, entry) ∷ d) =
    let rest = keep now d in if leb entry.expires_at now then rest else (domain, entry) ∷ rest

elem : Text → List Text → Bool
elem k [] = false
elem k (j ∷ ks) = text_eq j k || elem k ks

abbrev is_late : ℕ → Option CacheEntry → Bool
is_late now none = false
is_late now (some entry) = leb entry.expires_at now

elem-expired_domains :
    (now : ℕ) (k : Text) (d : Dict CacheEntry)
    → Once d
    → elem k (expired_domains now d) ≡ is_late now (get k d)
unfolding elem expired_domains get
elem-expired_domains now k [] h = refl
elem-expired_domains now k ((j, v) ∷ d) h = elim (Bool-cases (leb v.expires_at now)) [
  | inl late ↦ rw late (ground (arith, elem-expired_domains now k d h.1))
  | inr early ↦
      rw early (elem-expired_domains now k d h.1 ∙ absent early (Bool-cases (text_eq j k)))
]
  where
    absent :
        leb v.expires_at now ≡ false
        → (text_eq j k ≡ true) ⊎ (text_eq j k ≡ false)
        → is_late now (get k d) ≡ is_late now (if text_eq j k then some v else get k d)
    absent early (inl same) =
        rw same (
          ap (is_late now) (subst (λ t. get t d ≡ none) ((text_eq_iff j k).0 same) h.0) ∙ sym early)
    absent early (inr other) = rw other refl

remove_domains-cons :
    (domains : List Text) (j : Text) (v : CacheEntry) (d : Dict CacheEntry)
    → remove_domains domains ((j, v) ∷ d)
      ≡ (if elem j domains then remove_domains domains d else (j, v) ∷ remove_domains domains d)
unfolding remove_domains elem pop
remove_domains-cons [] j v d = refl
remove_domains-cons (k ∷ domains) j v d =
    ground (arith, remove_domains-cons domains j v (pop k d), text_eq_iff j k, text_eq_iff k j)

pop-head :
    (j : Text) (v : CacheEntry) (d : Dict CacheEntry) → get j d ≡ none → pop j ((j, v) ∷ d) ≡ d
unfolding pop
pop-head j v d e = ground (arith, text_eq_iff j j, length-pop_absent j d e)

remove_domains-keep :
    (now : ℕ) (d : Dict CacheEntry) → Once d → remove_domains (expired_domains now d) d ≡ keep now d
unfolding remove_domains expired_domains keep
remove_domains-keep now [] h = refl
remove_domains-keep now ((j, v) ∷ d) h = elim (Bool-cases (leb v.expires_at now)) [
  | inl late ↦ rw late (
      ap (remove_domains (expired_domains now d)) (pop-head j v d h.0)
      ∙ remove_domains-keep now d h.1)
  | inr early ↦ rw early (
      remove_domains-cons (expired_domains now d) j v d
      ∙ rw (elem-expired_domains now j d h.1 ∙ ap (is_late now) h.0)
          (ap (◌∷◌ (j, v)) (remove_domains-keep now d h.1)))
]

pub length-keep :
    (now : ℕ) (d : Dict CacheEntry)
    → length (expired_domains now d) + length (keep now d) ≡ length d
unfolding expired_domains keep
length-keep now [] = refl
length-keep now ((j, v) ∷ d) = ground (arith, length-keep now d)

pub get-keep :
    (now : ℕ) (k : Text) (d : Dict CacheEntry)
    → Once d
    → get k (keep now d) ≡ (if is_late now (get k d) then none else get k d)
unfolding get keep
get-keep now k [] h = refl
get-keep now k ((j, v) ∷ d) h = elim (Bool-cases (text_eq j k)) [
  | inl same ↦
      go (get-keep now k d h.1) (subst (λ t. get t d ≡ none) ((text_eq_iff j k).0 same) h.0)
  | inr other ↦ ground (arith, get-keep now k d h.1)
]
  where
    go :
        get k (keep now d) ≡ (if is_late now (get k d) then none else get k d)
        → get k d ≡ none
        → get k (if leb v.expires_at now then keep now d else (j, v) ∷ keep now d) ≡ (
            if is_late now (if text_eq j k then some v else get k d)
            then none
            else (if text_eq j k then some v else get k d))
    go e gone = let e' : get k (keep now d) ≡ none = e ∙ rw gone refl in ground arith

pub Once-keep : (now : ℕ) (d : Dict CacheEntry) → Once d → Once (keep now d)
unfolding keep
Once-keep now [] h = tt
Once-keep now ((j, v) ∷ d) h = elim (Bool-cases (leb v.expires_at now)) [
  | inl late ↦ rw late (Once-keep now d h.1)
  | inr early ↦ rw early (get-keep now j d h.1 ∙ rw h.0 refl, Once-keep now d h.1)
]

-- `remove_expired` takes out exactly the entries that have expired at the one reading that it takes,
-- leaves the others in their order, and answers how many it took out.
pub remove_expired_lem :
    (c : Cache)
    → Once c.cache
    → ((remove_expired c).1
        ≡ record c { cache = keep (c.readings c.reads) c.cache; reads = c.reads + 1 })
      × ((remove_expired c).0 + length (remove_expired c).1.cache ≡ length c.cache)
unfolding remove_expired
remove_expired_lem c h = (
  ap (λ d. record c { cache = d; reads = c.reads + 1 })
      (remove_domains-keep (c.readings c.reads) c.cache h),
  ap (λ d. length (expired_domains (c.readings c.reads) c.cache) + length d)
        (remove_domains-keep (c.readings c.reads) c.cache h)
      ∙ length-keep (c.readings c.reads) c.cache,
)
