-- ===== src/Dns/Cache/Order.antt =====
-- The order of the entries of dns_engine/cache.py, and what its loops leave.
use sentinel_dns.Common.{
  drop-nil, ℕ, zero, suc, ◌-◌, ◌≤◌, ◌≡◌, refl, sym, ap, ◌∙◌, true, false, Option, none, some, [],
  ◌∷◌, ◌++◌, arith, Text, ltb, length, drop, length-append, length-drop, text_eq, text_eq_iff,
  Bool-cases, inl, inr,
}
use sentinel_dns.Common.Dict.{
  Dict, get, put, pop, get-pop, get-put_same, get-pop_same, Once, Once-pop,
}
use sentinel_dns.Dns.Models.{CacheEntry}
use sentinel_dns.Dns.Cache.{move_to_end, evict}

-- the first that is there
abbrev or_else : Option CacheEntry → Option CacheEntry → Option CacheEntry
or_else none p = p
or_else (some v) p = some v

get-append : (k : Text) (d e : Dict CacheEntry) → get k (d ++ e) ≡ or_else (get k d) (get k e)
unfolding get
get-append k [] e = refl
get-append k ((j, v) ∷ d) e = ground (arith, get-append k d e)

pop-put : (k : Text) (v : CacheEntry) (d : Dict CacheEntry) → pop k (put k v d) ≡ pop k d
unfolding pop put
pop-put k v [] = ground (arith, text_eq_iff k k)
pop-put k v ((j, w) ∷ d) = ground (arith, text_eq_iff k k, text_eq_iff j k, pop-put k v d)

move_to_end-there :
    (k : Text) (v : CacheEntry) (d : Dict CacheEntry)
    → get k d ≡ some v
    → move_to_end k d ≡ pop k d ++ (k, v) ∷ []
unfolding move_to_end
move_to_end-there k v d e = rw (e, move_to_end) refl

-- an entry that is written and moved is the last one
pub move_to_end-put :
    (k : Text) (v : CacheEntry) (d : Dict CacheEntry)
    → move_to_end k (put k v d) ≡ pop k d ++ (k, v) ∷ []
move_to_end-put k v d =
    move_to_end-there k v (put k v d) (get-put_same k v d)
    ∙ ap (λ e. e ++ (k, v) ∷ []) (pop-put k v d)

-- the loop of `store` drops the entries that are too many from the front
pub evict-drop : (limit : ℕ) (d : Dict CacheEntry) → evict limit d ≡ drop (length d - limit) d
unfolding evict
evict-drop limit [] = sym (drop-nil (0 - limit))
evict-drop limit (e ∷ d) = elim (Bool-cases (ltb limit (suc (length d)))) [
  | inl more ↦ rw more (evict-drop limit d ∙ ap (λ n. drop n (e ∷ d)) (sym (over more)))
  | inr fits ↦ rw fits (ap (λ n. drop n (e ∷ d)) (under fits))
]
  where
    over : ltb limit (suc (length d)) ≡ true → suc (length d) - limit ≡ suc (length d - limit)
    over more = ground arith

    under : ltb limit (suc (length d)) ≡ false → 0 ≡ suc (length d) - limit
    under fits = ground arith

pub length-pop_absent : (k : Text) (d : Dict CacheEntry) → get k d ≡ none → pop k d ≡ d
unfolding get pop
length-pop_absent k [] e = refl
length-pop_absent k ((j, v) ∷ d) e = ground (arith, length-pop_absent k d)

pub length-pop :
    (k : Text) (v : CacheEntry) (d : Dict CacheEntry)
    → Once d
    → get k d ≡ some v
    → suc (length (pop k d)) ≡ length d
unfolding get pop
length-pop k v [] h e = absurd (ground arith)
length-pop k v ((j, w) ∷ d) h e =
    ground (arith, length-pop k v d h.1, length-pop_absent k d, text_eq_iff j k, ap (λ t. get t d))

pub Once-snoc :
    (k : Text) (v : CacheEntry) (d : Dict CacheEntry)
    → Once d
    → get k d ≡ none
    → Once (d ++ (k, v) ∷ [])
unfolding get
Once-snoc k v [] h e = (refl, tt)
Once-snoc k v ((j, w) ∷ d) h e = (
  get-append j d ((k, v) ∷ []) ∙ ground (arith, text_eq_iff j k, text_eq_iff k j),
  Once-snoc k v d h.1 (ground arith),
)

pub Once-drop : (n : ℕ) (d : Dict CacheEntry) → Once d → Once (drop n d)
Once-drop zero d h = h
Once-drop (suc n) [] h = tt
Once-drop (suc n) (e ∷ d) h = Once-drop n d h.1

drop-append_short : (n : ℕ) (d e : Dict CacheEntry) → n ≤ length d → drop n (d ++ e) ≡ drop n d ++ e
drop-append_short zero d e h = refl
drop-append_short (suc n) [] e h = absurd (omega arith)
drop-append_short (suc n) (x ∷ d) e h = drop-append_short n d e (omega arith)

get-drop_absent :
    (k : Text) (n : ℕ) (d : Dict CacheEntry) → get k d ≡ none → get k (drop n d) ≡ none
unfolding get
get-drop_absent k zero d e = e
get-drop_absent k (suc n) [] e = e
get-drop_absent k (suc n) ((j, v) ∷ d) e = get-drop_absent k n d (ground arith)

-- the dict after `store`: the entries that are too many are gone from the front, the new one is last
abbrev pub stored : ℕ → Text → CacheEntry → Dict CacheEntry → Dict CacheEntry
stored limit k v d = drop (suc (length (pop k d)) - limit) (pop k d) ++ (k, v) ∷ []

pub evict-stored :
    (limit : ℕ) (k : Text) (v : CacheEntry) (d : Dict CacheEntry)
    → 1 ≤ limit
    → evict limit (move_to_end k (put k v d)) ≡ stored limit k v d
evict-stored limit k v d h =
    ap (evict limit) (move_to_end-put k v d)
    ∙ (evict-drop limit (pop k d ++ (k, v) ∷ [])
        ∙ (ap (λ n. drop (n - limit) (pop k d ++ (k, v) ∷ [])) grown
            ∙ drop-append_short (suc (length (pop k d)) - limit) (pop k d) ((k, v) ∷ [])
                (omega arith)))
  where
    grown : length (pop k d ++ (k, v) ∷ []) ≡ suc (length (pop k d))
    grown = omega (arith, length-append (pop k d) ((k, v) ∷ []))

pub length-stored :
    (limit : ℕ) (k : Text) (v : CacheEntry) (d : Dict CacheEntry)
    → 1 ≤ limit
    → length (stored limit k v d) ≤ limit
length-stored limit k v d h = omega (
  arith,
  length-append (drop (suc (length (pop k d)) - limit) (pop k d)) ((k, v) ∷ []),
  length-drop (suc (length (pop k d)) - limit) (pop k d),
)

pub get-stored :
    (limit : ℕ) (k : Text) (v : CacheEntry) (d : Dict CacheEntry)
    → get k (stored limit k v d) ≡ some v
unfolding get
get-stored limit k v d =
    let n = suc (length (pop k d)) - limit in
    get-append k (drop n (pop k d)) ((k, v) ∷ [])
    ∙ ground (arith, get-drop_absent k n (pop k d) (get-pop_same k d), text_eq_iff k k)

pub Once-stored :
    (limit : ℕ) (k : Text) (v : CacheEntry) (d : Dict CacheEntry)
    → Once d
    → Once (stored limit k v d)
Once-stored limit k v d h =
    let n = suc (length (pop k d)) - limit in
    Once-snoc k v (drop n (pop k d)) (Once-drop n (pop k d) (Once-pop k d h))
      (get-drop_absent k n (pop k d) (get-pop_same k d))

-- the entry of another key, in a dict whose last entry is new
pub get-snoc_other :
    (k j : Text) (v : CacheEntry) (d : Dict CacheEntry)
    → text_eq k j ≡ false
    → get j (pop k d ++ (k, v) ∷ []) ≡ get j d
unfolding get
get-snoc_other k j v d ne = get-append j (pop k d) ((k, v) ∷ []) ∙ ground (arith, get-pop k j d)
