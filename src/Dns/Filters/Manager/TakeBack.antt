-- ===== src/Dns/Filters/Manager/TakeBack.antt =====
-- What `add_custom_filter` of dns_engine/filters/manager.py takes back.
use sentinel_dns.Common.{
  ◌-◌, ◌≡◌, ap, ◌∙◌, false, none, List, [], ◌∷◌, ◌++◌, arith, Text, length, take, length-append,
  take-append_eq, text_eq, text_eq_refl, Bool-cases, inl, inr,
}
use mathlib.Core.Path.{ap₂}
use sentinel_dns.Common.Dict.{Dict, get, put, pop}
use sentinel_dns.Dns.Blocklist.{text_in}
use sentinel_dns.Dns.Filters.{Filter, Filters, Definition}
use sentinel_dns.Dns.Filters.Manager.{valid_names, appended, take_back}
use sentinel_dns.Dns.Filters.Manager.Consistent.{IsNamed}

-- a dict without the key that was put last
pop-put_new : {V : Type 0} (k : Text) (v : V) (d : Dict V) → get k d ≡ none → pop k (put k v d) ≡ d
unfolding get put pop
pop-put_new k v [] h = ground (arith, text_eq_refl k)
pop-put_new k v ((j, w) ∷ d) h = elim (Bool-cases (text_eq j k)) [
  | inl same ↦ absurd (ground (arith, same, h))
  | inr other ↦ rw (other, other) (ap (◌∷◌ (j, w)) (pop-put_new k v d (ground (arith, other, h))))
]

-- what `add_custom_filter` does when the file cannot be written
pub take_back-appended :
    (loaders : Dict (List Text)) (definition : Definition) (m : Filters)
    → IsNamed m
    → text_in definition.name (valid_names m) ≡ false
    → take_back definition.name (appended loaders definition m) ≡ record m { loaders = loaders }
unfolding take_back
take_back-appended loaders definition m h new =
    ap
      (λ fs. record m {
        filters = fs;
        enabled = pop definition.name (put definition.name definition.enabled m.enabled);
        custom_definitions =
            pop definition.name (put definition.name definition m.custom_definitions);
        loaders = loaders;
      })
      last_gone
    ∙ ap₂ (λ es ds. record m { enabled = es; custom_definitions = ds; loaders = loaders })
        (pop-put_new definition.name definition.enabled m.enabled (h.states definition.name new))
        (pop-put_new definition.name definition m.custom_definitions
          (h.definitions definition.name new))
  where
    added : List Filter
    added = Filter.custom definition.name definition.filename ∷ []

    last_gone : take (length (m.filters ++ added) - 1) (m.filters ++ added) ≡ m.filters
    last_gone = take-append_eq m.filters added _ (omega (arith, length-append m.filters added))
