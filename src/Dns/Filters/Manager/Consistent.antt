-- ===== src/Dns/Filters/Manager/Consistent.antt =====
-- The names of the filters of dns_engine/filters/manager.py against its two dicts.
use sentinel_dns.Common.{
  ◌≡◌, refl, ap, ◌∙◌, Bool, true, false, none, List, [], ◌∷◌, map, arith, Text, text_eq,
  text_eq_iff,
}
use sentinel_dns.Common.Dict.{Dict, get, put, pop, get-put, get-pop}
use sentinel_dns.Dns.Blocklist.{text_in}
use sentinel_dns.Dns.Filters.{Filter, Filters, Definition}
use sentinel_dns.Dns.Filters.Manager.{
  builtin_filters, default_states, valid_names, appended, without, replace, replaced_filter,
  replaced_names,
}
use sentinel_dns.Dns.Filters.Manager.Distinct.{
  is_fresh, DistinctTexts, names, text_in-names_snoc, DistinctTexts-snoc, text_in-without,
  DistinctTexts-without, text_in-replace, text_in-replace_new, DistinctTexts-replace,
}

-- no two filters have one name, and the two dicts have no other keys than names of filters
pub record IsNamed (m : Filters) : Type 0 where
  pub once : DistinctTexts (valid_names m)
  pub definitions :
      (k : Text) → text_in k (valid_names m) ≡ false → get k m.custom_definitions ≡ none
  pub states : (k : Text) → text_in k (valid_names m) ≡ false → get k m.enabled ≡ none

pub appended-IsNamed :
    (loaders : Dict (List Text)) (definition : Definition) (m : Filters)
    → IsNamed m
    → text_in definition.name (valid_names m) ≡ false
    → IsNamed (appended loaders definition m)
appended-IsNamed loaders definition m h new = record {
  once = DistinctTexts-snoc added m.filters h.once new;
  definitions = λ k e.
      get-put definition.name k definition m.custom_definitions
      ∙ ground (arith, text_in-names_snoc k added m.filters, h.definitions k);
  states = λ k e.
      get-put definition.name k definition.enabled m.enabled
      ∙ ground (arith, text_in-names_snoc k added m.filters, h.states k);
}
  where
    added : Filter
    added = Filter.custom definition.name definition.filename

pub enable-IsNamed :
    (name : Text) (on : Bool) (m : Filters)
    → IsNamed m
    → text_in name (valid_names m) ≡ true
    → IsNamed (record m { enabled = put name on m.enabled })
enable-IsNamed name on m h known = record {
  once = h.once;
  definitions = h.definitions;
  states = λ k e.
      get-put name k on m.enabled
      ∙ ground (arith, h.states k, text_eq_iff name k, ap (λ t. text_in t (valid_names m)));
}

pub define-IsNamed :
    (name : Text) (definition : Definition) (m : Filters)
    → IsNamed m
    → text_in name (valid_names m) ≡ true
    → IsNamed (record m { custom_definitions = put name definition m.custom_definitions })
define-IsNamed name definition m h known = record {
  once = h.once;
  definitions = λ k e.
      get-put name k definition m.custom_definitions
      ∙ ground (arith, h.definitions k, text_eq_iff name k, ap (λ t. text_in t (valid_names m)));
  states = h.states;
}

pub remove-IsNamed :
    (name : Text) (m : Filters)
    → IsNamed m
    → IsNamed (record m {
      filters = without name m.filters;
      enabled = pop name m.enabled;
      custom_definitions = pop name m.custom_definitions;
    })
remove-IsNamed name m h = record {
  once = DistinctTexts-without name m.filters h.once;
  definitions = λ k e.
      get-pop name k m.custom_definitions
      ∙ ground (arith, text_in-without k name m.filters, h.definitions k);
  states = λ k e.
      get-pop name k m.enabled ∙ ground (arith, text_in-without k name m.filters, h.states k);
}

pub replaced-IsNamed :
    (loaders : Dict (List Text)) (name : Text) (definition : Definition) (m : Filters)
    → IsNamed m
    → text_in name (valid_names m) ≡ true
    → is_fresh definition.name name (valid_names m) ≡ true
    → IsNamed (replaced_names name definition (replaced_filter loaders name definition m))
replaced-IsNamed loaders name definition m h known fresh = record {
  once = DistinctTexts-replace name new m.filters h.once fresh;
  definitions = λ k e.
      get-put definition.name k definition (pop name m.custom_definitions)
      ∙ ground (
        arith,
        other k e,
        get-pop name k m.custom_definitions,
        h.definitions k,
        text_in-replace k name new m.filters,
      );
  states = λ k e.
      get-put definition.name k definition.enabled (pop name m.enabled)
      ∙ ground (
        arith,
        other k e,
        get-pop name k m.enabled,
        h.states k,
        text_in-replace k name new m.filters,
      );
}
  where
    new : Filter
    new = Filter.custom definition.name definition.filename

    other :
        (k : Text)
        → text_in k (names (replace name new m.filters)) ≡ false
        → text_eq definition.name k ≡ false
    other k e = ground (
      arith,
      e,
      text_eq_iff definition.name k,
      text_in-replace_new name new m.filters known,
      ap (λ t. text_in t (names (replace name new m.filters))),
    )

get-none :
    {V : Type 0} (k : Text) (d : Dict V) → text_in k (map (λ e. e.0) d) ≡ false → get k d ≡ none
unfolding text_in get
get-none k [] e = refl
get-none k ((j, v) ∷ d) e = ground (arith, get-none k d)

-- the filters of a new manager, where the file has no custom ones
pub builtin-IsNamed :
    (loaders : Dict (List Text))
    → IsNamed (record {
      filters = builtin_filters;
      enabled = default_states;
      custom_definitions = [];
      loaders = loaders;
    })
unfolding text_in text_eq get
builtin-IsNamed loaders = record {
  once = (refl, (refl, (refl, (refl, (refl, (refl, tt))))));
  definitions = λ k e. refl;
  states = λ k e. get-none k default_states e;
}
