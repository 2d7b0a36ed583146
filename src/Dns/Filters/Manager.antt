-- ===== src/Dns/Filters/Manager.antt =====
-- The methods of `FilterManager` of dns_engine/filters/manager.py that change its filters. The file of
-- the custom filters is a parameter: what `_save_store` does to it, and the list of `name`, `filename`
-- and `enabled` that `json.loads` finds in it, items of another shape left out.
pub mod Names
pub mod Distinct
pub mod Consistent
pub mod TakeBack
pub mod Keeps
pub mod Failure
mod Tests
use sentinel_dns.Common.{
  ℕ, ◌-◌, ◌≡◌, Bool, true, false, not, ◌&&◌, ◌||◌, Option, none, some, List, [], ◌∷◌, ◌++◌, map,
  Text, codes, leb, ◌==◌, length, take, drop, text_eq, if◌then◌else◌,
}
use sentinel_dns.Common.Exec.{
  Error, value_error, stop_iteration, Result, ok, err, Exec, and_then, pure, raise, lift, modify,
  ◌>>=◌, ◌>>◌,
}
use sentinel_dns.Common.Dict
use sentinel_dns.Common.Dict.{Dict, values}
use sentinel_dns.Text.{strip}
use sentinel_dns.Dns.Blocklist
use sentinel_dns.Dns.Blocklist.{File, text_in}
use sentinel_dns.Dns.Filters.{Filter, Filters, Definition, filter_name, is_on}
use sentinel_dns.Dns.Filters.Manager.Names.{validate_name, validate_filename}

-- the file of the custom filters
pub record Store : Type 1 where
  pub State : Type 0
  pub save : List Definition → Exec State (Unit {0})
  pub load : State → List Definition

-- the manager, the directory of the blocklists and the file of the custom filters
pub record World (Disk : Type 0) : Type 0 where
  pub manager : Filters
  pub files : Text → Option File
  pub disk : Disk

abbrev pub is_there : {A : Type 0} → Option A → Bool
is_there none = false
is_there (some a) = true

-- `_valid_names`
abbrev pub valid_names : Filters → List Text
valid_names m = map filter_name m.filters

-- `self.enabled = dict(self.DEFAULT_STATES)`
abbrev pub default_states : Dict Bool
default_states =
    (codes "Whitelist", true)
    ∷ (codes "Blacklist", true)
    ∷ (codes "AdBlock", true)
    ∷ (codes "Malware", true)
    ∷ (codes "Adult", true)
    ∷ (codes "Schedule", true)
    ∷ []

abbrev pub builtin_filters : List Filter
builtin_filters =
    Filter.whitelist ∷ Filter.blacklist ∷ Filter.adblock ∷ Filter.malware ∷ Filter.adult
    ∷ Filter.schedule ∷ []

-- the custom filter with its definition and its state, over the loaders behind its constructor
abbrev pub appended : Dict (List Text) → Definition → Filters → Filters
appended loaders definition m = record m {
  filters = m.filters ++ Filter.custom definition.name definition.filename ∷ [];
  enabled = Dict.put definition.name definition.enabled m.enabled;
  custom_definitions = Dict.put definition.name definition m.custom_definitions;
  loaders = loaders;
}

-- the definition without the filter
abbrev pub defined : Dict (List Text) → Definition → Filters → Filters
defined loaders definition m = record m {
  custom_definitions = Dict.put definition.name definition m.custom_definitions;
  loaders = loaders;
}

abbrev pub append_loaded :
    Result (List Text) → Dict (List Text) → Definition → Filters → Result (Unit {0}) × Filters
append_loaded (ok loader) loaders definition m = (ok tt, appended loaders definition m)
append_loaded (err e) loaders definition m = (err e, defined loaders definition m)

-- the three writes for a custom filter: its definition, then CustomBlocklistFilter(name, filename) at
-- the end of the filters, which may raise, then its state
unfoldable pub append_filter : (Text → Option File) → Definition → Exec Filters (Unit {0})
unfolding Blocklist.get
append_filter files definition m =
    let got = Blocklist.get files definition.filename m.loaders in
    append_loaded got.0 got.1 definition m

-- the loop of `_load_store` over the items: those with a valid name and filename
unfoldable pub stored : List Definition → List Definition
unfolding validate_name validate_filename
stored [] = []
stored (item ∷ items) =
    let rest = stored items in
    elim (and_then (validate_name item.name) λ name.
      and_then (validate_filename item.filename)
        λ filename. ok (record item { name = name; filename = filename })) [
          | err e ↦ rest
          | ok definition ↦ definition ∷ rest
        ]

-- BlocklistRegistry.get(filename), where the manager's loaders are the registry
unfoldable pub with_list : (Text → Option File) → Text → Exec Filters (List Text)
unfolding Blocklist.get
with_list files filename m =
    let got = Blocklist.get files filename m.loaders in (got.0, record m { loaders = got.1 })

-- the loop of `_load_custom_filters`
unfoldable pub load_custom : (Text → Option File) → List Definition → Exec Filters (Unit {0})
unfolding pure append_filter ◌>>=◌
load_custom files [] = pure tt
load_custom files (definition ∷ definitions) =
    append_filter files definition >> load_custom files definitions

-- the `except` of `add_custom_filter`: `filters.pop()` and the two dicts, and the raise again
unfoldable pub take_back : Text → Filters → Filters
take_back name m = record m {
  filters = take (length m.filters - 1) m.filters;
  custom_definitions = Dict.pop name m.custom_definitions;
  enabled = Dict.pop name m.enabled;
}

-- the filters that `remove_custom_filter` leaves
abbrev pub without : Text → List Filter → List Filter
without name [] = []
without name (f ∷ fs) =
    let rest = without name fs in if text_eq (filter_name f) name then rest else f ∷ rest

-- the first filter of a name is replaced; `next` raises where there is none
abbrev pub replace : Text → Filter → List Filter → List Filter
replace name g [] = []
replace name g (f ∷ fs) =
    let rest = replace name g fs in if text_eq (filter_name f) name then g ∷ fs else f ∷ rest

abbrev pub or_name : Text → Option Text → Result Text
or_name name none = ok name
or_name name (some new) = validate_name new

abbrev pub or_filename : Definition → Option Text → Result Text
or_filename definition none = ok definition.filename
or_filename definition (some new) = validate_filename new

abbrev pub or_enabled : Bool → Option Bool → Bool
or_enabled old none = old
or_enabled old (some on) = on

-- the assignments of `update_custom_filter`: the filter
abbrev pub replaced_filter : Dict (List Text) → Text → Definition → Filters → Filters
replaced_filter loaders name definition m = record m {
  filters = replace name (Filter.custom definition.name definition.filename) m.filters;
  loaders = loaders;
}

-- and the two dicts
abbrev pub replaced_names : Text → Definition → Filters → Filters
replaced_names name definition m = record m {
  enabled = Dict.put definition.name definition.enabled (Dict.pop name m.enabled);
  custom_definitions = Dict.put definition.name definition (Dict.pop name m.custom_definitions);
}

-- the `reload` of the new filter's list, between the two
abbrev pub replace_reloaded :
    Result (Unit {0}) → Dict (List Text) → Text → Definition → Filters → Result (Unit {0}) × Filters
replace_reloaded (ok u) loaders name definition m =
    (ok tt, replaced_names name definition (replaced_filter loaders name definition m))
replace_reloaded (err e) loaders name definition m =
    (err e, replaced_filter loaders name definition m)

abbrev pub replace_loaded :
    (Text → Option File)
    → Result (List Text)
    → Dict (List Text)
    → Text
    → Definition
    → Filters
    → Result (Unit {0}) × Filters
replace_loaded files (ok loader) loaders name definition m =
    let loaded = Blocklist.load files definition.filename in
    replace_reloaded loaded.0 (Dict.put definition.filename loaded.1 loaders) name definition m
replace_loaded files (err e) loaders name definition m = (err e, record m { loaders = loaders })

unfoldable pub replaced : (Text → Option File) → Text → Definition → Exec Filters (Unit {0})
unfolding Blocklist.get Blocklist.load
replaced files name definition m =
    let got = Blocklist.get files definition.filename m.loaders in
    replace_loaded files got.0 got.1 name definition m

module _ (store : Store) where
  -- `__init__`, over the loaders of the registry; `raw[:100]`
  unfoldable pub init :
      (Text → Option File) → store.State → Dict (List Text) → Result (Unit {0}) × Filters
  unfolding load_custom stored with_list ◌>>=◌
  init files disk loaders =
      (with_list files (codes "test.txt")
          >> (with_list files (codes "ads.txt")
              >> load_custom files (stored (take 100 (store.load disk)))))
        (record {
          filters = builtin_filters;
          enabled = default_states;
          custom_definitions = [];
          loaders = loaders;
        })

  abbrev pub with_manager : (Filters → Filters) → World store.State → World store.State
  with_manager f w = record w { manager = f w.manager }

  -- `_persist`
  unfoldable pub persist : Exec (World store.State) (Unit {0})
  persist w =
      let saved = store.save (values w.manager.custom_definitions) w.disk in
      (saved.0, record w { disk = saved.1 })

  -- `custom_definitions[name]["enabled"] = …` and `_persist`, for a custom filter
  unfoldable pub set_definition :
      Text → Bool → Option Definition → Exec (World store.State) (Unit {0})
  unfolding pure modify persist ◌>>=◌
  set_definition name on none = pure tt
  set_definition name on (some definition) =
      modify (
        with_manager λ m. record m {
          custom_definitions =
              Dict.put name (record definition { enabled = on }) m.custom_definitions;
        })
      >> persist

  unfoldable pub set_enabled : Text → Bool → Exec (World store.State) (Unit {0})
  unfolding raise text_in set_definition
  set_enabled name on w =
      if not (text_in name (valid_names w.manager))
      then raise value_error w
      else set_definition name on (Dict.get name w.manager.custom_definitions)
          (with_manager (λ m. record m { enabled = Dict.put name on m.enabled }) w)

  unfoldable pub is_enabled : Text → Filters → Result Bool
  unfolding text_in
  is_enabled name m =
      if not (text_in name (valid_names m)) then err value_error else ok (is_on m name)

  unfoldable pub or_take_back :
      Text → Result (Unit {0}) → World store.State → Result (Unit {0}) × World store.State
  unfolding take_back
  or_take_back name (ok u) w = (ok u, w)
  or_take_back name (err e) w = (err e, with_manager (take_back name) w)

  -- `_persist` with its `except`, if the filter has been appended
  unfoldable pub persist_appended :
      Text → Result (Unit {0}) → World store.State → Result (Unit {0}) × World store.State
  unfolding or_take_back persist
  persist_appended name (err e) w = (err e, w)
  persist_appended name (ok u) w =
      let persisted = persist w in or_take_back name persisted.0 persisted.1

  unfoldable pub add_checked : Definition → Exec (World store.State) (Unit {0})
  unfolding raise append_filter persist_appended text_in
  add_checked definition w =
      if text_in definition.name (valid_names w.manager)
      then raise value_error w
      else if not (is_there (w.files definition.filename))
      then raise value_error w
      else (let appending = append_filter w.files definition w.manager in
          persist_appended definition.name appending.0 (record w { manager = appending.1 }))

  unfoldable pub add_custom_filter : Text → Text → Bool → Exec (World store.State) (Unit {0})
  unfolding lift validate_name validate_filename add_checked ◌>>=◌
  add_custom_filter name filename on = lift (validate_name name) >>= λ clean.
      lift (validate_filename filename) >>= λ file.
      add_checked (record { name = clean; filename = file; enabled = on })

  unfoldable pub remove_custom_filter : Text → Exec (World store.State) (Unit {0})
  unfolding raise persist
  remove_custom_filter name w =
      if not (is_there (Dict.get name w.manager.custom_definitions))
      then raise value_error w
      else persist (
          with_manager
            (λ m. record m {
              filters = without name m.filters;
              enabled = Dict.pop name m.enabled;
              custom_definitions = Dict.pop name m.custom_definitions;
            })
            w)

  unfoldable pub persist_replaced :
      Text → Result (Unit {0}) → World store.State → Result Text × World store.State
  unfolding pure persist ◌>>=◌
  persist_replaced name (err e) w = (err e, w)
  persist_replaced name (ok u) w = (persist >> pure name) w

  unfoldable pub update_checked : Text → Definition → Exec (World store.State) Text
  unfolding raise replaced persist_replaced text_in
  update_checked name definition w =
      if not (is_there (w.files definition.filename))
      then raise value_error w
      else if not (text_eq definition.name name) && text_in definition.name (valid_names w.manager)
      then raise value_error w
      else if not (text_in name (valid_names w.manager))
      then raise stop_iteration w
      else (let replacing = replaced w.files name definition w.manager in
          persist_replaced definition.name replacing.0 (record w { manager = replacing.1 }))

  unfoldable pub update_found :
      Text
      → Option Text
      → Option Text
      → Option Bool
      → Option Definition
      → Exec (World store.State) Text
  unfolding raise lift validate_name validate_filename update_checked ◌>>=◌
  update_found name new_name filename on none w = raise value_error w
  update_found name new_name filename on (some old) w =
      (lift (or_name name new_name) >>= λ target. lift (or_filename old filename) >>= λ file.
      update_checked name
        (record { name = target; filename = file; enabled = or_enabled (is_on w.manager name) on }))
        w

  unfoldable pub update_custom_filter :
      Text → Option Text → Option Text → Option Bool → Exec (World store.State) Text
  unfolding update_found
  update_custom_filter name new_name filename on w =
      update_found name new_name filename on (Dict.get name w.manager.custom_definitions) w
