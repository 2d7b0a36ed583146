-- ===== src/Dns/Filters/Manager/Failure.antt =====
-- What a call of `add_custom_filter` of dns_engine/filters/manager.py that raises leaves.
use sentinel_dns.Common.{
  ◌≡◌, refl, sym, ap, ◌∙◌, subst, Option, List, ◌⊎◌, Bool, false, Text, Bool-cases, inl, inr,
}
use sentinel_dns.Common.Exec.{Error, Result, ok, err, Result-cases, raise, lift, ◌>>=◌}
use sentinel_dns.Common.Dict.{Dict, put}
use sentinel_dns.Dns.Blocklist
use sentinel_dns.Dns.Blocklist.{File, text_in}
use sentinel_dns.Dns.Filters.{Filters, Definition}
use sentinel_dns.Dns.Filters.Manager
use sentinel_dns.Dns.Filters.Manager.{
  Store, World, valid_names, is_there, append_filter, appended, take_back, persist,
  persist_appended, or_take_back, add_checked,
}
use sentinel_dns.Dns.Filters.Manager.Names.{validate_name, validate_filename}
use sentinel_dns.Dns.Filters.Manager.Consistent.{IsNamed}
use sentinel_dns.Dns.Filters.Manager.TakeBack.{take_back-appended}

-- the filters, their states and the custom definitions are the same
abbrev pub AreSame : Filters → Filters → Type 0
AreSame m m' =
    (m'.filters ≡ m.filters)
    × (m'.enabled ≡ m.enabled)
    × (m'.custom_definitions ≡ m.custom_definitions)

-- the filters and their states are the same, and the definitions have a new one
abbrev pub IsDefined : Definition → Filters → Filters → Type 0
IsDefined definition m m' =
    (m'.filters ≡ m.filters)
    × (m'.enabled ≡ m.enabled)
    × (m'.custom_definitions ≡ put definition.name definition m.custom_definitions)

-- what a raised call has left: nothing, or the definition, where the loading of its list has raised
abbrev pub Left : (Text → Option File) → (Definition → Type 0) → Filters → Filters → Type 0
Left files Wanted m m' =
    AreSame m m'
    ⊎ ((definition : Definition) × Wanted definition
        × ((e : Error) × ((Blocklist.get files definition.filename m.loaders).0 ≡ err e))
        × IsDefined definition m m')

-- a definition of these arguments
abbrev pub IsOf : Text → Text → Bool → Definition → Type 0
IsOf name filename on definition =
    (validate_name name ≡ ok definition.name)
    × (validate_filename filename ≡ ok definition.filename)
    × (definition.enabled ≡ on)

module _ (store : Store) (Wanted : Definition → Type 0) where
  abbrev LeftBy : World store.State → Result (Unit {0}) → World store.State → Type 0
  LeftBy w (ok u) w' = Unit
  LeftBy w (err e) w' = Left w.files Wanted w.manager w'.manager

  or_take_back-LeftBy :
      (loaders : Dict (List Text)) (definition : Definition) (w w' : World store.State)
      (r : Result (Unit {0}))
      → IsNamed w.manager
      → text_in definition.name (valid_names w.manager) ≡ false
      → w'.manager ≡ appended loaders definition w.manager
      → LeftBy w
          (or_take_back store definition.name r w').0
          (or_take_back store definition.name r w').1
  unfolding or_take_back
  or_take_back-LeftBy loaders definition w w' (ok u) h new is = tt
  or_take_back-LeftBy loaders definition w w' (err e) h new is = inl (
      subst (AreSame w.manager)
        (sym (
          ap (take_back definition.name) is
          ∙ take_back-appended loaders definition w.manager h new))
        (refl, refl, refl))

  append-LeftBy :
      (definition : Definition) (w : World store.State)
      → Wanted definition
      → IsNamed w.manager
      → text_in definition.name (valid_names w.manager) ≡ false
      → (let appending = append_filter w.files definition w.manager in
          let out =
            persist_appended store definition.name appending.0
              (record w { manager = appending.1 }) in
          LeftBy w out.0 out.1)
  unfolding append_filter persist_appended persist
  append-LeftBy definition w k h new =
      let behind = (Blocklist.get w.files definition.filename w.manager.loaders).1 in
      elim (Result-cases (Blocklist.get w.files definition.filename w.manager.loaders).0) [
        | inl (e, fails) ↦ rw fails (inr (definition, k, (e, fails), (refl, refl, refl)))
        | inr (loader, loads) ↦
            let persisted =
              persist store (record w { manager = appended behind definition w.manager }) in
            rw loads (or_take_back-LeftBy behind definition w persisted.1 persisted.0 h new refl)
      ]

  add_checked-LeftBy :
      (definition : Definition) (w : World store.State)
      → Wanted definition
      → IsNamed w.manager
      → LeftBy w (add_checked store definition w).0 (add_checked store definition w).1
  unfolding add_checked raise
  add_checked-LeftBy definition w k h =
      elim (Bool-cases (text_in definition.name (valid_names w.manager))) [
        | inl taken ↦ rw taken (inl (refl, refl, refl))
        | inr new ↦ rw new (elim (Bool-cases (is_there (w.files definition.filename))) [
          | inr missing ↦ rw missing (inl (refl, refl, refl))
          | inl there ↦ rw there (append-LeftBy definition w k h new)
        ])
      ]

module _ (store : Store) where
  add-LeftBy :
      (name filename : Text) (on : Bool) (w : World store.State)
      → IsNamed w.manager
      → LeftBy store
          (IsOf name filename on)
          w
          (Manager.add_custom_filter store name filename on w).0
          (Manager.add_custom_filter store name filename on w).1
  unfolding Manager.add_custom_filter lift ◌>>=◌
  add-LeftBy name filename on w h = elim (Result-cases (validate_name name)) [
    | inl (e, bad) ↦ rw bad (inl (refl, refl, refl))
    | inr (clean, good) ↦ rw good (elim (Result-cases (validate_filename filename)) [
      | inl (e, bad) ↦ rw bad (inl (refl, refl, refl))
      | inr (file, fine) ↦ rw fine (
          add_checked-LeftBy store (IsOf name filename on)
            (record { name = clean; filename = file; enabled = on }) w (good, fine, refl) h)
    ])
  ]

  -- Where no two filters share a name and the dicts of states and of custom definitions have no key
  -- that is not the name of a filter: a call of `add_custom_filter` that raises, be it for a name or a
  -- filename that is not valid, for a name that is taken, for a file that is not there, or because the
  -- definitions cannot be written, leaves the filters, their states and the custom definitions as they
  -- were, unless the loading of the block list has raised: then the filters and their states are as they
  -- were, and the custom definition of the arguments has been entered without its filter.
  pub add_custom_filter_raised :
      (name filename : Text) (on : Bool) (w w' : World store.State) (e : Error)
      → IsNamed w.manager
      → Manager.add_custom_filter store name filename on w ≡ (err e, w')
      → Left w.files (IsOf name filename on) w.manager w'.manager
  add_custom_filter_raised name filename on w w' e h raises =
      subst (λ out. LeftBy store (IsOf name filename on) w out.0 out.1) raises
        (add-LeftBy name filename on w h)
