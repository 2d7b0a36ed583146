-- ===== src/Dns/Filters/Manager/Keeps.antt =====
-- The filters of dns_engine/filters/manager.py over every sequence of calls.
use sentinel_dns.Common.{
  ◌≡◌, refl, sym, ap, ◌∙◌, subst, Bool, true, false, not, ◌&&◌, Option, none, some, List, [], ◌∷◌,
  arith, Text, text_eq, Bool-cases, Option-cases, inl, inr,
}
use sentinel_dns.Common.Exec.{Result, ok, err, pure, raise, modify, ◌>>=◌}
use sentinel_dns.Common.Dict.{Dict, get, put}
use sentinel_dns.Common.Triple.{lift_bind_state, bind_pure_state}
use sentinel_dns.Dns.Blocklist
use sentinel_dns.Dns.Blocklist.{File, text_in}
use sentinel_dns.Dns.Filters.{Filters, Definition}
use sentinel_dns.Dns.Filters.Manager
use sentinel_dns.Dns.Filters.Manager.{
  Store, World, valid_names, is_there, appended, append_filter, take_back, with_manager, persist,
  persist_appended, persist_replaced, replaced_filter, replaced_names, set_definition, or_take_back,
  add_checked, update_checked, update_found, or_name, or_filename, or_enabled, replaced,
}
use sentinel_dns.Dns.Filters.Manager.Names.{validate_name, validate_filename}
use sentinel_dns.Dns.Filters.Manager.Consistent.{
  IsNamed, appended-IsNamed, enable-IsNamed, define-IsNamed, remove-IsNamed, replaced-IsNamed,
}
use sentinel_dns.Dns.Filters.Manager.Distinct.{is_fresh}
use sentinel_dns.Dns.Filters.Manager.TakeBack.{take_back-appended}

-- whatever file there is, it can be opened and read to its end
abbrev pub AreReadable : (Text → Option File) → Type 0
AreReadable files =
    (filename : Text) (file : File) → files filename ≡ some file → file.failure ≡ none

load-Readable :
    (files : Text → Option File) (filename : Text)
    → AreReadable files
    → (Blocklist.load files filename).0 ≡ ok tt
unfolding Blocklist.load Blocklist.load_found
load-Readable files filename readable = elim (Option-cases (files filename)) [
  | inl missing ↦ rw missing refl
  | inr (file, there) ↦ rw there (rw (readable filename file there) refl)
]

get-Readable :
    (files : Text → Option File) (filename : Text) (loaders : Dict (List Text))
    → AreReadable files
    → (loader : List Text) × ((Blocklist.get files filename loaders).0 ≡ ok loader)
unfolding Blocklist.get
get-Readable files filename loaders readable = elim (Option-cases (get filename loaders)) [
  | inl new ↦
      ((Blocklist.load files filename).1, rw new (rw (load-Readable files filename readable) refl))
  | inr (loader, old) ↦ (loader, rw old refl)
]

-- the loaders are no part of the names
reload-IsNamed :
    (m : Filters) (l : Dict (List Text)) → IsNamed m → IsNamed (record m { loaders = l })
reload-IsNamed m l h = record { once = h.once; definitions = h.definitions; states = h.states }

module _ (store : Store) where
  -- with files that can be read to their end
  abbrev Named : World store.State → Type 0
  Named w = IsNamed w.manager × AreReadable w.files

  -- the two writes of `set_enabled`
  set_definition-Named :
      (name : Text) (on : Bool) (o : Option Definition) (w : World store.State)
      → Named w
      → text_in name (valid_names w.manager) ≡ true
      → Named (set_definition store name on o w).1
  unfolding set_definition pure modify persist ◌>>=◌
  set_definition-Named name on none w h known = h
  set_definition-Named name on (some definition) w h known =
      (define-IsNamed name (record definition { enabled = on }) w.manager h.0 known, h.1)

  set_enabled-Named :
      (name : Text) (on : Bool) (w : World store.State)
      → Named w
      → Named (Manager.set_enabled store name on w).1
  unfolding Manager.set_enabled raise
  set_enabled-Named name on w h = elim (Bool-cases (text_in name (valid_names w.manager))) [
    | inr unknown ↦ rw unknown h
    | inl known ↦ rw known (
        set_definition-Named name on (get name w.manager.custom_definitions)
          (with_manager store (λ m. record m { enabled = put name on m.enabled }) w)
          (enable-IsNamed name on w.manager h.0 known, h.1) known)
  ]

  or_take_back-Named :
      (loaders : Dict (List Text)) (definition : Definition) (m : Filters) (w : World store.State)
      (r : Result (Unit {0}))
      → IsNamed m
      → text_in definition.name (valid_names m) ≡ false
      → w.manager ≡ appended loaders definition m
      → IsNamed (or_take_back store definition.name r w).1.manager
  unfolding or_take_back
  or_take_back-Named loaders definition m w (ok u) h new is =
      subst IsNamed (sym is) (appended-IsNamed loaders definition m h new)
  or_take_back-Named loaders definition m w (err e) h new is =
      subst IsNamed
        (sym (ap (take_back definition.name) is ∙ take_back-appended loaders definition m h new))
        (reload-IsNamed m loaders h)

  files-or_take_back :
      (name : Text) (w : World store.State) (r : Result (Unit {0}))
      → (or_take_back store name r w).1.files ≡ w.files
  unfolding or_take_back
  files-or_take_back name w (ok u) = refl
  files-or_take_back name w (err e) = refl

  append-Named :
      (definition : Definition) (w : World store.State)
      → Named w
      → text_in definition.name (valid_names w.manager) ≡ false
      → Named
          (let appending = append_filter w.files definition w.manager in
            persist_appended store definition.name appending.0
              (record w { manager = appending.1 })).1
  unfolding append_filter persist_appended persist
  append-Named definition w (h, readable) new =
      let (loader, loads) = get-Readable w.files definition.filename w.manager.loaders readable in
      let behind = (Blocklist.get w.files definition.filename w.manager.loaders).1 in
      let persisted = persist store (record w { manager = appended behind definition w.manager }) in
      rw loads (
        or_take_back-Named behind definition w.manager persisted.1 persisted.0 h new refl,
        subst AreReadable (sym (files-or_take_back definition.name persisted.1 persisted.0))
            readable,
      )

  add_checked-Named :
      (definition : Definition) (w : World store.State)
      → Named w
      → Named (add_checked store definition w).1
  unfolding add_checked raise
  add_checked-Named definition w h =
      elim (Bool-cases (text_in definition.name (valid_names w.manager))) [
        | inl taken ↦ rw taken h
        | inr new ↦ rw new (elim (Bool-cases (is_there (w.files definition.filename))) [
          | inr missing ↦ rw missing h
          | inl there ↦ rw there (append-Named definition w h new)
        ])
      ]

  add_custom_filter-Named :
      (name filename : Text) (on : Bool) (w : World store.State)
      → Named w
      → Named (Manager.add_custom_filter store name filename on w).1
  unfolding Manager.add_custom_filter
  add_custom_filter-Named name filename on w h =
      lift_bind_state Named (validate_name name) _ w h λ clean.
        lift_bind_state Named (validate_filename filename) _ w h λ file. add_checked-Named _ w h

  remove_custom_filter-Named :
      (name : Text) (w : World store.State)
      → Named w
      → Named (Manager.remove_custom_filter store name w).1
  unfolding Manager.remove_custom_filter raise persist
  remove_custom_filter-Named name w h =
      elim (Bool-cases (is_there (get name w.manager.custom_definitions))) [
        | inr missing ↦ rw missing h
        | inl there ↦ rw there (remove-IsNamed name w.manager h.0, h.1)
      ]

  replace-Named :
      (name : Text) (definition : Definition) (w : World store.State)
      → Named w
      → text_in name (valid_names w.manager) ≡ true
      → is_fresh definition.name name (valid_names w.manager) ≡ true
      → Named
          (let replacing = replaced w.files name definition w.manager in
            persist_replaced store definition.name replacing.0
              (record w { manager = replacing.1 })).1
  unfolding replaced persist_replaced
  replace-Named name definition w (h, readable) known fresh =
      let (loader, loads) = get-Readable w.files definition.filename w.manager.loaders readable in
      let behind =
        put definition.filename (Blocklist.load w.files definition.filename).1
          (Blocklist.get w.files definition.filename w.manager.loaders).1 in
      rw (loads, load-Readable w.files definition.filename readable)
        (bind_pure_state Named (persist store) definition.name
          (record w {
            manager =
                replaced_names name definition (replaced_filter behind name definition w.manager);
          })
          (unfold persist in
            (replaced-IsNamed behind name definition w.manager h known fresh, readable)))

  update_checked-Named :
      (name : Text) (definition : Definition) (w : World store.State)
      → Named w
      → Named (update_checked store name definition w).1
  unfolding update_checked raise
  update_checked-Named name definition w h =
      elim (Bool-cases (is_there (w.files definition.filename))) [
        | inr missing ↦ rw missing h
        | inl there ↦ rw there (elim (Bool-cases (taken)) [
          | inl clash ↦ rw clash h
          | inr fresh ↦ rw fresh (elim (Bool-cases (text_in name (valid_names w.manager))) [
            | inr unknown ↦ rw unknown h
            | inl known ↦ rw known (replace-Named name definition w h known (ground arith))
          ])
        ])
      ]
    where
      taken : Bool
      taken = not (text_eq definition.name name) && text_in definition.name (valid_names w.manager)

  update_found-Named :
      (name : Text) (new_name filename : Option Text) (on : Option Bool) (o : Option Definition)
      (w : World store.State)
      → Named w
      → Named (update_found store name new_name filename on o w).1
  unfolding update_found raise
  update_found-Named name new_name filename on none w h = h
  update_found-Named name new_name filename on (some old) w h =
      lift_bind_state Named (or_name name new_name) _ w h λ target.
        lift_bind_state Named (or_filename old filename) _ w h
          λ file. update_checked-Named name _ w h

  pub data Call : Type 0 where
    set_enabled : Text → Bool → Call
    add_custom_filter : Text → Text → Bool → Call
    update_custom_filter : Text → Option Text → Option Text → Option Bool → Call
    remove_custom_filter : Text → Call

  unfoldable pub step : Call → World store.State → World store.State
  step (Call.set_enabled name on) w = (Manager.set_enabled store name on w).1
  step (Call.add_custom_filter name filename on) w =
      (Manager.add_custom_filter store name filename on w).1
  step (Call.update_custom_filter name new_name filename on) w =
      (Manager.update_custom_filter store name new_name filename on w).1
  step (Call.remove_custom_filter name) w = (Manager.remove_custom_filter store name w).1

  unfoldable pub run : List Call → World store.State → World store.State
  run [] w = w
  run (call ∷ calls) w = run calls (step call w)

  step-Named : (call : Call) (w : World store.State) → Named w → Named (step call w)
  unfolding step Manager.update_custom_filter
  step-Named (Call.set_enabled name on) w h = set_enabled-Named name on w h
  step-Named (Call.add_custom_filter name filename on) w h =
      add_custom_filter-Named name filename on w h
  step-Named (Call.update_custom_filter name new_name filename on) w h =
      update_found-Named name new_name filename on (get name w.manager.custom_definitions) w h
  step-Named (Call.remove_custom_filter name) w h = remove_custom_filter-Named name w h

  run-Named : (calls : List Call) (w : World store.State) → Named w → Named (run calls w)
  unfolding run
  run-Named [] w h = h
  run-Named (call ∷ calls) w h = run-Named calls (step call w) (step-Named call w h)

  -- Where no two filters share a name at the start and the dicts of states and of custom definitions
  -- have no key that is not the name of a filter, and every block list that is there can be read to its
  -- end: this stays so, whatever the calls, and whether or not the file of the definitions can be
  -- written.
  pub run-IsNamed :
      (calls : List Call) (w : World store.State)
      → IsNamed w.manager
      → AreReadable w.files
      → IsNamed (run calls w).manager
  run-IsNamed calls w h readable = (run-Named calls w (h, readable)).0
