-- ===== src/Dns/Filters/Manager/Tests.antt =====
-- Runs of dns_engine/filters/manager.py with a file that can fail, and its theorems at concrete calls.
use sentinel_dns.Common.{
  ◌≡◌, ◌++◌, arith, Bool-cases, inl, inr, refl, true, false, Option, none, some, List, [], ◌∷◌,
  Text, codes, text_eq, if◌then◌else◌,
}
use sentinel_dns.Common.Exec.{
  value_error, Result, ok, err, os_error, pure, raise, lift, modify, ◌>>=◌,
}
use sentinel_dns.Common.Dict
use sentinel_dns.Text
use sentinel_dns.Dns.Blocklist
use sentinel_dns.Dns.Blocklist.{File}
use sentinel_dns.Dns.Filters.{Definition}
use sentinel_dns.Dns.Filters.Manager
use sentinel_dns.Dns.Filters.Manager.{
  Store, World, builtin_filters, default_states, valid_names, add_custom_filter,
  update_custom_filter, remove_custom_filter, set_enabled,
}
use sentinel_dns.Dns.Filters.Manager.Names
use sentinel_dns.Dns.Filters.Manager.Consistent.{IsNamed, builtin-IsNamed}
use sentinel_dns.Dns.Filters.Manager.Keeps
use sentinel_dns.Dns.Filters.Manager.Keeps.{AreReadable, Call, run, run-IsNamed}
use sentinel_dns.Dns.Filters.Manager.Failure.{Left, IsOf, add_custom_filter_raised}

evaluated : Unit {0}
unfolding add_custom_filter update_custom_filter remove_custom_filter set_enabled Manager.persist
    Manager.set_definition Manager.add_checked Manager.update_checked Manager.update_found
    Manager.or_take_back Manager.take_back Manager.append_filter Manager.with_list
    Manager.persist_appended Manager.persist_replaced Manager.replaced Manager.init
    Manager.load_custom Manager.stored Names.validate_name Names.validate_filename
    Names.matches_name Names.matches_file Names.matches_stem Names.every Blocklist.text_in
    Blocklist.get Blocklist.load Blocklist.load_found Blocklist.load_lines Blocklist.add_domains
    Blocklist.add_text Blocklist.domain_parts Blocklist.line_parts Blocklist.words Blocklist.pieces
    Blocklist.before_hash Blocklist.rstrip_dots Text.strip Text.lstrip Text.rstrip_by Text.is_space
    Text.lower Text.lower_char text_eq Dict.get Dict.put Dict.pop pure raise lift modify ◌>>=◌ run
    Keeps.step
evaluated = tt

-- a file that cannot be written while the list that it holds is empty
abbrev store : Store
store = record {
  State = List Definition;
  save = λ definitions disk. save_on disk definitions;
  load = λ disk. disk;
}
  where
    save_on : List Definition → List Definition → Result (Unit {0}) × List Definition
    save_on [] definitions = (err os_error, [])
    save_on (d ∷ ds) definitions = (ok tt, definitions)

abbrev files : Text → Option File
files filename =
    if text_eq filename (codes "custom_a.txt")
    then some (record { lines = codes "Ads.io" ∷ []; failure = none })
    else none

abbrev item : Definition
item = record { name = codes " Mine "; filename = codes "custom_a.txt"; enabled = false }

abbrev mine : Definition
mine = record { name = codes "Mine"; filename = codes "custom_a.txt"; enabled = false }

abbrev start : List Definition → World (List Definition)
start disk = record { manager = (Manager.init store files disk []).1; files = files; disk = disk }

loads : (start (item ∷ [])).manager.custom_definitions ≡ (codes "Mine", mine) ∷ []
unfolding evaluated
loads = refl

updates :
    (update_custom_filter store
      (codes "Mine")
      (some (codes "Ours"))
      none
      (some true)
      (start (item ∷ []))).1.manager.enabled
    ≡ (codes "Whitelist", true)
      ∷ (codes "Blacklist", true)
      ∷ (codes "AdBlock", true)
      ∷ (codes "Malware", true)
      ∷ (codes "Adult", true)
      ∷ (codes "Schedule", true)
      ∷ (codes "Ours", true)
      ∷ []
unfolding evaluated
updates = refl

-- where the file cannot be written, `update_custom_filter` raises, and the new name stays
abbrev broken : World (List Definition)
broken = record (start (item ∷ [])) { disk = [] }

update_raises :
    (update_custom_filter store (codes "Mine") (some (codes "Ours")) none none broken).0
    ≡ err os_error
unfolding evaluated
update_raises = refl

not_taken_back :
    Blocklist.text_in (codes "Ours") (
      valid_names
        (update_custom_filter store
          (codes "Mine")
          (some (codes "Ours"))
          none
          none
          broken).1.manager)
    ≡ true
unfolding evaluated
not_taken_back = refl

-- a new manager, and a file that can be written
abbrev fresh : World (List Definition)
fresh = record (start []) { disk = item ∷ [] }

fresh-IsNamed : IsNamed fresh.manager
unfolding evaluated
fresh-IsNamed = builtin-IsNamed fresh.manager.loaders

files-Readable : AreReadable files
files-Readable filename file e = elim (Bool-cases (text_eq filename (codes "custom_a.txt"))) [
  | inl is ↦ ground (arith, is)
  | inr other ↦ ground (arith, other)
]

run-IsNamed_example :
    IsNamed
      (run store
        (Call.add_custom_filter (codes "Mine") (codes "custom_a.txt") true
          ∷ Call.update_custom_filter (codes "Mine") (some (codes "Ours")) none none
          ∷ Call.remove_custom_filter (codes "Adult")
          ∷ [])
        fresh).manager
run-IsNamed_example =
    run-IsNamed store
      (Call.add_custom_filter (codes "Mine") (codes "custom_a.txt") true
        ∷ Call.update_custom_filter (codes "Mine") (some (codes "Ours")) none none
        ∷ Call.remove_custom_filter (codes "Adult")
        ∷ [])
      fresh fresh-IsNamed files-Readable

-- a file that is no UTF-8 behind its first line
abbrev torn : World (List Definition)
torn = record fresh {
  files = λ filename. some (record { lines = codes "ads.io" ∷ []; failure = some value_error });
}

-- the definition stays without its filter
definition_left : add_custom_filter store (codes "Mine") (codes "custom_a.txt") false torn ≡ (
  err value_error,
  record torn { manager = record torn.manager { custom_definitions = (codes "Mine", mine) ∷ [] } },
)
unfolding evaluated
definition_left = refl

-- two definitions of one name in the file make two filters of one name
repeated :
    valid_names (start (item ∷ item ∷ [])).manager
    ≡ valid_names fresh.manager ++ codes "Mine" ∷ codes "Mine" ∷ []
unfolding evaluated
repeated = refl

add_custom_filter_raised_example :
    Left torn.files
      (IsOf (codes "Mine") (codes "custom_a.txt") false)
      torn.manager
      (record torn.manager { custom_definitions = (codes "Mine", mine) ∷ [] })
add_custom_filter_raised_example =
    add_custom_filter_raised store (codes "Mine") (codes "custom_a.txt") false torn
      (record torn {
        manager = record torn.manager { custom_definitions = (codes "Mine", mine) ∷ [] };
      })
      value_error fresh-IsNamed definition_left

add_unwritten :
    (add_custom_filter store
      (codes "Mine")
      (codes "custom_a.txt")
      true
      (start [])).1.manager.filters
    ≡ builtin_filters
unfolding evaluated
add_unwritten = refl
