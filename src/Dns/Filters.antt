-- ===== src/Dns/Filters.antt =====
-- `FilterManager` of dns_engine/filters/manager.py, the filters of dns_engine/filters/, and the shared
-- loaders of dns_engine/blocklist_registry.py. The child module has the
-- methods that change the filters.
pub mod Manager
pub mod First
mod Tests
use sentinel_dns.Common.{
  ℕ, ◌-◌, ◌≡◌, Bool, true, false, not, ◌&&◌, ◌||◌, Option, none, some, List, [], ◌∷◌, ◌++◌, Text,
  codes, leb, ◌==◌, length, take, drop, text_eq, if◌then◌else◌,
}
use sentinel_dns.Common.Dict
use sentinel_dns.Common.Dict.{Dict}
use sentinel_dns.Text.{strip, lower}
use sentinel_dns.Dns.Models.{DnsQuery, FilterDecision}
use sentinel_dns.Dns.Blocklist
use sentinel_dns.Dns.Blocklist.{text_in, rstrip_dots, contains}

-- the filter classes; a custom filter has a name and a filename
pub data Filter : Type 0 where
  whitelist blacklist adblock malware adult schedule : Filter
  custom : Text → Text → Filter

-- `_filter_name`
abbrev pub filter_name : Filter → Text
filter_name Filter.whitelist = codes "Whitelist"
filter_name Filter.blacklist = codes "Blacklist"
filter_name Filter.adblock = codes "AdBlock"
filter_name Filter.malware = codes "Malware"
filter_name Filter.adult = codes "Adult"
filter_name Filter.schedule = codes "Schedule"
filter_name (Filter.custom name filename) = name

-- FilterDecision(allowed=True)
abbrev pub allow : FilterDecision
allow = record { allowed = true; reason = []; filter_name = [] }

abbrev pub block : Text → Text → FilterDecision
block reason name = record { allowed = false; reason = reason; filter_name = name }

abbrev pub loader_of : Option (List Text) → List Text
loader_of none = []
loader_of (some loader) = loader

-- the loader that a filter holds, by the filename under which it is shared
unfoldable pub is_listed : Dict (List Text) → Text → Text → Bool
is_listed loaders filename domain = contains (loader_of (Dict.get filename loaders)) domain

-- `BlacklistFilter.evaluate`
unfoldable pub evaluate_blacklist : Dict (List Text) → Text → FilterDecision
unfolding is_listed strip rstrip_dots lower
evaluate_blacklist loaders domain =
    let normalized = lower (rstrip_dots (strip domain)) in
    if length normalized == 0
    then allow
    else if is_listed loaders (codes "test.txt") normalized
    then block (codes "Blacklisted domain") (codes "Blacklist")
    else allow

-- `AdBlockFilter.evaluate`
unfoldable pub evaluate_adblock : Dict (List Text) → Text → FilterDecision
unfolding is_listed
evaluate_adblock loaders domain =
    if is_listed loaders (codes "ads.txt") domain
    then block (codes "Advertisement domain") (codes "AdBlock")
    else allow

-- `CustomBlocklistFilter.evaluate`
unfoldable pub evaluate_custom : Text → Text → Dict (List Text) → Text → FilterDecision
unfolding is_listed strip
evaluate_custom name filename loaders domain =
    if length (strip domain) == 0
    then allow
    else if is_listed loaders filename domain
    then block (codes "Custom filter: " ++ name) name
    else allow

-- `evaluate` of each class
unfoldable pub evaluate_filter : Filter → Dict (List Text) → DnsQuery → FilterDecision
unfolding evaluate_blacklist evaluate_adblock evaluate_custom
evaluate_filter Filter.whitelist loaders query = allow
evaluate_filter Filter.blacklist loaders query = evaluate_blacklist loaders query.domain
evaluate_filter Filter.adblock loaders query = evaluate_adblock loaders query.domain
evaluate_filter Filter.malware loaders query = allow
evaluate_filter Filter.adult loaders query = allow
evaluate_filter Filter.schedule loaders query = allow
evaluate_filter (Filter.custom name filename) loaders query =
    evaluate_custom name filename loaders query.domain

pub record Definition : Type 0 where
  pub name : Text
  pub filename : Text
  pub enabled : Bool

pub record Filters : Type 0 where
  pub filters : List Filter
  pub enabled : Dict Bool
  pub custom_definitions : Dict Definition
  pub loaders : Dict (List Text)

-- self.enabled.get(name, False)
abbrev pub or_false : Option Bool → Bool
or_false none = false
or_false (some b) = b

abbrev pub is_on : Filters → Text → Bool
is_on m name = or_false (Dict.get name m.enabled)

-- the loop of `evaluate`
unfoldable pub evaluate_from : List Filter → Filters → DnsQuery → FilterDecision
unfolding evaluate_filter
evaluate_from [] m query = allow
evaluate_from (f ∷ fs) m query =
    let rest = evaluate_from fs m query in
    let decision = evaluate_filter f m.loaders query in
    if is_on m (filter_name f) then (if decision.allowed then rest else decision) else rest

unfoldable pub evaluate : Filters → DnsQuery → FilterDecision
unfolding evaluate_from
evaluate m query = evaluate_from m.filters m query
