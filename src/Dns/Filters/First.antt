-- ===== src/Dns/Filters/First.antt =====
-- Which filter decides in dns_engine/filters/manager.py.
use sentinel_dns.Common.{
  ◌≡◌, refl, ap, Bool, true, false, not, ◌&&◌, List, [], ◌∷◌, ◌++◌, arith, if◌then◌else◌,
}
use sentinel_dns.Dns.Models.{DnsQuery, FilterDecision}
use sentinel_dns.Dns.Filters.{
  Filter, Filters, filter_name, allow, is_on, evaluate_filter, evaluate_from, evaluate,
  evaluate_blacklist, evaluate_adblock, evaluate_custom,
}

-- an enabled filter that refuses the query
abbrev pub refuses : Filters → DnsQuery → Filter → Bool
refuses m query f = is_on m (filter_name f) && not (evaluate_filter f m.loaders query).allowed

-- none of the filters refuses
abbrev pub Silent : Filters → DnsQuery → List Filter → Type 0
Silent m query [] = Unit
Silent m query (f ∷ fs) = (refuses m query f ≡ false) × Silent m query fs

-- the decision of these filters: that of the first one that refuses, or to allow
pub data Decided (m : Filters) (query : DnsQuery) (fs : List Filter) : FilterDecision → Type 0 where
  passed : Silent m query fs → Decided m query fs allow
  refused :
      (before : List Filter) (f : Filter) (behind : List Filter)
      → fs ≡ before ++ f ∷ behind
      → Silent m query before
      → refuses m query f ≡ true
      → Decided m query fs (evaluate_filter f m.loaders query)

module _ (m : Filters) (query : DnsQuery) where
  behind_silent :
      (f : Filter) (fs : List Filter) (d : FilterDecision)
      → refuses m query f ≡ false
      → Decided m query fs d
      → Decided m query (f ∷ fs) d
  behind_silent f fs _ silent (Decided.passed all) = Decided.passed (silent, all)
  behind_silent f fs _ silent (Decided.refused before g behind e all refusing) =
      Decided.refused (f ∷ before) g behind (ap (◌∷◌ f) e) (silent, all) refusing

  choose :
      (f : Filter) (fs : List Filter) (rest : FilterDecision) (on allowed : Bool)
      → Decided m query fs rest
      → is_on m (filter_name f) ≡ on
      → (evaluate_filter f m.loaders query).allowed ≡ allowed
      → Decided m query
          (f ∷ fs)
          (if on then (if allowed then rest else evaluate_filter f m.loaders query) else rest)
  choose f fs rest false allowed h e k = behind_silent f fs rest (ground arith) h
  choose f fs rest true true h e k = behind_silent f fs rest (ground arith) h
  choose f fs rest true false h e k = Decided.refused [] f fs refl tt (ground arith)

  evaluate_from-Decided : (fs : List Filter) → Decided m query fs (evaluate_from fs m query)
  unfolding evaluate_from
  evaluate_from-Decided [] = Decided.passed tt
  evaluate_from-Decided (f ∷ fs) =
      choose f fs (evaluate_from fs m query) _ _ (evaluate_from-Decided fs) refl refl

  -- The decision of the manager is that of the first of its filters that is enabled and refuses the
  -- query; where there is none, the query is allowed.
  pub evaluate-Decided : Decided m query m.filters (evaluate m query)
  unfolding evaluate
  evaluate-Decided = evaluate_from-Decided m.filters

  -- a refusal is in the name of the filter
  filter_name-evaluate_filter :
      (f : Filter)
      → (evaluate_filter f m.loaders query).allowed ≡ false
      → (evaluate_filter f m.loaders query).filter_name ≡ filter_name f
  unfolding evaluate_filter evaluate_blacklist evaluate_adblock evaluate_custom
  filter_name-evaluate_filter Filter.whitelist h = absurd (ground (arith, h))
  filter_name-evaluate_filter Filter.blacklist h = ground arith
  filter_name-evaluate_filter Filter.adblock h = ground arith
  filter_name-evaluate_filter Filter.malware h = absurd (ground (arith, h))
  filter_name-evaluate_filter Filter.adult h = absurd (ground (arith, h))
  filter_name-evaluate_filter Filter.schedule h = absurd (ground (arith, h))
  filter_name-evaluate_filter (Filter.custom name filename) h = ground arith

  blocked_by :
      (d : FilterDecision)
      → Decided m query m.filters d
      → d.allowed ≡ false
      → (before : List Filter) × (f : Filter) × (behind : List Filter) × (m.filters
          ≡ before ++ f ∷ behind)
        × (is_on m (filter_name f) ≡ true)
        × (d.filter_name ≡ filter_name f)
  blocked_by _ (Decided.passed all) h = absurd (ground (arith, h))
  blocked_by _ (Decided.refused before f behind e all refusing) h =
      (before, f, behind, e, ground arith, filter_name-evaluate_filter f h)

  -- A query that is blocked is blocked in the name of one of the manager's filters, which is enabled.
  pub evaluate_blocked :
      (evaluate m query).allowed ≡ false
      → (before : List Filter) × (f : Filter) × (behind : List Filter) × (m.filters
          ≡ before ++ f ∷ behind)
        × (is_on m (filter_name f) ≡ true)
        × ((evaluate m query).filter_name ≡ filter_name f)
  evaluate_blocked h = blocked_by (evaluate m query) evaluate-Decided h
