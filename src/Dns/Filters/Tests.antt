-- ===== src/Dns/Filters/Tests.antt =====
-- Runs of the filters of dns_engine/filters/, and the theorems at concrete queries.
use sentinel_dns.Common.{◌≡◌, refl, true, false, [], ◌∷◌, Text, codes, text_eq}
use sentinel_dns.Common.Dict
use sentinel_dns.Text
use sentinel_dns.Dns.Models.{DnsQuery}
use sentinel_dns.Dns.Blocklist
use sentinel_dns.Dns.Filters
use sentinel_dns.Dns.Filters.{Filter, Filters, filter_name, block, is_on, evaluate}
use sentinel_dns.Dns.Filters.First.{Decided, evaluate-Decided}

evaluated : Unit {0}
unfolding evaluate Filters.evaluate_from Filters.evaluate_filter Filters.evaluate_blacklist
    Filters.evaluate_adblock Filters.evaluate_custom Filters.is_listed Blocklist.contains
    Blocklist.text_in Blocklist.rstrip_dots Text.strip Text.lstrip Text.rstrip_by Text.is_space
    Text.lower Text.lower_char text_eq Dict.get
evaluated = tt

abbrev query : Text → DnsQuery
query domain = record {
  transaction_id = 7;
  flags = 256;
  questions = 1;
  answers = 0;
  authority = 0;
  additional = 0;
  domain = domain;
  query_type = 1;
  query_class = 1;
}

-- `bad.io` is on the list of advertisements and on that of a custom filter; the blacklist is off
abbrev manager : Filters
manager = record {
  filters =
      Filter.whitelist
      ∷ Filter.blacklist
      ∷ Filter.adblock
      ∷ Filter.custom (codes "Mine") (codes "custom_a.txt")
      ∷ [];
  enabled =
      (codes "Whitelist", true)
      ∷ (codes "Blacklist", false)
      ∷ (codes "AdBlock", true)
      ∷ (codes "Mine", true)
      ∷ [];
  custom_definitions = [];
  loaders =
      (codes "test.txt", codes "bad.io" ∷ [])
      ∷ (codes "ads.txt", codes "bad.io" ∷ [])
      ∷ (codes "custom_a.txt", codes "bad.io" ∷ codes "own.io" ∷ [])
      ∷ [];
}

advertised :
    evaluate manager (query (codes "bad.io"))
    ≡ block (codes "Advertisement domain") (codes "AdBlock")
unfolding evaluated
advertised = refl

own : evaluate manager (query (codes "own.io")) ≡ block (codes "Custom filter: Mine") (codes "Mine")
unfolding evaluated
own = refl

evaluate-Decided_example :
    Decided manager
      (query (codes "bad.io"))
      manager.filters
      (block (codes "Advertisement domain") (codes "AdBlock"))
unfolding evaluated
evaluate-Decided_example = evaluate-Decided manager (query (codes "bad.io"))
