-- ===== src/Dns/Resolver/Sample.antt =====
-- A resolver whose upstream answers its first query and fails then, and queries for the tests.
use sentinel_dns.Common.{
  ℕ, ◌+◌, ◌*◌, true, none, some, [], ◌∷◌, ◌++◌, Text, codes, length, ltb, if◌then◌else◌,
}
use sentinel_dns.Common.Exec.{ok, err, os_error}
use sentinel_dns.Dns.Models.{Bytes, DnsQuery}
use sentinel_dns.Dns.Cache
use sentinel_dns.Dns.Filters.{Filter}
use sentinel_dns.Dns.Metrics
use sentinel_dns.Dns.Upstream.{Network}
use sentinel_dns.Dns.Resolver.{Resolver}

-- the state counts the queries; the client answers the first of them
abbrev pub network : Network
network = record {
  State = ℕ;
  Client = Unit {0};
  query = λ client packet n. (if ltb n 1 then ok (packet ++ 9 ∷ []) else err os_error, n + 1);
  close = λ client n. (ok tt, n);
}

abbrev pub clock : ℕ → ℕ
clock n = n * 1000000

abbrev pub resolver : Resolver ℕ (Unit {0})
resolver = record {
  cache = Cache.init clock;
  filter_manager = record {
    filters = Filter.adblock ∷ [];
    enabled = (codes "AdBlock", true) ∷ [];
    custom_definitions = [];
    loaders = (codes "ads.txt", codes "ads" ∷ []) ∷ [];
  };
  upstream = record {
    transport = codes "udp";
    server = none;
    port = none;
    provider = none;
    client = some tt;
  };
  metrics = Metrics.init clock clock;
  query_log = record {
    max_entries = 100;
    entries = [];
    file = none;
    faults = λ n. true;
    operations = 0;
    readings = clock;
    reads = 0;
  };
  logged = [];
  network = 0;
  perf = clock;
  ticks = 0;
}

-- a query of this id, type and label
abbrev pub packet : ℕ → ℕ → Bytes → Bytes
packet id type label =
    0
    ∷ id
    ∷ 1
    ∷ 0
    ∷ 0
    ∷ 1
    ∷ 0
    ∷ 0
    ∷ 0
    ∷ 0
    ∷ 0
    ∷ 0
    ∷ length label
    ∷ (label ++ 0 ∷ 0 ∷ type ∷ 0 ∷ 1 ∷ [])

abbrev pub query : ℕ → ℕ → Text → DnsQuery
query id type domain = record {
  transaction_id = id;
  flags = 256;
  questions = 1;
  answers = 0;
  authority = 0;
  additional = 0;
  domain = domain;
  query_type = type;
  query_class = 1;
}
