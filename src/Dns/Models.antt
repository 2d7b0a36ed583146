-- ===== src/Dns/Models.antt =====
-- The records of dns_engine/models.py. Times are readings of the clock, in microseconds.
use sentinel_dns.Common.{ℕ, ◌+◌, Bool, leb, List, Text}

abbrev pub Bytes : Type 0
Bytes = List ℕ

pub record DnsQuery : Type 0 where
  pub transaction_id : ℕ
  pub flags : ℕ
  pub questions : ℕ
  pub answers : ℕ
  pub authority : ℕ
  pub additional : ℕ
  pub domain : Text
  pub query_type : ℕ
  pub query_class : ℕ

pub record CacheEntry : Type 0 where
  pub response : Bytes
  pub expires_at : ℕ
  pub created_at : ℕ
  pub hits : ℕ

-- `expired`, at a reading of the clock
unfoldable pub expired : CacheEntry → ℕ → Bool
expired e now = leb e.expires_at now

unfoldable pub register_hit : CacheEntry → CacheEntry
register_hit e = record e { hits = e.hits + 1 }

pub record FilterDecision : Type 0 where
  pub allowed : Bool
  pub reason : Text
  pub filter_name : Text
