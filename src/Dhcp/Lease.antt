-- ===== src/Dhcp/Lease.antt =====
-- `DHCPLease` and `DHCPLeaseManager` of dhcp/lease_manager.py.
-- A lease object is shared by the two dicts and by what the methods return, and `renew` writes to
-- it: the model keeps the objects in a store and passes references to them. Each `time.time()` takes
-- the next of the clock's readings, in microseconds. The lock is reentrant and held by each method
-- from its first access to its last (`all_leases` and `active_count` take it twice, with no access
-- of their own between), so a call is one step. A `lease_time` that is negative is rejected as 0 is.
pub mod Consistent
pub mod Insert
pub mod Lookup
pub mod Preserve
pub mod Expire
pub mod Deadline
pub mod Runs
pub mod Exclusive
mod Tests
use sentinel_dns.Common.{
  ℕ, zero, suc, ◌+◌, ◌-◌, ◌*◌, ◌/◌, ◌≡◌, refl, Bool, true, false, not, ◌&&◌, ◌||◌, Option, none,
  some, List, [], ◌∷◌, map, Text, codes, leb, ltb, ◌==◌, length, text_eq, if◌then◌else◌,
}
use sentinel_dns.Common.Exec.{
  Error, lease_error, lease_not_found, Result, ok, err, Exec, pure, raise, lift, gets, modify,
  ◌>>=◌, ◌>>◌,
}
use sentinel_dns.Common.Dict
use sentinel_dns.Common.Dict.{Dict}
use sentinel_dns.Text.{strip}
use sentinel_dns.Dhcp.Pool
use sentinel_dns.Dhcp.Pool.{Pool}

pub record Lease : Type 0 where
  pub client_id : Text
  pub ip_address : Text
  pub lease_start : ℕ
  pub lease_end : ℕ
  pub hostname : Option Text

-- microseconds
abbrev pub second : ℕ
second = 1000000

-- `expired`, at a reading of the clock
unfoldable pub expired : Lease → ℕ → Bool
expired l now = leb l.lease_end now

-- `remaining_seconds`: `max(0, int(remaining))`
pub remaining_seconds : Lease → ℕ → ℕ
remaining_seconds l now = (l.lease_end - now) / second

-- `objects r` is the lease object behind the reference `r`, for `r < next`.
pub record Manager : Type 0 where
  pub pool : Pool
  pub by_client : Dict ℕ
  pub by_ip : Dict ℕ
  pub objects : ℕ → Lease
  pub next : ℕ
  pub readings : ℕ → ℕ
  pub reads : ℕ

-- `__init__`
unfoldable pub init : Pool → (ℕ → Lease) → (ℕ → ℕ) → Manager
init pool objects readings = record {
  pool = pool;
  by_client = [];
  by_ip = [];
  objects = objects;
  next = 0;
  readings = readings;
  reads = 0;
}

-- `time.time()`
unfoldable pub time : Exec Manager ℕ
time m = (ok (m.readings m.reads), record m { reads = m.reads + 1 })

-- a call of a method of the pool
unfoldable pub with_pool : {A : Type 0} → Exec Pool A → Exec Manager A
with_pool f m = ((f m.pool).0, record m { pool = (f m.pool).1 })

unfoldable pub validate_client_id : Text → Result Text
validate_client_id client_id =
    let c = strip client_id in if text_eq c [] then err lease_error else ok c

unfoldable pub validate_duration : ℕ → Result ℕ
validate_duration lease_time = if leb lease_time 0 then err lease_error else ok lease_time

unfoldable pub remove_lease : ℕ → Exec Manager (Unit {0})
remove_lease r = do
  lease ← gets (λ m. m.objects r)
  modify (λ m. record m { by_client = Dict.pop lease.client_id m.by_client })
  modify (λ m. record m { by_ip = Dict.pop lease.ip_address m.by_ip })
  with_pool (Pool.release lease.ip_address)
  pure tt

-- what `get_by_client` and `get_by_ip` do with the entry that they find
unfoldable pub live : Option ℕ → Exec Manager (Option ℕ)
live none = pure none
live (some r) = do
  now ← time
  lease ← gets (λ m. m.objects r)
  if expired lease now then (do remove_lease r; pure none) else pure (some r)

unfoldable pub get_by_client : Text → Exec Manager (Option ℕ)
get_by_client client_id = do
  c ← lift (validate_client_id client_id)
  entry ← gets (λ m. Dict.get c m.by_client)
  live entry

unfoldable pub get_by_ip : Text → Exec Manager (Option ℕ)
get_by_ip ip_address = do entry ← gets (λ m. Dict.get ip_address m.by_ip); live entry

abbrev pub update : (ℕ → Lease) → ℕ → Lease → ℕ → Lease
update f r l q = if r == q then l else f q

-- `lease = DHCPLease(…)` and the two entries for it
unfoldable pub add_lease : Lease → Exec Manager ℕ
add_lease lease = do
  r ← gets (λ m. m.next)
  modify (λ m. record m { objects = update m.objects r lease; next = suc r })
  modify (λ m. record m { by_client = Dict.put lease.client_id r m.by_client })
  modify (λ m. record m { by_ip = Dict.put lease.ip_address r m.by_ip })
  pure r

-- the part of `create` and `create_specific` after the allocation
unfoldable pub bind_address : Text → Text → ℕ → Option Text → Exec Manager ℕ
bind_address c ip lease_time hostname = do
  now ← time
  add_lease (record {
    client_id = c;
    ip_address = ip;
    lease_start = now;
    lease_end = now + lease_time * second;
    hostname = hostname;
  })

unfoldable pub create_new : Option ℕ → Text → ℕ → Option Text → Exec Manager ℕ
create_new (some r) c lease_time hostname = pure r
create_new none c lease_time hostname = do
  ip ← with_pool Pool.allocate
  bind_address c ip lease_time hostname

unfoldable pub create : Text → ℕ → Option Text → Exec Manager ℕ
create client_id lease_time hostname = do
  c ← lift (validate_client_id client_id)
  d ← lift (validate_duration lease_time)
  existing ← get_by_client c
  create_new existing c d hostname

-- the store's write of `renew` to the lease object
unfoldable pub extend : ℕ → ℕ → ℕ → Exec Manager (Unit {0})
extend r now lease_time = modify (λ m. record m {
  objects =
      update m.objects r
        (record (m.objects r) { lease_start = now; lease_end = now + lease_time * second });
})

unfoldable pub renew_found : Option ℕ → ℕ → Exec Manager ℕ
renew_found none lease_time = raise lease_not_found
renew_found (some r) lease_time = do
  now ← time
  lease ← gets (λ m. m.objects r)
  if expired lease now
      then (do remove_lease r; raise lease_not_found)
      else do now' ← time; extend r now' lease_time; pure r

unfoldable pub renew : Text → ℕ → Exec Manager ℕ
renew client_id lease_time = do
  c ← lift (validate_client_id client_id)
  d ← lift (validate_duration lease_time)
  found ← gets (λ m. Dict.get c m.by_client)
  renew_found found d

unfoldable pub release_found : Option ℕ → Exec Manager Bool
release_found none = pure false
release_found (some r) = do remove_lease r; pure true

unfoldable pub release : Text → Exec Manager Bool
release client_id = do
  c ← lift (validate_client_id client_id)
  found ← gets (λ m. Dict.get c m.by_client)
  release_found found

-- `create_specific` once it has looked up the address
unfoldable pub take_unless : Option ℕ → Text → Text → ℕ → Option Text → Exec Manager ℕ
take_unless (some _) c ip_address lease_time hostname = raise lease_error
take_unless none c ip_address lease_time hostname = do
  allocated_ip ← with_pool (Pool.allocate_specific ip_address)
  bind_address c allocated_ip lease_time hostname

-- `create_specific` from the lookup by address on
unfoldable pub take_specific : Text → Text → ℕ → Option Text → Exec Manager ℕ
take_specific c ip_address lease_time hostname = do
  existing_ip ← get_by_ip ip_address
  take_unless existing_ip c ip_address lease_time hostname

-- `create_specific` once it has the client's lease
unfoldable pub move_lease : Option ℕ → Text → Text → ℕ → Option Text → Exec Manager ℕ
move_lease none c ip_address lease_time hostname = take_specific c ip_address lease_time hostname
move_lease (some r) c ip_address lease_time hostname = do
  existing ← gets (λ m. m.objects r)
  if text_eq existing.ip_address ip_address
      then renew c lease_time
      else do release c; take_specific c ip_address lease_time hostname

unfoldable pub create_specific : Text → Text → ℕ → Option Text → Exec Manager ℕ
create_specific client_id ip_address lease_time hostname = do
  c ← lift (validate_client_id client_id)
  d ← lift (validate_duration lease_time)
  existing ← get_by_client c
  move_lease existing c ip_address d hostname

-- the first loop of `expire_leases`
unfoldable pub collect_expired : List ℕ → Exec Manager (List ℕ)
collect_expired [] = pure []
collect_expired (r ∷ rs) = do
  now ← time
  lease ← gets (λ m. m.objects r)
  rest ← collect_expired rs
  pure (if expired lease now then r ∷ rest else rest)

-- `for lease in leases: self._remove_lease(lease)`
unfoldable pub remove_all : List ℕ → Exec Manager (Unit {0})
remove_all [] = pure tt
remove_all (r ∷ rs) = do remove_lease r; remove_all rs

unfoldable pub expire_leases : Exec Manager ℕ
expire_leases = do
  leases ← gets (λ m. Dict.values m.by_client)
  expired_leases ← collect_expired leases
  remove_all expired_leases
  pure (length expired_leases)

unfoldable pub all_leases : Exec Manager (List ℕ)
all_leases = do expire_leases; gets (λ m. Dict.values m.by_client)

unfoldable pub active_count : Exec Manager ℕ
active_count = do expire_leases; gets (λ m. length m.by_client)

unfoldable pub clear : Exec Manager (Unit {0})
clear = do leases ← gets (λ m. Dict.values m.by_client); remove_all leases
