-- ===== src/Dhcp/Reservation.antt =====
-- `DHCPReservation` and `DHCPReservationManager` of dhcp/reservation.py. A reservation is frozen, so
-- the two dicts hold values. Each method holds the lock from its first access to its last, so a call
-- is one step.
pub mod Mirrored
pub mod Calls
pub mod Runs
mod Tests
use sentinel_dns.Common.{
  ℕ, ◌+◌, ◌≡◌, refl, Bool, true, false, not, ◌&&◌, ◌||◌, Option, none, some, List, [], ◌∷◌, Text,
  codes, leb, ◌==◌, length, text_eq, if◌then◌else◌,
}
use sentinel_dns.Common.Exec.{
  Error, reservation_error, Result, ok, err, Exec, pure, raise, lift, gets, modify, ◌>>=◌, ◌>>◌,
}
use sentinel_dns.Common.Dict
use sentinel_dns.Common.Dict.{Dict}
use sentinel_dns.Text.{strip, lower, remove_char, join}
use sentinel_dns.Ipv4

pub record Reservation : Type 0 where
  pub client_id : Text
  pub ip_address : Text
  pub hostname : Option Text

pub record Manager : Type 0 where
  pub by_client : Dict Reservation
  pub by_ip : Dict Reservation

-- `__init__`
abbrev pub init : Manager
init = record { by_client = []; by_ip = [] }

-- value.replace(":", "").replace("-", "").replace(".", "")
unfoldable pub compact : Text → Text
unfolding remove_char
compact value = remove_char b'.' (remove_char b'-' (remove_char b':' value))

-- character in "0123456789abcdef"
abbrev pub is_hex : ℕ → Bool
is_hex c = (leb b'0' c && leb c b'9') || (leb b'a' c && leb c b'f')

unfoldable pub all_hex : Text → Bool
all_hex [] = true
all_hex (c ∷ s) = is_hex c && all_hex s

-- [compact[index:index + 2] for index in range(0, 12, 2)], of twelve characters
unfoldable pub pairs : Text → List Text
pairs (a ∷ b ∷ s) = (a ∷ b ∷ []) ∷ pairs s
pairs _ = []

unfoldable pub normalize_client_id : Text → Result Text
unfolding compact all_hex pairs join
normalize_client_id client_id =
    let value = lower (strip client_id) in
    if text_eq value []
    then err reservation_error
    else if length (compact value) == 12 && all_hex (compact value)
    then ok (join (b':' ∷ []) (pairs (compact value)))
    else ok value

abbrev pub or_reservation_error : Option ℕ → Result Text
or_reservation_error none = err reservation_error
or_reservation_error (some n) = ok (Ipv4.format n)

unfoldable pub validate_ip : Text → Result Text
validate_ip ip_address = or_reservation_error (Ipv4.parse (strip ip_address))

-- what `add` keeps of the hostname
unfoldable pub clean_hostname : Option Text → Option Text
clean_hostname none = none
clean_hostname (some hostname) = let h = strip hostname in if text_eq h [] then none else some h

-- the two entries that `add` and `update` write
unfoldable pub enter : Reservation → Exec Manager Reservation
unfolding ◌>>=◌
enter r = do
  modify (λ m. record m { by_client = Dict.put r.client_id r m.by_client })
  modify (λ m. record m { by_ip = Dict.put r.ip_address r m.by_ip })
  pure r

-- the two checks of `add`, on what the dicts hold
unfoldable pub add_unless :
    Option Reservation → Option Reservation → Reservation → Exec Manager Reservation
add_unless (some _) existing_ip r = raise reservation_error
add_unless none (some _) r = raise reservation_error
add_unless none none r = enter r

unfoldable pub add : Text → Text → Option Text → Exec Manager Reservation
unfolding ◌>>=◌
add client_id ip_address hostname = do
  c ← lift (normalize_client_id client_id)
  ip ← lift (validate_ip ip_address)
  existing_client ← gets (λ m. Dict.get c m.by_client)
  existing_ip ← gets (λ m. Dict.get ip m.by_ip)
  add_unless existing_client existing_ip
      (record { client_id = c; ip_address = ip; hostname = clean_hostname hostname })

-- existing_ip is not None and existing_ip.client_id != client_id
abbrev pub held_by_other : Option Reservation → Text → Bool
held_by_other none client_id = false
held_by_other (some r) client_id = not (text_eq r.client_id client_id)

unfoldable pub replace_found :
    Option Reservation → Option Reservation → Reservation → Exec Manager Reservation
unfolding ◌>>=◌
replace_found none existing_ip r = raise reservation_error
replace_found (some existing) existing_ip r =
    if held_by_other existing_ip r.client_id
    then raise reservation_error
    else do modify (λ m. record m { by_ip = Dict.pop existing.ip_address m.by_ip }); enter r

-- `update` keeps the hostname as it is given
unfoldable pub update : Text → Text → Option Text → Exec Manager Reservation
unfolding ◌>>=◌
update client_id ip_address hostname = do
  c ← lift (normalize_client_id client_id)
  ip ← lift (validate_ip ip_address)
  existing ← gets (λ m. Dict.get c m.by_client)
  existing_ip ← gets (λ m. Dict.get ip m.by_ip)
  replace_found existing existing_ip
      (record { client_id = c; ip_address = ip; hostname = hostname })

unfoldable pub get_by_client : Text → Exec Manager (Option Reservation)
unfolding ◌>>=◌
get_by_client client_id = do
  c ← lift (normalize_client_id client_id)
  gets (λ m. Dict.get c m.by_client)

unfoldable pub get_by_ip : Text → Exec Manager (Option Reservation)
unfolding ◌>>=◌
get_by_ip ip_address = do ip ← lift (validate_ip ip_address); gets (λ m. Dict.get ip m.by_ip)

abbrev pub is_there : Option Reservation → Bool
is_there none = false
is_there (some r) = true

pub is_reserved : Text → Exec Manager Bool
unfolding ◌>>=◌
is_reserved ip_address = do r ← get_by_ip ip_address; pure (is_there r)

-- what the two `remove` methods do with the entry that they pop
unfoldable pub drop_client : Text → Option Reservation → Exec Manager Bool
unfolding ◌>>=◌
drop_client c none = pure false
drop_client c (some r) = do
  modify (λ m. record m { by_client = Dict.pop c m.by_client })
  modify (λ m. record m { by_ip = Dict.pop r.ip_address m.by_ip })
  pure true

unfoldable pub remove_by_client : Text → Exec Manager Bool
unfolding ◌>>=◌
remove_by_client client_id = do
  c ← lift (normalize_client_id client_id)
  found ← gets (λ m. Dict.get c m.by_client)
  drop_client c found

unfoldable pub drop_ip : Text → Option Reservation → Exec Manager Bool
unfolding ◌>>=◌
drop_ip ip none = pure false
drop_ip ip (some r) = do
  modify (λ m. record m { by_ip = Dict.pop ip m.by_ip })
  modify (λ m. record m { by_client = Dict.pop r.client_id m.by_client })
  pure true

unfoldable pub remove_by_ip : Text → Exec Manager Bool
unfolding ◌>>=◌
remove_by_ip ip_address = do
  ip ← lift (validate_ip ip_address)
  found ← gets (λ m. Dict.get ip m.by_ip)
  drop_ip ip found

-- `all`
unfoldable pub all : Manager → List Reservation
all m = Dict.values m.by_client

unfoldable pub count : Manager → ℕ
count m = length m.by_client

unfoldable pub clear : Exec Manager (Unit {0})
clear = modify (λ m. record { by_client = []; by_ip = [] })
