-- ===== src/Dhcp/Reservation/Tests.antt =====
-- Runs of dhcp/reservation.py, and its theorems at concrete calls.
use sentinel_dns.Common.{◌≡◌, refl, text_eq, codes, none, some, [], ◌∷◌, true}
use sentinel_dns.Common.Exec.{ok, err, reservation_error}
use sentinel_dns.Common.Dict
use sentinel_dns.Text
use sentinel_dns.Ipv4
use sentinel_dns.Dhcp.Reservation
use sentinel_dns.Dhcp.Reservation.{
  Reservation, Manager, init, normalize_client_id, validate_ip, get_by_client, get_by_ip, add,
  update, remove_by_client,
}
use sentinel_dns.Dhcp.Reservation.Mirrored.{IsMirrored}
use sentinel_dns.Dhcp.Reservation.Runs
use sentinel_dns.Dhcp.Reservation.Runs.{
  Call, run, reserved_once, init-IsMirrored, run-IsMirrored, add_lem, update_lem,
  remove_by_client_lem, raised_unchanged,
}

evaluated : Unit {0}
unfolding add update remove_by_client normalize_client_id text_eq Text.lower Text.strip validate_ip
    Ipv4.parse Text.split Ipv4.parse_octet Reservation.add_unless Reservation.replace_found
    Reservation.drop_client Dict.get Dict.put Dict.pop Reservation.enter Ipv4.format
    Reservation.clean_hostname run Runs.step
evaluated = tt

abbrev printer : Reservation
printer = record {
  client_id = codes "aa:bb:cc:dd:ee:ff";
  ip_address = codes "10.0.0.9";
  hostname = some (codes "printer");
}

abbrev moved : Reservation
moved = record {
  client_id = codes "aa:bb:cc:dd:ee:ff";
  ip_address = codes "10.0.0.7";
  hostname = some (codes " p ");
}

abbrev one : Manager
one = record {
  by_client = (printer.client_id, printer) ∷ [];
  by_ip = (printer.ip_address, printer) ∷ [];
}

added :
    add (codes " AA-BB-CC-DD-EE-FF") (codes "10.0.0.9 ") (some (codes " printer")) init
    ≡ (ok printer, one)
unfolding evaluated
added = refl

moves : update (codes "aabb.ccdd.eeff") (codes "10.0.0.7") (some (codes " p ")) one ≡ (
  ok moved,
  record { by_client = (moved.client_id, moved) ∷ []; by_ip = (moved.ip_address, moved) ∷ [] },
)
unfolding evaluated
moves = refl

refused : add (codes "guest") (codes "10.0.0.9") none one ≡ (err reservation_error, one)
unfolding evaluated
refused = refl

goes : remove_by_client (codes "AABBCCDDEEFF") one ≡ (ok true, init)
unfolding evaluated
goes = refl

abbrev one_moved : Manager
one_moved = record {
  by_client = (moved.client_id, moved) ∷ [];
  by_ip = (moved.ip_address, moved) ∷ [];
}

reserved_once_example : printer.client_id ≡ printer.client_id
unfolding evaluated
reserved_once_example =
    reserved_once (Call.add printer.client_id printer.ip_address (some (codes "printer")) ∷ [])
      printer.client_id printer.client_id printer printer refl refl refl

run-IsMirrored_example : IsMirrored (
    run
      (Call.add (codes "guest") (codes "10.0.0.9") none ∷ Call.remove_by_ip (codes "10.0.0.9") ∷ [])
      init)
run-IsMirrored_example =
    run-IsMirrored
      (Call.add (codes "guest") (codes "10.0.0.9") none ∷ Call.remove_by_ip (codes "10.0.0.9") ∷ [])
      init init-IsMirrored
