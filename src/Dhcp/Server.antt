-- ===== src/Dhcp/Server.antt =====
-- `DHCPServer` of dhcp/server.py, from a datagram to the answer: `handle_packet` and what it calls. The
-- lease storage (dhcp/storage.py, a database table) is a parameter: what it does, it does to its own
-- state. `socket.inet_aton` is modelled on dotted quads, so that a configured address that is none
-- raises. Log lines are left out.
pub mod Handlers
pub mod Keeps
pub mod Serve
pub mod Answer
mod Tests
use sentinel_dns.Common.{
  ℕ, zero, suc, ◌+◌, ◌-◌, ◌*◌, ◌/◌, ◌%◌, ◌≡◌, refl, Bool, true, false, not, ◌&&◌, ◌||◌, Option,
  none, some, List, [], ◌∷◌, ◌++◌, map, Text, codes, leb, ltb, ◌==◌, length, text_eq, if◌then◌else◌,
}
use sentinel_dns.Common.Exec.{
  Error, value_error, lease_error, lease_not_found, pool_error, pool_exhausted, option_error,
  packet_error, struct_error, os_error, Result, ok, err, and_then, Exec, pure, raise, lift, gets,
  modify, catch, ◌>>=◌, ◌>>◌,
}
use sentinel_dns.Text.{join}
use sentinel_dns.Ipv4
use sentinel_dns.Dhcp.Options
use sentinel_dns.Dhcp.Options.{
  Bytes, DhcpOption, make_option, parse_options, encode_options, get_option_value, get_message_type,
}
use sentinel_dns.Dhcp.Packet
use sentinel_dns.Dhcp.Packet.{Packet, post_init, hex_byte, client_mac}
use sentinel_dns.Dhcp.Lease
use sentinel_dns.Dhcp.Lease.{Lease}
use sentinel_dns.Dhcp.Reservation
use sentinel_dns.Dhcp.Reservation.{Reservation}

-- `StoredLease`, and the two methods of the storage that the server calls
pub record StoredLease : Type 0 where
  pub client_id : Text
  pub ip_address : Text
  pub lease_start : ℕ
  pub lease_end : ℕ
  pub hostname : Option Text

pub record Storage : Type 1 where
  pub State : Type 0
  pub save : StoredLease → Exec State (Unit {0})
  pub delete : Text → Exec State Bool

pub record Config : Type 0 where
  pub server_ip : Text
  pub subnet_mask : Text
  pub gateway : Text
  pub dns_server : Text
  pub lease_time : ℕ

pub record Server (S : Type 0) : Type 0 where
  pub manager : Lease.Manager
  pub reservations : Reservation.Manager
  pub storage : S

-- `DHCPMessageType`
abbrev pub offer : ℕ
offer = 2

abbrev pub ack : ℕ
ack = 5

abbrev pub nak : ℕ
nak = 6

abbrev pub or_os_error : Option ℕ → Result Bytes
or_os_error none = err os_error
or_os_error (some n) = ok (Ipv4.packed n)

-- `socket.inet_aton`
unfoldable pub inet_aton : Text → Result Bytes
inet_aton address = or_os_error (Ipv4.parse address)

-- struct.pack("!I", n)
unfoldable pub pack_word : ℕ → Result Bytes
pack_word n = if leb n 0xFFFFFFFF then ok (Ipv4.packed n) else err struct_error

-- max(1, n)
abbrev pub at_least_one : ℕ → ℕ
at_least_one n = if leb 1 n then n else 1

-- `options.append(DHCPOption(code, value))` after the options before it
abbrev pub append_option : List DhcpOption → ℕ → Result Bytes → Result (List DhcpOption)
append_option options code value =
    and_then value λ v. and_then (make_option code v) λ o. ok (options ++ o ∷ [])

-- an option for an address, if it is configured
abbrev pub append_address : List DhcpOption → ℕ → Text → Result (List DhcpOption)
append_address options code address =
    if text_eq address [] then ok options else append_option options code (inet_aton address)

-- the three options of a lease: T1 is half of its time and T2 seven eighths
unfoldable pub append_times : ℕ → List DhcpOption → Result (List DhcpOption)
unfolding pack_word make_option
append_times lease_time options =
    and_then (append_option options Options.lease_time (pack_word lease_time)) λ o1.
      and_then (append_option o1 Options.renewal_time (pack_word (at_least_one (lease_time / 2))))
        λ o2.
          append_option o2 Options.rebinding_time (pack_word (at_least_one (lease_time * 7 / 8)))

-- bytes((message_type,))
abbrev pub one_byte : ℕ → Result Bytes
one_byte message_type = if leb message_type 255 then ok (message_type ∷ []) else err value_error

-- the list of options that `_build_response` makes
unfoldable pub response_options : Config → ℕ → Bool → Result (List DhcpOption)
unfolding inet_aton make_option append_times
response_options config message_type include_lease =
    and_then (append_option [] Options.message_type (one_byte message_type)) λ o1.
      and_then (append_option o1 Options.server_identifier (inet_aton config.server_ip)) λ o2.
        and_then (append_option o2 Options.subnet_mask (inet_aton config.subnet_mask)) λ o3.
          and_then (append_address o3 Options.router config.gateway) λ o4.
            and_then (append_address o4 Options.dns_server config.dns_server)
              λ o5. if include_lease then append_times config.lease_time o5 else ok o5

-- the packet that `_build_response` writes
unfoldable pub response_packet : Config → Packet → ℕ → Text → Bool → Result Packet
unfolding response_options
response_packet config request message_type yiaddr include_lease =
    and_then
      (Packet.copy
        (λ p. record p { op = 2; yiaddr = yiaddr; siaddr = config.server_ip; options = [] })
        request)
      λ response.
        and_then (response_options config message_type include_lease)
          λ options. ok (record response { options = encode_options options true })

unfoldable pub build_response : Config → Packet → ℕ → Text → Bool → Result Bytes
unfolding response_packet
build_response config request message_type yiaddr include_lease =
    and_then (response_packet config request message_type yiaddr include_lease) Packet.to_bytes

abbrev pub client_id_of : Option Bytes → Packet → Text
client_id_of none packet = client_mac packet
client_id_of (some []) packet = client_mac packet
client_id_of (some (b ∷ value)) packet = join [] (map hex_byte (b ∷ value))

-- `_client_id`
unfoldable pub client_id : Packet → List DhcpOption → Text
client_id packet options = client_id_of (get_option_value options Options.client_identifier) packet

abbrev pub address_value : Option Bytes → Result (Option Text)
address_value none = ok none
address_value (some value) = elim (Ipv4.unpack value) [
  | none ↦ err option_error
  | some n ↦ ok (some (Ipv4.format n))
]

-- `_requested_ip` and `_server_identifier`
unfoldable pub requested_ip : List DhcpOption → Result (Option Text)
requested_ip options = address_value (get_option_value options Options.requested_ip)

unfoldable pub server_identifier : List DhcpOption → Result (Option Text)
server_identifier options = address_value (get_option_value options Options.server_identifier)

-- except (DHCPLeaseError, DHCPPoolError), and except DHCPPoolExhaustedError … except DHCPLeaseError
abbrev pub is_lease_or_pool : Error → Bool
is_lease_or_pool lease_error = true
is_lease_or_pool lease_not_found = true
is_lease_or_pool pool_error = true
is_lease_or_pool pool_exhausted = true
is_lease_or_pool _ = false

abbrev pub is_lease : Error → Bool
is_lease lease_error = true
is_lease lease_not_found = true
is_lease _ = false

abbrev pub is_lease_or_exhausted : Error → Bool
is_lease_or_exhausted pool_exhausted = true
is_lease_or_exhausted e = is_lease e

-- hostname or other
abbrev pub or_hostname : Option Text → Option Text → Option Text
or_hostname none other = other
or_hostname (some []) other = other
or_hostname (some (c ∷ h)) other = some (c ∷ h)

module _ {S : Type 0} where
  unfoldable pub with_manager : {A : Type 0} → Exec Lease.Manager A → Exec (Server S) A
  with_manager f s = ((f s.manager).0, record s { manager = (f s.manager).1 })

  unfoldable pub with_reservations : {A : Type 0} → Exec Reservation.Manager A → Exec (Server S) A
  with_reservations f s = ((f s.reservations).0, record s { reservations = (f s.reservations).1 })

  unfoldable pub with_storage : {A : Type 0} → Exec S A → Exec (Server S) A
  with_storage f s = ((f s.storage).0, record s { storage = (f s.storage).1 })

  unfoldable pub lease_at : ℕ → Exec (Server S) Lease
  lease_at r = gets (λ s. s.manager.objects r)
