-- ===== src/Dhcp/Server/Tests.antt =====
-- Runs of dhcp/server.py with a storage that is a dict, and its theorems at concrete datagrams.
use sentinel_dns.Common.{
  ℕ, ◌+◌, ◌*◌, ◌≡◌, refl, true, none, [], ◌∷◌, ◌++◌, Text, codes, text_eq, replicate, member, add,
}
use sentinel_dns.Common.Exec.{Result, ok, err, modify, catch, ◌>>=◌}
use sentinel_dns.Common.Dict
use sentinel_dns.Common.Dict.{Dict}
use sentinel_dns.Text
use sentinel_dns.Ipv4
use sentinel_dns.Dhcp.Options
use sentinel_dns.Dhcp.Options.{Bytes}
use sentinel_dns.Dhcp.Packet
use sentinel_dns.Dhcp.Packet.{Packet, from_bytes}
use sentinel_dns.Dhcp.Pool
use sentinel_dns.Dhcp.Pool.{Pool}
use sentinel_dns.Dhcp.Lease
use sentinel_dns.Dhcp.Reservation
use sentinel_dns.Dhcp.Server
use sentinel_dns.Dhcp.Server.{Storage, StoredLease, Config, Server, build_response}
use sentinel_dns.Dhcp.Server.Handlers
use sentinel_dns.Dhcp.Server.Handlers.{handle_packet}
use sentinel_dns.Dhcp.Server.Serve.{serve, new_server, serve_exclusive}
use sentinel_dns.Dhcp.Server.Answer.{IsAnswer, build_response-IsAnswer}

abbrev table : Storage
table = record {
  State = Dict StoredLease;
  save = λ l. modify (λ d. Dict.put l.client_id l d);
  delete = λ c d. (ok true, Dict.pop c d);
}

abbrev config : Config
config = record {
  server_ip = codes "10.0.0.1";
  subnet_mask = codes "255.255.255.0";
  gateway = codes "10.0.0.1";
  dns_server = [];
  lease_time = 3600;
}

abbrev nothing : Lease.Lease
nothing = record {
  client_id = [];
  ip_address = [];
  lease_start = 0;
  lease_end = 0;
  hostname = none;
}

abbrev pool : Pool
pool = record { start = 167772169; end = 167772170; allocated = []; reserved = [] }

made : Pool.init (codes "10.0.0.9") (codes "10.0.0.10") ≡ ok pool
unfolding Pool.init Pool.parse_ipv4 Ipv4.parse Ipv4.parse_octet Text.split Text.strip
made = refl

abbrev server : Server (Dict StoredLease)
server = new_server pool (λ _. nothing) (λ n. n * Lease.second) Reservation.init []

-- a DHCPDISCOVER of the client with the hardware address 0:0:0:0:0:`n`
abbrev discover : ℕ → Bytes
discover n =
    1 ∷ 1 ∷ 6 ∷ 0 ∷ replicate 24 0
    ++ (replicate 5 0 ++ n ∷ replicate 10 0)
    ++ replicate 192 0
    ++ 99 ∷ 130 ∷ 83 ∷ 99 ∷ 53 ∷ 1 ∷ 1 ∷ 255 ∷ []

abbrev mac : ℕ → Text
mac n = codes "00:00:00:00:00:0" ++ (b'0' + n) ∷ []

evaluated : Unit {0}
unfolding serve handle_packet Handlers.handle_parsed Handlers.handle_options Handlers.handle_message
    Handlers.dispatch Handlers.handle_discover Handlers.obtain_lease Handlers.obtain_existing
    Handlers.obtain_reserved Handlers.obtain_requested Handlers.obtain_dynamic Handlers.or_dynamic
    Handlers.persist_found Handlers.create_found Handlers.persist_lease Handlers.lease_specific
    Handlers.answer_offer Handlers.answer_lease Server.with_manager Server.with_reservations
    Server.with_storage Server.lease_at Server.client_id Server.requested_ip Server.inet_aton
    Server.pack_word Server.append_times Server.response_options Server.response_packet
    build_response Options.make_option Options.to_bytes Options.parse_from Options.parse_options
    Options.encode_all Options.encode_options Options.get_option Options.get_option_value
    Options.get_message_type from_bytes Packet.to_bytes Packet.post_init Packet.numbers_fit
    Packet.read_packet Packet.bytes_to_ip Packet.ip_to_bytes Packet.u8 Packet.u16 Packet.u32
    Packet.fixed Packet.client_mac Packet.hex_byte Packet.hex_digit Packet.copy Lease.create
    Lease.create_new Lease.get_by_client Lease.live Lease.bind_address Lease.add_lease Lease.time
    Lease.with_pool Lease.validate_client_id Lease.validate_duration Lease.expired Lease.init
    Pool.allocate Pool.first_free member add Dict.get Dict.put Dict.pop text_eq Text.strip
    Text.lower Text.join Text.split Ipv4.parse Ipv4.parse_octet Ipv4.format Ipv4.packed Ipv4.unpack
    Reservation.get_by_client Reservation.normalize_client_id ◌>>=◌ catch
evaluated = tt

-- two clients are offered the two addresses of the pool
two_leases :
    (serve table config (discover 1 ∷ discover 2 ∷ []) server).manager.by_client
    ≡ (mac 1, 0) ∷ (mac 2, 1) ∷ []
unfolding evaluated
two_leases = refl

-- A reservation is not entered in the pool: another client is leased the reserved address, and the
-- client whose address it is gets no lease.
reserved_taken :
    (serve table config (discover 1 ∷ discover 2 ∷ []) (record server {
      reservations = record {
        by_client =
            (mac 2, record { client_id = mac 2; ip_address = codes "10.0.0.9"; hostname = none })
            ∷ [];
        by_ip =
            (
              codes "10.0.0.9",
              record { client_id = mac 2; ip_address = codes "10.0.0.9"; hostname = none },
            )
            ∷ [];
      };
    })).manager.by_ip
    ≡ (codes "10.0.0.9", 0) ∷ []
unfolding evaluated Lease.create_specific Lease.move_lease Lease.take_specific Lease.take_unless
    Lease.get_by_ip Pool.allocate_specific Pool.parse_ipv4
reserved_taken = refl

serve_exclusive_example : mac 2 ≡ mac 2
unfolding evaluated
serve_exclusive_example =
    serve_exclusive table config (codes "10.0.0.9") (codes "10.0.0.10") pool (λ _. nothing)
      (λ n. n * Lease.second) Reservation.init [] (discover 1 ∷ discover 2 ∷ []) (mac 2) (mac 2) 1 1
      made refl refl refl

abbrev request : Packet
request = record {
  op = 1;
  htype = 1;
  hlen = 6;
  hops = 0;
  xid = 7;
  secs = 0;
  flags = 0;
  ciaddr = codes "0.0.0.0";
  yiaddr = codes "0.0.0.0";
  siaddr = codes "0.0.0.0";
  giaddr = codes "0.0.0.0";
  chaddr = replicate 16 0;
  sname = replicate 64 0;
  file = replicate 128 0;
  options = [];
}

abbrev value : Result Bytes → Bytes
value (ok bytes) = bytes
value (err e) = []

abbrev answer : Bytes
answer = value (build_response config request 2 (codes "10.0.0.9") true)

build_response-IsAnswer_example :
    (p : Packet) × (from_bytes answer ≡ ok p)
    × IsAnswer request 2 (codes "10.0.0.9") (codes "10.0.0.1") p
unfolding evaluated
build_response-IsAnswer_example =
    build_response-IsAnswer config request 2 (codes "10.0.0.9") true answer refl
