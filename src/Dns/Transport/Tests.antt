-- ===== src/Dns/Transport/Tests.antt =====
-- Runs of the clients of dns_engine/udp/, dns_engine/dot/ and dns_engine/doh/ and of the constructor of
-- `DNSUpstream`, and the theorems at concrete inputs.
use sentinel_dns.Common.{◌≤◌, ◌≡◌, refl, none, some, [], ◌∷◌, ◌++◌, codes, length, text_eq}
use sentinel_dns.Common.Dict
use sentinel_dns.Common.Exec.{ok, err, value_error, os_error, ◌>>=◌, raise, lift}
use sentinel_dns.Text.{strip, lower}
use sentinel_dns.Dns.Models.{Bytes}
use sentinel_dns.Dns.Upstream.{Upstream}
use sentinel_dns.Dns.Transport.Client
use sentinel_dns.Dns.Transport.Client.{Timeout, Endpoint, recv_loop, recv_exact, dot_query}
use sentinel_dns.Dns.Transport.Build
use sentinel_dns.Dns.Transport.Build.{Client, Settings, Options, build, query_client}
use sentinel_dns.Dns.Transport.Accepted.{IsAccepted, query_client-IsAccepted}
use sentinel_dns.Dns.Transport.Exact.{Ended, recv_loop-Ended}
use sentinel_dns.Dns.Transport.Framed.{IsFramed, dot_query-IsFramed}
use sentinel_dns.Dns.Transport.Usable.{IsBuilt, build-IsBuilt}
use sentinel_dns.Dns.Transport.Sample.{Pieces, tls, stream, udp, http, urlparse, receive}

evaluated : Unit {0}
unfolding text_eq recv_exact recv_loop dot_query receive Client.udp_query Client.doh_query
    Client.dot_response Client.check_reply Client.validated Client.validate_response
    Client.is_within Client.starts_with query_client ◌>>=◌ raise lift strip lower build
    Client.endpoint Client.validate_provider Client.create_custom_provider Client.get_provider
    Dict.get Build.build_udp Build.build_dot Build.build_doh Build.choose_provider
evaluated = tt

abbrev packet : Bytes
packet = 18 ∷ 52 ∷ 1 ∷ 0 ∷ 0 ∷ 1 ∷ 0 ∷ 0 ∷ 0 ∷ 0 ∷ 0 ∷ 0 ∷ []

abbrev response : Bytes
response = 18 ∷ 52 ∷ 129 ∷ 128 ∷ 0 ∷ 1 ∷ 0 ∷ 0 ∷ 0 ∷ 0 ∷ 0 ∷ 0 ∷ []

-- the frame of the response in three pieces, and one byte more
abbrev pieces : Pieces
pieces = (0 ∷ []) ∷ (12 ∷ 18 ∷ 52 ∷ []) ∷ (129 ∷ 128 ∷ 0 ∷ 1 ∷ 0 ∷ 0 ∷ 0 ∷ 0 ∷ 0 ∷ 0 ∷ 7 ∷ []) ∷ []

abbrev client : Endpoint
client = record {
  server = codes "9.9.9.9";
  port = 853;
  timeout = Timeout.microseconds 5000000;
  max_response_size = 4096;
}

framed : dot_query tls client packet pieces ≡ (ok response, (7 ∷ []) ∷ [])
unfolding evaluated
framed = refl

-- the connection is closed within the response
cut_off : dot_query tls client packet ((0 ∷ 12 ∷ 18 ∷ []) ∷ []) ≡ (err os_error, [])
unfolding evaluated
cut_off = refl

dot_query-IsFramed_example :
    (12 ≤ length packet)
    × (length packet ≤ 65535)
    × IsFramed tls stream client packet (0 ∷ 12 ∷ response ++ 7 ∷ []) ((7 ∷ []) ∷ []) response
dot_query-IsFramed_example =
    dot_query-IsFramed tls stream client packet response pieces ((7 ∷ []) ∷ []) framed

recv_loop-Ended_example :
    Ended tls stream 2 (0 ∷ 12 ∷ response ++ 7 ∷ []) (recv_loop tls 2 2 [] pieces)
recv_loop-Ended_example = recv_loop-Ended tls stream 2 pieces

over_https :
    query_client
      (udp [])
      tls
      (http response)
      (Client.doh (Client.builtin (codes "google") (codes "https://dns.google/dns-query")))
      packet
      []
    ≡ (ok response, [])
unfolding evaluated
over_https = refl

-- the response of a datagram is too short
over_udp :
    query_client (udp (18 ∷ 52 ∷ [])) tls (http response) (Client.udp client) packet []
    ≡ (err value_error, [])
unfolding evaluated
over_udp = refl

abbrev settings : Settings
settings = record {
  transport = codes " DoT ";
  servers = codes "1.1.1.1" ∷ [];
  timeout = Timeout.microseconds 3000000;
  max_response_size = 4096;
  dot_server = codes "9.9.9.9";
  dot_port = 853;
  dot_timeout = Timeout.microseconds 5000000;
  doh_provider = codes "quad9";
  doh_timeout = Timeout.microseconds 5000000;
}

abbrev nothing : Options
nothing = record {
  transport = none;
  udp_servers = none;
  udp_timeout = none;
  udp_max_response_size = none;
  dot_server = none;
  dot_port = none;
  dot_timeout = none;
  dot_max_response_size = none;
  doh_provider = none;
  doh_endpoint = none;
  doh_timeout = none;
  doh_max_response_size = none;
}

abbrev built : Upstream Client
built = record {
  transport = codes "dot";
  server = some (codes "9.9.9.9");
  port = some 853;
  provider = none;
  client = some (Client.dot client);
}

by_settings : build urlparse settings nothing ≡ ok built
unfolding evaluated
by_settings = refl

small_https :
    build urlparse settings
      (record nothing { transport = some (codes "doh"); doh_max_response_size = some 511 })
    ≡ err value_error
unfolding evaluated
small_https = refl

build-IsBuilt_example : IsBuilt urlparse (codes "dot") built
unfolding evaluated
build-IsBuilt_example = build-IsBuilt urlparse settings nothing built by_settings

framed_by_client :
    query_client (udp []) tls (http response) (Client.dot client) packet pieces
    ≡ (ok response, (7 ∷ []) ∷ [])
unfolding evaluated
framed_by_client = refl

query_client-IsAccepted_example : IsAccepted 4096 packet response
query_client-IsAccepted_example =
    query_client-IsAccepted (udp []) tls (http response) (Client.dot client) packet response pieces
      ((7 ∷ []) ∷ []) framed_by_client
