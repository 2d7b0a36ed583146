-- ===== src/Dns/Transport/Build.antt =====
-- The constructor of `DNSUpstream` of dns_engine/upstream.py. The settings are those that it reads.
use sentinel_dns.Common.{
  ℕ, Option, none, some, List, [], ◌∷◌, Text, codes, ◌==◌, length, text_eq, if◌then◌else◌,
}
use sentinel_dns.Common.Exec.{value_error, Result, ok, err, and_then, Exec, pure}
use sentinel_dns.Dns.Models.{Bytes}
use sentinel_dns.Text.{strip, lower}
use sentinel_dns.Dns.Upstream.{Network, Upstream}
use sentinel_dns.Dns.Transport.Client.{
  Timeout, Endpoint, endpoint, Provider, validate_provider, create_custom_provider, get_provider,
  Datagrams, Stream, Http, udp_query, dot_query, doh_query,
}

-- the client of an upstream
pub data Client : Type 0 where
  udp dot : Endpoint → Client
  doh : Provider → Client

-- `settings.dns`
pub record Settings : Type 0 where
  pub transport : Text
  pub servers : List Text
  pub timeout : Timeout
  pub max_response_size : ℕ
  pub dot_server : Text
  pub dot_port : ℕ
  pub dot_timeout : Timeout
  pub doh_provider : Text
  pub doh_timeout : Timeout

-- the arguments
pub record Options : Type 0 where
  pub transport : Option Text
  pub udp_servers : Option (List Text)
  pub udp_timeout : Option Timeout
  pub udp_max_response_size : Option ℕ
  pub dot_server : Option Text
  pub dot_port : Option ℕ
  pub dot_timeout : Option Timeout
  pub dot_max_response_size : Option ℕ
  pub doh_provider : Option Text
  pub doh_endpoint : Option Text
  pub doh_timeout : Option Timeout
  pub doh_max_response_size : Option ℕ

-- the setting, where the argument is `None`
abbrev pub or_setting : {A : Type 0} → Option A → A → A
or_setting none setting = setting
or_setting (some a) setting = a

-- the branch of UDP
unfoldable pub build_udp : List Text → Timeout → ℕ → Result (Upstream Client)
unfolding endpoint
build_udp [] timeout max_response_size = err value_error
build_udp (server ∷ servers) timeout max_response_size =
    and_then (endpoint server 53 timeout max_response_size) λ client. ok (record {
      transport = codes "udp";
      server = some server;
      port = none;
      provider = none;
      client = some (Client.udp client);
    })

-- the branch of DNS-over-TLS
unfoldable pub build_dot : Text → ℕ → Timeout → ℕ → Result (Upstream Client)
unfolding endpoint
build_dot server port timeout max_response_size =
    and_then (endpoint server port timeout max_response_size) λ client. ok (record {
      transport = codes "dot";
      server = some server;
      port = some port;
      provider = none;
      client = some (Client.dot client);
    })

module _ (urlparse : Text → Result (Text × Text)) where
  -- the provider of the branch of DNS-over-HTTPS
  unfoldable pub choose_provider : Text → Text → Timeout → ℕ → Result Provider
  unfolding create_custom_provider get_provider
  choose_provider address name timeout max_response_size =
      if length address == 0
      then (and_then (get_provider name) λ provider. ok (record {
        name = provider.name;
        endpoint = provider.endpoint;
        timeout = timeout;
        max_response_size = max_response_size;
      }))
      else create_custom_provider urlparse address timeout max_response_size

  -- its end; `DoHClient` validates the provider again
  unfoldable pub build_doh : Provider → Result (Upstream Client)
  unfolding validate_provider
  build_doh provider = and_then (validate_provider urlparse provider) λ _.
      and_then (validate_provider urlparse provider) λ _. ok (record {
        transport = codes "doh";
        server = none;
        port = none;
        provider = some (provider.name, provider.endpoint);
        client = some (Client.doh provider);
      })

  abbrev pub provider_name : Settings → Option Text → Text
  provider_name settings none = settings.doh_provider
  provider_name settings (some name) = lower (strip name)

  -- `__init__`
  unfoldable pub build : Settings → Options → Result (Upstream Client)
  unfolding strip lower build_udp build_dot choose_provider build_doh
  build settings o =
      let transport = lower (strip (or_setting o.transport settings.transport)) in
      if text_eq transport (codes "udp")
      then build_udp (or_setting o.udp_servers settings.servers)
          (or_setting o.udp_timeout settings.timeout)
          (or_setting o.udp_max_response_size settings.max_response_size)
      else if text_eq transport (codes "dot")
      then build_dot (or_setting o.dot_server settings.dot_server)
          (or_setting o.dot_port settings.dot_port) (or_setting o.dot_timeout settings.dot_timeout)
          (or_setting o.dot_max_response_size settings.max_response_size)
      else if text_eq transport (codes "doh")
      then (and_then
          (choose_provider (or_setting o.doh_endpoint []) (provider_name settings o.doh_provider)
            (or_setting o.doh_timeout settings.doh_timeout)
            (or_setting o.doh_max_response_size settings.max_response_size))
          build_doh)
      else err value_error

-- the clients as the network of an upstream
module _ {State : Type 0} (net : Datagrams State) (tls : Stream State) (http : Http State) where
  -- the `query` of the client
  unfoldable pub query_client : Client → Bytes → Exec State Bytes
  unfolding udp_query dot_query doh_query
  query_client (Client.udp client) = udp_query net client
  query_client (Client.dot client) = dot_query tls client
  query_client (Client.doh provider) = doh_query http provider

  -- its `close`, which is that of `DoHClient`; the others have none
  unfoldable pub close_client : Client → Exec State (Unit {0})
  unfolding pure
  close_client (Client.udp client) = pure tt
  close_client (Client.dot client) = pure tt
  close_client (Client.doh provider) = http.close provider

  abbrev pub network : Network
  network = record { State = State; Client = Client; query = query_client; close = close_client }
