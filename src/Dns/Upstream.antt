-- ===== src/Dns/Upstream.antt =====
-- `DNSUpstream` of dns_engine/upstream.py: the query, its checks, `close` and `description`. The clients
-- of the three transports, with the network behind them, are a parameter.
pub mod Answers
mod Tests
use sentinel_dns.Common.{
  ℕ, ◌≡◌, true, false, not, ◌||◌, Option, none, some, Text, codes, ltb, ◌==◌, length, take, text_eq,
  if◌then◌else◌,
}
use sentinel_dns.Common.Exec.{
  value_error, runtime_error, Error, Result, ok, err, and_then, Exec, raise, lift, catch, pure,
  ◌>>=◌,
}
use sentinel_dns.Dns.Models.{Bytes}

-- the clients: `query`, and `close`, which does nothing where a client has no such method
pub record Network : Type 1 where
  pub State : Type 0
  pub Client : Type 0
  pub query : Client → Bytes → Exec State Bytes
  pub close : Client → Exec State (Unit {0})

-- the attributes of the object; `name` and `endpoint` are those of the provider
pub record Upstream (Client : Type 0) : Type 0 where
  pub transport : Text
  pub server : Option Text
  pub port : Option ℕ
  pub provider : Option (Text × Text)
  pub client : Option Client

abbrev pub min_dns_packet_size : ℕ
min_dns_packet_size = 12

-- `_validate_response`
unfoldable pub validate_response : Bytes → Bytes → Result (Unit {0})
validate_response request response =
    if ltb (length response) min_dns_packet_size
    then err value_error
    else if not (text_eq (take 2 request) (take 2 response))
    then err value_error
    else ok tt

-- what `description` returns
pub data Description : Type 0 where
  udp : Option Text → Description
  dot : Option Text → ℕ → Description
  doh : Description
  doh_provider : Text → Text → Description

abbrev pub or_port : Option ℕ → ℕ
or_port none = 853
or_port (some port) = port

abbrev pub describe_provider : Option (Text × Text) → Description
describe_provider none = Description.doh
describe_provider (some (name, endpoint)) = Description.doh_provider name endpoint

unfoldable pub description : {Client : Type 0} → Upstream Client → Description
description u =
    if text_eq u.transport (codes "udp")
    then Description.udp u.server
    else if text_eq u.transport (codes "dot")
    then Description.dot u.server (or_port u.port)
    else describe_provider u.provider

module _ (n : Network) where
  open n use {State, Client}

  -- `client.query`, where there is a client
  unfoldable pub ask : Option Client → Bytes → Exec State Bytes
  unfolding raise
  ask none packet = raise runtime_error
  ask (some client) packet = n.query client packet

  unfoldable pub query : Upstream Client → Bytes → Exec State Bytes
  unfolding raise lift ask validate_response ◌>>=◌
  query u packet =
      if length packet == 0 || ltb (length packet) min_dns_packet_size
      then raise value_error
      else (ask u.client packet >>= λ response.
          lift (and_then (validate_response packet response) λ _. ok response))

  -- `close`, which swallows what the client's raises
  unfoldable pub close_client : Option Client → Exec State (Unit {0})
  unfolding pure catch
  close_client none = pure tt
  close_client (some client) = catch (λ e. true) (n.close client) (pure tt)

  unfoldable pub close : Upstream Client → Exec State (Unit {0})
  close u = close_client u.client
