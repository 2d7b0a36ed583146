-- ===== src/Dhcp/Server/Handlers.antt =====
-- The handlers of `DHCPServer` in dhcp/server.py, over a storage and a configuration.
use sentinel_dns.Common.{
  ℕ, Bool, true, false, not, Option, none, some, List, Text, codes, ◌==◌, text_eq, if◌then◌else◌,
}
use sentinel_dns.Common.Exec.{Result, ok, err, Exec, pure, lift, catch, ◌>>=◌, ◌>>◌}
use sentinel_dns.Dhcp.Options.{Bytes, DhcpOption, parse_options, get_message_type}
use sentinel_dns.Dhcp.Packet
use sentinel_dns.Dhcp.Packet.{Packet}
use sentinel_dns.Dhcp.Lease
use sentinel_dns.Dhcp.Lease.{Lease}
use sentinel_dns.Dhcp.Reservation
use sentinel_dns.Dhcp.Reservation.{Reservation}
use sentinel_dns.Dhcp.Server.{
  Storage, Config, Server, offer, ack, nak, build_response, client_id, requested_ip,
  server_identifier, is_lease_or_pool, is_lease, is_lease_or_exhausted, or_hostname, with_manager,
  with_reservations, with_storage, lease_at,
}

module _ (storage : Storage) (config : Config) where
  abbrev pub Action : Type 0 → Type 0
  Action A = Exec (Server storage.State) A

  -- `_persist_lease`
  unfoldable pub persist_lease : ℕ → Action (Unit {0})
  persist_lease r = do
    lease ← lease_at r
    with_storage (
        storage.save (record {
          client_id = lease.client_id;
          ip_address = lease.ip_address;
          lease_start = lease.lease_start;
          lease_end = lease.lease_end;
          hostname = lease.hostname;
        }))

  -- `create_specific`, and the lease is persisted
  unfoldable pub lease_specific : Text → Text → Option Text → Action (Option ℕ)
  unfolding persist_lease
  lease_specific c ip hostname = do
    r ← with_manager (Lease.create_specific c ip config.lease_time hostname)
    persist_lease r
    pure (some r)

  -- the end of `_obtain_lease`
  unfoldable pub persist_found : Option ℕ → Action (Option ℕ)
  unfolding persist_lease
  persist_found none = pure none
  persist_found (some r) = do persist_lease r; pure (some r)

  unfoldable pub create_found : Text → Option Text → Action (Option ℕ)
  create_found c hostname = do
    r ← with_manager (Lease.create c config.lease_time hostname)
    pure (some r)

  -- the dynamic pool
  unfoldable pub obtain_dynamic : Text → Option Text → Action (Option ℕ)
  unfolding persist_found create_found
  obtain_dynamic c hostname = do
    l ← catch is_lease_or_exhausted (create_found c hostname) (pure none)
    persist_found l

  unfoldable pub or_dynamic : Option ℕ → Text → Option Text → Action (Option ℕ)
  unfolding obtain_dynamic
  or_dynamic (some r) c hostname = pure (some r)
  or_dynamic none c hostname = obtain_dynamic c hostname

  -- the requested address
  unfoldable pub obtain_requested : Option Text → Text → Option Text → Action (Option ℕ)
  unfolding lease_specific or_dynamic obtain_dynamic
  obtain_requested none c hostname = obtain_dynamic c hostname
  obtain_requested (some ip) c hostname = do
    l ← catch is_lease_or_pool (lease_specific c ip hostname) (pure none)
    or_dynamic l c hostname

  -- the static reservation
  unfoldable pub obtain_reserved :
      Option Reservation → Option Text → Text → Option Text → Action (Option ℕ)
  unfolding lease_specific obtain_requested
  obtain_reserved (some reservation) requested c hostname =
      catch is_lease_or_pool
        (lease_specific c reservation.ip_address (or_hostname hostname reservation.hostname))
        (pure none)
  obtain_reserved none requested c hostname = obtain_requested requested c hostname

  -- the existing lease
  unfoldable pub obtain_existing : Option ℕ → Option Text → Text → Option Text → Action (Option ℕ)
  unfolding persist_lease obtain_reserved
  obtain_existing (some r) requested c hostname = do persist_lease r; pure (some r)
  obtain_existing none requested c hostname = do
    reservation ← with_reservations (Reservation.get_by_client c)
    obtain_reserved reservation requested c hostname

  -- `_obtain_lease`
  unfoldable pub obtain_lease : Text → Option Text → Option Text → Action (Option ℕ)
  unfolding obtain_existing
  obtain_lease c requested hostname = do
    existing ← with_manager (Lease.get_by_client c)
    obtain_existing existing requested c hostname

  -- the answer that carries a lease
  unfoldable pub answer_lease : ℕ → Packet → ℕ → Action (Option Bytes)
  answer_lease message_type packet r = do
    lease ← lease_at r
    response ← lift (build_response config packet message_type lease.ip_address true)
    pure (some response)

  -- an answer without one
  unfoldable pub answer_plain : ℕ → Packet → Action (Option Bytes)
  answer_plain message_type packet = do
    response ← lift (build_response config packet message_type (codes "0.0.0.0") false)
    pure (some response)

  unfoldable pub answer_offer : Packet → Option ℕ → Action (Option Bytes)
  unfolding answer_lease
  answer_offer packet none = pure none
  answer_offer packet (some r) = answer_lease offer packet r

  -- `_handle_discover`
  unfoldable pub handle_discover : Packet → List DhcpOption → Action (Option Bytes)
  unfolding obtain_lease answer_offer
  handle_discover packet options = do
    requested ← lift (requested_ip options)
    l ← obtain_lease (client_id packet options) requested none
    answer_offer packet l

  unfoldable pub renew_or_obtain : Option ℕ → Text → Option Text → Action (Option ℕ)
  unfolding obtain_lease
  renew_or_obtain (some _) c requested = do
    r ← with_manager (Lease.renew c config.lease_time)
    pure (some r)
  renew_or_obtain none c requested = obtain_lease c requested none

  -- the `try` of `_handle_request`; `none` where it answers with a NAK
  unfoldable pub grant : Option ℕ → Text → Option Text → Action (Option ℕ)
  unfolding renew_or_obtain persist_found
  grant existing c requested = do l ← renew_or_obtain existing c requested; persist_found l

  unfoldable pub answer_request : Packet → Option ℕ → Action (Option Bytes)
  unfolding answer_lease answer_plain
  answer_request packet none = answer_plain nak packet
  answer_request packet (some r) = answer_lease ack packet r

  -- server_identifier is not None and server_identifier != self.server_ip
  abbrev pub for_other : Option Text → Bool
  for_other none = false
  for_other (some server) = not (text_eq server config.server_ip)

  -- `_handle_request`
  unfoldable pub handle_request : Packet → List DhcpOption → Action (Option Bytes)
  unfolding grant answer_request
  handle_request packet options = do
    requested ← lift (requested_ip options)
    server ← lift (server_identifier options)
    if for_other server then pure none else do
      existing ← with_manager (Lease.get_by_client (client_id packet options))
      l ← catch is_lease_or_pool (grant existing (client_id packet options) requested) (pure none)
      answer_request packet l

  abbrev pub is_declined : Option Text → Lease → Bool
  is_declined none lease = true
  is_declined (some ip) lease = text_eq lease.ip_address ip

  unfoldable pub decline_found : Option ℕ → Option Text → Text → Action (Unit {0})
  decline_found none declined c = pure tt
  decline_found (some r) declined c = do
    lease ← lease_at r
    if is_declined declined lease
        then (do with_manager (Lease.release c); with_storage (storage.delete c); pure tt)
        else pure tt

  -- `_handle_decline`
  unfoldable pub handle_decline : Packet → List DhcpOption → Action (Option Bytes)
  unfolding decline_found
  handle_decline packet options = do
    declined ← lift (requested_ip options)
    l ← with_manager (Lease.get_by_client (client_id packet options))
    decline_found l declined (client_id packet options)
    pure none

  -- `_handle_release`
  unfoldable pub handle_release : Packet → List DhcpOption → Action (Option Bytes)
  handle_release packet options = do
    catch is_lease (with_manager (Lease.release (client_id packet options))) (pure false)
    catch (λ _. true) (with_storage (storage.delete (client_id packet options))) (pure false)
    pure none

  -- the handler of a message type; `_handle_inform` answers without a lease
  unfoldable pub dispatch : ℕ → Packet → List DhcpOption → Action (Option Bytes)
  unfolding handle_discover handle_request handle_decline handle_release answer_plain
  dispatch message_type packet options =
      if message_type == 1
      then handle_discover packet options
      else if message_type == 3
      then handle_request packet options
      else if message_type == 4
      then handle_decline packet options
      else if message_type == 7
      then handle_release packet options
      else if message_type == 8
      then answer_plain ack packet
      else pure none

  unfoldable pub handle_message : Option ℕ → Packet → List DhcpOption → Action (Option Bytes)
  unfolding dispatch
  handle_message none packet options = pure none
  handle_message (some message_type) packet options = dispatch message_type packet options

  unfoldable pub handle_options : Packet → Result (List DhcpOption) → Action (Option Bytes)
  unfolding handle_message
  handle_options packet (err e) = pure none
  handle_options packet (ok options) = do
    message_type ← lift (get_message_type options)
    handle_message message_type packet options

  unfoldable pub handle_parsed : Result Packet → Action (Option Bytes)
  unfolding handle_options
  handle_parsed (err e) = pure none
  handle_parsed (ok packet) = handle_options packet (parse_options packet.options)

  -- `handle_packet`
  unfoldable pub handle_packet : Bytes → Action (Option Bytes)
  unfolding handle_parsed
  handle_packet bytes = handle_parsed (Packet.from_bytes bytes)
