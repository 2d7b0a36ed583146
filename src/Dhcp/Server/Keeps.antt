-- ===== src/Dhcp/Server/Keeps.antt =====
-- The handlers of dhcp/server.py keep the leases consistent, whatever the storage does.
use sentinel_dns.Common.{ℕ, true, false, Option, none, some, List, Text, ◌==◌}
use sentinel_dns.Common.Exec.{Result, ok, err, Exec}
use sentinel_dns.Common.Triple.{
  Triple, Ends, Triple_weaken, Triple-if, Keeps, Keeps-pure, Keeps-gets, Keeps-lift, Keeps-catch,
  Keeps-bind,
}
use sentinel_dns.Dhcp.Options.{Bytes, DhcpOption, parse_options}
use sentinel_dns.Dhcp.Packet
use sentinel_dns.Dhcp.Packet.{Packet}
use sentinel_dns.Dhcp.Lease
use sentinel_dns.Dhcp.Lease.Consistent.{IsConsistent}
use sentinel_dns.Dhcp.Lease.Lookup.{get_by_client-Client}
use sentinel_dns.Dhcp.Lease.Preserve.{
  create-Client, create_specific-Client, renew-Client, release-Client,
}
use sentinel_dns.Dhcp.Reservation
use sentinel_dns.Dhcp.Reservation.{Reservation}
use sentinel_dns.Dhcp.Server.{
  Storage, Config, Server, offer, ack, nak, client_id, is_lease_or_pool, is_lease,
  is_lease_or_exhausted, or_hostname, with_manager, with_reservations, with_storage, lease_at,
}
use sentinel_dns.Dhcp.Server.Handlers.{
  persist_lease, lease_specific, persist_found, create_found, obtain_dynamic, or_dynamic,
  obtain_requested, obtain_reserved, obtain_existing, obtain_lease, answer_lease, answer_plain,
  answer_offer, handle_discover, renew_or_obtain, grant, answer_request, for_other, handle_request,
  is_declined, decline_found, handle_decline, handle_release, dispatch, handle_message,
  handle_options, handle_parsed, handle_packet,
}

module _ {S : Type 0} where
  abbrev pub Leases : Server S → Type 0
  Leases s = IsConsistent s.manager

  Keeps-with_manager :
      {A : Type 0} {f : Exec Lease.Manager A} → Keeps IsConsistent f → Keeps Leases (with_manager f)
  unfolding with_manager
  Keeps-with_manager {A} {f} t = record {
    at = λ s h. go s (f s.manager).0 (f s.manager).1 (t.at s.manager h);
  }
    where
      go :
          (s : Server S) (r : Result A) (m : Lease.Manager)
          → Ends (λ _. IsConsistent) IsConsistent r m
          → Ends (λ _. Leases) Leases r (record s { manager = m })
      go s (ok a) m k = k
      go s (err e) m k = k

  Keeps-with_reservations :
      {A : Type 0} (f : Exec Reservation.Manager A) → Keeps Leases (with_reservations f)
  unfolding with_reservations
  Keeps-with_reservations {A} f = record {
    at = λ s h. go s (f s.reservations).0 (f s.reservations).1 h;
  }
    where
      go :
          (s : Server S) (r : Result A) (m : Reservation.Manager)
          → IsConsistent s.manager
          → Ends (λ _. Leases) Leases r (record s { reservations = m })
      go s (ok a) m k = k
      go s (err e) m k = k

  Keeps-with_storage : {A : Type 0} (f : Exec S A) → Keeps Leases (with_storage f)
  unfolding with_storage
  Keeps-with_storage {A} f = record { at = λ s h. go s (f s.storage).0 (f s.storage).1 h }
    where
      go :
          (s : Server S) (r : Result A) (m : S)
          → IsConsistent s.manager
          → Ends (λ _. Leases) Leases r (record s { storage = m })
      go s (ok a) m k = k
      go s (err e) m k = k

  Keeps-lease_at : (r : ℕ) → Keeps Leases (lease_at r)
  unfolding lease_at
  Keeps-lease_at r = Keeps-gets _

kept :
    {A : Type 0} {f : Exec Lease.Manager A} {Q : A → Lease.Manager → Type 0}
    → Triple IsConsistent f (λ a m. IsConsistent m × Q a m) IsConsistent
    → Keeps IsConsistent f
kept t = Triple_weaken (λ m h. h) (λ a m k. k.0) t

module _ (storage : Storage) (config : Config) where
  persist_lease-Keeps : (r : ℕ) → Keeps Leases (persist_lease storage config r)
  unfolding persist_lease
  persist_lease-Keeps r = Keeps-bind (Keeps-lease_at r) λ lease. Keeps-with_storage _

  lease_specific-Keeps :
      (c ip : Text) (hostname : Option Text)
      → Keeps Leases (lease_specific storage config c ip hostname)
  unfolding lease_specific
  lease_specific-Keeps c ip hostname =
      Keeps-bind
        (Keeps-with_manager (kept (create_specific-Client c ip config.lease_time hostname)))
        λ r. Keeps-bind (persist_lease-Keeps r) λ _. Keeps-pure (some r)

  persist_found-Keeps : (o : Option ℕ) → Keeps Leases (persist_found storage config o)
  unfolding persist_found
  persist_found-Keeps none = Keeps-pure none
  persist_found-Keeps (some r) = Keeps-bind (persist_lease-Keeps r) λ _. Keeps-pure (some r)

  obtain_dynamic-Keeps :
      (c : Text) (hostname : Option Text) → Keeps Leases (obtain_dynamic storage config c hostname)
  unfolding obtain_dynamic create_found
  obtain_dynamic-Keeps c hostname =
      Keeps-bind
        (Keeps-catch is_lease_or_exhausted
          (Keeps-bind (Keeps-with_manager (kept (create-Client c config.lease_time hostname)))
            λ r. Keeps-pure (some r))
          (Keeps-pure none))
        persist_found-Keeps

  or_dynamic-Keeps :
      (o : Option ℕ) (c : Text) (hostname : Option Text)
      → Keeps Leases (or_dynamic storage config o c hostname)
  unfolding or_dynamic
  or_dynamic-Keeps none c hostname = obtain_dynamic-Keeps c hostname
  or_dynamic-Keeps (some r) c hostname = Keeps-pure (some r)

  obtain_requested-Keeps :
      (o : Option Text) (c : Text) (hostname : Option Text)
      → Keeps Leases (obtain_requested storage config o c hostname)
  unfolding obtain_requested
  obtain_requested-Keeps none c hostname = obtain_dynamic-Keeps c hostname
  obtain_requested-Keeps (some ip) c hostname =
      Keeps-bind
        (Keeps-catch is_lease_or_pool (lease_specific-Keeps c ip hostname) (Keeps-pure none))
        λ l. or_dynamic-Keeps l c hostname

  obtain_lease-Keeps :
      (c : Text) (requested hostname : Option Text)
      → Keeps Leases (obtain_lease storage config c requested hostname)
  unfolding obtain_lease obtain_existing obtain_reserved
  obtain_lease-Keeps c requested hostname =
      Keeps-bind (Keeps-with_manager (kept (get_by_client-Client c))) existing
    where
      reserved :
          (o : Option Reservation)
          → Keeps Leases (obtain_reserved storage config o requested c hostname)
      reserved none = obtain_requested-Keeps requested c hostname
      reserved (some r) =
          Keeps-catch is_lease_or_pool
            (lease_specific-Keeps c r.ip_address (or_hostname hostname r.hostname))
            (Keeps-pure none)

      existing :
          (o : Option ℕ) → Keeps Leases (obtain_existing storage config o requested c hostname)
      existing none = Keeps-bind (Keeps-with_reservations _) reserved
      existing (some r) = Keeps-bind (persist_lease-Keeps r) λ _. Keeps-pure (some r)

  answer_lease-Keeps :
      (t : ℕ) (p : Packet) (r : ℕ) → Keeps Leases (answer_lease storage config t p r)
  unfolding answer_lease
  answer_lease-Keeps t p r =
      Keeps-bind (Keeps-lease_at r)
        λ lease. Keeps-bind (Keeps-lift _) λ response. Keeps-pure (some response)

  answer_plain-Keeps : (t : ℕ) (p : Packet) → Keeps Leases (answer_plain storage config t p)
  unfolding answer_plain
  answer_plain-Keeps t p = Keeps-bind (Keeps-lift _) λ response. Keeps-pure (some response)

  handle_discover-Keeps :
      (p : Packet) (options : List DhcpOption)
      → Keeps Leases (handle_discover storage config p options)
  unfolding handle_discover answer_offer
  handle_discover-Keeps p options =
      Keeps-bind (Keeps-lift _) λ requested. Keeps-bind (obtain_lease-Keeps _ requested none) answer
    where
      answer : (o : Option ℕ) → Keeps Leases (answer_offer storage config p o)
      answer none = Keeps-pure none
      answer (some r) = answer_lease-Keeps offer p r

  grant-Keeps :
      (o : Option ℕ) (c : Text) (requested : Option Text)
      → Keeps Leases (grant storage config o c requested)
  unfolding grant renew_or_obtain
  grant-Keeps none c requested =
      Keeps-bind (obtain_lease-Keeps c requested none) persist_found-Keeps
  grant-Keeps (some _) c requested =
      Keeps-bind
        (Keeps-bind (Keeps-with_manager (kept (renew-Client c config.lease_time)))
          λ r. Keeps-pure (some r))
        persist_found-Keeps

  handle_request-Keeps :
      (p : Packet) (options : List DhcpOption)
      → Keeps Leases (handle_request storage config p options)
  unfolding handle_request answer_request
  handle_request-Keeps p options = Keeps-bind (Keeps-lift _) λ requested.
      Keeps-bind (Keeps-lift _) λ server.
        Triple-if (for_other storage config server) (λ _. Keeps-pure none)
          λ _. Keeps-bind (Keeps-with_manager (kept (get_by_client-Client _))) λ existing.
            Keeps-bind
              (Keeps-catch is_lease_or_pool (grant-Keeps existing _ requested) (Keeps-pure none))
              answer
    where
      answer : (o : Option ℕ) → Keeps Leases (answer_request storage config p o)
      answer none = answer_plain-Keeps nak p
      answer (some r) = answer_lease-Keeps ack p r

  handle_decline-Keeps :
      (p : Packet) (options : List DhcpOption)
      → Keeps Leases (handle_decline storage config p options)
  unfolding handle_decline decline_found
  handle_decline-Keeps p options = Keeps-bind (Keeps-lift _) λ declined.
      Keeps-bind (Keeps-with_manager (kept (get_by_client-Client _)))
        λ l. Keeps-bind (found l declined) λ _. Keeps-pure none
    where
      found :
          (o : Option ℕ) (declined : Option Text)
          → Keeps Leases (decline_found storage config o declined (client_id p options))
      found none declined = Keeps-pure tt
      found (some r) declined = Keeps-bind (Keeps-lease_at r) λ lease.
          Triple-if (is_declined storage config declined lease)
            (λ _.
              Keeps-bind (Keeps-with_manager (kept (release-Client _)))
                λ _. Keeps-bind (Keeps-with_storage _) λ _. Keeps-pure tt)
            (λ _. Keeps-pure tt)

  handle_release-Keeps :
      (p : Packet) (options : List DhcpOption)
      → Keeps Leases (handle_release storage config p options)
  unfolding handle_release
  handle_release-Keeps p options =
      Keeps-bind
        (Keeps-catch is_lease (Keeps-with_manager (kept (release-Client _))) (Keeps-pure false))
        λ _.
          Keeps-bind (Keeps-catch (λ _. true) (Keeps-with_storage _) (Keeps-pure false))
            λ _. Keeps-pure none

  dispatch-Keeps :
      (t : ℕ) (p : Packet) (options : List DhcpOption)
      → Keeps Leases (dispatch storage config t p options)
  unfolding dispatch
  dispatch-Keeps t p options =
      Triple-if (t == 1) (λ _. handle_discover-Keeps p options)
        λ _.
          Triple-if (t == 3) (λ _. handle_request-Keeps p options)
            λ _.
              Triple-if (t == 4) (λ _. handle_decline-Keeps p options)
                λ _.
                  Triple-if (t == 7) (λ _. handle_release-Keeps p options)
                    λ _. Triple-if (t == 8) (λ _. answer_plain-Keeps ack p) λ _. Keeps-pure none

  pub handle_packet-Keeps : (bytes : Bytes) → Keeps Leases (handle_packet storage config bytes)
  unfolding handle_packet handle_parsed handle_options handle_message
  handle_packet-Keeps bytes = parsed (Packet.from_bytes bytes)
    where
      message :
          (o : Option ℕ) (p : Packet) (options : List DhcpOption)
          → Keeps Leases (handle_message storage config o p options)
      message none p options = Keeps-pure none
      message (some t) p options = dispatch-Keeps t p options

      with_options :
          (p : Packet) (r : Result (List DhcpOption))
          → Keeps Leases (handle_options storage config p r)
      with_options p (err e) = Keeps-pure none
      with_options p (ok options) = Keeps-bind (Keeps-lift _) λ o. message o p options

      parsed : (r : Result Packet) → Keeps Leases (handle_parsed storage config r)
      parsed (err e) = Keeps-pure none
      parsed (ok p) = with_options p (parse_options p.options)
