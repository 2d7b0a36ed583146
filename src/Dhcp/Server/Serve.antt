-- ===== src/Dhcp/Server/Serve.antt =====
-- The server of dhcp/server.py over any datagrams.
use sentinel_dns.Common.{ℕ, ◌≡◌, some, List, [], ◌∷◌, Text}
use sentinel_dns.Common.Exec.{ok}
use sentinel_dns.Common.Triple.{Triple_state}
use sentinel_dns.Common.Dict
use sentinel_dns.Dhcp.Options.{Bytes}
use sentinel_dns.Dhcp.Pool
use sentinel_dns.Dhcp.Pool.{Pool}
use sentinel_dns.Dhcp.Pool.Valid
use sentinel_dns.Dhcp.Lease
use sentinel_dns.Dhcp.Lease.Consistent.{IsConsistent}
use sentinel_dns.Dhcp.Lease.Exclusive.{exclusive_address, init-IsConsistent}
use sentinel_dns.Dhcp.Reservation
use sentinel_dns.Dhcp.Reservation.{Reservation}
use sentinel_dns.Dhcp.Server.{Storage, Config, Server}
use sentinel_dns.Dhcp.Server.Keeps.{handle_packet-Keeps}
use sentinel_dns.Dhcp.Server.Handlers.{handle_packet}

module _ (storage : Storage) (config : Config) where
  -- the server after the datagrams, whether each was answered or not
  unfoldable pub serve : List Bytes → Server storage.State → Server storage.State
  serve [] s = s
  serve (bytes ∷ rest) s = serve rest (handle_packet storage config bytes s).1

-- Whatever datagrams the server handles, and whatever its storage does, a consistent lease manager
-- stays consistent.
pub serve-Leases :
    (storage : Storage) (config : Config) (datagrams : List Bytes) (s : Server storage.State)
    → IsConsistent s.manager
    → IsConsistent (serve storage config datagrams s).manager
unfolding serve
serve-Leases storage config [] s h = h
serve-Leases storage config (bytes ∷ rest) s h =
    serve-Leases storage config rest _
      (Triple_state (handle_packet-Keeps storage config bytes) (λ _ _ k. k) (λ _ k. k) s h)

-- `__init__`, over the pool `p`
abbrev pub new_server :
    {S : Type 0} → Pool → (ℕ → Lease.Lease) → (ℕ → ℕ) → Reservation.Manager → S → Server S
new_server p objects readings reservations state = record {
  manager = Lease.init p objects readings;
  reservations = reservations;
  storage = state;
}

-- After any datagrams on a new server over the pool that `DHCPAddressPool(start, end)` builds, with any
-- reservations and any storage, two clients whose leases have one address are one client.
pub serve_exclusive :
    (storage : Storage) (config : Config) (start end : Text) (p : Pool) (objects : ℕ → Lease.Lease)
    (readings : ℕ → ℕ) (reservations : Reservation.Manager) (state : storage.State)
    (datagrams : List Bytes) (c d : Text) (q r : ℕ)
    → Pool.init start end ≡ ok p
    → Dict.get c
        (serve storage config datagrams
          (new_server p objects readings reservations state)).manager.by_client
      ≡ some q
    → Dict.get d
        (serve storage config datagrams
          (new_server p objects readings reservations state)).manager.by_client
      ≡ some r
    → ((serve storage config datagrams
          (new_server p objects readings reservations state)).manager.objects
        q).ip_address
      ≡ ((serve storage config datagrams
            (new_server p objects readings reservations state)).manager.objects
          r).ip_address
    → c ≡ d
serve_exclusive storage config start end p objects readings reservations state datagrams c d q r
      made e f same =
    let (valid, nothing, _) = Valid.init-IsValid start end p made in
    let s = new_server p objects readings reservations state in
    exclusive_address (serve storage config datagrams s).manager c d q r
      (serve-Leases storage config datagrams s (init-IsConsistent p objects readings valid nothing))
      e f same
