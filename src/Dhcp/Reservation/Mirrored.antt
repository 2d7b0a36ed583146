-- ===== src/Dhcp/Reservation/Mirrored.antt =====
-- The two dicts of dhcp/reservation.py hold the same reservations.
use sentinel_dns.Common.{◌≡◌, none, some, arith, Text, text_eq_iff, text_eq_refl}
use sentinel_dns.Common.Dict
use sentinel_dns.Common.Dict.{Dict, get-put, get-pop}
use sentinel_dns.Dhcp.Reservation.{Reservation, Manager}

-- A reservation stands under its client in one dict and under its address in the other.
pub record IsMirrored (m : Manager) : Type 0 where
  pub client_of :
      (c : Text) (r : Reservation)
      → Dict.get c m.by_client ≡ some r
      → (r.client_id ≡ c) × (Dict.get r.ip_address m.by_ip ≡ some r)
  pub ip_of :
      (a : Text) (r : Reservation)
      → Dict.get a m.by_ip ≡ some r
      → (r.ip_address ≡ a) × (Dict.get r.client_id m.by_client ≡ some r)

abbrev pub entered : Reservation → Manager → Manager
entered r m = record {
  by_client = Dict.put r.client_id r m.by_client;
  by_ip = Dict.put r.ip_address r m.by_ip;
}

abbrev pub removed : Reservation → Manager → Manager
removed r m = record {
  by_client = Dict.pop r.client_id m.by_client;
  by_ip = Dict.pop r.ip_address m.by_ip;
}

pub entered-IsMirrored :
    (r : Reservation) (m : Manager)
    → IsMirrored m
    → Dict.get r.client_id m.by_client ≡ none
    → Dict.get r.ip_address m.by_ip ≡ none
    → IsMirrored (entered r m)
entered-IsMirrored r m h no_client no_ip = record { client_of = clients; ip_of = addresses }
  where
    clients :
        (c : Text) (q : Reservation)
        → Dict.get c (entered r m).by_client ≡ some q
        → (q.client_id ≡ c) × (Dict.get q.ip_address (entered r m).by_ip ≡ some q)
    clients c q e = ground (
      arith,
      get-put r.client_id c r m.by_client,
      get-put r.ip_address q.ip_address r m.by_ip,
      text_eq_iff r.client_id c,
      text_eq_iff r.ip_address q.ip_address,
      h.client_of c q,
      text_eq_refl r.ip_address,
    )

    addresses :
        (a : Text) (q : Reservation)
        → Dict.get a (entered r m).by_ip ≡ some q
        → (q.ip_address ≡ a) × (Dict.get q.client_id (entered r m).by_client ≡ some q)
    addresses a q e = ground (
      arith,
      get-put r.ip_address a r m.by_ip,
      get-put r.client_id q.client_id r m.by_client,
      text_eq_iff r.ip_address a,
      text_eq_iff r.client_id q.client_id,
      h.ip_of a q,
      text_eq_refl r.client_id,
    )

pub removed-IsMirrored :
    (r : Reservation) (m : Manager)
    → IsMirrored m
    → Dict.get r.client_id m.by_client ≡ some r
    → IsMirrored (removed r m)
removed-IsMirrored r m h there = record { client_of = clients; ip_of = addresses }
  where
    clients :
        (c : Text) (q : Reservation)
        → Dict.get c (removed r m).by_client ≡ some q
        → (q.client_id ≡ c) × (Dict.get q.ip_address (removed r m).by_ip ≡ some q)
    clients c q e = ground (
      arith,
      get-pop r.client_id c m.by_client,
      get-pop r.ip_address q.ip_address m.by_ip,
      text_eq_iff r.client_id c,
      text_eq_iff r.ip_address q.ip_address,
      h.client_of c q,
      h.client_of r.client_id r there,
    )

    addresses :
        (a : Text) (q : Reservation)
        → Dict.get a (removed r m).by_ip ≡ some q
        → (q.ip_address ≡ a) × (Dict.get q.client_id (removed r m).by_client ≡ some q)
    addresses a q e = ground (
      arith,
      get-pop r.ip_address a m.by_ip,
      get-pop r.client_id q.client_id m.by_client,
      text_eq_iff r.ip_address a,
      text_eq_iff r.client_id q.client_id,
      h.ip_of a q,
      h.client_of r.client_id r there,
    )

abbrev pub replaced : Reservation → Reservation → Manager → Manager
replaced old r m = record {
  by_client = Dict.put r.client_id r m.by_client;
  by_ip = Dict.put r.ip_address r (Dict.pop old.ip_address m.by_ip);
}

module _ (old r : Reservation) (m : Manager) (h : IsMirrored m)
    (there : Dict.get r.client_id m.by_client ≡ some old)
    (free : (q : Reservation)
      → Dict.get r.ip_address m.by_ip ≡ some q
      → q.client_id ≡ r.client_id) where
  -- a reservation with the address of the new one is the old one
  same_ip : (q : Reservation) → Dict.get r.ip_address m.by_ip ≡ some q → q ≡ old
  same_ip q e = cc (free q e, there, (h.ip_of r.ip_address q e).1)

  replaced_clients :
      (c : Text) (q : Reservation)
      → Dict.get c (replaced old r m).by_client ≡ some q
      → (q.client_id ≡ c) × (Dict.get q.ip_address (replaced old r m).by_ip ≡ some q)
  replaced_clients c q e = ground (
    arith,
    get-put r.client_id c r m.by_client,
    get-put r.ip_address q.ip_address r (Dict.pop old.ip_address m.by_ip),
    get-pop old.ip_address q.ip_address m.by_ip,
    text_eq_iff r.client_id c,
    text_eq_iff r.ip_address q.ip_address,
    text_eq_iff old.ip_address q.ip_address,
    h.client_of c q,
    h.client_of r.client_id old there,
    same_ip q,
    text_eq_refl r.ip_address,
  )

  replaced_addresses :
      (a : Text) (q : Reservation)
      → Dict.get a (replaced old r m).by_ip ≡ some q
      → (q.ip_address ≡ a) × (Dict.get q.client_id (replaced old r m).by_client ≡ some q)
  replaced_addresses a q e = ground (
    arith,
    get-put r.client_id q.client_id r m.by_client,
    get-put r.ip_address a r (Dict.pop old.ip_address m.by_ip),
    get-pop old.ip_address a m.by_ip,
    text_eq_iff r.client_id q.client_id,
    text_eq_iff r.ip_address a,
    text_eq_iff old.ip_address a,
    h.ip_of a q,
    h.client_of r.client_id old there,
    text_eq_refl r.client_id,
  )

  pub replaced-IsMirrored : IsMirrored (replaced old r m)
  replaced-IsMirrored = record { client_of = replaced_clients; ip_of = replaced_addresses }
