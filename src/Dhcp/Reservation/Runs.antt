-- ===== src/Dhcp/Reservation/Runs.antt =====
-- Every sequence of calls of dhcp/reservation.py, and what the lookups find after one of them.
use sentinel_dns.Common.{
  ◌≡◌, refl, sym, ap, ◌∙◌, subst, Bool, true, false, Option, none, some, List, [], ◌∷◌, arith, Text,
  text_eq, inl, inr, ◌⊎◌,
}
use sentinel_dns.Common.Exec.{Error, ok, err, modify, ◌>>=◌}
use sentinel_dns.Common.Triple.{Triple_state, Triple-ok, Triple-err}
use sentinel_dns.Common.Dict
use sentinel_dns.Common.Dict.{get-put_same, get-put_other, get-pop_same, get-pop_other}
use sentinel_dns.Dhcp.Reservation
use sentinel_dns.Dhcp.Reservation.{
  Reservation, Manager, normalize_client_id, validate_ip, init, get_by_client, get_by_ip,
}
use sentinel_dns.Dhcp.Reservation.Mirrored.{
  IsMirrored, entered, entered-IsMirrored, removed-IsMirrored, replaced, replaced-IsMirrored,
}
use sentinel_dns.Dhcp.Reservation.Calls.{
  Still, Added, add-Added, Updated, update-Updated, ClientRemoved, remove_by_client-ClientRemoved,
  IpRemoved, remove_by_ip-IpRemoved,
}

pub data Call : Type 0 where
  add update : Text → Text → Option Text → Call
  remove_by_client remove_by_ip : Text → Call
  clear : Call

-- the manager after a call, whether it returned or raised
unfoldable pub step : Call → Manager → Manager
step (Call.add client_id ip_address hostname) m =
    (Reservation.add client_id ip_address hostname m).1
step (Call.update client_id ip_address hostname) m =
    (Reservation.update client_id ip_address hostname m).1
step (Call.remove_by_client client_id) m = (Reservation.remove_by_client client_id m).1
step (Call.remove_by_ip ip_address) m = (Reservation.remove_by_ip ip_address m).1
step Call.clear m = (Reservation.clear m).1

unfoldable pub run : List Call → Manager → Manager
run [] m = m
run (c ∷ cs) m = run cs (step c m)

pub init-IsMirrored : IsMirrored init
unfolding Dict.get
init-IsMirrored = record {
  client_of = λ c r e. absurd (ground arith);
  ip_of = λ a r e. absurd (ground arith);
}

module _ (m : Manager) (h : IsMirrored m) where
  still : (s : Manager) → Still m s → IsMirrored s
  still s e = rw e h

  added :
      (client_id ip_address : Text) (hostname : Option Text) (r : Reservation) (s : Manager)
      → Added m client_id ip_address hostname r s
      → IsMirrored s
  added client_id ip_address hostname r s (e, no_client, no_ip, _, _, _) =
      rw e (entered-IsMirrored r m h no_client no_ip)

  updated :
      (client_id ip_address : Text) (hostname : Option Text) (r : Reservation) (s : Manager)
      → Updated m client_id ip_address hostname r s
      → IsMirrored s
  updated client_id ip_address hostname r s (old, e, there, free, _, _, _) =
      rw e (replaced-IsMirrored old r m h there free)

  client_removed :
      (client_id : Text) (b : Bool) (s : Manager) → ClientRemoved m client_id b s → IsMirrored s
  client_removed client_id true s (r, c, _, there, e) =
      let own = (h.client_of c r there).0 in
      rw e (
        subst
          (λ k.
            IsMirrored (record {
              by_client = Dict.pop k m.by_client;
              by_ip = Dict.pop r.ip_address m.by_ip;
            }))
          own
          (removed-IsMirrored r m h (subst (λ k. Dict.get k m.by_client ≡ some r) (sym own) there)))
  client_removed client_id false s (_, _, _, e) = rw e h

  ip_removed :
      (ip_address : Text) (b : Bool) (s : Manager) → IpRemoved m ip_address b s → IsMirrored s
  ip_removed ip_address true s (r, ip, _, there, e) = rw e (
      subst
        (λ k.
          IsMirrored
            (record { by_client = Dict.pop r.client_id m.by_client; by_ip = Dict.pop k m.by_ip }))
        (h.ip_of ip r there).0 (removed-IsMirrored r m h (h.ip_of ip r there).1))
  ip_removed ip_address false s (_, _, _, e) = rw e h

step-IsMirrored : (c : Call) (m : Manager) → IsMirrored m → IsMirrored (step c m)
unfolding step Reservation.clear modify
step-IsMirrored (Call.add client_id ip_address hostname) m h =
    Triple_state (add-Added m client_id ip_address hostname)
      (added m h client_id ip_address hostname) (still m h) m refl
step-IsMirrored (Call.update client_id ip_address hostname) m h =
    Triple_state (update-Updated m client_id ip_address hostname)
      (updated m h client_id ip_address hostname) (still m h) m refl
step-IsMirrored (Call.remove_by_client client_id) m h =
    Triple_state (remove_by_client-ClientRemoved m client_id) (client_removed m h client_id)
      (still m h) m refl
step-IsMirrored (Call.remove_by_ip ip_address) m h =
    Triple_state (remove_by_ip-IpRemoved m ip_address) (ip_removed m h ip_address) (still m h) m
      refl
step-IsMirrored Call.clear m h = init-IsMirrored

-- From a manager whose two dicts mirror each other, as the new one's do, whatever the calls, they go
-- on mirroring each other: a reservation stands under its client in one and under its address in the
-- other.
pub run-IsMirrored : (cs : List Call) (m : Manager) → IsMirrored m → IsMirrored (run cs m)
unfolding run
run-IsMirrored [] m h = h
run-IsMirrored (c ∷ cs) m h = run-IsMirrored cs (step c m) (step-IsMirrored c m h)

-- After any calls on a new manager, a reservation that one client has and a reservation that
-- another client has are for different addresses: the address determines the client.
pub reserved_once :
    (cs : List Call) (c d : Text) (r q : Reservation)
    → Dict.get c (run cs init).by_client ≡ some r
    → Dict.get d (run cs init).by_client ≡ some q
    → r.ip_address ≡ q.ip_address
    → c ≡ d
reserved_once cs c d r q e f same =
    let h = run-IsMirrored cs init init-IsMirrored in
    cc (
      (h.client_of c r e).0,
      (h.client_of c r e).1,
      (h.client_of d q f).0,
      (h.client_of d q f).1,
      same,
      ap (λ a. Dict.get a (run cs init).by_ip) same,
    )

-- When `add` returns a reservation, both lookups find it and every other client is found as before;
-- the client and the address had none.
pub add_lem :
    (client_id ip_address : Text) (hostname : Option Text) (m s : Manager) (r : Reservation)
    → Reservation.add client_id ip_address hostname m ≡ (ok r, s)
    → (get_by_client client_id s ≡ (ok (some r), s))
      × (get_by_ip ip_address s ≡ (ok (some r), s))
      × (get_by_client client_id m ≡ (ok none, m))
      × (get_by_ip ip_address m ≡ (ok none, m))
      × ((c : Text)
          → text_eq r.client_id c ≡ false
          → Dict.get c s.by_client ≡ Dict.get c m.by_client)
unfolding get_by_client get_by_ip ◌>>=◌
add_lem client_id ip_address hostname m s r e =
    let (now, no_client, no_ip, c, ip, _) =
      Triple-ok (add-Added m client_id ip_address hostname) m s r refl e in
    (
      rw (c, now) (ap (λ o. (ok o, entered r m)) (get-put_same r.client_id r m.by_client)),
      rw (ip, now) (ap (λ o. (ok o, entered r m)) (get-put_same r.ip_address r m.by_ip)),
      rw (c, no_client) refl,
      rw (ip, no_ip) refl,
      λ d ne. rw now (get-put_other r.client_id d r m.by_client ne),
    )

-- When `update` returns a reservation, the client had a reservation before;
-- both lookups find the new one, and where the address changed the old address is free.
pub update_lem :
    (client_id ip_address : Text) (hostname : Option Text) (m s : Manager) (r : Reservation)
    → Reservation.update client_id ip_address hostname m ≡ (ok r, s)
    → (get_by_client client_id s ≡ (ok (some r), s))
      × (get_by_ip ip_address s ≡ (ok (some r), s))
      × (old : Reservation) × (get_by_client client_id m ≡ (ok (some old), m))
      × (text_eq r.ip_address old.ip_address ≡ false → Dict.get old.ip_address s.by_ip ≡ none)
unfolding get_by_client get_by_ip ◌>>=◌
update_lem client_id ip_address hostname m s r e =
    let (old, now, there, _, c, ip, _) =
      Triple-ok (update-Updated m client_id ip_address hostname) m s r refl e in
    (
      rw (c, now) (ap (λ o. (ok o, replaced old r m)) (get-put_same r.client_id r m.by_client)),
      rw (ip, now)
          (ap (λ o. (ok o, replaced old r m))
            (get-put_same r.ip_address r (Dict.pop old.ip_address m.by_ip))),
      old,
      rw (c, there) refl,
      λ ne. rw now (
          get-put_other r.ip_address old.ip_address r (Dict.pop old.ip_address m.by_ip) ne
          ∙ get-pop_same old.ip_address m.by_ip),
    )

-- When `remove_by_client` answers true, the client had a reservation, and afterwards neither the
-- client nor its address has one.
pub remove_by_client_lem :
    (client_id : Text) (m s : Manager)
    → Reservation.remove_by_client client_id m ≡ (ok true, s)
    → (r : Reservation) × (get_by_client client_id m ≡ (ok (some r), m))
      × (get_by_client client_id s ≡ (ok none, s))
      × (Dict.get r.ip_address s.by_ip ≡ none)
unfolding get_by_client ◌>>=◌
remove_by_client_lem client_id m s e =
    let (r, c, name, there, now) =
      Triple-ok (remove_by_client-ClientRemoved m client_id) m s true refl e in
    (
      r,
      rw (name, there) refl,
      rw (name, now)
          (ap
            (λ o. (
              ok o,
              record { by_client = Dict.pop c m.by_client; by_ip = Dict.pop r.ip_address m.by_ip },
            ))
            (get-pop_same c m.by_client)),
      rw now (get-pop_same r.ip_address m.by_ip),
    )

-- A call that raises leaves the manager as it was.
pub raised_unchanged :
    (client_id ip_address : Text) (hostname : Option Text) (m s : Manager) (e : Error)
    → (Reservation.add client_id ip_address hostname m ≡ (err e, s))
      ⊎ (Reservation.update client_id ip_address hostname m ≡ (err e, s))
      ⊎ (Reservation.remove_by_client client_id m ≡ (err e, s))
      ⊎ (Reservation.remove_by_ip ip_address m ≡ (err e, s))
    → s ≡ m
raised_unchanged client_id ip_address hostname m s e (inl k) =
    Triple-err (add-Added m client_id ip_address hostname) m s e refl k
raised_unchanged client_id ip_address hostname m s e (inr (inl k)) =
    Triple-err (update-Updated m client_id ip_address hostname) m s e refl k
raised_unchanged client_id ip_address hostname m s e (inr (inr (inl k))) =
    Triple-err (remove_by_client-ClientRemoved m client_id) m s e refl k
raised_unchanged client_id ip_address hostname m s e (inr (inr (inr k))) =
    Triple-err (remove_by_ip-IpRemoved m ip_address) m s e refl k
