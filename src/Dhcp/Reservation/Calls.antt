-- ===== src/Dhcp/Reservation/Calls.antt =====
-- What each method of dhcp/reservation.py does to the two dicts.
use sentinel_dns.Common.{
  ◌≡◌, refl, sym, ap, ◌∙◌, subst, Bool, true, false, Option, none, some, arith, Text, text_eq_iff,
  Bool-cases, inl, inr,
}
use sentinel_dns.Common.Exec.{ok, ◌>>=◌}
use sentinel_dns.Common.Triple.{Triple, Triple-lift_bind, Triple-bind, Triple-gets}
use sentinel_dns.Common.Dict
use sentinel_dns.Common.Dict.{get-put, get-pop}
use sentinel_dns.Dhcp.Reservation.{
  Reservation, Manager, normalize_client_id, validate_ip, clean_hostname, enter, add_unless, add,
  held_by_other, replace_found, update, drop_client, remove_by_client, drop_ip, remove_by_ip,
}
use sentinel_dns.Dhcp.Reservation.Mirrored.{entered, replaced}

module _ (m : Manager) where
  -- the state is still `m`
  abbrev pub Still : Manager → Type 0
  Still s = s ≡ m

  abbrev pub Added : Text → Text → Option Text → Reservation → Manager → Type 0
  Added client_id ip_address hostname r s =
      (s ≡ entered r m)
      × (Dict.get r.client_id m.by_client ≡ none)
      × (Dict.get r.ip_address m.by_ip ≡ none)
      × (normalize_client_id client_id ≡ ok r.client_id)
      × (validate_ip ip_address ≡ ok r.ip_address)
      × (r.hostname ≡ clean_hostname hostname)

  add_unless-Added :
      (client_id ip_address : Text) (hostname : Option Text) (o p : Option Reservation)
      (c ip : Text)
      → normalize_client_id client_id ≡ ok c
      → validate_ip ip_address ≡ ok ip
      → Triple
          (λ s. (Still s × (Dict.get c s.by_client ≡ o)) × (Dict.get ip s.by_ip ≡ p))
          (add_unless o p
            (record { client_id = c; ip_address = ip; hostname = clean_hostname hostname }))
          (Added client_id ip_address hostname)
          Still
  unfolding add_unless enter ◌>>=◌
  add_unless-Added client_id ip_address hostname (some _) p c ip e f = record { at = λ s h. h.0.0 }
  add_unless-Added client_id ip_address hostname none (some _) c ip e f = record {
    at = λ s h. h.0.0;
  }
  add_unless-Added client_id ip_address hostname none none c ip e f = record {
    at = λ s h. (
      ap (entered _) h.0.0,
      subst (λ t. Dict.get c t.by_client ≡ none) h.0.0 h.0.1,
      subst (λ t. Dict.get ip t.by_ip ≡ none) h.0.0 h.1,
      e,
      f,
      refl,
    );
  }

  pub add-Added :
      (client_id ip_address : Text) (hostname : Option Text)
      → Triple Still (add client_id ip_address hostname) (Added client_id ip_address hostname) Still
  unfolding add
  add-Added client_id ip_address hostname = Triple-lift_bind (normalize_client_id client_id) λ c e.
      Triple-lift_bind (validate_ip ip_address) λ ip f.
        Triple-bind (Triple-gets (λ m. Dict.get c m.by_client)) λ o.
          Triple-bind (Triple-gets (λ m. Dict.get ip m.by_ip))
            λ p. add_unless-Added client_id ip_address hostname o p c ip e f

  abbrev pub Updated : Text → Text → Option Text → Reservation → Manager → Type 0
  Updated client_id ip_address hostname r s =
      (old : Reservation) × (s ≡ replaced old r m)
      × (Dict.get r.client_id m.by_client ≡ some old)
      × ((q : Reservation) → Dict.get r.ip_address m.by_ip ≡ some q → q.client_id ≡ r.client_id)
      × (normalize_client_id client_id ≡ ok r.client_id)
      × (validate_ip ip_address ≡ ok r.ip_address)
      × (r.hostname ≡ hostname)

  held-by :
      (o : Option Reservation) (c : Text) (q : Reservation)
      → held_by_other o c ≡ false
      → o ≡ some q
      → q.client_id ≡ c
  held-by none c q h e = absurd (ground arith)
  held-by (some r) c q h e = ground (arith, text_eq_iff r.client_id c)

  replace_found-Updated :
      (client_id ip_address : Text) (hostname : Option Text) (o p : Option Reservation)
      (c ip : Text)
      → normalize_client_id client_id ≡ ok c
      → validate_ip ip_address ≡ ok ip
      → Triple
          (λ s. (Still s × (Dict.get c s.by_client ≡ o)) × (Dict.get ip s.by_ip ≡ p))
          (replace_found o p (record { client_id = c; ip_address = ip; hostname = hostname }))
          (Updated client_id ip_address hostname)
          Still
  unfolding replace_found enter ◌>>=◌
  replace_found-Updated client_id ip_address hostname none p c ip e f = record { at = λ s h. h.0.0 }
  replace_found-Updated client_id ip_address hostname (some old) p c ip e f =
      elim (Bool-cases (held_by_other p c)) [
        | inl other ↦ rw other (record { at = λ s h. h.0.0 })
        | inr mine ↦ rw mine (record {
          at = λ s h. (
            old,
            ap (replaced old _) h.0.0,
            subst (λ t. Dict.get c t.by_client ≡ some old) h.0.0 h.0.1,
            (λ q k. held-by p c q mine (sym (subst (λ t. Dict.get ip t.by_ip ≡ p) h.0.0 h.1) ∙ k)),
            e,
            f,
            refl,
          );
        })
      ]

  pub update-Updated :
      (client_id ip_address : Text) (hostname : Option Text)
      → Triple Still
          (update client_id ip_address hostname)
          (Updated client_id ip_address hostname)
          Still
  unfolding update
  update-Updated client_id ip_address hostname =
      Triple-lift_bind (normalize_client_id client_id) λ c e.
        Triple-lift_bind (validate_ip ip_address) λ ip f.
          Triple-bind (Triple-gets (λ m. Dict.get c m.by_client)) λ o.
            Triple-bind (Triple-gets (λ m. Dict.get ip m.by_ip))
              λ p. replace_found-Updated client_id ip_address hostname o p c ip e f

  -- `remove_by_client` answers whether the client had a reservation, and takes it out of both dicts
  abbrev pub ClientRemoved : Text → Bool → Manager → Type 0
  ClientRemoved client_id true s =
      (r : Reservation) × (c : Text) × (normalize_client_id client_id ≡ ok c)
      × (Dict.get c m.by_client ≡ some r)
      × (s ≡ record { by_client = Dict.pop c m.by_client; by_ip = Dict.pop r.ip_address m.by_ip })
  ClientRemoved client_id false s =
      (c : Text) × (normalize_client_id client_id ≡ ok c)
      × (Dict.get c m.by_client ≡ none)
      × (s ≡ m)

  drop_client-ClientRemoved :
      (client_id c : Text) (o : Option Reservation)
      → normalize_client_id client_id ≡ ok c
      → Triple
          (λ s. Still s × (Dict.get c s.by_client ≡ o))
          (drop_client c o)
          (ClientRemoved client_id)
          Still
  unfolding drop_client ◌>>=◌
  drop_client-ClientRemoved client_id c none e = record {
    at = λ s h. (c, e, subst (λ t. Dict.get c t.by_client ≡ none) h.0 h.1, h.0);
  }
  drop_client-ClientRemoved client_id c (some r) e = record {
    at = λ s h. (
      r,
      c,
      e,
      subst (λ t. Dict.get c t.by_client ≡ some r) h.0 h.1,
      ap (λ t. record { by_client = Dict.pop c t.by_client; by_ip = Dict.pop r.ip_address t.by_ip })
          h.0,
    );
  }

  pub remove_by_client-ClientRemoved :
      (client_id : Text) → Triple Still (remove_by_client client_id) (ClientRemoved client_id) Still
  unfolding remove_by_client
  remove_by_client-ClientRemoved client_id = Triple-lift_bind (normalize_client_id client_id) λ c e.
      Triple-bind (Triple-gets (λ m. Dict.get c m.by_client))
        λ o. drop_client-ClientRemoved client_id c o e

  abbrev pub IpRemoved : Text → Bool → Manager → Type 0
  IpRemoved ip_address true s =
      (r : Reservation) × (ip : Text) × (validate_ip ip_address ≡ ok ip)
      × (Dict.get ip m.by_ip ≡ some r)
      × (s ≡ record { by_client = Dict.pop r.client_id m.by_client; by_ip = Dict.pop ip m.by_ip })
  IpRemoved ip_address false s =
      (ip : Text) × (validate_ip ip_address ≡ ok ip) × (Dict.get ip m.by_ip ≡ none) × (s ≡ m)

  drop_ip-IpRemoved :
      (ip_address ip : Text) (o : Option Reservation)
      → validate_ip ip_address ≡ ok ip
      → Triple
          (λ s. Still s × (Dict.get ip s.by_ip ≡ o))
          (drop_ip ip o)
          (IpRemoved ip_address)
          Still
  unfolding drop_ip ◌>>=◌
  drop_ip-IpRemoved ip_address ip none e = record {
    at = λ s h. (ip, e, subst (λ t. Dict.get ip t.by_ip ≡ none) h.0 h.1, h.0);
  }
  drop_ip-IpRemoved ip_address ip (some r) e = record {
    at = λ s h. (
      r,
      ip,
      e,
      subst (λ t. Dict.get ip t.by_ip ≡ some r) h.0 h.1,
      ap (λ t. record { by_client = Dict.pop r.client_id t.by_client; by_ip = Dict.pop ip t.by_ip })
          h.0,
    );
  }

  pub remove_by_ip-IpRemoved :
      (ip_address : Text) → Triple Still (remove_by_ip ip_address) (IpRemoved ip_address) Still
  unfolding remove_by_ip
  remove_by_ip-IpRemoved ip_address = Triple-lift_bind (validate_ip ip_address) λ ip e.
      Triple-bind (Triple-gets (λ m. Dict.get ip m.by_ip)) λ o. drop_ip-IpRemoved ip_address ip o e
