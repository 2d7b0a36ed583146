-- ===== src/Dns/Upstream/Answers.antt =====
-- What `query` of dns_engine/upstream.py returns.
use sentinel_dns.Common.{
  ◌≤◌, ◌≡◌, ◌||◌, arith, ltb, ◌==◌, length, take, text_eq_iff, Bool-cases, inl, inr,
}
use sentinel_dns.Common.Exec.{ok, Result-cases, and_then, value_error, raise, lift, ◌>>=◌}
use sentinel_dns.Common.Ensures.{Ensures, Ensures-ok, Ensures-err, Ensures-and_then, Ensures-value}
use sentinel_dns.Dns.Models.{Bytes}
use sentinel_dns.Dns.Upstream.{Network, Upstream, validate_response, ask, query}

-- a whole header, and the transaction id of the request
pub record IsAnswer (request response : Bytes) : Type 0 where
  pub whole : 12 ≤ length response
  pub same_id : take 2 response ≡ take 2 request

validate_response-IsAnswer :
    (request response : Bytes)
    → validate_response request response ≡ ok tt
    → IsAnswer request response
unfolding validate_response
validate_response-IsAnswer request response e = record {
  whole = ground arith;
  same_id = ground (arith, text_eq_iff (take 2 request) (take 2 response));
}

module _ (n : Network) (u : Upstream n.Client) (packet : Bytes) (s : n.State) where
  -- the client's response, after the checks
  Checked : Bytes → Type 0
  Checked response =
      IsAnswer packet response × ((ask n u.client packet s).0 ≡ ok response) × (12 ≤ length packet)

  checked_lem :
      (response : Bytes)
      → (ask n u.client packet s).0 ≡ ok response
      → 12 ≤ length packet
      → Ensures Checked (and_then (validate_response packet response) λ _. ok response)
  unfolding Checked
  checked_lem response e long =
      Ensures-and_then (validate_response packet response)
        λ _ valid. Ensures-ok response (validate_response-IsAnswer packet response valid, e, long)

  query-Checked : Ensures Checked (query n u packet s).0
  unfolding query ◌>>=◌
  query-Checked = elim (Bool-cases (length packet == 0 || ltb (length packet) 12)) [
    | inl short ↦ rw short (unfold raise in Ensures-err value_error)
    | inr long ↦ rw long (elim (Result-cases (ask n u.client packet s).0) [
      | inl (e, raises) ↦ rw raises (Ensures-err e)
      | inr (response, answers) ↦
          rw answers (unfold lift in checked_lem response answers (ground arith))
    ])
  ]

  -- What `query` returns is what the client returned, and was checked: the packet and the response
  -- have at least twelve bytes, and the response has the transaction id of the packet.
  pub query-IsAnswer :
      (response : Bytes)
      → (query n u packet s).0 ≡ ok response
      → IsAnswer packet response
        × ((ask n u.client packet s).0 ≡ ok response)
        × (12 ≤ length packet)
  unfolding Checked
  query-IsAnswer response e = Ensures-value (query n u packet s).0 response query-Checked e
