-- ===== src/Dns/Transport/Accepted.antt =====
-- What the clients of dns_engine/udp/client.py, dns_engine/dot/client.py and dns_engine/doh/client.py
-- return has been checked.
use sentinel_dns.Common.{ℕ, ◌≤◌, ◌≡◌, ◌++◌, codes, not, arith, ltb, ◌==◌, length, take, text_eq_iff}
use sentinel_dns.Common.Exec.{
  Result, ok, err, value_error, os_error, struct_error, Exec, raise, lift,
}
use sentinel_dns.Common.Ensures.{Ensures, Ensures-ok, Ensures-err, Ensures-if, Ensures-and_then}
use sentinel_dns.Text.{lower}
use sentinel_dns.Common.Triple.{Triple, Ends, Triple-bind, Triple-if, Triple-ok}
use sentinel_dns.Dns.Models.{Bytes}
use sentinel_dns.Dns.Parser.{word_at}
use sentinel_dns.Dns.Response.{pack_word}
use sentinel_dns.Dns.Transport.Client.{
  Endpoint, Provider, is_within, Reply, Datagrams, Stream, Http, validate_response, validated,
  check_reply, recv_exact, udp_query, dot_response, dot_query, doh_query,
}
use sentinel_dns.Dns.Transport.Build.{Client, query_client}

-- what the checks of a client leave
pub record IsAccepted (max_response_size : ℕ) (request response : Bytes) : Type 0 where
  pub least : 12 ≤ length response
  pub most : length response ≤ max_response_size
  pub same_id : take 2 request ≡ take 2 response

pub validated-IsAccepted :
    (max_response_size : ℕ) (request response answer : Bytes)
    → validated max_response_size request response ≡ ok answer
    → (response ≡ answer) × IsAccepted max_response_size request response
unfolding validated validate_response
validated-IsAccepted max_response_size request response answer e =
    ground (arith, text_eq_iff (take 2 request) (take 2 response))

Ensures-validated :
    (max_response_size : ℕ) (request response : Bytes)
    → Ensures (IsAccepted max_response_size request) (validated max_response_size request response)
unfolding validated validate_response
Ensures-validated max_response_size request response =
    Ensures-and_then (validate_response max_response_size request response) λ _ valid.
      Ensures-ok response (record {
        least = ground arith;
        most = ground arith;
        same_id = ground (arith, text_eq_iff (take 2 request) (take 2 response));
      })

Ensures-check_reply :
    (provider : Provider) (packet : Bytes) (reply : Reply)
    → Ensures (IsAccepted provider.max_response_size packet) (check_reply provider packet reply)
unfolding check_reply
Ensures-check_reply provider packet reply =
    Ensures-if (not (reply.status_code == 200)) (λ _. Ensures-err os_error)
      λ _.
        Ensures-if (not (is_within (codes "application/dns-message") (lower reply.content_type)))
          (λ _. Ensures-err os_error)
          λ _. Ensures-validated provider.max_response_size packet reply.content

-- the size that a client accepts
abbrev pub limit : Client → ℕ
limit (Client.udp client) = client.max_response_size
limit (Client.dot client) = client.max_response_size
limit (Client.doh provider) = provider.max_response_size

module _ {State : Type 0} where
  abbrev Anything : State → Type 0
  Anything s = Unit {0}

  Triple-Anything : {A : Type 0} (m : Exec State A) → Triple Anything m (λ _. Anything) Anything
  Triple-Anything m = record { at = λ s _. go (m s).0 (m s).1 }
    where
      go : {A : Type 0} (r : Result A) (s : State) → Ends (λ _. Anything) Anything r s
      go (ok a) s = tt
      go (err e) s = tt

  -- an action that returns nothing but accepted responses
  abbrev Accepts : ℕ → Bytes → Exec State Bytes → Type 0
  Accepts max_response_size packet m =
      Triple Anything m (λ response _. IsAccepted max_response_size packet response) Anything

  Accepts-raise :
      {max_response_size : ℕ} {packet : Bytes} (e : _) → Accepts max_response_size packet (raise e)
  unfolding raise
  Accepts-raise e = record { at = λ s h. tt }

  Accepts-lift :
      {max_response_size : ℕ} {packet : Bytes} (r : Result Bytes)
      → Ensures (IsAccepted max_response_size packet) r
      → Accepts max_response_size packet (lift r)
  unfolding lift
  Accepts-lift {max_response_size} {packet} r h = record { at = λ s _. go s r h }
    where
      go :
          (s : State) (r : Result Bytes)
          → Ensures (IsAccepted max_response_size packet) r
          → Ends (λ answer _. IsAccepted max_response_size packet answer) Anything r s
      go s (err e) h = tt
      go s (ok answer) h = h.holds

module _ {State : Type 0} (net : Datagrams State) (tls : Stream State) (http : Http State) where
  udp_query-Accepts :
      (client : Endpoint) (packet : Bytes)
      → Accepts client.max_response_size packet (udp_query net client packet)
  unfolding udp_query
  udp_query-Accepts client packet =
      Triple-if (ltb (length packet) 12) (λ _. Accepts-raise value_error)
        λ _. Triple-bind (Triple-Anything (net.exchange client packet)) λ response.
          Accepts-lift (validated client.max_response_size packet response)
            (Ensures-validated client.max_response_size packet response)

  dot_response-Accepts :
      (client : Endpoint) (packet header : Bytes)
      → Accepts client.max_response_size packet (dot_response tls client packet header)
  unfolding dot_response
  dot_response-Accepts client packet header =
      Triple-if (ltb (word_at 0 header) 12) (λ _. Accepts-raise value_error)
        λ _.
          Triple-if (ltb client.max_response_size (word_at 0 header))
            (λ _. Accepts-raise value_error)
            λ _. Triple-bind (Triple-Anything (recv_exact tls (word_at 0 header))) λ response.
              Accepts-lift (validated client.max_response_size packet response)
                (Ensures-validated client.max_response_size packet response)

  dot_query-Accepts :
      (client : Endpoint) (packet : Bytes)
      → Accepts client.max_response_size packet (dot_query tls client packet)
  unfolding dot_query
  dot_query-Accepts client packet =
      Triple-if (ltb (length packet) 12) (λ _. Accepts-raise value_error)
        λ _.
          Triple-if (ltb 65535 (length packet)) (λ _. Accepts-raise struct_error)
            λ _.
              Triple-bind
                (Triple-Anything (tls.connect client (pack_word (length packet) ++ packet)))
                λ _.
                  Triple-bind (Triple-Anything (recv_exact tls 2))
                    (dot_response-Accepts client packet)

  doh_query-Accepts :
      (provider : Provider) (packet : Bytes)
      → Accepts provider.max_response_size packet (doh_query http provider packet)
  unfolding doh_query
  doh_query-Accepts provider packet =
      Triple-if (ltb (length packet) 12) (λ _. Accepts-raise value_error)
        λ _. Triple-bind (Triple-Anything (http.post provider packet)) λ reply.
          Accepts-lift (check_reply provider packet reply)
            (Ensures-check_reply provider packet reply)

  query_client-Accepts :
      (client : Client) (packet : Bytes)
      → Accepts (limit client) packet (query_client net tls http client packet)
  unfolding query_client
  query_client-Accepts (Client.udp client) packet = udp_query-Accepts client packet
  query_client-Accepts (Client.dot client) packet = dot_query-Accepts client packet
  query_client-Accepts (Client.doh provider) packet = doh_query-Accepts provider packet

  -- Whichever of the three transports a client has, and whatever the network does: a response that its
  -- `query` returns has twelve bytes at least, no more than the client accepts, and the transaction id
  -- of the packet.
  pub query_client-IsAccepted :
      (client : Client) (packet response : Bytes) (s s' : State)
      → query_client net tls http client packet s ≡ (ok response, s')
      → IsAccepted (limit client) packet response
  query_client-IsAccepted client packet response s s' e =
      Triple-ok (query_client-Accepts client packet) s s' response tt e
