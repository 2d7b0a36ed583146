-- ===== src/Dns/Transport/Framed.antt =====
-- What `DoTClient.query` of dns_engine/dot/client.py returns is the first frame of the stream.
use mathlib.Core.List.{append_assoc}
use sentinel_dns.Common.{
  ℕ, ◌≤◌, ◌≡◌, refl, sym, ap, ◌∙◌, subst, Option, [], ◌++◌, arith, ltb, length,
}
use sentinel_dns.Common.Exec.{Error, Result, ok, err, value_error, struct_error, lift, raise, ◌>>=◌}
use sentinel_dns.Common.Ensures.{Ensures}
use sentinel_dns.Common.Triple.{Triple, Ends, Triple-bind, Triple-if, Triple-ok, Triple_weaken}
use sentinel_dns.Dns.Models.{Bytes}
use sentinel_dns.Dns.Parser.{word_at}
use sentinel_dns.Dns.Response.{pack_word}
use sentinel_dns.Dns.Transport.Client.{
  Endpoint, Stream, validated, recv_loop, or_stuck, recv_exact, dot_response, dot_query,
}
use sentinel_dns.Dns.Transport.Accepted.{IsAccepted, validated-IsAccepted}
use sentinel_dns.Dns.Transport.Exact.{IsStream, IsExact, Ended, recv_loop-Ended}

module _ {State : Type 0} (tls : Stream State) (stream : IsStream tls) where
  -- any exception, in any state
  abbrev Raised : State → Type 0
  Raised s = Unit {0}

  ensured :
      {A : Type 0} {P : A → Type 0} (r : Result A) (s : State)
      → Ensures P r
      → Ends (λ a _. P a) Raised r s
  ensured (ok a) s h = h.holds
  ensured (err e) s h = tt

  IsExact-value :
      (size : ℕ) (before : Bytes) (o : Option (Result Bytes) × State)
      → Ended tls stream size before o
      → Ends (λ bytes s. IsExact tls stream size before s bytes) Raised (or_stuck o.0) o.1
  IsExact-value size before o h =
      subst (λ x. Ends (λ bytes s. IsExact tls stream size before s bytes) Raised (or_stuck x) o.1)
        (sym h.ended) (go h.result h.exact)
    where
      go :
          (r : Result Bytes)
          → Ensures (IsExact tls stream size before o.1) r
          → Ends (λ bytes s. IsExact tls stream size before s bytes) Raised r o.1
      go (ok a) h = h.holds
      go (err e) h = tt

  recv_exact-IsExact :
      (size : ℕ) (before : Bytes)
      → Triple
          (λ s. stream.unread s ≡ before)
          (recv_exact tls size)
          (λ bytes s. IsExact tls stream size before s bytes)
          Raised
  unfolding recv_exact
  recv_exact-IsExact size before = record {
    at = λ s e. IsExact-value size before (recv_loop tls size size [] s) (
        subst (λ x. Ended tls stream size x (recv_loop tls size size [] s)) e
          (recv_loop-Ended tls stream size s));
  }

  -- a header of two bytes that says how long the response is, then the response, with its checks
  pub record IsFramed (client : Endpoint) (packet before : Bytes) (s : State) (response : Bytes)
      : Type 0 where
    pub header : Bytes
    pub two : length header ≡ 2
    pub size : length response ≡ word_at 0 header
    pub frame : before ≡ header ++ response ++ stream.unread s
    pub accepted : IsAccepted client.max_response_size packet response

  -- the last step, which checks the response
  check_frame :
      (client : Endpoint) (packet header before rest response : Bytes)
      → length header ≡ 2
      → before ≡ header ++ rest
      → Triple
          (λ s. IsExact tls stream (word_at 0 header) rest s response)
          (lift (validated client.max_response_size packet response))
          (λ answer s. IsFramed client packet before s answer)
          Raised
  unfolding lift
  check_frame client packet header before rest response two e = record {
    at = λ s h. go s h (validated client.max_response_size packet response) refl;
  }
    where
      go :
          (s : State)
          → IsExact tls stream (word_at 0 header) rest s response
          → (r : Result Bytes) → validated client.max_response_size packet response ≡ r
          → Ends (λ answer s. IsFramed client packet before s answer) Raised r s
      go s h (err e) _ = tt
      go s h (ok answer) k =
          let (same, accepted) =
            validated-IsAccepted client.max_response_size packet response answer k in
          subst (IsFramed client packet before s) same (record {
            header = header;
            two = two;
            size = h.exact;
            frame =
                e
                ∙ ap (λ x. header ++ x) h.first
                ∙ sym (append_assoc header response (stream.unread s));
            accepted = accepted;
          })

  raises :
      {A : Type 0} {P : State → Type 0} {Q : A → State → Type 0} (e : Error)
      → Triple P (raise e) Q Raised
  unfolding raise
  raises e = record { at = λ s h. tt }

  response-IsFramed :
      (client : Endpoint) (packet before header : Bytes)
      → Triple
          (λ s. IsExact tls stream 2 before s header)
          (dot_response tls client packet header)
          (λ answer s. IsFramed client packet before s answer)
          Raised
  unfolding dot_response
  response-IsFramed client packet before header = record {
    at = λ s h.
        (Triple-if (ltb (word_at 0 header) 12) (λ _. raises value_error)
            λ _.
              Triple-if (ltb client.max_response_size (word_at 0 header)) (λ _. raises value_error)
                λ _.
                  Triple-bind (recv_exact-IsExact (word_at 0 header) (stream.unread s)) λ response.
                    check_frame client packet header before (stream.unread s) response h.exact
                      h.first).at
          s refl;
  }

  dot-IsFramed :
      (client : Endpoint) (packet before : Bytes)
      → Triple
          (λ s. stream.unread s ≡ before)
          (recv_exact tls 2 >>= dot_response tls client packet)
          (λ answer s. IsFramed client packet before s answer)
          Raised
  dot-IsFramed client packet before =
      Triple-bind (recv_exact-IsExact 2 before) (response-IsFramed client packet before)

  -- what `dot_query` returns
  IsReturned : (client : Endpoint) (packet : Bytes) → State → Bytes → State → Type 0
  IsReturned client packet s response s' =
      (12 ≤ length packet)
      × (length packet ≤ 65535)
      × IsFramed client packet
          (stream.unread (tls.connect client (pack_word (length packet) ++ packet) s).1) s' response

  connect-Triple :
      (client : Endpoint) (sent : Bytes) (s : State)
      → Triple
          (λ t. t ≡ s)
          (tls.connect client sent)
          (λ _ t. stream.unread t ≡ stream.unread (tls.connect client sent s).1)
          Raised
  connect-Triple client sent s = record {
    at = λ t e.
        go (tls.connect client sent t).0 (tls.connect client sent t).1
          (ap (λ x. stream.unread (tls.connect client sent x).1) e);
  }
    where
      go :
          (r : Result (Unit {0})) (t : State)
          → stream.unread t ≡ stream.unread (tls.connect client sent s).1
          → Ends (λ _ t. stream.unread t ≡ stream.unread (tls.connect client sent s).1) Raised r t
      go (ok a) t e = e
      go (err x) t e = tt

  query-IsReturned :
      (client : Endpoint) (packet : Bytes) (s : State)
      → Triple (λ t. t ≡ s) (dot_query tls client packet) (IsReturned client packet s) Raised
  unfolding dot_query IsReturned
  query-IsReturned client packet s =
      Triple-if (ltb (length packet) 12) (λ _. raises value_error)
        λ whole.
          Triple-if (ltb 65535 (length packet)) (λ _. raises struct_error)
            λ fits. Triple-bind (connect-Triple client (pack_word (length packet) ++ packet) s) λ _.
              Triple_weaken (λ _ h. h) (λ _ _ h. (ground arith, ground arith, h))
                (dot-IsFramed client packet
                  (stream.unread (tls.connect client (pack_word (length packet) ++ packet) s).1))

  -- However the TLS stream is cut into pieces: when `DoTClient.query` returns, the packet has from
  -- 12 to 65535 bytes, and what has been read of the stream since the connection was made is one
  -- frame: two bytes that say how long the response is, and the response, which has twelve bytes at
  -- least, no more than the client accepts, and the transaction id of the packet.
  pub dot_query-IsFramed :
      (client : Endpoint) (packet response : Bytes) (s s' : State)
      → dot_query tls client packet s ≡ (ok response, s')
      → (12 ≤ length packet)
        × (length packet ≤ 65535)
        × IsFramed client packet
            (stream.unread (tls.connect client (pack_word (length packet) ++ packet) s).1)
            s'
            response
  unfolding IsReturned
  dot_query-IsFramed client packet response s s' e =
      Triple-ok (query-IsReturned client packet s) s s' response refl e
