-- ===== src/Dns/Transport/Exact.antt =====
-- `_recv_exact` of dns_engine/dot/client.py ends, and reads as many bytes as it is asked for.
use mathlib.Core.List.{append_assoc}
use sentinel_dns.Common.{
  ℕ, zero, suc, ◌+◌, ◌-◌, ◌≤◌, ◌≡◌, refl, sym, ap, ◌∙◌, Option, some, [], ◌∷◌, ◌++◌, arith, ltb,
  ltb→lt, length, length-append, Bool-cases, inl, inr,
}
use sentinel_dns.Common.Exec.{Error, Result, ok, err, os_error, Result-cases}
use sentinel_dns.Common.Ensures.{Ensures, Ensures-ok, Ensures-err}
use sentinel_dns.Dns.Models.{Bytes}
use sentinel_dns.Dns.Transport.Client.{Stream, recv_loop}

-- What `SSLSocket.recv` documents: no more bytes than were asked for, and the next ones of the
-- stream, of which `unread` are those that are still to come.
pub record IsStream {State : Type 0} (tls : Stream State) : Type 0 where
  pub unread : State → Bytes
  pub limited : (k : ℕ) (s : State) (chunk : Bytes) → (tls.recv k s).0 ≡ ok chunk → length chunk ≤ k
  pub delivers :
      (k : ℕ) (s : State) (chunk : Bytes)
      → (tls.recv k s).0 ≡ ok chunk
      → unread s ≡ chunk ++ unread (tls.recv k s).1

module _ {State : Type 0} (tls : Stream State) (stream : IsStream tls) where
  -- the bytes that are read are the first of those that were to come
  pub record IsExact (size : ℕ) (before : Bytes) (s : State) (bytes : Bytes) : Type 0 where
    pub exact : length bytes ≡ size
    pub first : before ≡ bytes ++ stream.unread s

  -- the loop has ended, by an exception or with as many bytes
  pub record Ended (size : ℕ) (before : Bytes) (o : Option (Result Bytes) × State) : Type 0 where
    pub result : Result Bytes
    pub ended : o.0 ≡ some result
    pub exact : Ensures (IsExact size before o.1) result

  Ended-err :
      (size : ℕ) (before : Bytes) (e : Error) (s : State) → Ended size before (some (err e), s)
  Ended-err size before e s = record { result = err e; ended = refl; exact = Ensures-err e }

  Ended-ok :
      (size : ℕ) (before bytes : Bytes) (s : State)
      → length bytes ≡ size
      → before ≡ bytes ++ stream.unread s
      → Ended size before (some (ok bytes), s)
  Ended-ok size before bytes s e first = record {
    result = ok bytes;
    ended = refl;
    exact = Ensures-ok bytes (record { exact = e; first = first });
  }

  loop-Ended :
      (fuel size : ℕ) (bytes before : Bytes) (s : State)
      → length bytes ≤ size
      → size ≤ length bytes + fuel
      → before ≡ bytes ++ stream.unread s
      → Ended size before (recv_loop tls fuel size bytes s)
  unfolding recv_loop
  loop-Ended zero size bytes before s short enough first =
      elim (Bool-cases (ltb (length bytes) size)) [
        | inl more ↦ ground arith
        | inr done ↦ rw done (Ended-ok size before bytes s (ground arith) first)
      ]
  loop-Ended (suc fuel) size bytes before s short enough first =
      elim (Bool-cases (ltb (length bytes) size)) [
        | inl more ↦
            rw (more, recv_loop)
              (elim (Result-cases (tls.recv (size - length bytes) s).0) [
                | inl (e, raises) ↦
                    rw raises (Ended-err size before e (tls.recv (size - length bytes) s).1)
                | inr ([], closed) ↦
                    rw closed (Ended-err size before os_error (tls.recv (size - length bytes) s).1)
                | inr (b ∷ chunk, read) ↦ rw read (
                    loop-Ended fuel size (bytes ++ b ∷ chunk) before
                      (tls.recv (size - length bytes) s).1
                      (omega (
                        arith,
                        length-append bytes (b ∷ chunk),
                        stream.limited (size - length bytes) s (b ∷ chunk) read,
                        ltb→lt (length bytes) size more,
                      ))
                      (omega (arith, length-append bytes (b ∷ chunk)))
                      (first
                        ∙ ap (λ x. bytes ++ x)
                            (stream.delivers (size - length bytes) s (b ∷ chunk) read)
                        ∙ sym (
                            append_assoc bytes (b ∷ chunk)
                              (stream.unread (tls.recv (size - length bytes) s).1))))
              ])
        | inr done ↦ rw (done, recv_loop) (Ended-ok size before bytes s (ground arith) first)
      ]

  -- However the stream is cut into pieces: the loop of `_recv_exact` ends within as many turns as
  -- bytes are asked for, by an exception or with exactly so many bytes, which are the first of those
  -- that were still to come when it began.
  pub recv_loop-Ended :
      (size : ℕ) (s : State) → Ended size (stream.unread s) (recv_loop tls size size [] s)
  recv_loop-Ended size s =
      loop-Ended size size [] (stream.unread s) s (omega arith) (omega arith) refl
