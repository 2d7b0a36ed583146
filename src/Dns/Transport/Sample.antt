-- ===== src/Dns/Transport/Sample.antt =====
-- A TLS stream for the tests, whose state is the pieces in which the bytes arrive, and other
-- connections that answer with a given response.
use mathlib.Core.List.{append_assoc}
use sentinel_dns.Common.{
  ℕ, zero, suc, ◌≤◌, ◌≡◌, refl, sym, ap, ◌∙◌, List, [], ◌∷◌, ◌++◌, Text, codes, arith, length,
  length-take, take, drop,
}
use sentinel_dns.Common.Exec.{Result, ok}
use sentinel_dns.Dns.Models.{Bytes}
use sentinel_dns.Dns.Transport.Client.{Stream, Datagrams, Http}
use sentinel_dns.Dns.Transport.Exact.{IsStream}

abbrev pub Pieces : Type 0
Pieces = List Bytes

abbrev pub unread : Pieces → Bytes
unread [] = []
unread (piece ∷ pieces) = piece ++ unread pieces

abbrev pub put_back : Bytes → Pieces → Pieces
put_back [] pieces = pieces
put_back (b ∷ bytes) pieces = (b ∷ bytes) ∷ pieces

unread-put_back :
    (bytes : Bytes) (pieces : Pieces) → unread (put_back bytes pieces) ≡ bytes ++ unread pieces
unread-put_back [] pieces = refl
unread-put_back (b ∷ bytes) pieces = refl

take-drop : (k : ℕ) (bytes : Bytes) → take k bytes ++ drop k bytes ≡ bytes
take-drop zero bytes = refl
take-drop (suc k) [] = refl
take-drop (suc k) (b ∷ bytes) = ap (◌∷◌ b) (take-drop k bytes)

unfoldable pub receive : ℕ → Pieces → Result Bytes × Pieces
receive k [] = (ok [], [])
receive k (piece ∷ pieces) = (ok (take k piece), put_back (drop k piece) pieces)

abbrev pub tls : Stream Pieces
tls = record { connect = λ client sent pieces. (ok tt, pieces); recv = receive }

pub receive-limited :
    (k : ℕ) (pieces : Pieces) (chunk : Bytes) → (receive k pieces).0 ≡ ok chunk → length chunk ≤ k
unfolding receive
receive-limited k [] chunk e = ground arith
receive-limited k (piece ∷ pieces) chunk e = ground (arith, length-take k piece)

pub receive-delivers :
    (k : ℕ) (pieces : Pieces) (chunk : Bytes)
    → (receive k pieces).0 ≡ ok chunk
    → unread pieces ≡ chunk ++ unread (receive k pieces).1
unfolding receive
receive-delivers k [] chunk e = ground arith
receive-delivers k (piece ∷ pieces) chunk e =
    ap (λ x. x ++ unread pieces) (sym (take-drop k piece))
    ∙ append_assoc (take k piece) (drop k piece) (unread pieces)
    ∙ ap (λ x. take k piece ++ x) (sym (unread-put_back (drop k piece) pieces))
    ∙ ap (λ x. x ++ unread (put_back (drop k piece) pieces)) (ground arith)

abbrev pub stream : IsStream tls
stream = record { unread = unread; limited = receive-limited; delivers = receive-delivers }

abbrev pub udp : Bytes → Datagrams Pieces
udp response = record { exchange = λ client packet pieces. (ok response, pieces) }

abbrev pub http : Bytes → Http Pieces
http response = record {
  post = λ provider packet pieces. (
    ok (record {
      status_code = 200;
      content_type = codes "Application/DNS-message";
      content = response;
    }),
    pieces,
  );
  close = λ provider pieces. (ok tt, pieces);
}

-- the scheme and the netloc of `https://dns`, of any text that is not empty
abbrev pub urlparse : Text → Result (Text × Text)
urlparse [] = ok ([], [])
urlparse (c ∷ text) = ok (codes "https", codes "dns")
