-- ===== src/Dns/Upstream/Tests.antt =====
-- Runs of dns_engine/upstream.py with a client that echoes, and its theorem at a concrete packet.
use sentinel_dns.Common.{ℕ, ◌+◌, ◌≡◌, refl, none, some, [], ◌∷◌, codes, text_eq}
use sentinel_dns.Common.Exec.{ok, err, value_error, runtime_error, ◌>>=◌}
use sentinel_dns.Dns.Models.{Bytes}
use sentinel_dns.Dns.Upstream
use sentinel_dns.Dns.Upstream.{Network, Upstream, Description, query, description, close}

evaluated : Unit {0}
unfolding query description Upstream.ask Upstream.validate_response text_eq ◌>>=◌
evaluated = tt

-- the state counts the queries; the client answers with the packet, or with what it has been given
abbrev echo : Network
echo = record {
  State = ℕ;
  Client = Bytes;
  query = λ client packet n. (ok (answer client packet), n + 1);
  close = λ client n. (err runtime_error, n);
}
  where
    answer : Bytes → Bytes → Bytes
    answer [] packet = packet
    answer (b ∷ bytes) packet = b ∷ bytes

abbrev packet : Bytes
packet = 18 ∷ 52 ∷ 1 ∷ 0 ∷ 0 ∷ 1 ∷ 0 ∷ 0 ∷ 0 ∷ 0 ∷ 0 ∷ 0 ∷ []

abbrev upstream : Bytes → Upstream Bytes
upstream client = record {
  transport = codes "dot";
  server = some (codes "9.9.9.9");
  port = none;
  provider = none;
  client = some client;
}

echoed : query echo (upstream []) packet 3 ≡ (ok packet, 4)
unfolding evaluated
echoed = refl

other_id : query echo (upstream (1 ∷ packet)) packet 3 ≡ (err value_error, 4)
unfolding evaluated
other_id = refl

described : description (upstream []) ≡ Description.dot (some (codes "9.9.9.9")) 853
unfolding evaluated
described = refl

closed : close echo (upstream []) 3 ≡ (ok tt, 3)
unfolding close Upstream.close_client
closed = refl
