-- ===== src/Dns/Response/Tests.antt =====
-- Runs of dns_engine/response.py with a small dnslib, and its theorem at a concrete packet.
use sentinel_dns.Common.{◌≡◌, refl, [], ◌∷◌}
use sentinel_dns.Common.Exec.{ok}
use sentinel_dns.Dns.Models.{Bytes}
use sentinel_dns.Dns.Response
use sentinel_dns.Dns.Response.{build_response}
use sentinel_dns.Dns.Response.Sample.{sample}

evaluated : Unit {0}
unfolding build_response Response.minimal_error_response Response.transaction_id
    Response.full_response Response.or_minimal Response.set_qr Response.set_rcode
evaluated = tt

abbrev packet : Bytes
packet = 18 ∷ 52 ∷ 1 ∷ 0 ∷ 0 ∷ 1 ∷ 0 ∷ 0 ∷ 0 ∷ 0 ∷ 0 ∷ 0 ∷ []

full : build_response sample packet 3 ≡ ok (18 ∷ 52 ∷ 128 ∷ 3 ∷ 0 ∷ 0 ∷ 0 ∷ 0 ∷ 0 ∷ 0 ∷ 0 ∷ 0 ∷ [])
unfolding evaluated
full = refl

too_short :
    build_response sample (7 ∷ []) 1 ≡ ok (0 ∷ 0 ∷ 128 ∷ 1 ∷ 0 ∷ 0 ∷ 0 ∷ 0 ∷ 0 ∷ 0 ∷ 0 ∷ 0 ∷ [])
unfolding evaluated
too_short = refl
