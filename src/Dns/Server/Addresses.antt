-- ===== src/Dns/Server/Addresses.antt =====
-- Whom the loop of dns_engine/server.py answers.
use sentinel_dns.Common.{◌≡◌, refl, ap, ◌∙◌, List, [], ◌∷◌, ◌++◌, map, arith}
use sentinel_dns.Common.Exec.{Result, ok, err}
use sentinel_dns.Dns.Models.{Bytes}
use sentinel_dns.Dns.Response.{Dnslib}
use sentinel_dns.Dns.Response.Answers.{IsLawful, IsPacket}
use sentinel_dns.Dns.Upstream.{Network}
use sentinel_dns.Dns.Resolver.{Resolver, resolve}
use sentinel_dns.Dns.Resolver.Whole.{AreWhole}
use sentinel_dns.Dns.Resolver.Serve.{resolve-Whole, Answered}
use sentinel_dns.Dns.Server.{Phase, Reach, Service}
use sentinel_dns.Dns.Server.Runs.{reply, replies, Owed, Reach-IsServed}

module _ (d : Dnslib) (n : Network) (Address : Type 0) where
  abbrev pub ArePackets : List (Bytes × Address) → Type 0
  ArePackets [] = Unit
  ArePackets ((packet, address) ∷ taken) = IsPacket packet × ArePackets taken

  addresses-reply :
      (result : Result Bytes) (address : Address) (rest : List (Bytes × Address))
      → Answered d n result
      → map (λ x. x.1) (reply d n Address result address ++ rest) ≡ address ∷ map (λ x. x.1) rest
  addresses-reply (err e) address rest h = absurd h
  addresses-reply (ok []) address rest h = absurd (omega (arith, h))
  addresses-reply (ok (b ∷ bytes)) address rest h = refl

  addresses-replies :
      (taken : List (Bytes × Address)) (r : Resolver n.State n.Client)
      → IsLawful d
      → ArePackets taken
      → AreWhole r.cache.cache
      → map (λ x. x.1) (replies d n Address taken r).0 ≡ map (λ x. x.1) taken
  unfolding replies
  addresses-replies [] r lawful bytes h = refl
  addresses-replies ((packet, address) ∷ taken) r lawful bytes h =
      let (answered, whole) = resolve-Whole d n packet r lawful bytes.0 h in
      addresses-reply (resolve d n packet r).0 address _ answered
      ∙ ap (◌∷◌ address) (addresses-replies taken (resolve d n packet r).1 lawful bytes.1 whole)

  -- Where dnslib does what the code relies on and the cached responses are whole, the addresses that
  -- the server has sent to are those of the datagrams that it has taken, in their order, one response
  -- for each datagram, whatever the network does and whenever `stop` is called; only the last response
  -- may not have been sent yet, when it is about to be, or when `stop` took the socket away before.
  pub addresses-Reach :
      (start s : Service d n Address) (taken : List (Bytes × Address))
      → start.phase ≡ Phase.checking
      → start.sent ≡ []
      → IsLawful d
      → ArePackets taken
      → AreWhole start.resolver.cache.cache
      → Reach d n Address start taken s
      → (rest : List (Bytes × Address)) × Owed d n Address s.phase rest
        × (map (λ x. x.1) (s.sent ++ rest) ≡ map (λ x. x.1) taken)
  addresses-Reach start s taken at none_sent lawful bytes whole reach =
      let h = Reach-IsServed d n Address start s taken at none_sent reach in
      (
        h.rest,
        h.owed,
        ap (map (λ x. x.1)) h.sent ∙ addresses-replies taken start.resolver lawful bytes whole,
      )
