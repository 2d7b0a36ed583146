-- ===== src/Dns/Server/Runs.antt =====
-- What the loop of dns_engine/server.py has sent, whatever the network and the other threads do.
use mathlib.Core.List.{append_assoc, append-nil}
use sentinel_dns.Common.{
  ◌≤◌, ◌≡◌, refl, sym, ap, ◌∙◌, subst, Bool, true, false, not, ◌&&◌, List, [], ◌∷◌, ◌++◌, arith,
  length, if◌then◌else◌,
}
use sentinel_dns.Common.Exec.{Result, ok, err}
use sentinel_dns.Dns.Models.{Bytes}
use sentinel_dns.Dns.Response.{Dnslib}
use sentinel_dns.Dns.Upstream.{Network}
use sentinel_dns.Dns.Resolver.{Resolver, resolve}
use sentinel_dns.Dns.Server.{Phase, Reception, received, replied, delivered, Step, Reach, Service}

module _ (d : Dnslib) (n : Network) (Address : Type 0) where
  -- the response to an address, unless there is none
  abbrev pub reply : Result Bytes → Address → List (Bytes × Address)
  reply (err e) address = []
  reply (ok []) address = []
  reply (ok (b ∷ bytes)) address = (b ∷ bytes, address) ∷ []

  -- the responses to these datagrams, and the resolver behind them
  unfoldable pub replies :
      List (Bytes × Address)
      → Resolver n.State n.Client
      → List (Bytes × Address) × Resolver n.State n.Client
  replies [] r = ([], r)
  replies ((packet, address) ∷ taken) r =
      let answer = resolve d n packet r in
      let rest = replies taken answer.1 in (reply answer.0 address ++ rest.0, rest.1)

  replies-append :
      (xs ys : List (Bytes × Address)) (r : Resolver n.State n.Client)
      → replies (xs ++ ys) r
        ≡ ((replies xs r).0 ++ (replies ys (replies xs r).1).0, (replies ys (replies xs r).1).1)
  unfolding replies
  replies-append [] ys r = refl
  replies-append ((packet, address) ∷ xs) ys r =
      ap (λ out. (reply (resolve d n packet r).0 address ++ out.0, out.1))
        (replies-append xs ys (resolve d n packet r).1)
      ∙ ap (λ sent. (sent, (replies ys (replies xs (resolve d n packet r).1).1).1))
          (sym (append_assoc (reply (resolve d n packet r).0 address) _ _))

  -- the responses that are still to be sent
  abbrev pub Owed : Phase Address → List (Bytes × Address) → Type 0
  Owed Phase.checking rest = rest ≡ []
  Owed Phase.reading rest = rest ≡ []
  Owed Phase.waiting rest = rest ≡ []
  Owed Phase.ended rest = rest ≡ []
  Owed Phase.crashed rest = length rest ≤ 1
  Owed (Phase.resolving packet address) rest = rest ≡ []
  Owed (Phase.sending response address) rest = rest ≡ (response, address) ∷ []

  pub record IsServed (r : Resolver n.State n.Client) (taken : List (Bytes × Address))
      (s : Service d n Address) : Type 0 where
    pub resolver : s.resolver ≡ (replies taken r).1
    pub rest : List (Bytes × Address)
    pub sent : s.sent ++ rest ≡ (replies taken r).0
    pub owed : Owed s.phase rest

  at_most_one :
      (rest known : List (Bytes × Address)) → length known ≤ 1 → rest ≡ known → length rest ≤ 1
  at_most_one rest known h e = omega (arith, h, ap length e)

  Owed-if :
      (b : Bool) (p q : Phase Address) (rest : List (Bytes × Address))
      → Owed p rest
      → Owed q rest
      → Owed (if b then p else q) rest
  Owed-if true p q rest h k = h
  Owed-if false p q rest h k = k

  Owed-received :
      (reception : Reception Address) (running : Bool) (rest : List (Bytes × Address))
      → rest ≡ []
      → Owed (received reception running) rest
  unfolding received
  Owed-received (Reception.datagram [] address) running rest h = h
  Owed-received (Reception.datagram (b ∷ bytes) address) running rest h = h
  Owed-received Reception.timeout running rest h = h
  Owed-received Reception.failure running rest h = Owed-if running _ _ rest h h

  Owed-replied :
      (result : Result Bytes) (address : Address)
      → Owed (replied result address) (reply result address)
  unfolding replied
  Owed-replied (err e) address = refl
  Owed-replied (ok []) address = refl
  Owed-replied (ok (b ∷ bytes)) address = refl

  -- a step that takes no datagram
  quiet :
      (r : Resolver n.State n.Client) (taken : List (Bytes × Address)) (s : Service d n Address)
      → IsServed r taken s
      → IsServed r (taken ++ []) s
  quiet r taken s h = subst (λ ts. IsServed r ts s) (sym (append-nil taken)) h

  -- the loop goes on to another phase in which nothing is owed
  moved :
      (r : Resolver n.State n.Client) (taken : List (Bytes × Address)) (s : Service d n Address)
      (phase : Phase Address)
      → (h : IsServed r taken s) → Owed phase h.rest
      → IsServed r (taken ++ []) (record s { phase = phase })
  moved r taken s phase h k =
      quiet r taken (record s { phase = phase })
        (record { resolver = h.resolver; rest = h.rest; sent = h.sent; owed = k })

  Owed-at :
      (r : Resolver n.State n.Client) (taken : List (Bytes × Address)) (s : Service d n Address)
      (phase : Phase Address)
      → (h : IsServed r taken s) → s.phase ≡ phase
      → Owed phase h.rest
  Owed-at r taken s phase h at = subst (λ p. Owed p h.rest) at h.owed

  answer-IsServed :
      (r : Resolver n.State n.Client) (taken : List (Bytes × Address)) (s : Service d n Address)
      (packet : Bytes) (address : Address)
      → IsServed r taken s
      → s.phase ≡ Phase.resolving packet address
      → IsServed r (taken ++ (packet, address) ∷ []) (record s {
        resolver = (resolve d n packet s.resolver).1;
        phase = replied (resolve d n packet s.resolver).0 address;
      })
  unfolding replies
  answer-IsServed r taken s packet address h at = record {
    resolver =
        ap (λ x. (resolve d n packet x).1) h.resolver
        ∙ ap (λ out. out.1) (sym (replies-append taken ((packet, address) ∷ []) r));
    rest = reply (resolve d n packet s.resolver).0 address;
    sent =
        ap (λ xs. xs ++ reply (resolve d n packet s.resolver).0 address)
          (sym (append-nil s.sent)
            ∙ ap (λ rest. s.sent ++ rest) (sym (Owed-at r taken s _ h at))
            ∙ h.sent)
        ∙ ap (λ x. (replies taken r).0 ++ reply (resolve d n packet x).0 address) h.resolver
        ∙ ap (λ xs. (replies taken r).0 ++ xs) (sym (append-nil _))
        ∙ ap (λ out. out.0) (sym (replies-append taken ((packet, address) ∷ []) r));
    owed = Owed-replied (resolve d n packet s.resolver).0 address;
  }

  send-IsServed :
      (r : Resolver n.State n.Client) (taken : List (Bytes × Address)) (s : Service d n Address)
      (response : Bytes) (address : Address) (failed : Bool)
      → IsServed r taken s
      → s.phase ≡ Phase.sending response address
      → IsServed r taken (record s {
        sent = s.sent ++ (response, address) ∷ [];
        phase = delivered failed s.running;
      })
  unfolding delivered
  send-IsServed r taken s response address failed h at = record {
    resolver = h.resolver;
    rest = [];
    sent =
        append-nil (s.sent ++ (response, address) ∷ [])
        ∙ ap (λ rest. s.sent ++ rest) (sym (Owed-at r taken s _ h at))
        ∙ h.sent;
    owed = Owed-if (failed && not s.running) Phase.ended Phase.checking [] refl refl;
  }

  step-IsServed :
      (r : Resolver n.State n.Client) (taken label : List (Bytes × Address))
      (s s' : Service d n Address)
      → Step d n Address s label s'
      → IsServed r taken s
      → IsServed r (taken ++ label) s'
  step-IsServed r taken _ s _ (Step.check at) h = moved r taken s _ h (
      Owed-if s.running Phase.reading Phase.ended h.rest (Owed-at r taken s Phase.checking h at)
        (Owed-at r taken s Phase.checking h at))
  step-IsServed r taken _ s _ (Step.read at) h = moved r taken s _ h (
      Owed-if s.is_open Phase.waiting Phase.crashed h.rest (Owed-at r taken s Phase.reading h at)
        (at_most_one h.rest [] (omega arith) (Owed-at r taken s Phase.reading h at)))
  step-IsServed r taken _ s _ (Step.receive reception at) h =
      moved r taken s _ h
        (Owed-received reception s.running h.rest (Owed-at r taken s Phase.waiting h at))
  step-IsServed r taken _ s _ (Step.answer packet address at) h =
      answer-IsServed r taken s packet address h at
  step-IsServed r taken _ s _ (Step.send response address failed at there) h =
      quiet r taken _ (send-IsServed r taken s response address failed h at)
  step-IsServed r taken _ s _ (Step.send_closed response address at closed) h =
      moved r taken s Phase.crashed h (
        at_most_one h.rest ((response, address) ∷ []) (omega arith)
          (Owed-at r taken s (Phase.sending response address) h at))
  step-IsServed r taken _ s _ Step.stop h =
      quiet r taken (record s { running = false })
        (record { resolver = h.resolver; rest = h.rest; sent = h.sent; owed = h.owed })
  step-IsServed r taken _ s _ (Step.close idle) h =
      quiet r taken (record s { is_open = false })
        (record { resolver = h.resolver; rest = h.rest; sent = h.sent; owed = h.owed })

  -- Whatever the network does and whenever another thread calls `stop`: what the server has passed to
  -- `sendto` since it was started is, in the order in which the datagrams were taken and each to the
  -- address of its datagram, the resolver's responses to them, all but the one that is about to be
  -- sent, or that was when `stop` had already taken the socket away; and its resolver is the one that
  -- has seen exactly these datagrams.
  pub Reach-IsServed :
      (start s : Service d n Address) (taken : List (Bytes × Address))
      → start.phase ≡ Phase.checking
      → start.sent ≡ []
      → Reach d n Address start taken s
      → IsServed start.resolver taken s
  unfolding replies
  Reach-IsServed start _ _ at none_sent Reach.here = record {
    resolver = refl;
    rest = [];
    sent = append-nil start.sent ∙ none_sent;
    owed = subst (λ p. Owed p []) (sym at) refl;
  }
  Reach-IsServed start _ _ at none_sent (Reach.there taken label s s' reach step) =
      step-IsServed start.resolver taken label s s' step
        (Reach-IsServed start s taken at none_sent reach)
