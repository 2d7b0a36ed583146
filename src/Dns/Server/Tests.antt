-- ===== src/Dns/Server/Tests.antt =====
-- Runs of dns_engine/server.py, and its theorems at a concrete run.
use sentinel_dns.Common.{ℕ, ◌≡◌, refl, true, false, List, [], ◌∷◌, ◌++◌, map, arith, codes}
use sentinel_dns.Common.Exec.{ok, err, value_error, runtime_error}
use sentinel_dns.Dns.Models.{Bytes}
use sentinel_dns.Dns.Resolver.{resolve}
use sentinel_dns.Dns.Resolver.Sample.{network, resolver}
use sentinel_dns.Dns.Response.Sample.{sample, sample-IsLawful}
use sentinel_dns.Dns.Server
use sentinel_dns.Dns.Server.{Phase, Reception, Server, Step, Reach, Service, init, start, received}
use sentinel_dns.Dns.Server.Runs.{IsServed, Owed, Reach-IsServed}
use sentinel_dns.Dns.Server.Addresses.{addresses-Reach}

-- an address is a number
abbrev started : Service sample network ℕ
started = record {
  host = codes "127.0.0.1";
  port = 53;
  resolver = resolver;
  running = true;
  is_open = true;
  phase = Phase.checking;
  sent = [];
}

starts :
    start (record started { running = false; is_open = false; phase = Phase.ended }) ≡ ok started
unfolding start
starts = refl

started_twice : start started ≡ err runtime_error
unfolding start
started_twice = refl

no_port : init {Address = ℕ} (codes "h") 65536 resolver ≡ err value_error
unfolding init
no_port = refl

abbrev reading : Service sample network ℕ
reading = record started { phase = Phase.reading }

-- `stop` between the condition of the loop and its `self.socket` ends the loop by an exception
stop_crashes :
    Reach sample network ℕ started []
      (record started { running = false; is_open = false; phase = Phase.crashed })
stop_crashes =
    Reach.there [] [] (record reading { running = false; is_open = false }) _
      (Reach.there [] [] (record reading { running = false }) _
        (Reach.there [] [] reading _ (Reach.there [] [] started _ Reach.here (Step.check refl))
          Step.stop)
        (Step.close refl))
      (Step.read refl)

-- one datagram of two bytes from the address 7, as far as its answer
abbrev taken : List (Bytes × ℕ)
taken = (1 ∷ 2 ∷ [], 7) ∷ []

abbrev resolving : Service sample network ℕ
resolving = record started { phase = Phase.resolving (1 ∷ 2 ∷ []) 7 }

abbrev resolved : Service sample network ℕ
resolved = record started {
  resolver = (resolve sample network (1 ∷ 2 ∷ []) resolver).1;
  phase = Server.replied (resolve sample network (1 ∷ 2 ∷ []) resolver).0 7;
}

reached : Reach sample network ℕ started taken resolved
unfolding received
reached =
    Reach.there [] taken resolving resolved
      (Reach.there [] [] (record started { phase = Phase.waiting }) resolving
        (Reach.there [] [] reading _ (Reach.there [] [] started _ Reach.here (Step.check refl))
          (Step.read refl))
        (Step.receive (Reception.datagram (1 ∷ 2 ∷ []) 7) refl))
      (Step.answer (1 ∷ 2 ∷ []) 7 refl)

Reach-IsServed_example : IsServed sample network ℕ resolver taken resolved
Reach-IsServed_example = Reach-IsServed sample network ℕ started resolved taken refl refl reached

addresses-Reach_example :
    (rest : List (Bytes × ℕ)) × Owed sample network ℕ resolved.phase rest
    × (map (λ x. x.1) ([] ++ rest) ≡ 7 ∷ [])
addresses-Reach_example =
    addresses-Reach sample network ℕ started resolved taken refl refl sample-IsLawful (omega arith)
      tt reached
