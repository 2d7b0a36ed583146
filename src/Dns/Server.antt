-- ===== src/Dns/Server.antt =====
-- `DNSServer` of dns_engine/server.py: the loop of `serve_forever`, and `stop`, which another thread may
-- call at any moment. The loop is cut where it reads what `stop` writes, and where it leaves the
-- process. The socket is what `recvfrom` and `sendto` do, which is up to the step that is taken.
pub mod Runs
pub mod Addresses
mod Tests
use sentinel_dns.Common.{
  ℕ, ◌≡◌, Bool, true, false, not, ◌&&◌, ◌||◌, List, [], ◌∷◌, ◌++◌, Text, ltb, ◌==◌, length,
  if◌then◌else◌,
}
use sentinel_dns.Common.Exec.{Error, value_error, runtime_error, Result, ok, err}
use sentinel_dns.Dns.Models.{Bytes}
use sentinel_dns.Dns.Response.{Dnslib}
use sentinel_dns.Dns.Upstream.{Network}
use sentinel_dns.Dns.Resolver
use sentinel_dns.Dns.Resolver.{Resolver}

-- where the loop is: at its condition, before `self.socket`, inside `recvfrom`, before `resolve`, before
-- `sendto`, behind the loop, or out of it by an exception that it does not catch
pub data Phase (Address : Type 0) : Type 0 where
  checking reading waiting ended crashed : Phase Address
  resolving sending : Bytes → Address → Phase Address

-- what `recvfrom` does
pub data Reception (Address : Type 0) : Type 0 where
  datagram : Bytes → Address → Reception Address
  timeout failure : Reception Address

-- `is_open` says whether `self.socket` is there; `sent` lists the calls of `sendto`
pub record Server (Address State Client : Type 0) : Type 0 where
  pub host : Text
  pub port : ℕ
  pub resolver : Resolver State Client
  pub running : Bool
  pub is_open : Bool
  pub phase : Phase Address
  pub sent : List (Bytes × Address)

module _ {Address State Client : Type 0} where
  -- `__init__`
  unfoldable pub init : Text → ℕ → Resolver State Client → Result (Server Address State Client)
  init host port resolver =
      if length host == 0
      then err value_error
      else if ltb port 1 || ltb 65535 port
      then err value_error
      else ok (record {
        host = host;
        port = port;
        resolver = resolver;
        running = false;
        is_open = false;
        phase = Phase.ended;
        sent = [];
      })

  -- `start`, where the socket can be made and bound, as far as the loop
  unfoldable pub start : Server Address State Client → Result (Server Address State Client)
  start s =
      if s.running
      then err runtime_error
      else ok (record s { running = true; is_open = true; phase = Phase.checking })

module _ {Address : Type 0} where
  -- the loop behind `recvfrom`
  unfoldable pub received : Reception Address → Bool → Phase Address
  received (Reception.datagram [] address) running = Phase.checking
  received (Reception.datagram (b ∷ bytes) address) running = Phase.resolving (b ∷ bytes) address
  received Reception.timeout running = Phase.checking
  received Reception.failure running = if running then Phase.checking else Phase.ended

  -- the loop behind `resolve`
  unfoldable pub replied : Result Bytes → Address → Phase Address
  replied (err e) address = Phase.checking
  replied (ok []) address = Phase.checking
  replied (ok (b ∷ bytes)) address = Phase.sending (b ∷ bytes) address

  -- the loop behind `sendto`
  unfoldable pub delivered : Bool → Bool → Phase Address
  delivered failed running = if failed && not running then Phase.ended else Phase.checking

module _ (d : Dnslib) (n : Network) (Address : Type 0) where
  abbrev pub Service : Type 0
  Service = Server Address n.State n.Client

  -- A step, and the datagram that it resolves, if it is that step.
  pub data Step (s : Service) : List (Bytes × Address) → Service → Type 0 where
    -- `while self._running`
    check :
        s.phase ≡ Phase.checking
        → Step s [] (record s { phase = if s.running then Phase.reading else Phase.ended })
    -- `self.socket`, of which `None` has no `recvfrom`
    read :
        s.phase ≡ Phase.reading
        → Step s [] (record s { phase = if s.is_open then Phase.waiting else Phase.crashed })
    receive :
        (reception : Reception Address)
        → s.phase ≡ Phase.waiting
        → Step s [] (record s { phase = received reception s.running })
    answer :
        (packet : Bytes) (address : Address)
        → s.phase ≡ Phase.resolving packet address
        → Step s ((packet, address) ∷ []) (record s {
          resolver = (Resolver.resolve d n packet s.resolver).1;
          phase = replied (Resolver.resolve d n packet s.resolver).0 address;
        })
    send :
        (response : Bytes) (address : Address) (failed : Bool)
        → s.phase ≡ Phase.sending response address
        → s.is_open ≡ true
        → Step s [] (record s {
          sent = s.sent ++ (response, address) ∷ [];
          phase = delivered failed s.running;
        })
    send_closed :
        (response : Bytes) (address : Address)
        → s.phase ≡ Phase.sending response address
        → s.is_open ≡ false
        → Step s [] (record s { phase = Phase.crashed })
    -- the two writes of `stop`
    stop : Step s [] (record s { running = false })
    close : s.running ≡ false → Step s [] (record s { is_open = false })

  -- what can be reached from a server, and the datagrams that were resolved on the way
  pub data Reach (start : Service) : List (Bytes × Address) → Service → Type 0 where
    here : Reach start [] start
    there :
        (taken label : List (Bytes × Address)) (s s' : Service)
        → Reach start taken s
        → Step s label s'
        → Reach start (taken ++ label) s'
