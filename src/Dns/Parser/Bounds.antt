-- ===== src/Dns/Parser/Bounds.antt =====
-- `_read_domain` of dns_engine/parser.py returns, and what it returns is bounded.
use sentinel_dns.Common.{
  ℕ, zero, suc, ◌+◌, ◌-◌, ◌*◌, ◌≤◌, ◌<◌, ◌≡◌, refl, ap, Option, some, List, [], ◌∷◌, arith, Text,
  ltb, length, length-append, text_eq, if◌then◌else◌,
}
use sentinel_dns.Common.Exec.{value_error, Result, ok, err}
use sentinel_dns.Common.Ensures.{
  Ensures, Ensures-if, Ensures-and_then, Ensures-ok, Ensures-err, Ensures-value,
}
use sentinel_dns.Text.{join, lower}
use sentinel_dns.Dns.Models.{Bytes}
use sentinel_dns.Dns.Parser.{Loop, enter, Turn, turn, read_loop, finish, turns, read_domain}
use sentinel_dns.Dns.Parser.Domain.{text_size, Reading, Done, left, Goes, turn-Goes}

-- the loop ends within the fuel
Ended : Bytes → ℕ → Option (Result Loop) → Type 0
Ended packet offset o = (r : Result Loop) × (o ≡ some r) × Ensures (Done packet offset) r

read_loop-Ended :
    (fuel : ℕ) (packet : Bytes) (offset : ℕ) (s : Loop)
    → Reading packet offset s
    → left s + 2 ≤ 2 * fuel
    → Ended packet offset (read_loop fuel packet s)
unfolding Ended read_loop
read_loop-Ended zero packet offset s h enough = absurd (omega arith)
read_loop-Ended (suc fuel) packet offset s h enough =
    go (λ s' k d. read_loop-Ended fuel packet offset s' k (omega arith)) (turn packet s)
      (turn-Goes packet offset s h)
  where
    go :
        ((s' : Loop)
          → Reading packet offset s'
          → left s' + 2 ≤ left s
          → Ended packet offset (read_loop fuel packet s'))
        → (t : Result Turn) → Ensures (Goes packet offset s) t
        → Ended packet offset (elim t [
          | err e ↦ some (err e)
          | ok (Turn.break s') ↦ some (ok s')
          | ok (Turn.continue s') ↦ read_loop fuel packet s'
        ])
    go rest (err e) k = (err e, refl, Ensures-err e)
    go rest (ok (Turn.break s')) k = (ok s', refl, Ensures-ok s' k.holds)
    go rest (ok (Turn.continue s')) k = rest s' k.holds.0 k.holds.1

enter-Reading : (packet : Bytes) (offset : ℕ) → Reading packet offset (enter offset)
unfolding enter text_size
enter-Reading packet offset = record {
  short = omega arith;
  few = omega arith;
  ahead = λ _. omega arith;
  past = λ j. absurd (ground arith);
  inside = λ j. absurd (ground arith);
  sized = omega arith;
}

-- The loop of `_read_domain` ends, by its `break` or by an error, in 161 turns, whatever the packet
-- and wherever the name begins.
pub read_loop_ends :
    (packet : Bytes) (offset : ℕ)
    → (r : Result Loop) × (read_loop turns packet (enter offset) ≡ some r)
unfolding Ended enter
read_loop_ends packet offset =
    let (r, e, _) =
      read_loop-Ended turns packet offset (enter offset) (enter-Reading packet offset)
        (omega arith) in
    (r, e)

length-join : (ls : List Text) → length (join (b'.' ∷ []) ls) ≤ text_size ls - 1
unfolding join text_size
length-join [] = omega arith
length-join (l ∷ []) = omega arith
length-join (l ∷ k ∷ ls) =
    omega (arith, length-join (k ∷ ls), length-append l (b'.' ∷ join (b'.' ∷ []) (k ∷ ls)))

length-lower : (t : Text) → length (lower t) ≡ length t
unfolding lower
length-lower [] = refl
length-lower (c ∷ t) = ap suc (length-lower t)

abbrev Named : Bytes → ℕ → Text × ℕ → Type 0
Named packet offset named =
    (1 ≤ length named.0) × (length named.0 ≤ 253) × (offset < named.1) × (named.1 ≤ length packet)

named_bounds :
    (t : Text)
    → length t ≤ 253
    → (1 ≤ length (if text_eq t [] then b'.' ∷ [] else t))
      × (length (if text_eq t [] then b'.' ∷ [] else t) ≤ 253)
unfolding text_eq
named_bounds [] h = (omega arith, omega arith)
named_bounds (c ∷ t) h = (omega arith, h)

finish-Named :
    (packet : Bytes) (offset : ℕ) (s : Loop)
    → Done packet offset s
    → Ensures (Named packet offset) (finish s)
unfolding finish
finish-Named packet offset s h =
    Ensures-if (ltb 255 (s.encoded_length + 1)) (λ _. Ensures-err value_error)
      λ short. Ensures-ok _ (
        let z = h.sized in
        let l = length-lower (join (b'.' ∷ []) s.labels) in
        let j = length-join s.labels in
        let (x, y) = named_bounds (lower (join (b'.' ∷ []) s.labels)) (ground arith) in
        (x, y, h.past, h.inside))

read_domain-Named :
    (packet : Bytes) (offset : ℕ) → Ensures (Named packet offset) (read_domain packet offset)
unfolding read_domain Ended
read_domain-Named packet offset =
    let (r, e, done) =
      read_loop-Ended turns packet offset (enter offset) (enter-Reading packet offset)
        (unfold enter in omega arith) in
    rw e (Ensures-and_then r λ s k. finish-Named packet offset s (Ensures-value r s done k))

-- A name that `_read_domain` returns has 1 to 253 characters, and the offset that it returns lies
-- behind the start of the name and inside the packet.
pub read_domain_bounds :
    (packet : Bytes) (offset : ℕ) (domain : Text) (next : ℕ)
    → read_domain packet offset ≡ ok (domain, next)
    → (1 ≤ length domain) × (length domain ≤ 253) × (offset < next) × (next ≤ length packet)
read_domain_bounds packet offset domain next e =
    Ensures-value _ _ (read_domain-Named packet offset) e
