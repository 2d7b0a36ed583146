-- ===== src/Dhcp/Pool/Valid.antt =====
-- The pool's invariant, and that every call keeps it.
use sentinel_dns.Common.{
  zero, suc, ◌+◌, ◌-◌, inl, inr, ℕ, ◌≤◌, ◌<◌, ◌≡◌, true, false, List, [], ◌∷◌, some, arith, Text,
  member, add, discard, Distinct, Distinct-add, Distinct-discard, member-add, member-discard,
  Option-cases,
}
use sentinel_dns.Common.Exec.{ok, Result-cases}
use sentinel_dns.Text.{strip}
use sentinel_dns.Ipv4
use sentinel_dns.Ipv4.RoundTrip.{parse_bound}
use sentinel_dns.Ipv4.{max_address}
use sentinel_dns.Dhcp.Pool.{
  Pool, init, parse_ipv4, reserve, unreserve, allocate, allocate_specific, release, first_free,
  in_range, is_free,
}

pub record IsValid (p : Pool) : Type 0 where
  pub ordered : p.start ≤ p.end
  pub bounded : p.end < max_address
  pub allocated_within : (a : ℕ) → member a p.allocated ≡ true → in_range p a ≡ true
  pub reserved_within : (a : ℕ) → member a p.reserved ≡ true → in_range p a ≡ true
  pub apart : (a : ℕ) → member a p.allocated ≡ true → member a p.reserved ≡ false
  pub allocated_once : Distinct p.allocated
  pub reserved_once : Distinct p.reserved

pub allocated-add :
    {p : Pool} (a : ℕ)
    → IsValid p
    → in_range p a ≡ true
    → member a p.reserved ≡ false
    → IsValid (record p { allocated = add a p.allocated })
allocated-add {p} a h within free = record {
  ordered = h.ordered;
  bounded = h.bounded;
  allocated_within = λ b m. ground (arith, member-add b a p.allocated, h.allocated_within b);
  reserved_within = h.reserved_within;
  apart = λ b m. ground (arith, member-add b a p.allocated, h.apart b);
  allocated_once = Distinct-add a p.allocated h.allocated_once;
  reserved_once = h.reserved_once;
}

reserved-add :
    {p : Pool} (a : ℕ)
    → IsValid p
    → in_range p a ≡ true
    → member a p.allocated ≡ false
    → IsValid (record p { reserved = add a p.reserved })
reserved-add {p} a h within free = record {
  ordered = h.ordered;
  bounded = h.bounded;
  allocated_within = h.allocated_within;
  reserved_within = λ b m. ground (arith, member-add b a p.reserved, h.reserved_within b);
  apart = λ b m. ground (arith, member-add b a p.reserved, h.apart b);
  allocated_once = h.allocated_once;
  reserved_once = Distinct-add a p.reserved h.reserved_once;
}

pub allocated-discard :
    {p : Pool} (a : ℕ) → IsValid p → IsValid (record p { allocated = discard a p.allocated })
allocated-discard {p} a h = record {
  ordered = h.ordered;
  bounded = h.bounded;
  allocated_within = λ b m. ground (arith, member-discard b a p.allocated, h.allocated_within b);
  reserved_within = h.reserved_within;
  apart = λ b m. ground (arith, member-discard b a p.allocated, h.apart b);
  allocated_once = Distinct-discard a p.allocated h.allocated_once;
  reserved_once = h.reserved_once;
}

reserved-discard :
    {p : Pool} (a : ℕ) → IsValid p → IsValid (record p { reserved = discard a p.reserved })
reserved-discard {p} a h = record {
  ordered = h.ordered;
  bounded = h.bounded;
  allocated_within = h.allocated_within;
  reserved_within = λ b m. ground (arith, member-discard b a p.reserved, h.reserved_within b);
  apart = λ b m. ground (arith, member-discard b a p.reserved, h.apart b);
  allocated_once = h.allocated_once;
  reserved_once = Distinct-discard a p.reserved h.reserved_once;
}

pub first_free-IsFree :
    (rounds current : ℕ) (p : Pool) (a : ℕ)
    → first_free rounds current p ≡ some a
    → (is_free p a ≡ true) × (current ≤ a) × (a < current + rounds)
unfolding first_free
first_free-IsFree zero current p a h = cc
first_free-IsFree (suc rounds) current p a h =
    ground (arith, first_free-IsFree rounds (current + 1) p a)

pub allocate-IsValid : (p : Pool) → IsValid p → IsValid (allocate p).1
unfolding allocate
allocate-IsValid p h = elim (Option-cases (first_free (p.end + 1 - p.start) p.start p)) [
  | inl e ↦ rw (e, allocate) h
  | inr (a, e) ↦
      let found = first_free-IsFree _ _ p a e in
      rw (e, allocate) (allocated-add a h (ground (arith, found)) (ground (arith, found)))
]

module _ (address : Text) (p : Pool) (h : IsValid p) where
  pub reserve-IsValid : IsValid (reserve address p).1
  unfolding reserve
  reserve-IsValid = elim (Result-cases (parse_ipv4 address)) [
    | inl (_, e) ↦ rw e h
    | inr (a, e) ↦ rw e (ground (arith, reserved-add {p = p} a h))
  ]

  pub unreserve-IsValid : IsValid (unreserve address p).1
  unfolding unreserve
  unreserve-IsValid = elim (Result-cases (parse_ipv4 address)) [
    | inl (_, e) ↦ rw e h
    | inr (a, e) ↦ rw e (reserved-discard a h)
  ]

  pub allocate_specific-IsValid : IsValid (allocate_specific address p).1
  unfolding allocate_specific
  allocate_specific-IsValid = elim (Result-cases (parse_ipv4 address)) [
    | inl (_, e) ↦ rw e h
    | inr (a, e) ↦ rw e (ground (arith, allocated-add {p = p} a h))
  ]

  pub release-IsValid : IsValid (release address p).1
  unfolding release
  release-IsValid = elim (Result-cases (parse_ipv4 address)) [
    | inl (_, e) ↦ rw e h
    | inr (a, e) ↦ rw e (ground (arith, allocated-discard {p = p} a h))
  ]

parse_ipv4_bound : (address : Text) (a : ℕ) → parse_ipv4 address ≡ ok a → a < max_address
unfolding parse_ipv4
parse_ipv4_bound address a e = elim (Option-cases (Ipv4.parse (strip address))) [
  | inl none' ↦ absurd (ground arith)
  | inr (b, some') ↦ ground (arith, parse_bound (strip address) b some')
]

-- The constructor builds a valid pool with nothing allocated or reserved.
pub init-IsValid :
    (start end : Text) (p : Pool)
    → init start end ≡ ok p
    → IsValid p × (p.allocated ≡ []) × (p.reserved ≡ [])
unfolding init member
init-IsValid start end p e = elim (Result-cases (parse_ipv4 start)) [
  | inl (_, bad) ↦ absurd (ground arith)
  | inr (s, good) ↦ elim (Result-cases (parse_ipv4 end)) [
    | inl (_, bad) ↦ absurd (ground arith)
    | inr (f, good') ↦ ground (arith, parse_ipv4_bound end f good')
  ]
]

pub allocated_bound : {p : Pool} (a : ℕ) → IsValid p → member a p.allocated ≡ true → a < max_address
allocated_bound {p} a h e = ground (arith, h.allocated_within a, h.bounded)

pub data Call : Type 0 where
  call_allocate : Call
  call_allocate_specific call_release call_reserve call_unreserve : Text → Call

-- the pool after a call, whether it returned or raised
unfoldable pub step : Call → Pool → Pool
step call_allocate p = (allocate p).1
step (call_allocate_specific address) p = (allocate_specific address p).1
step (call_release address) p = (release address p).1
step (call_reserve address) p = (reserve address p).1
step (call_unreserve address) p = (unreserve address p).1

unfoldable pub run : List Call → Pool → Pool
unfolding step
run [] p = p
run (c ∷ cs) p = run cs (step c p)

-- From a valid pool, whatever the calls, the pool stays valid: its allocated and its reserved
-- addresses lie in its range, none is both, and none is held twice.
pub run-IsValid : (cs : List Call) (p : Pool) → IsValid p → IsValid (run cs p)
unfolding run
run-IsValid [] p h = h
run-IsValid (call_allocate ∷ cs) p h = run-IsValid cs _ (allocate-IsValid p h)
run-IsValid (call_allocate_specific a ∷ cs) p h = run-IsValid cs _ (allocate_specific-IsValid a p h)
run-IsValid (call_release a ∷ cs) p h = run-IsValid cs _ (release-IsValid a p h)
run-IsValid (call_reserve a ∷ cs) p h = run-IsValid cs _ (reserve-IsValid a p h)
run-IsValid (call_unreserve a ∷ cs) p h = run-IsValid cs _ (unreserve-IsValid a p h)
