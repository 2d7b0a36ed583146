-- ===== src/Dns/Metrics/Seconds.antt =====
-- The `recent_queries` of dns_engine/metrics.py against the seconds of the calls of `record_query`.
use sentinel_dns.Common.{
  ℕ, zero, suc, ◌+◌, ◌-◌, ◌/◌, ◌≤◌, ◌≡◌, refl, sym, ap, ◌∙◌, subst, List, [], ◌∷◌, ◌++◌, arith,
  ◌==◌, Bool-cases, inl, inr,
}
use mathlib.Core.List.{append_assoc}
use Prim.Native.Nat.{min, bit_and}
use sentinel_dns.Common.Deque.{last, last-append_last}
use sentinel_dns.Dns.Metrics
use sentinel_dns.Dns.Metrics.{
  Metrics, history_size, now_second, ticked, init, snapshot, rotate_bucket, close_bucket,
  close_buckets, count_rcode, Latency,
}
use sentinel_dns.Dns.Metrics.Bounded.{Call, step, run}
use sentinel_dns.Dns.Metrics.History.{zeros, buckets, passed, rotate_bucket_lem}
use sentinel_dns.Dns.Metrics.Tallies.{
  count, per_second, AreUntil, AreUntil-later, AreUntil-snoc, per_second-zeros, bump, bump-snoc,
  last-bump, per_second-snoc,
}

-- a clock that does not go back
abbrev pub IsForward : (ℕ → ℕ) → Type 0
IsForward clock = (i j : ℕ) → i ≤ j → clock i ≤ clock j

-- the second of the start or of the last `reset`, and the seconds of the calls of `record_query` since
pub record Log : Type 0 where
  pub since : ℕ
  pub seconds : List ℕ

unfoldable pub log : Call → Metrics → Log → Log
log Call.record_query m l = record l { seconds = l.seconds ++ now_second m ∷ [] }
log Call.reset m l = record { since = now_second m; seconds = [] }
log _ m l = l

unfoldable pub log_all : List Call → Metrics → Log → Log
unfolding log step
log_all [] m l = l
log_all (call ∷ calls) m l = log_all calls (step call m) (log call m l)

-- the open bucket and the closed ones against the log, of the fields that they are made of
pub record IsTallied (clock : ℕ → ℕ) (ticks second : ℕ) (history : List ℕ) (current : ℕ) (l : Log)
    : Type 0 where
  pub forward : IsForward clock
  pub begun : l.since ≤ second
  pub ahead : (k : ℕ) → ticks ≤ k → second ≤ clock k / 1000000
  pub until : AreUntil second l.seconds
  pub recent :
      last history_size (history ++ current ∷ [])
      ≡ last history_size (per_second l.since (suc (second - l.since)) l.seconds)

abbrev pub Tallied : Metrics → Log → Type 0
Tallied m l =
    IsTallied m.monotonic m.ticks m.current_bucket_second m.query_history m.current_bucket_queries l

-- what a rotation leaves alone
pub record Rotated (now : ℕ) (m m' : Metrics) : Type 0 where
  pub clock : m'.monotonic ≡ m.monotonic
  pub ticks : m'.ticks ≡ m.ticks
  pub second : m'.current_bucket_second ≡ now

close_buckets-clock : (n : ℕ) (m : Metrics) → (close_buckets n m).monotonic ≡ m.monotonic
unfolding close_buckets close_bucket
close_buckets-clock zero m = refl
close_buckets-clock (suc n) m = close_buckets-clock n (close_bucket m)

close_buckets-ticks : (n : ℕ) (m : Metrics) → (close_buckets n m).ticks ≡ m.ticks
unfolding close_buckets close_bucket
close_buckets-ticks zero m = refl
close_buckets-ticks (suc n) m = close_buckets-ticks n (close_bucket m)

rotate_bucket-Rotated : (now : ℕ) (m : Metrics) → Rotated now m (rotate_bucket now m)
unfolding rotate_bucket
rotate_bucket-Rotated now m = elim (Bool-cases (now == m.current_bucket_second)) [
  | inl same ↦ rw same (record { clock = refl; ticks = refl; second = ground arith })
  | inr other ↦ rw other (record {
    clock = close_buckets-clock (min (now - m.current_bucket_second) history_size) m;
    ticks = close_buckets-ticks (min (now - m.current_bucket_second) history_size) m;
    second = refl;
  })
]

passed-per_second :
    (m : Metrics) (l : Log) (now : ℕ)
    → Tallied m l
    → m.current_bucket_second ≤ now
    → passed m (now - m.current_bucket_second)
      ≡ last history_size (per_second l.since (suc (now - l.since)) l.seconds)
passed-per_second m l now h later =
    let k : ℕ = now - m.current_bucket_second in
    let n : ℕ = suc (m.current_bucket_second - l.since) in
    let e : n + k ≡ suc (now - l.since) = omega (arith, h.begun) in
    ap (last history_size)
      (sym (append_assoc m.query_history (m.current_bucket_queries ∷ []) (zeros k)))
    ∙ sym (last-append_last history_size (buckets m) (zeros k))
    ∙ ap (λ xs. last history_size (xs ++ zeros k)) h.recent
    ∙ last-append_last history_size (per_second l.since n l.seconds) (zeros k)
    ∙ ap (last history_size) (
        per_second-zeros m.current_bucket_second l.since n k l.seconds (omega (arith, h.begun))
          h.until)
    ∙ ap (λ i. last history_size (per_second l.since i l.seconds)) e

second_le : (a b : ℕ) → a ≤ b → a / 1000000 ≤ b / 1000000
second_le a b h = omega arith

-- a rotation at the next reading of the clock
rotate-Tallied :
    (m : Metrics) (l : Log)
    → Tallied m l
    → Tallied (rotate_bucket (now_second m) (ticked m)) l
      × ((rotate_bucket (now_second m) (ticked m)).current_bucket_second ≡ now_second m)
rotate-Tallied m l h =
    let now : ℕ = now_second m in
    let later = h.ahead m.ticks (omega arith) in
    let r = rotate_bucket-Rotated now (ticked m) in
    let rotated : Metrics = rotate_bucket now (ticked m) in
    let core : IsTallied m.monotonic (m.ticks + 1) now rotated.query_history
        rotated.current_bucket_queries l =
      record {
        forward = h.forward;
        begun = omega (arith, h.begun, later);
        ahead = λ k k_later.
            second_le (m.monotonic m.ticks) (m.monotonic k) (h.forward m.ticks k (omega arith));
        until = AreUntil-later m.current_bucket_second now l.seconds later h.until;
        recent = rotate_bucket_lem now (ticked m) later ∙ passed-per_second m l now h later;
      } in
    (
      subst
          (λ clock.
            IsTallied clock rotated.ticks rotated.current_bucket_second rotated.query_history
              rotated.current_bucket_queries l)
          (sym r.clock)
          (subst
            (λ ticks.
              IsTallied m.monotonic ticks rotated.current_bucket_second rotated.query_history
                rotated.current_bucket_queries l)
            (sym r.ticks)
            (subst
              (λ second.
                IsTallied m.monotonic (m.ticks + 1) second rotated.query_history
                  rotated.current_bucket_queries l)
              (sym r.second) core)),
      r.second,
    )

query-Tallied :
    (m : Metrics) (l : Log) (now : ℕ)
    → Tallied m l
    → m.current_bucket_second ≡ now
    → IsTallied m.monotonic m.ticks m.current_bucket_second m.query_history
        (m.current_bucket_queries + 1)
        (record l { seconds = l.seconds ++ now ∷ [] })
query-Tallied m l now h e =
    let n : ℕ = m.current_bucket_second - l.since in
    let at : l.since + n ≡ now = omega (arith, h.begun) in
    record {
      forward = h.forward;
      begun = h.begun;
      ahead = h.ahead;
      until =
          subst (λ b. AreUntil m.current_bucket_second (l.seconds ++ b ∷ [])) e
            (AreUntil-snoc m.current_bucket_second l.seconds h.until);
      recent =
          ap (last history_size) (sym (bump-snoc m.query_history m.current_bucket_queries))
          ∙ last-bump history_size (buckets m)
          ∙ ap (λ xs. bump xs) h.recent
          ∙ sym (last-bump history_size (per_second l.since (suc n) l.seconds))
          ∙ ap (last history_size) (sym (per_second-snoc l.since n l.seconds))
          ∙ ap (λ t. last history_size (per_second l.since (suc n) (l.seconds ++ t ∷ []))) at;
    }

-- what `__init__` and `reset` leave
nothing-Tallied :
    (clock : ℕ → ℕ) (ticks : ℕ)
    → IsForward clock
    → IsTallied clock
        (ticks + 1)
        (clock ticks / 1000000)
        []
        0
        (record { since = clock ticks / 1000000; seconds = [] })
unfolding per_second count
nothing-Tallied clock ticks forward =
    let now : ℕ = clock ticks / 1000000 in
    let none_passed : 0 ≡ now - now = omega arith in
    record {
      forward = forward;
      begun = omega arith;
      ahead = λ k later. second_le (clock ticks) (clock k) (forward ticks k (omega arith));
      until = tt;
      recent = ap (λ i. last history_size (per_second now (suc i) [])) none_passed;
    }

rcode-Tallied : (rcode : ℕ) (m : Metrics) (l : Log) → Tallied m l → Tallied (count_rcode rcode m) l
unfolding count_rcode
rcode-Tallied rcode m l h = elim (Bool-cases (rcode == 0)) [
  | inl is ↦ rw is h
  | inr other ↦ rw other (elim (Bool-cases (rcode == 1)) [
    | inl is ↦ rw is h
    | inr other ↦ rw other (elim (Bool-cases (rcode == 2)) [
      | inl is ↦ rw is h
      | inr other ↦
          rw other (elim (Bool-cases (rcode == 3)) [ inl is ↦ rw is h | inr other ↦ rw other h ])
    ])
  ])
]

latency-Tallied :
    (latency : Latency) (m : Metrics) (l : Log)
    → Tallied m l
    → Tallied (Metrics.record_latency latency m) l
unfolding Metrics.record_latency
latency-Tallied Latency.not_a_number m l h = h
latency-Tallied Latency.infinite m l h = h
latency-Tallied Latency.negative m l h = h
latency-Tallied (Latency.microseconds value) m l h = h

step-Tallied :
    (call : Call) (m : Metrics) (l : Log) → Tallied m l → Tallied (step call m) (log call m l)
unfolding step log Metrics.record_query Metrics.record_allowed Metrics.record_blocked
    Metrics.record_security_event Metrics.record_cache_hit Metrics.record_cache_miss
    Metrics.record_upstream_success Metrics.record_upstream_failure Metrics.snapshot Metrics.reset
step-Tallied Call.record_query m l h =
    let (tallied, e) = rotate-Tallied m l h in
    query-Tallied (rotate_bucket (now_second m) (ticked m)) l (now_second m) tallied e
step-Tallied Call.record_allowed m l h = h
step-Tallied Call.record_blocked m l h = (rotate-Tallied m l h).0
step-Tallied (Call.record_security_event filter_name reason action event_type) m l h = h
step-Tallied Call.record_cache_hit m l h = h
step-Tallied Call.record_cache_miss m l h = h
step-Tallied Call.record_upstream_success m l h = h
step-Tallied Call.record_upstream_failure m l h = h
step-Tallied (Call.record_rcode rcode) m l h =
    unfold Metrics.record_rcode in rcode-Tallied (bit_and rcode 0x0F) m l h
step-Tallied (Call.record_latency latency) m l h = latency-Tallied latency m l h
step-Tallied Call.snapshot m l h = (rotate-Tallied m l h).0
step-Tallied Call.reset m l h = nothing-Tallied m.monotonic m.ticks h.forward

run-Tallied :
    (calls : List Call) (m : Metrics) (l : Log)
    → Tallied m l
    → Tallied (run calls m) (log_all calls m l)
unfolding run log_all
run-Tallied [] m l h = h
run-Tallied (call ∷ calls) m l h =
    run-Tallied calls (step call m) (log call m l) (step-Tallied call m l h)

-- the log of the calls since `__init__`
abbrev pub logged : List Call → (ℕ → ℕ) → (ℕ → ℕ) → Log
logged calls monotonic readings =
    log_all calls (init monotonic readings) (record { since = monotonic 0 / 1000000; seconds = [] })

-- Whatever the calls since `__init__`, while the clock does not go back: the `recent_queries` of a
-- snapshot are the last sixty of these numbers, for each second from `__init__` or the last `reset` up
-- to now, how many calls of `record_query` were made in that second.
pub snapshot_recent_queries :
    (calls : List Call) (monotonic readings : ℕ → ℕ)
    → IsForward monotonic
    → (snapshot (run calls (init monotonic readings))).0.recent_queries
      ≡ last history_size (
          per_second
            (logged calls monotonic readings).since
            (suc (
              now_second (run calls (init monotonic readings))
              - (logged calls monotonic readings).since))
            (logged calls monotonic readings).seconds)
unfolding snapshot
snapshot_recent_queries calls monotonic readings forward =
    let m : Metrics = run calls (init monotonic readings) in
    let l : Log = logged calls monotonic readings in
    let h : Tallied m l =
      run-Tallied calls (init monotonic readings) _
        (unfold init in nothing-Tallied monotonic 0 forward) in
    let later = h.ahead m.ticks (omega arith) in
    rotate_bucket_lem (now_second m) (ticked m) later ∙ passed-per_second m l (now_second m) h later
