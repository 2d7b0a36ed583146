-- ===== src/Dns/Metrics/History.antt =====
-- The one-second buckets of dns_engine/metrics.py against the seconds that went by.
use Prim.Native.Nat.{min}
use sentinel_dns.Common.{
  ℕ, zero, suc, ◌+◌, ◌-◌, ◌≤◌, ◌≡◌, refl, sym, ap, ◌∙◌, List, [], ◌∷◌, ◌++◌, arith, leb, ◌==◌,
  length, replicate, Bool-cases, inl, inr,
}
use mathlib.Core.List.{append_assoc}
use sentinel_dns.Common.Deque.{last, push, last-append_last, last-append_full}
use sentinel_dns.Dns.Metrics.{Metrics, history_size, close_bucket, close_buckets, rotate_bucket}

abbrev pub zeros : ℕ → List ℕ
zeros n = replicate n 0

zeros-snoc : (n : ℕ) → zeros n ++ 0 ∷ [] ≡ zeros (suc n)
zeros-snoc zero = refl
zeros-snoc (suc n) = ap (◌∷◌ 0) (zeros-snoc n)

zeros-append : (n k : ℕ) → zeros n ++ zeros k ≡ zeros (n + k)
zeros-append zero k = let e : k ≡ zero + k = omega arith in ap (λ i. zeros i) e
zeros-append (suc n) k =
    let e : suc (n + k) ≡ suc n + k = omega arith in
    ap (◌∷◌ 0) (zeros-append n k) ∙ ap (λ i. zeros i) e

length-zeros : (n : ℕ) → length (zeros n) ≡ n
length-zeros zero = refl
length-zeros (suc n) = ap suc (length-zeros n)

-- what the loop makes of a history and its open bucket
pushes : ℕ → List ℕ → ℕ → List ℕ
pushes zero xs c = xs
pushes (suc n) xs c = pushes n (push history_size c xs) 0

pushes_lem :
    (n : ℕ) (xs : List ℕ) (c : ℕ) → pushes (suc n) xs c ≡ last history_size (xs ++ c ∷ zeros n)
unfolding pushes push
pushes_lem zero xs c = refl
pushes_lem (suc n) xs c =
    pushes_lem n (last history_size (xs ++ c ∷ [])) 0
    ∙ last-append_last history_size (xs ++ c ∷ []) (0 ∷ zeros n)
    ∙ ap (last history_size) (append_assoc xs (c ∷ []) (0 ∷ zeros n))

query_history-close_buckets :
    (n : ℕ) (m : Metrics)
    → (close_buckets n m).query_history ≡ pushes n m.query_history m.current_bucket_queries
unfolding close_buckets close_bucket pushes
query_history-close_buckets zero m = refl
query_history-close_buckets (suc n) m = query_history-close_buckets n (close_bucket m)

current-close_buckets : (n : ℕ) (m : Metrics) → (close_buckets (suc n) m).current_bucket_queries ≡ 0
unfolding close_buckets close_bucket
current-close_buckets zero m = refl
current-close_buckets (suc n) m = current-close_buckets n (close_bucket m)

-- the history and the open bucket, as the seconds are listed
abbrev pub buckets : Metrics → List ℕ
buckets m = m.query_history ++ m.current_bucket_queries ∷ []

last-buckets-close_buckets :
    (n : ℕ) (m : Metrics)
    → last history_size (buckets (close_buckets (suc n) m))
      ≡ last history_size (m.query_history ++ m.current_bucket_queries ∷ zeros (suc n))
last-buckets-close_buckets n m =
    ap (λ c. last history_size ((close_buckets (suc n) m).query_history ++ c ∷ []))
      (current-close_buckets n m)
    ∙ ap (λ xs. last history_size (xs ++ 0 ∷ []))
        (query_history-close_buckets (suc n) m
          ∙ pushes_lem n m.query_history m.current_bucket_queries)
    ∙ last-append_last history_size (m.query_history ++ m.current_bucket_queries ∷ zeros n) (0 ∷ [])
    ∙ ap (last history_size) (
        append_assoc m.query_history (m.current_bucket_queries ∷ zeros n) (0 ∷ [])
        ∙ ap (λ xs. m.query_history ++ m.current_bucket_queries ∷ xs) (zeros-snoc n))

-- sixty idle seconds leave nothing of what was before
idle :
    (xs : List ℕ) (c k : ℕ)
    → last history_size (xs ++ c ∷ zeros (k + 60)) ≡ last history_size (zeros 60)
idle xs c k =
    ap (λ ys. last history_size (xs ++ c ∷ ys)) (sym (zeros-append k 60))
    ∙ ap (last history_size) (sym (append_assoc xs (c ∷ zeros k) (zeros 60)))
    ∙ last-append_full history_size (xs ++ c ∷ zeros k) (zeros 60) (omega (arith, length-zeros 60))

abbrev pub passed : Metrics → ℕ → List ℕ
passed m k = last history_size (m.query_history ++ m.current_bucket_queries ∷ zeros k)

last-buckets-close_buckets-min :
    (k : ℕ) (m : Metrics)
    → 1 ≤ k
    → last history_size (buckets (close_buckets (min k history_size) m)) ≡ passed m k
last-buckets-close_buckets-min k m h = elim (Bool-cases (leb k 60)) [
  | inl few ↦
      let n : min k history_size ≡ suc (k - 1) = ground arith in
      let e : suc (k - 1) ≡ k = omega arith in
      ap (λ i. last history_size (buckets (close_buckets i m))) n
      ∙ last-buckets-close_buckets (k - 1) m
      ∙ ap (passed m) e
  | inr many ↦
      let n : min k history_size ≡ suc 59 = ground arith in
      let e : (k - 60) + 60 ≡ k = ground arith in
      let z : suc 59 ≡ 0 + 60 = omega arith in
      ap (λ i. last history_size (buckets (close_buckets i m))) n
      ∙ last-buckets-close_buckets 59 m
      ∙ ap (passed m) z
      ∙ idle m.query_history m.current_bucket_queries 0
      ∙ sym (idle m.query_history m.current_bucket_queries (k - 60))
      ∙ ap (passed m) e
]

pub rotate_bucket_lem :
    (now : ℕ) (m : Metrics)
    → m.current_bucket_second ≤ now
    → last history_size (buckets (rotate_bucket now m)) ≡ passed m (now - m.current_bucket_second)
unfolding rotate_bucket
rotate_bucket_lem now m h = elim (Bool-cases (now == m.current_bucket_second)) [
  | inl same ↦ let e : 0 ≡ now - m.current_bucket_second = ground arith in rw same (ap (passed m) e)
  | inr other ↦
      rw other (last-buckets-close_buckets-min (now - m.current_bucket_second) m (ground arith))
]
