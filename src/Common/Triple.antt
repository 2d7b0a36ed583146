-- ===== src/Common/Triple.antt =====
-- What an action ensures: `Triple P m Q E` says that from a state with `P` the action `m` either
-- returns a value and a state with `Q`, or raises and leaves a state with `E`.
use sentinel_dns.Common.Tests.{if◌then◌else◌}
use mathlib.Core.Path.{◌≡◌, refl, subst}
use mathlib.Core.Bool.{Bool, true, false}
use sentinel_dns.Common.Exec.{
  Error, Result, ok, err, Exec, pure, raise, lift, gets, continue, caught, catch, ◌>>=◌,
}

abbrev pub Ends : {S A : Type 0} → (A → S → Type 0) → (S → Type 0) → Result A → S → Type 0
Ends Q E (ok a) s = Q a s
Ends Q E (err e) s = E s

pub record Triple {S A : Type 0} (P : S → Type 0) (m : Exec S A) (Q : A → S → Type 0)
    (E : S → Type 0) : Type 0 where
  pub at : (s : S) → P s → Ends Q E (m s).0 (m s).1

module _ {S A : Type 0} {E : S → Type 0} where
  pub Triple-pure : (a : A) {Q : A → S → Type 0} → Triple (Q a) (pure a) Q E
  unfolding pure
  Triple-pure a = record { at = λ s h. h }

  pub Triple-raise : (e : Error) {Q : A → S → Type 0} → Triple E (raise e) Q E
  unfolding raise
  Triple-raise e = record { at = λ s h. h }

  -- to use more of the state before, and to promise less of the state after
  pub Triple_weaken :
      {P P' : S → Type 0} {m : Exec S A} {Q Q' : A → S → Type 0}
      → ((s : S) → P' s → P s)
      → ((a : A) (s : S) → Q a s → Q' a s)
      → Triple P m Q E
      → Triple P' m Q' E
  Triple_weaken {m} {Q} {Q'} pre post t = record {
    at = λ s h. go (m s).0 (m s).1 (t.at s (pre s h));
  }
    where
      go : (r : Result A) (s : S) → Ends Q E r s → Ends Q' E r s
      go (ok a) s k = post a s k
      go (err e) s k = k

module _ {S A B : Type 0} {E : S → Type 0} where
  pub Triple-bind :
      {P : S → Type 0} {m : Exec S A} {Q : A → S → Type 0} {f : A → Exec S B} {R : B → S → Type 0}
      → Triple P m Q E
      → ((a : A) → Triple (Q a) (f a) R E)
      → Triple P (m >>= f) R E
  unfolding ◌>>=◌
  Triple-bind {m} {Q} {f} {R} t u = record { at = λ s h. go (m s).0 (m s).1 (t.at s h) }
    where
      go : (r : Result A) (s : S) → Ends Q E r s → Ends R E (continue r s f).0 (continue r s f).1
      go (ok a) s k = (u a).at s k
      go (err e) s k = k

module _ {S A : Type 0} {P : S → Type 0} where
  -- what is read is what the state holds
  pub Triple-gets : (f : S → A) {E : S → Type 0} → Triple P (gets f) (λ a s. P s × (f s ≡ a)) E
  unfolding gets
  Triple-gets f = record { at = λ s h. (h, refl) }

  pub Triple-lift : (r : Result A) → Triple P (lift r) (λ a s. P s × (r ≡ ok a)) P
  unfolding lift
  Triple-lift r = record { at = λ s h. go r s h }
    where
      go : (r : Result A) (s : S) → P s → Ends (λ a s'. P s' × (r ≡ ok a)) P r s
      go (ok a) s h = (h, refl)
      go (err e) s h = h

  pub Triple-if :
      (b : Bool) {m n : Exec S A} {Q : A → S → Type 0} {E : S → Type 0}
      → (b ≡ true → Triple P m Q E)
      → (b ≡ false → Triple P n Q E)
      → Triple P (if b then m else n) Q E
  Triple-if true t u = t refl
  Triple-if false t u = u refl

-- a check that leaves the state alone, and what follows it
module _ {S A B : Type 0} {P : S → Type 0} {Q : B → S → Type 0} where
  pub Triple-lift_bind :
      (r : Result A) {f : A → Exec S B}
      → ((a : A) → r ≡ ok a → Triple P (f a) Q P)
      → Triple P (lift r >>= f) Q P
  unfolding ◌>>=◌
  Triple-lift_bind r {f} t = record { at = λ s h. go r (λ a e. (t a e).at s h) h }
    where
      go :
          {s : S} (r : Result A)
          → ((a : A) → r ≡ ok a → Ends Q P (f a s).0 (f a s).1)
          → P s
          → Ends Q P (continue r s f).0 (continue r s f).1
      go (ok a) t h = t a refl
      go (err e) t h = h

module _ {S A : Type 0} {P : S → Type 0} {m : Exec S A} {Q : A → S → Type 0} {E : S → Type 0} where
  pub Triple-ok : Triple P m Q E → (s s' : S) (a : A) → P s → m s ≡ (ok a, s') → Q a s'
  Triple-ok t s s' a h e = subst (λ out. Ends Q E out.0 out.1) e (t.at s h)

  -- the invariant that holds on both ways out
  pub Triple_state :
      {I : S → Type 0}
      → Triple P m Q E
      → ((a : A) (s : S) → Q a s → I s)
      → ((s : S) → E s → I s)
      → (s : S) → P s
      → I (m s).1
  Triple_state {I} t good bad s h = go (m s).0 (m s).1 (t.at s h)
    where
      go : (r : Result A) (s' : S) → Ends Q E r s' → I s'
      go (ok a) s' k = good a s' k
      go (err e) s' k = bad s' k

module _ {S A : Type 0} {P : S → Type 0} {m : Exec S A} {Q : A → S → Type 0} {E : S → Type 0} where
  pub Triple-err : Triple P m Q E → (s s' : S) (e : Error) → P s → m s ≡ (err e, s') → E s'
  Triple-err t s s' e h k = subst (λ out. Ends Q E out.0 out.1) k (t.at s h)

-- an action that keeps an invariant, whether it returns or raises
abbrev pub Keeps : {S A : Type 0} → (S → Type 0) → Exec S A → Type 0
Keeps I m = Triple I m (λ _. I) I

module _ {S A : Type 0} {I : S → Type 0} where
  pub Keeps-pure : (a : A) → Keeps I (pure {S = S} a)
  Keeps-pure a = Triple-pure a

  pub Keeps-gets : (f : S → A) → Keeps I (gets f)
  unfolding gets
  Keeps-gets f = record { at = λ s h. h }

  pub Keeps-lift : (r : Result A) → Keeps I (lift {S = S} r)
  unfolding lift
  Keeps-lift r = record { at = λ s h. go r s h }
    where
      go : (r : Result A) (s : S) → I s → Ends (λ _. I) I r s
      go (ok a) s h = h
      go (err e) s h = h

  pub Keeps-catch :
      (handles : Error → Bool) {m h : Exec S A}
      → Keeps I m
      → Keeps I h
      → Keeps I (catch handles m h)
  unfolding catch
  Keeps-catch handles {m} {h} t u = record { at = λ s k. go (m s).0 (m s).1 (t.at s k) }
    where
      choose :
          (b : Bool) (e : Error) (s : S)
          → I s
          → Ends (λ _. I) I (if b then h s else (err e, s)).0 (if b then h s else (err e, s)).1
      choose true e s k = u.at s k
      choose false e s k = k

      go :
          (r : Result A) (s : S)
          → Ends (λ _. I) I r s
          → Ends (λ _. I) I (caught handles h r s).0 (caught handles h r s).1
      go (ok a) s k = k
      go (err e) s k = choose (handles e) e s k

module _ {S A B : Type 0} {I : S → Type 0} where
  pub Keeps-bind :
      {m : Exec S A} {f : A → Exec S B} → Keeps I m → ((a : A) → Keeps I (f a)) → Keeps I (m >>= f)
  Keeps-bind t u = Triple-bind t u

-- the state behind a check and what follows it
module _ {S A B : Type 0} (I : S → Type 0) where
  pub lift_bind_state :
      (r : Result A) (f : A → Exec S B) (s : S)
      → I s
      → ((a : A) → I (f a s).1)
      → I ((lift r >>= f) s).1
  unfolding lift ◌>>=◌
  lift_bind_state (ok a) f s h k = k a
  lift_bind_state (err e) f s h k = h

  -- the state behind an action whose value is dropped
  pub bind_pure_state : (m : Exec S A) (b : B) (s : S) → I (m s).1 → I ((m >>= λ _. pure b) s).1
  unfolding pure ◌>>=◌
  bind_pure_state m b s h = go (m s).0 (m s).1 h
    where
      go : (r : Result A) (s' : S) → I s' → I (continue r s' (λ _. pure b)).1
      go (ok a) s' k = k
      go (err e) s' k = k
