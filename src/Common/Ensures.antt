-- ===== src/Common/Ensures.antt =====
-- What the value of a result satisfies, if there is one.
use sentinel_dns.Common.Tests.{if◌then◌else◌}
use mathlib.Core.Path.{◌≡◌, refl, subst}
use mathlib.Core.Bool.{Bool, true, false}
use sentinel_dns.Common.Exec.{Error, Result, ok, err, and_then}

abbrev pub Holds : {A : Type 0} → (A → Type 0) → Result A → Type 0
Holds P (ok a) = P a
Holds P (err e) = Unit

pub record Ensures {A : Type 0} (P : A → Type 0) (r : Result A) : Type 0 where
  pub holds : Holds P r

module _ {A : Type 0} {P : A → Type 0} where
  pub Ensures-err : (e : Error) → Ensures P (err e)
  Ensures-err e = record { holds = tt }

  pub Ensures-ok : (a : A) → P a → Ensures P (ok a)
  Ensures-ok a h = record { holds = h }

  pub Ensures-if :
      (b : Bool) {r s : Result A}
      → (b ≡ true → Ensures P r)
      → (b ≡ false → Ensures P s)
      → Ensures P (if b then r else s)
  Ensures-if true h k = h refl
  Ensures-if false h k = k refl

  pub Ensures-and_then :
      {B : Type 0} (r : Result B) {f : B → Result A}
      → ((b : B) → r ≡ ok b → Ensures P (f b))
      → Ensures P (and_then r f)
  Ensures-and_then (ok b) h = h b refl
  Ensures-and_then (err e) h = record { holds = tt }

  pub Ensures-value : (r : Result A) (a : A) → Ensures P r → r ≡ ok a → P a
  Ensures-value r a h e = subst (Holds P) e h.holds

module _ {A B : Type 0} {P : A → Type 0} {Q : B → Type 0} where
  pub Ensures-bind :
      (r : Result A) {f : A → Result B}
      → Ensures P r
      → ((a : A) → P a → Ensures Q (f a))
      → Ensures Q (and_then r f)
  Ensures-bind (ok a) h k = k a h.holds
  Ensures-bind (err e) h k = record { holds = tt }
