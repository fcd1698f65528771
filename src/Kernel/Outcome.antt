-- ===== src/Kernel/Outcome.antt =====
-- Total correctness of a command: it ends within its rounds, with no fault, in a state and with a
-- result of which the postcondition holds.
use bkernel.Base.{◌≡◌, sym, subst}
use bkernel.Kernel.State.{Kernel}
use bkernel.Kernel.Command.{Run, done, Cmd, and_then}

pub data Returns {A : Type 0} (P : A → Kernel → Type 0) : Run A → Type 0 where
  returns : {a : A} {k : Kernel} → P a k → Returns P (done a k)

module _ {A : Type 0} {P : A → Kernel → Type 0} where
  pub after :
      {B : Type 0} {Q : B → Kernel → Type 0} {r : Run A} {f : A → Cmd B}
      → Returns P r
      → ((a : A) (k : Kernel) → P a k → Returns Q (f a k))
      → Returns Q (and_then r f)
  after (returns p) next = next _ _ p

  pub weaken :
      {Q : A → Kernel → Type 0} {r : Run A}
      → Returns P r
      → ((a : A) (k : Kernel) → P a k → Q a k)
      → Returns Q r
  weaken (returns p) imp = returns (imp _ _ p)

  pub done-Returns : {r : Run A} {a : A} {k : Kernel} → r ≡ done a k → P a k → Returns P r
  done-Returns e p = subst (Returns P) (sym e) (returns p)
