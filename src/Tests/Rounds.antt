-- ===== src/Tests/Rounds.antt =====
-- Examples for the loop of the dispatcher: the idle process 1 and process 2 are ready, process 3 sleeps.
use bkernel.Base.{ℕ, ◌==◌, if◌then◌else◌, Bool-cases, inl, inr, [], ◌∷◌, refl, arith}
use mathlib.Core.List.{Memᴰ}
use bkernel.Kernel.{Returns}
use bkernel.Ctsw.{Trap}
use bkernel.Dispatch.{dispatch_round}
use bkernel.Dispatch.Rounds.{IsQuiet}
use bkernel.Dispatch.Layout.{IsLaid}
use bkernel.Dispatch.System.{IsCalm, Round, dispatch_round-Round}
use bkernel.Dispatch.Loop.{dispatch_rounds, Kept, dispatch_rounds-Kept}
use bkernel.Tests.Alarms.{asleep-IsDelta}
use bkernel.Tests.Sample.{kernel, image, ready-IsQueue}

all-IsQuiet : (a : ℕ) → IsQuiet (kernel.proc a)
all-IsQuiet a = ground arith

kernel-IsLaid : IsLaid kernel (1 ∷ 2 ∷ []) (3 ∷ [])
kernel-IsLaid = record {
  ready = ready-IsQueue;
  asleep = asleep-IsDelta;
  apart = omega arith;
  quiet = all-IsQuiet;
}

-- Process 1 is interrupted by the timer, the others ask to sleep.
abbrev interrupt : Trap
interrupt = record { esp = 0x7000; rc = 0; interrupt = 1; args = 0; port_status = 0; port_code = 0 }

abbrev sleeping : Trap
sleeping = record {
  esp = 0x7000;
  rc = 105;
  interrupt = 0;
  args = 0x6000;
  port_status = 0;
  port_code = 0;
}

abbrev trap : ℕ → ℕ → Trap
trap n p = if p == 1 then interrupt else sleeping

trap-IsCalm : (n p : ℕ) → IsCalm (trap n p)
trap-IsCalm n p = elim (Bool-cases (p == 1)) [
  | inl idle ↦ rw idle (IsCalm.interrupted refl)
  | inr other ↦ rw other (IsCalm.sleeps refl refl (omega arith))
]

dispatch_round-Round_example :
    Returns (λ _. Round 1 (2 ∷ []) (3 ∷ []) interrupt) (dispatch_round image interrupt kernel)
dispatch_round-Round_example =
    dispatch_round-Round image kernel 1 (2 ∷ []) (3 ∷ []) interrupt kernel-IsLaid
      (IsCalm.interrupted refl)

dispatch_rounds-Kept_example :
    Returns (λ _. Kept 1 (1 ∷ 2 ∷ []) (3 ∷ [])) (dispatch_rounds image trap 1000 kernel)
dispatch_rounds-Kept_example =
    dispatch_rounds-Kept image trap 1 trap-IsCalm (λ n. refl) 1000 kernel (1 ∷ 2 ∷ []) (3 ∷ [])
      kernel-IsLaid (Memᴰ.head refl)
