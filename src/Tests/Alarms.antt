-- ===== src/Tests/Alarms.antt =====
-- Examples for the sleeping processes: process 3 sleeps for 100 slices, of which 50 have passed, and
-- process 4 asks for 10.
use bkernel.Base.{ℕ, ◌+◌, ◌-◌, ◌≡◌, List, [], ◌∷◌, refl, arith}
use mathlib.Core.List.{Memᴰ}
use bkernel.Kernel.{Kernel, update, ◌>>◌, Returns}
use bkernel.Queue.Chain.{nil, cons}
use bkernel.Queue.Valid.{IsQueue}
use bkernel.Sleep.{sleep, wake, wake_early}
use bkernel.Sleep.Delta.{alarms}
use bkernel.Sleep.Clock.{remaining}
use bkernel.Sleep.Early.{delayed, wake_early-delayed}
use bkernel.Sleep.Unlink.{due_after, cancel}
use bkernel.Sleep.Cancel.{wake_early-cancels}
use bkernel.Sleep.Order.{IsDelta, Slept}
use bkernel.Sleep.Entry.{sleep-Slept}
use bkernel.Sleep.Wake.{due_now, still, settled, wake-Woken}
use bkernel.Ctsw.{Trap}
use bkernel.Dispatch.{serve_timer}
use bkernel.Dispatch.Ticks.{IsClocked, due_in}
use bkernel.Dispatch.Layout.{IsOut}
use bkernel.Dispatch.Interrupt.{Interrupted, serve_timer-Interrupted}
use bkernel.Dispatch.Slices.{IsTimed}
use bkernel.Dispatch.Rings.{slices, IsReady, sleep-rings}
use bkernel.Dispatch.Alarms.{timer_ticks, sleep-waits}
use bkernel.Tests.Sample.{kernel, image, blank, ready-IsQueue}

asleep-IsQueue : IsQueue kernel.proc kernel.sleep_q (3 ∷ [])
asleep-IsQueue = record {
  chain = cons refl (omega arith) (nil refl);
  distinct = omega arith;
  slots = omega arith;
}

pub asleep-IsDelta : IsDelta kernel.proc kernel.sleep_q (3 ∷ [])
asleep-IsDelta = record { queue = asleep-IsQueue; fits = (omega arith, tt); pending = omega arith }

sleep-Slept_example : Returns (Slept kernel 4 (3 ∷ [])) (sleep 4 kernel)
sleep-Slept_example =
    sleep-Slept kernel 4 (omega arith) (omega arith) (omega arith) (3 ∷ []) asleep-IsDelta
      (omega arith)

wake-Woken_example :
    Returns
      (λ _ k'.
        IsQueue k'.proc k'.ready_q (1 ∷ 2 ∷ 3 ∷ due_now kernel.proc [])
        × IsQueue k'.proc k'.sleep_q (still kernel.proc [])
        × ((b : ℕ) → settled (k'.proc b) ≡ settled (kernel.proc b))
        × (k' ≡ record kernel { proc = k'.proc; ready_q = k'.ready_q; sleep_q = k'.sleep_q }))
      (wake kernel)
wake-Woken_example = wake-Woken kernel (1 ∷ 2 ∷ []) [] 3 ready-IsQueue asleep-IsQueue (omega arith)

kernel-IsClocked : IsClocked kernel (1 ∷ 2 ∷ []) (3 ∷ [])
kernel-IsClocked = record {
  ready = ready-IsQueue;
  asleep = asleep-IsQueue;
  fits = (omega arith, tt);
  early = omega arith;
  apart = omega arith;
}

process_4-IsOut : IsOut 4 (1 ∷ 2 ∷ []) (3 ∷ [])
process_4-IsOut = record { slot = omega arith; unready = omega arith; awake = omega arith }

serve_timer-Interrupted_example :
    Returns (λ _. Interrupted 4 kernel (1 ∷ 2 ∷ []) (3 ∷ [])) (serve_timer 4 kernel)
serve_timer-Interrupted_example =
    serve_timer-Interrupted kernel 4 (1 ∷ 2 ∷ []) (3 ∷ []) process_4-IsOut kernel-IsClocked

-- The same with no slice counted.
abbrev fresh : Kernel
fresh = record kernel { slice_elapsed = 0 }

fresh-IsClocked : IsClocked fresh (1 ∷ 2 ∷ []) (3 ∷ [])
fresh-IsClocked = record {
  ready = ready-IsQueue;
  asleep = asleep-IsQueue;
  fits = (omega arith, tt);
  early = omega arith;
  apart = omega arith;
}

fresh-IsTimed : IsTimed 1 fresh (1 ∷ 2 ∷ []) (3 ∷ [])
fresh-IsTimed = record {
  clocked = fresh-IsClocked;
  quiet = λ a. ground arith;
  lone = λ a e. ground arith;
}

abbrev trap : Trap
trap = record { esp = 0x7000; rc = 0; interrupt = 0; args = 0x6000; port_status = 0; port_code = 0 }

sleep-rings_example : Returns (λ _. IsReady 4) ((do sleep 4; slices image (λ n. trap) 20) fresh)
sleep-rings_example =
    sleep-rings image (λ n. trap) 1 fresh 4 (1 ∷ 2 ∷ []) (3 ∷ []) fresh-IsTimed 20 (omega arith)
      (omega arith) (omega arith) (omega arith) refl (omega arith) (omega arith) (omega arith)

sleep-waits_example :
    Returns
      (λ _ k'.
        (order : List ℕ) × IsQueue k'.proc k'.sleep_q order
        × Memᴰ (record { who = 4; at = 3 }) (due_in k' order))
      ((do sleep 4; timer_ticks 7) fresh)
sleep-waits_example =
    sleep-waits fresh 4 (1 ∷ 2 ∷ []) (3 ∷ []) fresh-IsClocked (omega arith) refl (omega arith)
      (omega arith) (omega arith) (omega arith) 7 (omega arith)

-- Process 4 sleeps behind process 3.
abbrev two : Kernel
two = record kernel {
  proc = update kernel.proc 3 (record blank { pid = 3; delta_slice = 100; next = 4 });
}

two-ready : IsQueue two.proc two.ready_q (1 ∷ 2 ∷ [])
two-ready = record {
  chain = cons refl (omega arith) (cons refl (omega arith) (nil refl));
  distinct = omega arith;
  slots = omega arith;
}

two-IsDelta : IsDelta two.proc two.sleep_q (3 ∷ 4 ∷ [])
two-IsDelta = record {
  queue = record {
    chain = cons refl (omega arith) (cons refl (omega arith) (nil refl));
    distinct = omega arith;
    slots = omega arith;
  };
  fits = (omega arith, (omega arith, tt));
  pending = omega arith;
}

wake_early-delayed_example :
    Returns
      (λ _ k'.
        IsQueue k'.proc k'.ready_q (1 ∷ 2 ∷ 3 ∷ [])
        × IsDelta k'.proc k'.sleep_q (4 ∷ [])
        × (remaining k'.proc k'.slice_elapsed (4 ∷ [])
            ≡ delayed 50 (alarms two.proc (100 - 50) (4 ∷ []))))
      (wake_early 3 two)
wake_early-delayed_example =
    wake_early-delayed two 3 (1 ∷ 2 ∷ []) (4 ∷ []) two-ready two-IsDelta (omega arith) (omega arith)

wake_early-cancels_example :
    Returns
      (λ _ k'.
        IsQueue k'.proc k'.ready_q (1 ∷ 2 ∷ 4 ∷ [])
        × IsDelta k'.proc k'.sleep_q (3 ∷ [])
        × (alarms k'.proc 0 (3 ∷ []) ≡ cancel 4 (alarms two.proc 0 (3 ∷ 4 ∷ [])))
        × ((k'.proc 4).rc ≡ due_after two.proc 0 (3 ∷ []) + (two.proc 4).delta_slice)
        × (k'.slice_elapsed ≡ two.slice_elapsed))
      (wake_early 4 two)
wake_early-cancels_example =
    wake_early-cancels two 3 4 (1 ∷ 2 ∷ []) [] [] two-ready two-IsDelta (omega arith)
      (omega arith, tt)
