-- ===== src/Tests/Pids.antt =====
-- Examples for the process ids of c/create.c.
use bkernel.Create.Bounds.{IsFilled, Extremes, set_max_pid-Extremes}
use bkernel.Base.{ℕ, ◌⊎◌, refl, ◌≡◌, ◌≤◌, ◌<◌, arith}
use bkernel.Kernel.{Kernel, done, Returns, sys_err, update, ◌>>◌}
use bkernel.Queue.Valid.{IsSlot}
use bkernel.Create.{set_max_pid, set_min_pid, find_pid, start_pid}
use bkernel.Create.Fresh.{PidBounds, Outcome, find_pid-Found, find_pid-PidBounds, find_pid-gives_up}
use bkernel.Tests.Sample.{kernel}

kernel-PidBounds : PidBounds kernel
kernel-PidBounds = record {
  upper = λ a s. ground arith;
  lower = λ a s. ground arith;
  ordered = omega arith;
  positive = omega arith;
  small = omega arith;
  next_low = omega arith;
  next_high = omega arith;
}

find_pid-Found_example : Returns (Outcome kernel) (find_pid kernel)
find_pid-Found_example = find_pid-Found kernel kernel-PidBounds

find_pid-PidBounds_example :
    Returns
      (λ r k'.
        ((r ≡ sys_err) × (k' ≡ kernel))
        ⊎ PidBounds (record k' { proc = update k'.proc 6 (record (k'.proc 6) { pid = r }) }))
      (find_pid kernel)
find_pid-PidBounds_example = find_pid-PidBounds kernel kernel-PidBounds 6

-- The pid 4 is in use, and the search does not turn back to the free pids below it.
abbrev late_kernel : Kernel
late_kernel = record kernel { next_pid = 4 }

late-PidBounds : PidBounds late_kernel
late-PidBounds = record {
  upper = kernel-PidBounds.upper;
  lower = kernel-PidBounds.lower;
  ordered = omega arith;
  positive = omega arith;
  small = omega arith;
  next_low = omega arith;
  next_high = omega arith;
}

IsSlot-of_four : (q : ℕ) → 4 ≤ q → q < 5 → (a : ℕ) × IsSlot a × ((late_kernel.proc a).pid ≡ q)
IsSlot-of_four q lo hi = (4, omega arith, omega arith)

find_pid-gives_up_example : find_pid late_kernel ≡ done sys_err late_kernel
unfolding start_pid
find_pid-gives_up_example =
    find_pid-gives_up late_kernel late-PidBounds (omega arith) (omega arith) IsSlot-of_four

kernel-IsFilled : IsFilled kernel.proc
kernel-IsFilled = record { idle = refl; alone = λ a s e. ground arith; range = λ a s. ground arith }

set_max_pid-Extremes_example : Returns (λ _. Extremes kernel) ((set_max_pid >> set_min_pid) kernel)
set_max_pid-Extremes_example =
    set_max_pid-Extremes kernel kernel-IsFilled 5 (omega arith) (omega arith)
