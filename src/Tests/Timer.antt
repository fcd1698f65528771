-- ===== src/Tests/Timer.antt =====
-- Examples for the timer of c/sleep.c.
use bkernel.Base.{◌+◌, ◌≡◌, true, false, arith}
use bkernel.Kernel.{Kernel, done, Returns}
use bkernel.Sleep.{tick, sleep}
use bkernel.Sleep.Timer.{ticks, tick-on_time, tick-overdue, sleep-starves}
use bkernel.Tests.Sample.{kernel}

tick-on_time_example :
    (ticks 49 kernel ≡ done false (record kernel { slice_elapsed = 99 }))
    × (tick (record kernel { slice_elapsed = 99 })
        ≡ done true (record kernel { slice_elapsed = 0 }))
tick-on_time_example = tick-on_time kernel (omega arith) 49 (omega arith) (omega arith)

abbrev late : Kernel
late = record kernel { slice_elapsed = 100 }

tick-overdue_example : ticks 1000 late ≡ done false (record late { slice_elapsed = 1100 })
tick-overdue_example = tick-overdue late (omega arith) 1000 (omega arith) (omega arith)

-- Fifty ticks into the sleep of process 3, process 4 asks for ten slices.
sleep-starves_example :
    Returns
      (λ _ k'.
        (k'.sleep_q ≡ 4)
        × (ticks 1000 k' ≡ done false (record k' { slice_elapsed = k'.slice_elapsed + 1000 })))
      (sleep 4 kernel)
sleep-starves_example =
    sleep-starves kernel 4 1000 (omega arith) (omega arith) (omega arith) (omega arith)
      (omega arith) (omega arith)
