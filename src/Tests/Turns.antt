-- ===== src/Tests/Turns.antt =====
-- Examples for the dispatcher: the idle process 1 and process 2 are ready.
use bkernel.Base.{◌≡◌, [], ◌∷◌, refl, arith}
use bkernel.Kernel.{Returns}
use bkernel.Queue.Valid.{IsQueue}
use bkernel.Ctsw.{Trap}
use bkernel.Dispatch.{dispatch_round}
use bkernel.Dispatch.Rounds.{yields}
use bkernel.Dispatch.Turns.{turns, rotate, HasTurn, turns-rotate}
use bkernel.Tests.Sample.{kernel, image, ready-IsQueue}

abbrev trap : Trap
trap = record { esp = 0x7000; rc = 0; interrupt = 0; args = 0x6000; port_status = 0; port_code = 0 }

turns-rotate_example :
    Returns
      (λ _ k'.
        (k'.ready_q ≡ 2)
        × IsQueue k'.proc k'.ready_q (rotate 1 (1 ∷ 2 ∷ []))
        × ((k'.proc 2).pid ≡ (kernel.proc 2).pid)
        × Returns
            (λ _ k''.
              IsQueue k''.proc k''.ready_q (rotate 2 (1 ∷ 2 ∷ [])) × HasTurn k' k'' trap 2 1)
            (dispatch_round image (yields trap) k'))
      (turns image (λ n. trap) 1 kernel)
turns-rotate_example =
    turns-rotate image (λ n. trap) 1 kernel trap 1 (2 ∷ []) (omega arith) ready-IsQueue
      (refl, (refl, tt))
