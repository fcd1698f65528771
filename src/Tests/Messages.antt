-- ===== src/Tests/Messages.antt =====
-- Examples for the queues of c/msg.c: process 5 is blocked on process 4, which has it as a sender.
use bkernel.Base.{◌≡◌, [], ◌∷◌, arith}
use bkernel.Kernel.{Returns}
use bkernel.Queue.Valid.{IsQueue}
use bkernel.Disp.{queue_of, senders}
use bkernel.Disp.Ready.{KeepsOthers}
use bkernel.Msg.{block, unblock}
use bkernel.Msg.Fields.{SameButQueue}
use bkernel.Msg.Blocked.{block-pushes}
use bkernel.Msg.Unblocked.{Unblocked, unblock-Unblocked}
use bkernel.Tests.Sample.{kernel, senders-IsQueue}

block-pushes_example :
    Returns
      (λ _ k'.
        IsQueue k'.proc (queue_of senders (k'.proc 4)) (5 ∷ 3 ∷ [])
        × KeepsOthers kernel.proc k'.proc 3 (5 ∷ [])
        × SameButQueue senders 4 kernel.proc k'.proc
        × (k' ≡ record kernel { proc = k'.proc }))
      (block senders 4 3 kernel)
block-pushes_example =
    block-pushes kernel senders 4 3 (omega arith) (omega arith) (5 ∷ []) senders-IsQueue
      (omega arith) (omega arith)

unblock-Unblocked_example :
    Returns (Unblocked kernel senders 4 5 (5 ∷ [])) (unblock senders 4 5 kernel)
unblock-Unblocked_example =
    unblock-Unblocked kernel senders 4 5 (omega arith) (5 ∷ []) senders-IsQueue
