-- ===== src/Tests/Queues.antt =====
-- Examples for the queues of c/disp.c.
use bkernel.Base.{ℕ, ◌≡◌, [], ◌∷◌, ◌==◌, if◌then◌else◌, arith}
use bkernel.Kernel.{Pcb, null, err_ipc, Returns, with_next, with_rc}
use bkernel.Queue.Valid.{IsQueue}
use bkernel.Disp.{get_proc, ready, release, senders, with_queue}
use bkernel.Disp.Ready.{KeepsOthers, SameFields, ready-pushes}
use bkernel.Disp.Lookup.{Answer, get_proc-Answer}
use bkernel.Disp.Release.{has, release-Moved}
use bkernel.Tests.Sample.{kernel, ready-IsQueue, senders-IsQueue}

ready-pushes_example :
    Returns
      (λ _ k'.
        IsQueue k'.proc k'.ready_q (1 ∷ 2 ∷ 4 ∷ [])
        × KeepsOthers kernel.proc k'.proc 4 (1 ∷ 2 ∷ [])
        × SameFields kernel.proc k'.proc
        × (k' ≡ record kernel { proc = k'.proc; ready_q = k'.ready_q }))
      (ready 4 kernel)
ready-pushes_example = ready-pushes kernel 4 (1 ∷ 2 ∷ []) ready-IsQueue (omega arith) (omega arith)

release-Moved_example :
    Returns
      (λ _ k'.
        IsQueue k'.proc k'.ready_q (1 ∷ 2 ∷ 5 ∷ [])
        × ((a : ℕ)
            → with_next null (k'.proc a)
              ≡ with_next null (
                  let f : Pcb =
                    if has a (5 ∷ []) then with_rc err_ipc (kernel.proc a) else kernel.proc a in
                  if a == 4 then with_queue senders null f else f))
        × (k' ≡ record kernel { proc = k'.proc; ready_q = k'.ready_q }))
      (release senders 4 kernel)
release-Moved_example =
    release-Moved kernel senders 4 (1 ∷ 2 ∷ []) (5 ∷ []) ready-IsQueue senders-IsQueue (omega arith)
      (omega arith)

get_proc-Answer_example :
    Returns (λ p k'. Answer kernel.proc 4 p × (k' ≡ kernel)) (get_proc 4 kernel)
get_proc-Answer_example = get_proc-Answer kernel 4
