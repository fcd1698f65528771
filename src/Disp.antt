-- ===== src/Disp.antt =====
-- c/disp.c: the ready queue and the stop queue. (The service of each request is in Dispatch.antt.)
pub mod Ready
pub mod Lookup
pub mod Release
use bkernel.Base.{ℕ, zero, suc, ◌+◌, ◌==◌, if◌then◌else◌}
use bkernel.Kernel.{
  Pcb, null, proc_sz, invalid_pid, err_ipc, spin, Cmd, ◌>>=◌, ◌>>◌, pure, get, ended, put, skip,
  load, modify, with_next, with_rc,
}
use bkernel.Queue.Chain.{Procs}
use bkernel.Queue.Walk.{rounds, find_last, count_from}

-- The loop of `get_proc` from slot `i` on, `n` slots before the end of the table.
unfoldable pub scan_table : ℕ → Procs → ℕ → ℕ → ℕ
scan_table zero f pid i = null
scan_table (suc n) f pid i =
    let rest = scan_table n f pid (i + 1) in if (f (i + 1)).pid == pid then i + 1 else rest

unfoldable pub get_proc : ℕ → Cmd ℕ
get_proc pid = get (λ k. scan_table proc_sz k.proc pid 0)

unfoldable pub next_ready : Cmd ℕ
next_ready = do
  p ← get (λ k. k.ready_q)
  if p == null then pure p else do r ← load p; put (λ k. record k { ready_q = r.next }); pure p

unfoldable pub ready : ℕ → Cmd (Unit {0})
ready p = do
  tmp ← get (λ k. k.ready_q)
  modify p (with_next null)
  if tmp == null then (do put (λ k. record k { ready_q = p }); modify p (with_next null)) else (do
    f ← get (λ k. k.proc)
    tail ← ended (find_last rounds f tmp)
    modify tail (with_next p))

unfoldable pub count : Cmd ℕ
count = do f ← get (λ k. k.proc); tmp ← get (λ k. k.ready_q); ended (count_from rounds f tmp 0)

unfoldable pub stop : ℕ → Cmd (Unit {0})
stop p = do
  tmp ← get (λ k. k.stop_q)
  modify p (λ r. record r { next = null; pid = invalid_pid })
  if tmp == null then (do put (λ k. record k { stop_q = p }); modify p (with_next null)) else (do
    f ← get (λ k. k.proc)
    tail ← ended (find_last rounds f tmp)
    modify tail (with_next p))

-- The two queues that a process owns.
pub data Side : Type 0 where
  senders receivers : Side

abbrev pub queue_of : Side → Pcb → ℕ
queue_of senders r = r.blocked_senders
queue_of receivers r = r.blocked_receivers

abbrev pub with_queue : Side → ℕ → Pcb → Pcb
with_queue senders q r = record r { blocked_senders = q }
with_queue receivers q r = record r { blocked_receivers = q }

unfoldable pub release_loop : ℕ → ℕ → Cmd (Unit {0})
release_loop zero tmp = λ k. spin
release_loop (suc n) tmp =
    if tmp == null
    then skip
    else do r ← load tmp; modify tmp (with_rc err_ipc); ready tmp; release_loop n r.next

-- `release(&(p->blocked_senders))` and `release(&(p->blocked_receivers))`
unfoldable pub release : Side → ℕ → Cmd (Unit {0})
release side p = do
  r ← load p
  release_loop rounds (queue_of side r)
  modify p (with_queue side null)
