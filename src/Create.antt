-- ===== src/Create.antt =====
-- c/create.c: process ids and the creation of processes.
pub mod Loops
pub mod Bounds
pub mod Search
pub mod Fresh
use bkernel.Base.{
  ℕ, zero, suc, ◌+◌, ◌-◌, Option, none, some, Bool, true, false, ◌&&◌, ◌||◌, ◌==◌, if◌then◌else◌,
  ltb, lt_signed, add32, sub32, replicate, neg,
}
use bkernel.Kernel.{
  Pcb, Image, null, proc_sz, sig_sz, fd_sz, invalid_pid, min_pid_bound, max_pid_bound,
  idle_proc_pid, min_stack, ready_state, sig_on, sig_off, sys_err, Cmd, ◌>>=◌, ◌>>◌, pure, get, put,
  crash, load, modify, store_word,
}
use bkernel.Queue.Chain.{Procs}
use bkernel.Mem.Alloc.{kmalloc}
use bkernel.Disp.{ready}

-- The inner loop of the first search: no slot from `i` on, `n` before the end, has the pid.
unfoldable pub pid_unused : ℕ → Procs → ℕ → ℕ → Bool
pid_unused zero f pid i = false
pid_unused (suc n) f pid i =
    let rest = pid_unused n f pid (i + 1) in
    if (f (i + 1)).pid == pid then false else if i == proc_sz - 1 then true else rest

-- The first search, with `n` pids to go before `max_pid`.
unfoldable pub first_unused : ℕ → Procs → ℕ → Option ℕ
first_unused zero f pid = none
first_unused (suc n) f pid =
    let rest = first_unused n f (pid + 1) in if pid_unused proc_sz f pid 0 then some pid else rest

-- The inner loop of the second search: it skips the slots that have the pid.
unfoldable pub last_slot_differs : ℕ → Procs → ℕ → ℕ → Bool
last_slot_differs zero f pid i = false
last_slot_differs (suc n) f pid i =
    let rest = last_slot_differs n f pid (i + 1) in
    if (f (i + 1)).pid == pid then rest else if i == proc_sz - 1 then true else rest

-- The second search: where it leaves `next_pid`.
unfoldable pub next_candidate : ℕ → Procs → ℕ → ℕ
next_candidate zero f pid = pid
next_candidate (suc n) f pid =
    let rest = next_candidate n f (pid + 1) in
    if last_slot_differs proc_sz f pid 0 then pid else rest

-- The pid that the search starts with: past `max_pid`, and wrapped around at `MAX_PID`.
unfoldable pub start_pid : ℕ → ℕ → ℕ → ℕ
start_pid next_pid min_pid max_pid =
    let pid = if next_pid == max_pid then max_pid + 1 else next_pid in
    if pid == max_pid_bound
    then (let low = min_pid_bound + 1 in
        let low' = if low == min_pid then min_pid + 1 else low in
        if low' == max_pid then max_pid + 1 else low')
    else pid

-- The searches between `min_pid` and `max_pid`, from `pid` on.
unfoldable pub find_between : ℕ → Cmd ℕ
find_between pid = do
  k ← get (λ k. k)
  elim (first_unused (k.max_pid - pid) k.proc pid) [
    | none ↦ pure sys_err
    | some found ↦ do
      put (λ k. record k { next_pid = next_candidate (k.max_pid - (found + 1)) k.proc (found + 1) })
      pure found
  ]

unfoldable pub find_pid : Cmd ℕ
unfolding start_pid
find_pid = do
  k ← get (λ k. k)
  let pid = start_pid k.next_pid k.min_pid k.max_pid
  if ltb k.max_pid pid && ltb pid max_pid_bound
      then (do put (λ k. record k { next_pid = pid + 1; max_pid = pid }); pure pid)
      else if ltb pid k.min_pid && ltb min_pid_bound pid
      then (do
        put (λ k. record k {
          next_pid = if pid + 2 == k.max_pid then k.max_pid else pid + 1;
          min_pid = pid;
        })
        pure pid)
      else find_between pid

-- The loops of `set_max_pid`; the first is `none` if it leaves the table.
unfoldable pub skip_idle : ℕ → Procs → ℕ → Option ℕ
skip_idle zero f i = none
skip_idle (suc n) f i =
    let rest = skip_idle n f (i + 1) in if (f (i + 1)).pid == idle_proc_pid then rest else some i

unfoldable pub max_from : ℕ → Procs → ℕ → ℕ → ℕ
max_from zero f i best = best
max_from (suc n) f i best =
    max_from n f (i + 1) (if ltb best (f (i + 1)).pid then (f (i + 1)).pid else best)

unfoldable pub set_max_pid : Cmd (Unit {0})
set_max_pid = do
  f ← get (λ k. k.proc)
  elim (skip_idle proc_sz f 0) [
    | none ↦ crash
    | some i ↦ put (λ k. record k { max_pid = max_from (proc_sz - i) f i (f (i + 1)).pid })
  ]

unfoldable pub min_from : ℕ → Procs → ℕ → ℕ → ℕ
min_from zero f i best = best
min_from (suc n) f i best = min_from n f (i + 1) (
    let pid = (f (i + 1)).pid in
    if pid == idle_proc_pid || pid == invalid_pid then best else if ltb pid best then pid else best)

unfoldable pub set_min_pid : Cmd (Unit {0})
set_min_pid = do
  f ← get (λ k. k.proc)
  put (λ k. record k {
    min_pid =
        let best = min_from (proc_sz - 1) f 1 (f 1).pid in
        if best == invalid_pid then min_pid_bound else best;
  })

-- The offsets of `context_frame_t` that the kernel writes, its size and the padding.
abbrev pub frame_size : ℕ
frame_size = 48

abbrev pub stack_pad : ℕ
stack_pad = 0x10

abbrev pub initial_eflags : ℕ
initial_eflags = 0x3200

module _ (image : Image) where
  -- The pid of a new process.
  choose_pid : ℕ → Cmd ℕ
  choose_pid func = if func == image.idleproc then pure idle_proc_pid else find_pid

  build_frame : ℕ → ℕ → Cmd (Unit {0})
  build_frame frame func = do
    store_word frame 36 image.cs
    store_word frame 32 func
    store_word frame 12 frame
    store_word frame 8 frame
    store_word frame 40 initial_eflags
    store_word frame 44 image.sysstop

  -- What `create` sets in the process block beside its memory and its pid.
  unfoldable pub init_pcb : Pcb → Pcb
  init_pcb r = record r {
    sig_table = replicate sig_sz 0;
    sig_pend_mask = sig_off;
    sig_install_mask = sig_off;
    sig_ignore_mask = sig_on;
    fd_table = replicate fd_sz (neg 1);
    state = ready_state;
    blocked_senders = null;
    blocked_receivers = null;
    ptr = null;
  }

  unfoldable pub create : ℕ → ℕ → Cmd ℕ
  unfolding choose_pid build_frame init_pcb
  create func stack = if func == null || lt_signed stack min_stack then pure sys_err else do
    p ← get (λ k. k.stop_q)
    if p == null then pure sys_err else do
      r ← load p
      put (λ k. record k { stop_q = r.next })
      mem ← kmalloc stack
      if mem == null then pure sys_err else do
        modify p (λ r. record r { mem = mem })
        let frame = sub32 (add32 mem stack) (frame_size + stack_pad)
        build_frame frame func
        modify p (λ r. record r { esp = frame })
        pid ← choose_pid func
        if pid == sys_err
            then pure sys_err
            else do modify p (λ r. init_pcb (record r { pid = pid })); ready p; pure pid
