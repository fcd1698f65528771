-- ===== src/Dispatch/Rounds.antt =====
-- The dispatcher of c/disp.c gives the processor to each ready process in turn.
use bkernel.Base.{
  ℕ, ◌≡◌, ◌∙◌, refl, List, ◌∷◌, Bool, ◌&&◌, ◌==◌, if◌then◌else◌, ltb, arith, length, snoc, bit_and,
  Bool-cases, inl, inr,
}
use bkernel.Kernel.{
  Image, Kernel, Pcb, null, idle_proc_pid, running_state, ready_state, with_state, with_next,
  update, Returns, done-Returns,
}
use bkernel.Queue.Chain.{Procs, head_of_Chain, pushed_fields}
use bkernel.Queue.Valid.{IsQueue, IsQueue-tail, IsQueue-same, IsQueue-pushed}
use bkernel.Disp.{ready, next_ready}
use bkernel.Disp.Ready.{count-length, ready_run}
use bkernel.Calls.{yield_request, read_request, process_request}
use bkernel.Ctsw.{Trap, with_args, with_esp, context_switch}
use bkernel.Dispatch.{take_request, serve, dispatch_round}

-- The process comes back with the request YIELD.
abbrev pub yields : Trap → Trap
yields t = record t { interrupt = 0; rc = yield_request }

-- No signal that it does not ignore is pending for the process.
abbrev pub IsQuiet : Pcb → Type 0
IsQuiet r = bit_and r.sig_pend_mask r.sig_ignore_mask ≡ 0

-- The table when the process runs, and when its arguments are stored.
abbrev pub running : Kernel → ℕ → Procs
running k x = update k.proc x (with_state running_state (k.proc x))

abbrev given : Kernel → Trap → ℕ → Procs
given k t x = let f = running k x in if t.args == 0 then f else update f x (with_args t.args (f x))

module _ (image : Image) (k : Kernel) (t : Trap) (x : ℕ) (xs : List ℕ) where
  abbrev pub gives_way : Bool
  gives_way = (k.proc x).pid == idle_proc_pid && ltb 0 (length xs)

  -- The table in which the dispatcher makes the process ready again.
  abbrev pub ran : Procs
  ran =
      let g = given k t x in
      let h = update g x (with_esp t.esp (g x)) in update h x (with_state ready_state (h x))

  abbrev pub after_run : Procs
  after_run = if gives_way then k.proc else ran

  dispatch_round_run :
      IsQueue k.proc k.ready_q (x ∷ xs)
      → IsQuiet (k.proc x)
      → dispatch_round image (yields t) k
        ≡ ready x (record k { proc = after_run; ready_q = (k.proc x).next })
  unfolding dispatch_round next_ready context_switch take_request read_request process_request serve
  dispatch_round_run v q =
      let popped = record k { ready_q = (k.proc x).next } in
      ground (arith, head_of_Chain v.chain, count-length popped xs (IsQueue-tail v))

  pub after_run-IsQuiet : (a : ℕ) → IsQuiet (k.proc a) → IsQuiet (after_run a)
  after_run-IsQuiet a q = ground arith

  pub after_run-pid : (a : ℕ) → (after_run a).pid ≡ (k.proc a).pid
  after_run-pid a = ground arith

  -- A round for a process that yields: on a valid ready queue the first process, if no signal is
  -- pending that it does not ignore, is put behind the others. The idle process gives way without
  -- running where others are ready; any other is READY_STATE with its new stack pointer and arguments. No other
  -- field but `next` changes, and nothing but the table and the ready queue does.
  pub dispatch_round-yields :
      IsQueue k.proc k.ready_q (x ∷ xs)
      → IsQuiet (k.proc x)
      → Returns
          (λ _ k'.
            IsQueue k'.proc k'.ready_q (snoc xs x)
            × ((a : ℕ) → with_next null (k'.proc a) ≡ with_next null (after_run a))
            × (k' ≡ record k { proc = k'.proc; ready_q = k'.ready_q }))
          (dispatch_round image (yields t) k)
  dispatch_round-yields v q =
      done-Returns (dispatch_round_run v q ∙ ready_run popped x xs kept v.slots.0 v.distinct.0)
        (IsQueue-pushed x v.slots.0 v.distinct.0 kept, pushed_fields after_run xs x, refl)
    where
      popped : Kernel
      popped = record k { proc = after_run; ready_q = (k.proc x).next }

      entered : IsQueue (running k x) (k.proc x).next xs
      entered = IsQueue-same x _ refl (IsQueue-tail v)

      took : IsQueue (given k t x) (k.proc x).next xs
      took = elim (Bool-cases (t.args == 0)) [
        | inl absent ↦ rw absent entered
        | inr present ↦ rw present (IsQueue-same x _ refl entered)
      ]

      kept : IsQueue after_run (k.proc x).next xs
      kept = elim (Bool-cases gives_way) [
        | inl idle ↦ rw idle (IsQueue-tail v)
        | inr runs ↦ rw runs (IsQueue-same x _ refl (IsQueue-same x _ refl took))
      ]
