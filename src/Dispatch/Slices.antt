-- ===== src/Dispatch/Slices.antt =====
-- Rounds of the dispatcher of c/disp.c in which every process that runs is stopped by the timer.
use bkernel.Base.{
  ℕ, ◌≡◌, sym, subst, ap, ◌∙◌, List, ◌∷◌, ◌++◌, arith, snoc, true, false, Bool-cases, inl, inr,
  ◌==◌, if◌then◌else◌, Apart-snoc, NotIn,
}
use bkernel.Kernel.{Kernel, Image, Returns, done-Returns, weaken, update, idle_proc_pid, with_rc}
use bkernel.Queue.Chain.{Procs, head_of_Chain, pushed, pushed_fields}
use bkernel.Queue.Same.{SameOn, Chain-SameOn, SameOn-but_one}
use bkernel.Queue.Valid.{IsQueue, IsQueue-tail, IsQueue-pushed, IsQueue-pushed_other}
use bkernel.Disp.{ready, next_ready}
use bkernel.Disp.Ready.{count-length, ready_run}
use bkernel.Sleep.Wake.{SameDeltas}
use bkernel.Sleep.Clock.{rung, waiting, Fits-earlier, IsEarly-kept}
use bkernel.Calls.{timer_int_request, read_request}
use bkernel.Ctsw.{Trap, with_args, with_esp, context_switch}
use bkernel.Dispatch.{take_request, serve, serve_timer, dispatch_round}
use bkernel.Dispatch.Ticks.{IsClocked, due_in}
use bkernel.Dispatch.Rounds.{IsQuiet, running, gives_way}
use bkernel.Dispatch.Layout.{IsOut}
use bkernel.Dispatch.Interrupt.{Interrupted, remaining-SameDeltas, serve_timer-Interrupted}

-- The run ends with a timer interrupt.
abbrev pub sliced : Trap → Trap
sliced t = record t { interrupt = timer_int_request }

-- The lists are valid, no signal is pending and `i` alone has the pid of the idle process.
pub record IsTimed (i : ℕ) (k : Kernel) (xs ys : List ℕ) : Type 0 where
  pub clocked : IsClocked k xs ys
  pub quiet : (a : ℕ) → IsQuiet (k.proc a)
  pub lone : (a : ℕ) → (k.proc a).pid ≡ idle_proc_pid → a ≡ i

-- The fields that are neither times nor links, nor part of what a run changes.
abbrev pub SameNames : Procs → Procs → Type 0
SameNames f g =
    (a : ℕ)
    → ((g a).pid ≡ (f a).pid)
      × ((g a).sig_pend_mask ≡ (f a).sig_pend_mask)
      × ((g a).sig_ignore_mask ≡ (f a).sig_ignore_mask)

pub IsTimed-SameNames :
    (i : ℕ) (k k' : Kernel) (xs ys zs order : List ℕ)
    → SameNames k.proc k'.proc
    → IsClocked k' zs order
    → IsTimed i k xs ys
    → IsTimed i k' zs order
IsTimed-SameNames i k k' xs ys zs order s c w = record {
  clocked = c;
  quiet = λ a. rw ((s a).1, (s a).2) (w.quiet a);
  lone = λ a e. w.lone a (sym (s a).0 ∙ e);
}

IsQueue-SameOn :
    {f g : Procs} {q : ℕ} {xs : List ℕ} → SameOn f g xs → IsQueue f q xs → IsQueue g q xs
IsQueue-SameOn s v = record {
  chain = Chain-SameOn s v.chain;
  distinct = v.distinct;
  slots = v.slots;
}

module _ (image : Image) (i : ℕ) (k : Kernel) (t : Trap) (y : ℕ) (xs ys : List ℕ)
    (w : IsTimed i k (y ∷ xs) ys) where
  -- What a round leaves. The idle process gives way to others; any other process runs, stands behind
  -- those that are woken, and each alarm is one slice nearer.
  pub data Sliced (k' : Kernel) : Type 0 where
    gave_way :
        gives_way image k t y xs ≡ true
        → IsTimed i k' (snoc xs y) ys
        → due_in k' ys ≡ due_in k ys
        → Sliced k'
    ran :
        gives_way image k t y xs ≡ false
        → (order : List ℕ) → IsTimed i k' (snoc (xs ++ rung (due_in k ys)) y) order
        → due_in k' order ≡ waiting (due_in k ys)
        → Sliced k'

  abbrev popped : Kernel
  popped = record k { ready_q = (k.proc y).next }

  out : IsOut y xs ys
  out = record {
    slot = w.clocked.ready.slots.0;
    unready = w.clocked.ready.distinct.0;
    awake = w.clocked.apart.0;
  }

  -- The table when the interrupt is served.
  abbrev cut : Procs
  cut =
      let f = running k y in
      let g = update f y (with_rc t.rc (f y)) in
      let h = if t.args == 0 then g else update g y (with_args t.args (g y)) in
      update h y (with_esp t.esp (h y))

  waits_run : gives_way image k t y xs ≡ true → dispatch_round image (sliced t) k ≡ ready y popped
  unfolding dispatch_round next_ready
  waits_run h = ground (
    arith,
    head_of_Chain w.clocked.ready.chain,
    count-length popped xs (IsQueue-tail w.clocked.ready),
  )

  slice_run :
      gives_way image k t y xs ≡ false
      → dispatch_round image (sliced t) k ≡ serve_timer y (record popped { proc = cut })
  unfolding dispatch_round next_ready context_switch take_request read_request serve
  slice_run h = ground (
    arith,
    head_of_Chain w.clocked.ready.chain,
    count-length popped xs (IsQueue-tail w.clocked.ready),
    w.quiet y,
  )

  cut-SameOn : (zs : List ℕ) → NotIn y zs → SameOn k.proc cut zs
  cut-SameOn zs n = SameOn-but_one k.proc cut y zs n (λ a h. ground arith)

  cut_deltas : SameDeltas k.proc cut
  cut_deltas a = ground arith

  cut_names : SameNames k.proc cut
  cut_names a = ground arith

  cut-IsClocked : IsClocked (record popped { proc = cut }) xs ys
  cut-IsClocked = record {
    ready = IsQueue-SameOn (cut-SameOn xs out.unready) (IsQueue-tail w.clocked.ready);
    asleep = IsQueue-SameOn (cut-SameOn ys out.awake) w.clocked.asleep;
    fits = Fits-earlier k.proc cut 0 0 ys cut_deltas (omega arith) w.clocked.fits;
    early = IsEarly-kept k.proc cut k.slice_elapsed ys cut_deltas w.clocked.early;
    apart = w.clocked.apart.1;
  }

  cut_due : due_in (record popped { proc = cut }) ys ≡ due_in k ys
  unfolding due_in
  cut_due = remaining-SameDeltas k.proc cut k.slice_elapsed ys cut_deltas

  Interrupted-Sliced :
      gives_way image k t y xs ≡ false
      → (k' : Kernel) → Interrupted y (record popped { proc = cut }) xs ys k'
      → Sliced k'
  Interrupted-Sliced h k' s =
      ran h s.order
        (IsTimed-SameNames i k k' (y ∷ xs) ys _ s.order
          (λ a.
            let e = s.fields a in
            (
              ap (λ r. r.pid) e ∙ ground arith,
              ap (λ r. r.sig_pend_mask) e ∙ ground arith,
              ap (λ r. r.sig_ignore_mask) e ∙ ground arith,
            ))
          (subst (λ rs. IsClocked k' (snoc (xs ++ rung rs) y) s.order) cut_due s.clocked) w)
        (s.left ∙ ap waiting cut_due)

  abbrev behind : Procs
  behind = pushed k.proc xs y

  behind_deltas : SameDeltas k.proc behind
  behind_deltas a = ap (λ r. r.delta_slice) (pushed_fields k.proc xs y a)

  waited-Sliced :
      gives_way image k t y xs ≡ true
      → (q : ℕ) → IsQueue behind q (snoc xs y)
      → Sliced (record k { proc = behind; ready_q = q })
  unfolding due_in
  waited-Sliced h q v =
      gave_way h
        (IsTimed-SameNames i k (record k { proc = behind; ready_q = q }) (y ∷ xs) ys (snoc xs y) ys
          (λ a.
            let e = pushed_fields k.proc xs y a in
            (ap (λ r. r.pid) e, ap (λ r. r.sig_pend_mask) e, ap (λ r. r.sig_ignore_mask) e))
          (record {
            ready = v;
            asleep = IsQueue-pushed_other xs y out.awake w.clocked.apart.1 w.clocked.asleep;
            fits = Fits-earlier k.proc behind 0 0 ys behind_deltas (omega arith) w.clocked.fits;
            early = IsEarly-kept k.proc behind k.slice_elapsed ys behind_deltas w.clocked.early;
            apart = Apart-snoc xs y ys w.clocked.apart.1 out.awake;
          })
          w)
        (remaining-SameDeltas k.proc behind k.slice_elapsed ys behind_deltas)

  pub dispatch_round-Sliced : Returns (λ _. Sliced) (dispatch_round image (sliced t) k)
  dispatch_round-Sliced = elim (Bool-cases (gives_way image k t y xs)) [
    | inl idle ↦
        let v = IsQueue-tail w.clocked.ready in
        done-Returns (waits_run idle ∙ ready_run popped y xs v out.slot out.unready)
          (waited-Sliced idle _ (IsQueue-pushed y out.slot out.unready v))
    | inr runs ↦ rw (slice_run runs) (
        weaken (serve_timer-Interrupted (record popped { proc = cut }) y xs ys out cut-IsClocked)
          (λ u. Interrupted-Sliced runs))
  ]
