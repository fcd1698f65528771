-- ===== src/Dispatch/Interrupt.antt =====
-- A timer interrupt as a whole, in the dispatcher of c/disp.c: the sleep device, and the process that
-- was interrupted.
use bkernel.Base.{
  ℕ, ◌+◌, ◌≡◌, refl, sym, subst, ap, ◌∙◌, List, [], ◌∷◌, ◌++◌, arith, NotIn, Apart-snoc,
  NotIn-append, snoc, leb, Bool-cases, inl, inr, ne→==,
}
use bkernel.Kernel.{
  Kernel, Returns, done-Returns, after, update, null, with_rc, with_state, ready_state,
}
use bkernel.Queue.Chain.{Procs, pushed, pushed_fields}
use bkernel.Queue.Valid.{IsQueue, IsQueue-frame, IsQueue-pushed, IsQueue-pushed_other}
use bkernel.Disp.Ready.{ready_run}
use bkernel.Sleep.Delta.{Alarm, alarms}
use bkernel.Sleep.Wake.{settled, SameDeltas}
use bkernel.Sleep.Clock.{remaining, rung, waiting, Fits-earlier, IsEarly-kept, alarms-SameDeltas}
use bkernel.Dispatch.{back_to_ready, serve_timer}
use bkernel.Dispatch.Ticks.{IsClocked, Ticked, due_in, timer_tick-Ticked}
use bkernel.Dispatch.Layout.{IsOut}

-- Whose alarms they are.
whos : List Alarm → List ℕ
whos [] = []
whos (a ∷ rs) = a.who ∷ whos rs

whos-alarms : (f : Procs) (from : ℕ) (ys : List ℕ) → whos (alarms f from ys) ≡ ys
unfolding whos alarms
whos-alarms f from [] = refl
whos-alarms f from (y ∷ ys) = ap (λ zs. y ∷ zs) (whos-alarms f (from + (f y).delta_slice) ys)

whos-remaining : (f : Procs) (e : ℕ) (ys : List ℕ) → whos (remaining f e ys) ≡ ys
unfolding whos remaining
whos-remaining f e [] = refl
whos-remaining f e (y ∷ ys) = ap (λ zs. y ∷ zs) (whos-alarms f _ ys)

rung-NotIn : (x : ℕ) (rs : List Alarm) → NotIn x (whos rs) → NotIn x (rung rs)
unfolding whos rung
rung-NotIn x [] n = tt
rung-NotIn x (a ∷ rs) n = elim (Bool-cases (leb a.at 1)) [
  | inl due ↦ rw due (n.0, rung-NotIn x rs n.1)
  | inr waits ↦ rw waits (rung-NotIn x rs n.1)
]

waiting-NotIn : (x : ℕ) (rs : List Alarm) → NotIn x (whos rs) → NotIn x (whos (waiting rs))
unfolding whos waiting
waiting-NotIn x [] n = tt
waiting-NotIn x (a ∷ rs) n = elim (Bool-cases (leb a.at 1)) [
  | inl due ↦ rw due (waiting-NotIn x rs n.1)
  | inr waits ↦ rw waits (n.0, waiting-NotIn x rs n.1)
]

pub remaining-SameDeltas :
    (f g : Procs) (e : ℕ) (ys : List ℕ) → SameDeltas f g → remaining g e ys ≡ remaining f e ys
unfolding remaining
remaining-SameDeltas f g e [] s = refl
remaining-SameDeltas f g e (y ∷ ys) s = rw (s y, alarms-SameDeltas f g _ ys s) refl

-- The table with the process in READY_STATE.
abbrev pub readied : Procs → ℕ → Procs
readied f x = update f x (with_state ready_state (f x))

-- What a timer interrupt of the process `x` leaves behind: who has slept its time is ready, then `x`,
-- and each other process has one slice less to wait. Who did not sleep keeps its return code.
pub record Interrupted (x : ℕ) (k : Kernel) (xs ys : List ℕ) (k' : Kernel) : Type 0 where
  pub order : List ℕ
  pub clocked : IsClocked k' (snoc (xs ++ rung (due_in k ys)) x) order
  pub left : due_in k' order ≡ waiting (due_in k ys)
  pub fields : (a : ℕ) → settled (k'.proc a) ≡ settled (readied k.proc x a)
  pub codes : (a : ℕ) → NotIn a ys → (k'.proc a).rc ≡ (k.proc a).rc
  pub rest : k' ≡ record k {
    proc = k'.proc;
    ready_q = k'.ready_q;
    sleep_q = k'.sleep_q;
    slice_elapsed = k'.slice_elapsed;
  }

-- Two processes that agree but for a link and a return code still do when one state is set.
settled-readied :
    (f g : Procs) (x : ℕ)
    → ((a : ℕ) → settled (g a) ≡ settled (f a))
    → (a : ℕ) → settled (readied g x a) ≡ settled (readied f x a)
settled-readied f g x same a =
    let own = ap (with_state ready_state) (same x) in let at = same a in ground arith

readied-rc : (f : Procs) (x a : ℕ) → (readied f x a).rc ≡ (f a).rc
readied-rc f x a = ground arith

module _ (k : Kernel) (x : ℕ) (xs ys : List ℕ) (o : IsOut x xs ys) (c : IsClocked k xs ys) where
  -- The process is in neither list after the sleep device's part.
  ready-NotIn : NotIn x (xs ++ rung (due_in k ys))
  unfolding due_in
  ready-NotIn =
      NotIn-append x xs (rung (due_in k ys)) o.unready
        (rung-NotIn x (due_in k ys) (subst (NotIn x) (sym (whos-remaining k.proc _ ys)) o.awake))

  order-NotIn : (k' : Kernel) → (t : Ticked k xs ys k') → NotIn x t.order
  unfolding due_in
  order-NotIn k' t =
      subst (NotIn x) (sym (ap whos t.left) ∙ whos-remaining k'.proc k'.slice_elapsed t.order) (
        waiting-NotIn x (due_in k ys)
          (subst (NotIn x) (sym (whos-remaining k.proc k.slice_elapsed ys)) o.awake))

  module _ (k' : Kernel) (t : Ticked k xs ys k') where
    abbrev zs : List ℕ
    zs = xs ++ rung (due_in k ys)

    abbrev table : Procs
    table = pushed (readied k'.proc x) zs x

    same_deltas : SameDeltas k'.proc table
    same_deltas a =
        ap (λ r. r.delta_slice) (pushed_fields (readied k'.proc x) zs x a) ∙ ground arith

    pushed-Interrupted :
        (q : ℕ)
        → IsQueue table q (snoc zs x)
        → Interrupted x k xs ys (record k' { proc = table; ready_q = q })
    unfolding due_in
    pushed-Interrupted q v = record {
      order = t.order;
      clocked = record {
        ready = v;
        asleep =
            IsQueue-pushed_other zs x (order-NotIn k' t) t.clocked.apart
              (IsQueue-frame x _ (order-NotIn k' t) t.clocked.asleep);
        fits = Fits-earlier k'.proc table 0 0 t.order same_deltas (omega arith) t.clocked.fits;
        early = IsEarly-kept k'.proc table k'.slice_elapsed t.order same_deltas t.clocked.early;
        apart = Apart-snoc zs x t.order t.clocked.apart (order-NotIn k' t);
      };
      left = remaining-SameDeltas k'.proc table k'.slice_elapsed t.order same_deltas ∙ t.left;
      fields = λ a.
          ap (with_rc 0) (pushed_fields (readied k'.proc x) zs x a)
          ∙ settled-readied k.proc k'.proc x t.fields a;
      codes = λ a n.
          ap (λ r. r.rc) (pushed_fields (readied k'.proc x) zs x a)
          ∙ readied-rc k'.proc x a
          ∙ t.codes a n;
      rest =
          let relink : Kernel → Kernel = λ m. record m { proc = table; ready_q = q } in
          ap relink t.rest;
    }

    back_to_ready-Interrupted : Returns (λ _. Interrupted x k xs ys) (back_to_ready x k')
    unfolding back_to_ready
    back_to_ready-Interrupted =
        let v : IsQueue (readied k'.proc x) k'.ready_q zs =
          IsQueue-frame x _ ready-NotIn t.clocked.ready in
        rw (ne→== x null o.slot.0) (
          done-Returns
            (ready_run (record k' { proc = readied k'.proc x }) x zs v o.slot ready-NotIn)
            (pushed-Interrupted _ (IsQueue-pushed x o.slot ready-NotIn v)))

  -- A timer interrupt while the process `x` runs, on a valid ready queue and list of sleeping
  -- processes, without `x`, whose times are words and whose head has more slices to wait than are
  -- counted: its service ends without a fault, and takes one slice from the time that each process
  -- has to wait. Those whose last slice has passed stand behind the ready ones, in the order of the
  -- list, and `x` behind them in READY_STATE; the others are in the list, and both are valid again.
  -- But for that state no process loses or gains more than a link, and a return code if it was
  -- asleep, and nothing changes but the table, the two queues and the count of slices.
  pub serve_timer-Interrupted : Returns (λ _. Interrupted x k xs ys) (serve_timer x k)
  unfolding serve_timer
  serve_timer-Interrupted =
      after (timer_tick-Ticked k xs ys c) λ u k' t. back_to_ready-Interrupted k' t
