-- ===== src/Sleep/Early.antt =====
-- `wake_early` of c/sleep.c for the head of the list.
use bkernel.Base.{
  ℕ, Distinct, ◌+◌, ◌-◌, ◌≤◌, ◌<◌, ◌≡◌, ◌≢◌, refl, sym, subst, ap, ◌∙◌, List, [], ◌∷◌, arith,
  NotIn-of_Apart, Apart, Apart-tail, snoc, add32, ne→==,
}
use bkernel.Kernel.{Kernel, null, ready_state, update, Returns, done-Returns, done}
use bkernel.Queue.Chain.{Procs, head_of_Chain, front_of_Chain, pushed, pushed_fields, front}
use bkernel.Queue.Valid.{IsQueue, IsQueue-same, IsQueue-tail, IsQueue-pushed, IsQueue-pushed_other}
use bkernel.Queue.Same.{SameOn, SameOn-but_one}
use bkernel.Disp.{ready}
use bkernel.Disp.Ready.{ready_run}
use bkernel.Sleep.{with_delta, wake_early, wake_head}
use bkernel.Sleep.Delta.{Alarm, alarms, alarms-SameOn, Fits, Fits-SameOn}
use bkernel.Sleep.Order.{IsPending, IsDelta}
use bkernel.Sleep.Wake.{SameDeltas}
use bkernel.Sleep.Clock.{IsEarly-kept, remaining, alarms-SameDeltas, remaining_fresh, Fits-earlier}

-- The table where the head `x` has given its time to the one behind it,
passed_on : Procs → ℕ → List ℕ → Procs
passed_on f x [] = f
passed_on f x (y ∷ ys) = update f y (with_delta (add32 (f y).delta_slice (f x).delta_slice) (f y))

-- and where it is woken.
woken : Procs → ℕ → List ℕ → Procs
woken f x ys =
    let g = passed_on f x ys in
    update g x (record (g x) { rc = (g x).delta_slice; state = ready_state })

module _ (f : Procs) (x : ℕ) where
  alarms-passed_on :
      (ys : List ℕ)
      → Distinct ys
      → 0 < (f x).delta_slice
      → Fits f (f x).delta_slice ys
      → (alarms (passed_on f x ys) 0 ys ≡ alarms f (f x).delta_slice ys)
        × Fits (passed_on f x ys) 0 ys
        × IsPending (passed_on f x ys) ys
  unfolding passed_on alarms
  alarms-passed_on [] d p h = (refl, tt, tt)
  alarms-passed_on (y ∷ ys) d p h =
      let g = passed_on f x (y ∷ ys) in
      let at : 0 + (g y).delta_slice ≡ (f x).delta_slice + (f y).delta_slice =
        ground (arith, h.0) in
      let same : SameOn f g ys = SameOn-but_one f g y ys d.0 (λ a n. ground arith) in
      (
        rw at (
            ap (λ rs. record { who = y; at = (f x).delta_slice + (f y).delta_slice } ∷ rs)
              (alarms-SameOn f g ((f x).delta_slice + (f y).delta_slice) ys same)),
        (rw at h.0, rw at (Fits-SameOn f g ((f x).delta_slice + (f y).delta_slice) ys same h.1)),
        omega (arith, at),
      )

  woken-SameDeltas : (ys : List ℕ) → SameDeltas (passed_on f x ys) (woken f x ys)
  unfolding woken
  woken-SameDeltas ys a = ground arith

-- The state in which `wake_early` calls `ready`.
early : Kernel → ℕ → ℕ → List ℕ → Kernel
early k x next ys = record k { proc = woken k.proc x ys; sleep_q = next; slice_elapsed = 0 }

wake_early_head :
    (k : Kernel) (x : ℕ) → k.sleep_q ≡ x → x ≢ null → wake_early x k ≡ wake_head x (k.proc x).next k
unfolding wake_early
wake_early_head k x q n = ground arith

wake_head_alone : (k : Kernel) (x : ℕ) → x ≢ null → wake_head x null k ≡ ready x (early k x null [])
unfolding wake_head early woken passed_on
wake_head_alone k x n = rw (ne→== x null n) (rw (ne→== x null n) refl)

wake_head_before :
    (k : Kernel) (x y : ℕ) (ys : List ℕ)
    → x ≢ null
    → y ≢ null
    → wake_head x y k ≡ ready x (early k x y (y ∷ ys))
unfolding wake_head early woken passed_on
wake_head_before k x y ys n m =
    rw (ne→== x null n) (rw (ne→== y null m) (rw (ne→== y null m) (rw (ne→== x null n) refl)))

wake_head_run :
    (k : Kernel) (x next : ℕ) (ys : List ℕ)
    → x ≢ null
    → IsQueue k.proc next ys
    → wake_head x next k ≡ ready x (early k x next ys)
wake_head_run k x next [] n v =
    subst (λ q. wake_head x q k ≡ ready x (early k x q [])) (sym (front_of_Chain v.chain))
      (wake_head_alone k x n)
wake_head_run k x next (y ∷ ys) n v =
    let e = head_of_Chain v.chain in
    subst (λ q. wake_head x q k ≡ ready x (early k x q (y ∷ ys))) (sym e.0)
      (wake_head_before k x y ys n e.1)

IsQueue-woken :
    (f : Procs) (x q : ℕ) (ys zs : List ℕ) → IsQueue f q zs → IsQueue (woken f x ys) q zs
unfolding woken passed_on
IsQueue-woken f x q [] zs v = IsQueue-same x _ refl v
IsQueue-woken f x q (y ∷ ys) zs v = IsQueue-same x _ refl (IsQueue-same y _ refl v)

-- The alarms, each later by so many slices.
unfoldable pub delayed : ℕ → List Alarm → List Alarm
delayed n [] = []
delayed n (a ∷ rest) = record { who = a.who; at = a.at + n } ∷ delayed n rest

delayed-alarms :
    (f : Procs) (n from : ℕ) (ys : List ℕ) → delayed n (alarms f from ys) ≡ alarms f (from + n) ys
unfolding delayed alarms
delayed-alarms f n from [] = refl
delayed-alarms f n from (y ∷ ys) =
    let at : from + (f y).delta_slice + n ≡ from + n + (f y).delta_slice = omega arith in
    rw (delayed-alarms f n (from + (f y).delta_slice) ys, at) refl

module _ (k : Kernel) (x : ℕ) (xs ys : List ℕ) (r : IsQueue k.proc k.ready_q xs)
    (v : IsDelta k.proc k.sleep_q (x ∷ ys)) (apart : Apart xs (x ∷ ys)) where
  dx : ℕ
  dx = (k.proc x).delta_slice

  ended_with : Kernel
  ended_with = record k {
    proc = pushed (woken k.proc x ys) xs x;
    ready_q = front (snoc xs x);
    sleep_q = (k.proc x).next;
    slice_elapsed = 0;
  }

  head_run : wake_early x k ≡ done tt ended_with
  unfolding ended_with early
  head_run =
      let q = head_of_Chain v.queue.chain in
      wake_early_head k x q.0 q.1
      ∙ wake_head_run k x (k.proc x).next ys q.1 (IsQueue-tail v.queue)
      ∙ ready_run (early k x (k.proc x).next ys) x xs (IsQueue-woken k.proc x k.ready_q ys xs r)
          v.queue.slots.0 (NotIn-of_Apart xs x ys apart)

  deltas : SameDeltas (passed_on k.proc x ys) (pushed (woken k.proc x ys) xs x)
  deltas a =
      ap (λ s. s.delta_slice) (pushed_fields (woken k.proc x ys) xs x a)
      ∙ woken-SameDeltas k.proc x ys a

  -- Waking the head of the list early, no more than its slices having been counted: it becomes the
  -- last of the ready queue, and the others stay in a valid list, but each of them has to wait longer
  -- than before, by the slices that were counted.
  pub wake_early-delayed :
      k.slice_elapsed ≤ (k.proc x).delta_slice
      → Returns
          (λ _ k'.
            IsQueue k'.proc k'.ready_q (snoc xs x)
            × IsDelta k'.proc k'.sleep_q ys
            × (remaining k'.proc k'.slice_elapsed ys
                ≡ delayed k.slice_elapsed
                    (alarms k.proc ((k.proc x).delta_slice - k.slice_elapsed) ys)))
          (wake_early x k)
  unfolding ended_with
  wake_early-delayed le =
      let times =
        alarms-passed_on k.proc x ys v.queue.distinct.1 v.pending
          (subst (λ t. Fits k.proc t ys) (omega arith) v.fits.1) in
      let full : (k.proc x).delta_slice - k.slice_elapsed + k.slice_elapsed
          ≡ (k.proc x).delta_slice =
        omega arith in
      done-Returns head_run (
        IsQueue-pushed x v.queue.slots.0 (NotIn-of_Apart xs x ys apart)
            (IsQueue-woken k.proc x k.ready_q ys xs r),
        record {
          queue =
              IsQueue-pushed_other xs x v.queue.distinct.0 (Apart-tail xs x ys apart)
                (IsQueue-woken k.proc x (k.proc x).next ys ys (IsQueue-tail v.queue));
          fits =
              Fits-earlier (passed_on k.proc x ys) ended_with.proc 0 0 ys deltas (omega arith)
                times.1;
          pending = IsEarly-kept (passed_on k.proc x ys) ended_with.proc 0 ys deltas times.2;
        },
        (remaining_fresh ended_with.proc ys
            ∙ alarms-SameDeltas (passed_on k.proc x ys) ended_with.proc 0 ys deltas
            ∙ times.0
            ∙ sym (
                delayed-alarms k.proc k.slice_elapsed ((k.proc x).delta_slice - k.slice_elapsed) ys
                ∙ ap (λ t. alarms k.proc t ys) full)),
      )
