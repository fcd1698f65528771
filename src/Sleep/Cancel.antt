-- ===== src/Sleep/Cancel.antt =====
-- `wake_early` of c/sleep.c for a process behind the head of the list.
use bkernel.Base.{
  ℕ, zero, suc, Distinct, ◌+◌, ◌<◌, ◌≡◌, ◌≢◌, refl, sym, ap, ◌∙◌, List, [], ◌∷◌, ◌++◌, arith, All,
  length, NotIn, Apart, snoc, add32, word_mod,
}
use bkernel.Kernel.{Kernel, null, ready_state, update, Returns, done-Returns, done}
use bkernel.Queue.Walk.{rounds}
use bkernel.Queue.Chain.{
  Procs, Chain, cons, head_of_Chain, tail_of_Chain, front_of_Chain, pushed, pushed_fields, front,
  last,
}
use bkernel.Queue.Valid.{
  IsQueue, IsQueue-same, IsQueue-pushed, IsQueue-pushed_other, length-lt-rounds,
}
use bkernel.Disp.{ready}
use bkernel.Disp.Ready.{ready_run}
use bkernel.Sleep.{wake_early, wake_early_loop}
use bkernel.Sleep.Delta.{alarms, Fits}
use bkernel.Sleep.Order.{IsDelta}
use bkernel.Sleep.Wake.{SameDeltas}
use bkernel.Sleep.Clock.{alarms-SameDeltas, Fits-earlier, IsEarly-kept}
use bkernel.Sleep.Unlink.{
  due_after, unlinked, NotIn-end, cancel, unlinked-delta, alarms-cancel, IsQueue-unlinked,
  IsQueue-unlinked_other, NotIn-of_end, Apart-removed, NotIn-of_last, Fits-front, IsSlot-at,
  NotIn-rest, NotIn-others, shorter,
}

-- The table where `p` is ready too.
cancelled : Procs → ℕ → ℕ → List ℕ → ℕ → Procs
cancelled f t p ys time =
    let g = unlinked f t p ys in
    update g p (record (g p) { rc = add32 time (g p).delta_slice; state = ready_state })

module _ (p : ℕ) (some_process : p ≢ null) where
  step_past :
      (n cnt t s : ℕ) (k : Kernel)
      → t ≢ null
      → (k.proc t).next ≡ s
      → s ≢ null
      → (k.proc s).pid ≢ (k.proc p).pid
      → wake_early_loop (suc n) p t cnt k
        ≡ wake_early_loop n p s (add32 cnt (k.proc t).delta_slice) k
  unfolding wake_early_loop
  step_past n cnt t s k z e y ne = ground (arith, e)

  step_last :
      (n cnt t : ℕ) (k : Kernel)
      → t ≢ null
      → t ≢ p
      → (k.proc t).next ≡ p
      → (k.proc p).next ≡ null
      → wake_early_loop (suc n) p t cnt k
        ≡ ready p (record k { proc = cancelled k.proc t p [] (add32 cnt (k.proc t).delta_slice) })
  unfolding wake_early_loop cancelled unlinked
  step_last n cnt t k z ne e y = ground (arith, e, y)

  step_before :
      (n cnt t y : ℕ) (ys : List ℕ) (k : Kernel)
      → t ≢ null
      → t ≢ p
      → y ≢ null
      → y ≢ p
      → t ≢ y
      → (k.proc t).next ≡ p
      → (k.proc p).next ≡ y
      → wake_early_loop (suc n) p t cnt k
        ≡ ready p
            (record k { proc = cancelled k.proc t p (y ∷ ys) (add32 cnt (k.proc t).delta_slice) })
  unfolding wake_early_loop cancelled unlinked
  step_before n cnt t y ys k z ne a b c e d = ground (arith, e, d)

  -- The loop finds the process behind `t` and those of `mid`, none of which has its pid.
  loop_run :
      (n cnt t : ℕ) (mid post : List ℕ) (k : Kernel)
      → length mid < n
      → t ≢ null
      → Chain k.proc (k.proc t).next (mid ++ (p ∷ post))
      → Distinct (t ∷ (mid ++ (p ∷ post)))
      → All (λ y. (k.proc y).pid ≢ (k.proc p).pid) mid
      → Fits k.proc cnt (t ∷ mid)
      → wake_early_loop n p t cnt k
        ≡ ready p (record k {
          proc = cancelled k.proc (last t mid) p post (due_after k.proc cnt (t ∷ mid));
        })
  unfolding due_after
  loop_run zero cnt t mid post k l z c d a h = absurd (omega arith)
  loop_run (suc n) cnt t [] [] k l z (cons e _ c) d a h =
      step_last n cnt t k z (λ q. d.0.0 q) e (front_of_Chain c)
      ∙ ap (λ s. ready p (record k { proc = cancelled k.proc t p [] s })) (omega (arith, h.0))
  loop_run (suc n) cnt t [] (y ∷ ys) k l z (cons e _ (cons b m c)) d a h =
      step_before n cnt t y ys k z (λ q. d.0.0 q) m (λ q. d.1.0.0 (sym q)) (λ q. d.0.1.0 q) e b
      ∙ ap (λ s. ready p (record k { proc = cancelled k.proc t p (y ∷ ys) s })) (omega (arith, h.0))
  loop_run (suc n) cnt t (s ∷ mid) post k l z (cons e m c) d a h =
      step_past n cnt t s k z e m a.0
      ∙ ap (λ i. wake_early_loop n p s i k) (omega (arith, h.0))
      ∙ loop_run n (cnt + (k.proc t).delta_slice) s mid post k (omega arith) m c d.1 a.1 h.1

  enters :
      (k : Kernel) (x : ℕ)
      → k.sleep_q ≡ x
      → x ≢ null
      → (k.proc x).pid ≢ (k.proc p).pid
      → wake_early p k ≡ wake_early_loop rounds p x 0 k
  unfolding wake_early
  enters k x q n ne = ground (arith, q)

cancelled-delta :
    (f : Procs) (t p : ℕ) (ys : List ℕ) (time : ℕ)
    → SameDeltas (unlinked f t p ys) (cancelled f t p ys time)
unfolding cancelled
cancelled-delta f t p ys time a = ground arith

IsQueue-cancelled :
    (f : Procs) (q t p : ℕ) (ys : List ℕ) (time : ℕ) (zs : List ℕ)
    → IsQueue (unlinked f t p ys) q zs
    → IsQueue (cancelled f t p ys time) q zs
unfolding cancelled
IsQueue-cancelled f q t p ys time zs v = IsQueue-same p _ refl v

cancelled-rc :
    (f : Procs) (t p : ℕ) (ys : List ℕ) (time : ℕ)
    → NotIn p ys
    → time + (f p).delta_slice < word_mod
    → (cancelled f t p ys time p).rc ≡ time + (f p).delta_slice
unfolding cancelled
cancelled-rc f t p ys time n lt = ground (arith, unlinked-delta f t p ys p n)

module _ (k : Kernel) (x p : ℕ) (xs mid ys : List ℕ) (r : IsQueue k.proc k.ready_q xs)
    (v : IsDelta k.proc k.sleep_q (x ∷ (mid ++ (p ∷ ys))))
    (apart : Apart xs (x ∷ (mid ++ (p ∷ ys)))) where
  time : ℕ
  time = due_after k.proc 0 (x ∷ mid)

  table : Procs
  table = cancelled k.proc (last x mid) p ys time

  cancel_run :
      All (λ y. (k.proc y).pid ≢ (k.proc p).pid) (x ∷ mid)
      → wake_early p k
        ≡ done tt (record k { proc = pushed table xs p; ready_q = front (snoc xs p) })
  unfolding table time
  cancel_run a =
      let s = IsSlot-at p (x ∷ mid) ys v.queue.slots in
      let q = head_of_Chain v.queue.chain in
      let few = length-lt-rounds v.queue in
      let ready_IsQueue = IsQueue-cancelled k.proc k.ready_q (last x mid) p ys time xs (
        IsQueue-unlinked_other k.proc k.ready_q (last x mid) p ys xs
          (NotIn-of_last p xs x mid ys apart) r) in
      enters p s.0 k x q.0 q.1 a.0
      ∙ loop_run p s.0 rounds 0 x mid ys k (omega (arith, few, shorter p mid ys)) q.1
          (tail_of_Chain v.queue.chain) v.queue.distinct a.1
          (Fits-front p k.proc 0 (x ∷ mid) ys v.fits).0
      ∙ ready_run (record k { proc = table }) p xs ready_IsQueue s
          (NotIn-of_end p xs (x ∷ mid) ys apart)

  -- Waking a process behind the head of the list early, on a valid ready queue and list of
  -- sleeping processes apart from it, where none before it has its pid: it becomes the last of
  -- the ready queue, its return code the slices from the head's start to its own time, and the
  -- others stay in a valid list with the times that they had; the count of slices goes on.
  pub wake_early-cancels :
      All (λ y. (k.proc y).pid ≢ (k.proc p).pid) (x ∷ mid)
      → Returns
          (λ _ k'.
            IsQueue k'.proc k'.ready_q (snoc xs p)
            × IsDelta k'.proc k'.sleep_q (x ∷ (mid ++ ys))
            × (alarms k'.proc 0 (x ∷ (mid ++ ys))
                ≡ cancel p (alarms k.proc 0 (x ∷ (mid ++ (p ∷ ys)))))
            × ((k'.proc p).rc ≡ due_after k.proc 0 (x ∷ mid) + (k.proc p).delta_slice)
            × (k'.slice_elapsed ≡ k.slice_elapsed))
          (wake_early p k)
  unfolding table time
  wake_early-cancels a =
      let s = IsSlot-at p (x ∷ mid) ys v.queue.slots in
      let out = NotIn-of_end p xs (x ∷ mid) ys apart in
      let times = alarms-cancel k.proc (last x mid) p 0 (x ∷ mid) ys v.queue.distinct v.fits in
      let kept : SameDeltas (unlinked k.proc (last x mid) p ys) (pushed table xs p) = λ b.
        ap (λ r. r.delta_slice) (pushed_fields table xs p b)
        ∙ cancelled-delta k.proc (last x mid) p ys time b in
      done-Returns (cancel_run a) (
        IsQueue-pushed p s out (
            IsQueue-cancelled k.proc k.ready_q (last x mid) p ys time xs (
              IsQueue-unlinked_other k.proc k.ready_q (last x mid) p ys xs
                (NotIn-of_last p xs x mid ys apart) r)),
        record {
          queue =
              IsQueue-pushed_other xs p (NotIn-others p (x ∷ mid) ys v.queue.distinct)
                (Apart-removed p xs (x ∷ mid) ys apart)
                (IsQueue-cancelled k.proc k.sleep_q (last x mid) p ys time (x ∷ (mid ++ ys))
                  (IsQueue-unlinked k.proc k.sleep_q x p mid ys v.queue ys));
          fits =
              Fits-earlier (unlinked k.proc (last x mid) p ys) (pushed table xs p) 0 0
                (x ∷ (mid ++ ys)) kept (omega arith) times.1;
          pending =
              IsEarly-kept (unlinked k.proc (last x mid) p ys) (pushed table xs p) 0
                (x ∷ (mid ++ ys)) kept
                (rw
                  (unlinked-delta k.proc (last x mid) p ys x
                    (NotIn-end p x mid ys v.queue.distinct.0).1)
                  v.pending);
        },
        alarms-SameDeltas (unlinked k.proc (last x mid) p ys) (pushed table xs p) 0
              (x ∷ (mid ++ ys)) kept
            ∙ times.0,
        (ap (λ r. r.rc) (pushed_fields table xs p p)
            ∙ cancelled-rc k.proc (last x mid) p ys time
                (NotIn-rest p (x ∷ mid) ys v.queue.distinct)
                (Fits-front p k.proc 0 (x ∷ mid) ys v.fits).1),
        refl,
      )
