-- ===== src/Disp/Release.antt =====
-- `release` of c/disp.c: a queue of blocked processes goes behind the ready queue.
use bkernel.Base.{
  ℕ, zero, suc, ◌<◌, ◌≡◌, ◌≢◌, refl, subst, List, [], ◌∷◌, ◌++◌, append-nil, Bool, false, ◌||◌,
  arith, ◌==◌, if◌then◌else◌, length, NotIn, Apart, Apart-snoc, Apart-tail, NotIn-of_Apart, snoc,
  ne→==,
}
use bkernel.Kernel.{
  Pcb, Kernel, null, err_ipc, and_then, with_next, with_rc, update, Returns, after, weaken,
  done-Returns,
}
use bkernel.Queue.Chain.{Procs, head_of_Chain, front_of_Chain}
use bkernel.Queue.Walk.{rounds}
use bkernel.Queue.Valid.{IsQueue, IsQueue-same, IsQueue-tail, length-lt-rounds}
use bkernel.Disp.{ready, release_loop, release, Side, queue_of, with_queue}
use bkernel.Disp.Ready.{ready-pushes, SameFields}

abbrev pub has : ℕ → List ℕ → Bool
has a [] = false
has a (x ∷ xs) = (a == x) || has a xs

snoc-append : (xs : List ℕ) (y : ℕ) (ys : List ℕ) → snoc xs y ++ ys ≡ xs ++ (y ∷ ys)
snoc-append [] y ys = refl
snoc-append (x ∷ xs) y ys = rw (snoc-append xs y ys)

-- But for `next`, the processes of the list have the return code ERR_IPC and are otherwise as they
-- were, and so are all others.
abbrev pub Released : Procs → Procs → List ℕ → Type 0
Released f g ys =
    (a : ℕ)
    → with_next null (g a) ≡ with_next null (if has a ys then with_rc err_ipc (f a) else f a)

Released-cons :
    (f g h : Procs) (y : ℕ) (ys : List ℕ)
    → SameFields (update f y (with_rc err_ipc (f y))) g
    → Released g h ys
    → Released f h (y ∷ ys)
Released-cons f g h y ys one rest a = ground (arith, one a, rest a)

abbrev pub Moved : Kernel → List ℕ → List ℕ → Unit {0} → Kernel → Type 0
Moved k xs ys _ k' =
    IsQueue k'.proc k'.ready_q (xs ++ ys)
    × Released k.proc k'.proc ys
    × (k' ≡ record k { proc = k'.proc; ready_q = k'.ready_q })

abbrev marked : Kernel → ℕ → Kernel
marked k y = record k { proc = update k.proc y (with_rc err_ipc (k.proc y)) }

release_loop-step :
    (n : ℕ) (k : Kernel) {tmp : ℕ} (y : ℕ)
    → tmp ≡ y
    → y ≢ null
    → release_loop (suc n) tmp k
      ≡ and_then (ready y (marked k y)) (λ _. release_loop n (k.proc y).next)
unfolding release_loop
release_loop-step n k y e ny = ground arith

release_loop-Moved :
    (n : ℕ) (k : Kernel) (tmp : ℕ) (xs ys : List ℕ)
    → IsQueue k.proc k.ready_q xs
    → IsQueue k.proc tmp ys
    → Apart xs ys
    → length ys < n
    → Returns (Moved k xs ys) (release_loop n tmp k)
release_loop-Moved zero k tmp xs ys v w a h = absurd (omega arith)
release_loop-Moved (suc n) k tmp xs [] v w a h =
    done-Returns {k = k} (unfold release_loop in ground (arith, front_of_Chain w.chain))
      (rw append-nil v, λ a. refl, refl)
release_loop-Moved (suc n) k tmp xs (y ∷ ys) v w a h =
    let here : NotIn y xs = NotIn-of_Apart xs y ys a in
    rw (release_loop-step n k y (head_of_Chain w.chain).0 w.slots.0.0) (
      after (ready-pushes (marked k y) y xs (IsQueue-same y _ refl v) w.slots.0 here)
        λ _ k2 (q2, keeps, same, e2).
          weaken
            (release_loop-Moved n k2 (k.proc y).next (snoc xs y) ys q2
              (keeps _ ys (IsQueue-same y _ refl (IsQueue-tail w)) w.distinct.0
                (Apart-tail xs y ys a))
              (Apart-snoc xs y ys (Apart-tail xs y ys a) w.distinct.0) (omega arith))
            λ _ k3 (q3, rest, e3). (
              subst (IsQueue k3.proc k3.ready_q) (snoc-append xs y ys) q3,
              Released-cons k.proc k2.proc k3.proc y ys same rest,
              ground arith,
            ))

module _ (k : Kernel) (side : Side) (p : ℕ) (xs ys : List ℕ) where
  -- `release` ends without a fault and puts the processes that are blocked on the queue behind the
  -- ready queue, in their order and with the return code ERR_IPC. The queue is empty then; no other
  -- field but `next` of any process has changed, and nothing but the table and the ready queue has.
  pub release-Moved :
      IsQueue k.proc k.ready_q xs
      → IsQueue k.proc (queue_of side (k.proc p)) ys
      → Apart xs ys
      → p ≢ null
      → Returns
          (λ _ k'.
            IsQueue k'.proc k'.ready_q (xs ++ ys)
            × ((a : ℕ)
                → with_next null (k'.proc a)
                  ≡ with_next null (
                      let f : Pcb = if has a ys then with_rc err_ipc (k.proc a) else k.proc a in
                      if a == p then with_queue side null f else f))
            × (k' ≡ record k { proc = k'.proc; ready_q = k'.ready_q }))
          (release side p k)
  unfolding release
  release-Moved v w a np = rw (ne→== p null np) (
      after (release_loop-Moved rounds k _ xs ys v w a (length-lt-rounds w)) λ _ k1 (q1, rel, e1).
        done-Returns {k = record k1 { proc = update k1.proc p (with_queue side null (k1.proc p)) }}
          (ground arith)
          (IsQueue-same p _ (next-with_queue side _) q1, λ b. emptied side k1 rel b, ground arith))
    where
      next-with_queue : (side : Side) (r : Pcb) → (with_queue side null r).next ≡ r.next
      next-with_queue Side.senders r = refl
      next-with_queue Side.receivers r = refl

      emptied :
          (side : Side) (k1 : Kernel)
          → Released k.proc k1.proc ys
          → (b : ℕ)
          → with_next null (update k1.proc p (with_queue side null (k1.proc p)) b)
            ≡ with_next null (
                let f : Pcb = if has b ys then with_rc err_ipc (k.proc b) else k.proc b in
                if b == p then with_queue side null f else f)
      emptied Side.senders k1 rel b = ground (arith, rel b, rel p)
      emptied Side.receivers k1 rel b = ground (arith, rel b, rel p)
