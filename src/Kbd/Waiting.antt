-- ===== src/Kbd/Waiting.antt =====
-- `kbd_enqueue` and `kbd_dequeue` of c/kbd.c on the list of processes that wait for the keyboard.
use bkernel.Base.{
  ℕ, ◌≡◌, refl, List, [], ◌∷◌, arith, NotIn, Apart, snoc, Bool, true, false, NotIn-of_Apart,
  Apart-tail, sym, subst, ◌∙◌,
}
use bkernel.Kernel.{
  Kernel, done, fault, null, ready_state, with_next, with_state, update, Returns, done-Returns,
}
use bkernel.Queue.Chain.{
  Chain, front_of_Chain, last_ne_null, pushed, pushed_fields, frame, head_of_Chain,
}
use bkernel.Queue.Walk.{rounds, find_last-Chain}
use bkernel.Queue.Valid.{
  IsSlot, IsQueue, length-lt-rounds, IsQueue-pushed, IsQueue-pushed_other, IsQueue-tail,
  IsQueue-same,
}
use bkernel.Disp.{ready}
use bkernel.Disp.Ready.{KeepsOthers, SameFields, ready_run}
use bkernel.Kbd.Queue.{kbd_enqueue, kbd_dequeue}

-- What comes of `kbd_enqueue`, by the list of those who wait: on an empty one it writes through
-- NULL, and otherwise the process stands behind it.
abbrev pub Enqueued : Kernel → ℕ → List ℕ → Type 0
Enqueued k p [] = kbd_enqueue p k ≡ fault
Enqueued k p (x ∷ xs) =
    Returns
      (λ _ k'.
        IsQueue k'.proc k'.kbd_q (snoc (x ∷ xs) p)
        × KeepsOthers k.proc k'.proc p (x ∷ xs)
        × SameFields k.proc k'.proc
        × (k' ≡ record k { proc = k'.proc }))
      (kbd_enqueue p k)

kbd_enqueue_run :
    (k : Kernel) (p x : ℕ) (xs : List ℕ)
    → IsQueue k.proc k.kbd_q (x ∷ xs)
    → IsSlot p
    → NotIn p (x ∷ xs)
    → kbd_enqueue p k ≡ done tt (record k { proc = pushed k.proc (x ∷ xs) p })
unfolding kbd_enqueue
kbd_enqueue_run k p x xs v s out =
    let c = frame p (with_next null (k.proc p)) out v.chain in
    ground (
      arith,
      head_of_Chain v.chain,
      last_ne_null x xs v.chain,
      find_last-Chain rounds c (length-lt-rounds v),
    )

-- Where the queue of the keyboard is valid and not empty, `kbd_enqueue` puts a process that does not
-- wait yet behind it; every queue apart from it is as it was, no field but `next` changes, and
-- nothing but the table does. On an empty queue it writes through NULL.
pub kbd_enqueue-Enqueued :
    (k : Kernel) (p : ℕ) (xs : List ℕ)
    → IsQueue k.proc k.kbd_q xs
    → IsSlot p
    → NotIn p xs
    → Enqueued k p xs
unfolding kbd_enqueue
kbd_enqueue-Enqueued k p [] v s out = ground (arith, front_of_Chain v.chain)
kbd_enqueue-Enqueued k p (x ∷ xs) v s out = done-Returns (kbd_enqueue_run k p x xs v s out) (
  subst (λ q. IsQueue (pushed k.proc (x ∷ xs) p) q (snoc (x ∷ xs) p))
      (sym (head_of_Chain v.chain).0) (IsQueue-pushed p s out v),
  λ q ys w o a. IsQueue-pushed_other (x ∷ xs) p o a w,
  pushed_fields k.proc (x ∷ xs) p,
  refl,
)

-- What comes of `kbd_dequeue`, by the lists of those who wait and of those who are ready, and by
-- whether end of file has been typed.
abbrev pub Dequeued : Kernel → Bool → List ℕ → List ℕ → Type 0
Dequeued k eof [] xs = kbd_dequeue k ≡ done tt k
Dequeued k true (y ∷ ys) xs = kbd_dequeue k ≡ fault
Dequeued k false (y ∷ ys) xs =
    Returns
      (λ _ k'.
        IsQueue k'.proc k'.kbd_q ys
        × IsQueue k'.proc k'.ready_q (snoc xs y)
        × SameFields (update k.proc y (with_state ready_state (k.proc y))) k'.proc
        × (k' ≡ record k { proc = k'.proc; ready_q = k'.ready_q; kbd_q = k'.kbd_q }))
      (kbd_dequeue k)

-- The state in which `kbd_dequeue` calls `ready`.
abbrev woken : Kernel → ℕ → Kernel
woken k y = record k {
  proc = update k.proc y (with_state ready_state (k.proc y));
  kbd_q = (k.proc y).next;
}

kbd_dequeue_run :
    (k : Kernel) (y : ℕ) (ys : List ℕ)
    → k.kbd.kbd_eof_flag ≡ false
    → Chain k.proc k.kbd_q (y ∷ ys)
    → kbd_dequeue k ≡ ready y (woken k y)
unfolding kbd_dequeue
kbd_dequeue_run k y ys e c = ground (arith, head_of_Chain c)

-- Where the queue of the keyboard and the ready queue are valid and apart, `kbd_dequeue` takes the
-- first process that waits, makes its state READY_STATE and puts it behind the ready queue; no other
-- field but `next` changes, and nothing but the table and the two queues does. With no process
-- waiting it changes nothing, and once end of file has been typed it writes through NULL.
pub kbd_dequeue-Dequeued :
    (k : Kernel) (eof : Bool) (ys xs : List ℕ)
    → k.kbd.kbd_eof_flag ≡ eof
    → IsQueue k.proc k.kbd_q ys
    → IsQueue k.proc k.ready_q xs
    → Apart xs ys
    → Dequeued k eof ys xs
unfolding kbd_dequeue
kbd_dequeue-Dequeued k eof [] xs e v w a = ground (arith, front_of_Chain v.chain)
kbd_dequeue-Dequeued k true (y ∷ ys) xs e v w a = ground (arith, head_of_Chain v.chain)
kbd_dequeue-Dequeued k false (y ∷ ys) xs e v w a =
    let wq = IsQueue-same y (with_state ready_state (k.proc y)) refl w in
    let vq = IsQueue-same y (with_state ready_state (k.proc y)) refl (IsQueue-tail v) in
    let out = NotIn-of_Apart xs y ys a in
    done-Returns (kbd_dequeue_run k y ys e v.chain ∙ ready_run (woken k y) y xs wq v.slots.0 out) (
      IsQueue-pushed_other xs y v.distinct.0 (Apart-tail xs y ys a) vq,
      IsQueue-pushed y v.slots.0 out wq,
      pushed_fields (woken k y).proc xs y,
      refl,
    )
