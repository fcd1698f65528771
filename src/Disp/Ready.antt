-- ===== src/Disp/Ready.antt =====
-- The ready queue of c/disp.c is a FIFO of processes.
use bkernel.Base.{
  ℕ, ◌≡◌, refl, List, [], ◌∷◌, arith, ◌==◌, if◌then◌else◌, length, NotIn, Apart, snoc, eq→==,
}
use bkernel.Kernel.{Kernel, done, null, invalid_pid, with_next, update, Returns, done-Returns}
use bkernel.Queue.Chain.{
  Procs, Chain, front, front_of_Chain, last_ne_null, linked, pushed, pushed_fields, frame,
  head_of_Chain,
}
use bkernel.Queue.Walk.{rounds, find_last-Chain, count_from-Chain}
use bkernel.Queue.Valid.{
  IsSlot, IsQueue, length-lt-rounds, IsQueue-pushed, IsQueue-pushed_other, IsQueue-tail,
  IsQueue-linked, IsQueue-linked_other, IsQueue-frame,
}
use bkernel.Disp.{next_ready, ready, count, stop}

-- `ready` as one equation: the table with the process pushed, and the new head.
pub ready_run :
    (k : Kernel) (p : ℕ) (xs : List ℕ)
    → IsQueue k.proc k.ready_q xs
    → IsSlot p
    → NotIn p xs
    → ready p k ≡ done tt (record k { proc = pushed k.proc xs p; ready_q = front (snoc xs p) })
unfolding ready
ready_run k p [] v s out = ground (arith, front_of_Chain v.chain)
ready_run k p (x ∷ xs) v s out =
    let c = frame p (with_next null (k.proc p)) out v.chain in
    ground (
      arith,
      front_of_Chain v.chain,
      head_of_Chain v.chain,
      last_ne_null x xs v.chain,
      find_last-Chain rounds c (length-lt-rounds v),
    )

-- The table once `stop` has cut the process off and made its pid invalid.
abbrev pub retired : Procs → ℕ → Procs
retired f p = update f p (record (f p) { next = null; pid = invalid_pid })

abbrev pub tail_of : List ℕ → List ℕ
tail_of [] = []
tail_of (x ∷ xs) = xs

-- The same for `stop`.
pub stop_run :
    (k : Kernel) (p : ℕ) (xs : List ℕ)
    → IsQueue k.proc k.stop_q xs
    → IsSlot p
    → NotIn p xs
    → stop p k
      ≡ done tt (record k { proc = linked (retired k.proc p) xs p; stop_q = front (snoc xs p) })
unfolding stop
stop_run k p [] v s out = ground (arith, front_of_Chain v.chain)
stop_run k p (x ∷ xs) v s out =
    let c : Chain (retired k.proc p) k.stop_q (x ∷ xs) = frame p _ out v.chain in
    ground (
      arith,
      front_of_Chain v.chain,
      head_of_Chain v.chain,
      last_ne_null x xs v.chain,
      find_last-Chain rounds c (length-lt-rounds v),
    )

-- No field but `next` differs.
abbrev pub SameFields : Procs → Procs → Type 0
SameFields f g = (a : ℕ) → with_next null (g a) ≡ with_next null (f a)

-- Every queue that has no process in common with `p` and `xs` is the same in `g`.
abbrev pub KeepsOthers : Procs → Procs → ℕ → List ℕ → Type 0
KeepsOthers f g p xs =
    (q : ℕ) (ys : List ℕ) → IsQueue f q ys → NotIn p ys → Apart xs ys → IsQueue g q ys

module _ (k : Kernel) (p : ℕ) (xs : List ℕ) where
  -- On a valid ready queue `ready` ends without a fault: the process, if it is an entry of the
  -- table and not queued there, stands behind the queue, every queue apart from it is as it was,
  -- no field but `next` of any process has changed, and nothing but the table and the queue has.
  pub ready-pushes :
      IsQueue k.proc k.ready_q xs
      → IsSlot p
      → NotIn p xs
      → Returns
          (λ _ k'.
            IsQueue k'.proc k'.ready_q (snoc xs p)
            × KeepsOthers k.proc k'.proc p xs
            × SameFields k.proc k'.proc
            × (k' ≡ record k { proc = k'.proc; ready_q = k'.ready_q }))
          (ready p k)
  ready-pushes v s out = done-Returns (ready_run k p xs v s out) (
    IsQueue-pushed p s out v,
    λ q ys w o a. IsQueue-pushed_other xs p o a w,
    λ a. pushed_fields k.proc xs p a,
    refl,
  )

-- On a valid ready queue `next` takes its first process off, or gives NULL if it is empty; the
-- rest stays queued, and nothing else changes.
pub next_ready-pops :
    (k : Kernel) (xs : List ℕ)
    → IsQueue k.proc k.ready_q xs
    → Returns
        (λ p k'.
          (p ≡ front xs)
          × (k' ≡ record k { ready_q = k'.ready_q })
          × IsQueue k'.proc k'.ready_q (tail_of xs))
        (next_ready k)
unfolding next_ready
next_ready-pops k [] v = done-Returns (ground (arith, front_of_Chain v.chain)) (refl, refl, v)
next_ready-pops k (x ∷ xs) v =
    done-Returns (ground (arith, front_of_Chain v.chain, head_of_Chain v.chain))
      (refl, refl, IsQueue-tail v)

-- On a valid ready queue `count` gives its length, and changes nothing.
pub count-length :
    (k : Kernel) (xs : List ℕ) → IsQueue k.proc k.ready_q xs → count k ≡ done (length xs) k
unfolding count
count-length k xs v = rw (count_from-Chain rounds 0 v.chain (length-lt-rounds v)) (ground arith)

module _ (k : Kernel) (p : ℕ) (xs : List ℕ) where
  -- On a valid stop queue `stop` ends without a fault: the process stands behind the queue with an
  -- invalid pid, every queue apart from it is as it was, no other field but `next` of any process
  -- has changed, and nothing but the table and the queue has.
  pub stop-pushes :
      IsQueue k.proc k.stop_q xs
      → IsSlot p
      → NotIn p xs
      → Returns
          (λ _ k'.
            IsQueue k'.proc k'.stop_q (snoc xs p)
            × KeepsOthers k.proc k'.proc p xs
            × ((a : ℕ)
                → with_next null (k'.proc a)
                  ≡ with_next null
                      (if a == p then record (k.proc a) { pid = invalid_pid } else k.proc a))
            × (k' ≡ record k { proc = k'.proc; stop_q = k'.stop_q }))
          (stop p k)
  stop-pushes v s out = done-Returns (stop_run k p xs v s out) (
    IsQueue-linked p (rw (eq→== p p refl) refl) s out (IsQueue-frame p _ out v),
    λ q ys w o a. IsQueue-linked_other xs p o a (IsQueue-frame p _ o w),
    λ a. linked_fields xs a,
    refl,
  )
    where
      linked_fields :
          (xs : List ℕ) (a : ℕ)
          → with_next null (linked (retired k.proc p) xs p a)
            ≡ with_next null (if a == p then record (k.proc a) { pid = invalid_pid } else k.proc a)
      linked_fields [] a = ground arith
      linked_fields (x ∷ xs) a = ground arith
