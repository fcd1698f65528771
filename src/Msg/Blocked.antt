-- ===== src/Msg/Blocked.antt =====
-- `block` of c/msg.c puts a process behind a queue.
use bkernel.Base.{◌∙◌, ℕ, ◌≡◌, ◌≢◌, refl, sym, subst, List, [], ◌∷◌, arith, NotIn, snoc, eq→==}
use bkernel.Kernel.{Kernel, done, null, with_next, update, Returns, done-Returns}
use bkernel.Queue.Chain.{
  Procs, nil, cons, pushed_fields, front_of_Chain, last_ne_null, pushed, set_next, frame,
  head_of_Chain,
}
use bkernel.Queue.Walk.{rounds, find_last-Chain}
use bkernel.Queue.Valid.{
  IsSlot, IsQueue, length-lt-rounds, IsQueue-pushed, IsQueue-pushed_other, IsQueue-same,
  IsQueue-frame,
}
use bkernel.Disp.{Side, queue_of, with_queue}
use bkernel.Disp.Ready.{KeepsOthers}
use bkernel.Msg.{block}
use bkernel.Msg.Fields.{
  SameButQueue, SameFields-queue, written-SameButQueue, with_queue-next, queue_of-with_queue,
  queue_of-same,
}

-- The table after `block`.
abbrev blocked : Procs → Side → ℕ → List ℕ → ℕ → Procs
blocked f side owner [] p = update (set_next f p null) owner (with_queue side p (f owner))
blocked f side owner (x ∷ xs) p = pushed f (x ∷ xs) p

module _ (k : Kernel) (side : Side) (owner p : ℕ) (some_owner : owner ≢ null)
    (other : p ≢ owner) where
  block_run :
      (xs : List ℕ)
      → IsQueue k.proc (queue_of side (k.proc owner)) xs
      → IsSlot p
      → NotIn p xs
      → block side owner p k ≡ done tt (record k { proc = blocked k.proc side owner xs p })
  unfolding block
  block_run [] v s out = ground (arith, front_of_Chain v.chain)
  block_run (x ∷ xs) v s out =
      let c = frame p (with_next null (k.proc p)) out v.chain in
      ground (
        arith,
        head_of_Chain v.chain,
        last_ne_null x xs v.chain,
        find_last-Chain rounds c (length-lt-rounds v),
      )

  blocked-IsQueue :
      (xs : List ℕ)
      → IsQueue k.proc (queue_of side (k.proc owner)) xs
      → IsSlot p
      → NotIn p xs
      → IsQueue
          (blocked k.proc side owner xs p)
          (queue_of side (blocked k.proc side owner xs p owner))
          (snoc xs p)
  blocked-IsQueue [] v s out =
      subst (λ q. IsQueue (blocked k.proc side owner [] p) q (p ∷ [])) head
        record { chain = cons refl s.0 (nil (ground arith)); distinct = (tt, tt); slots = (s, tt) }
    where
      head : p ≡ queue_of side (blocked k.proc side owner [] p owner)
      head = rw (eq→== owner owner refl) (sym (queue_of-with_queue side p (k.proc owner)))
  blocked-IsQueue (x ∷ xs) v s out =
      subst (λ q. IsQueue (pushed k.proc (x ∷ xs) p) q (snoc (x ∷ xs) p)) head
        (IsQueue-pushed p s out v)
    where
      head : x ≡ queue_of side (pushed k.proc (x ∷ xs) p owner)
      head = sym (
          queue_of-same side _ _ (pushed_fields k.proc (x ∷ xs) p owner)
          ∙ (head_of_Chain v.chain).0)

  blocked_others : (xs : List ℕ) → KeepsOthers k.proc (blocked k.proc side owner xs p) p xs
  blocked_others [] q ys w o a =
      IsQueue-same owner _ (ground (arith, with_queue-next side p (k.proc owner)))
        (IsQueue-frame p _ o w)
  blocked_others (x ∷ xs) q ys w o a = IsQueue-pushed_other (x ∷ xs) p o a w

  blocked_fields : (xs : List ℕ) → SameButQueue side owner k.proc (blocked k.proc side owner xs p)
  blocked_fields [] a =
      written-SameButQueue side owner p k.proc (set_next k.proc p null) (λ a. ground arith) a
  blocked_fields (x ∷ xs) a =
      SameFields-queue side owner k.proc (pushed k.proc (x ∷ xs) p)
        (pushed_fields k.proc (x ∷ xs) p) a

  -- On a valid queue of blocked processes `block` ends without a fault: the process stands behind
  -- the queue, every queue apart from it is as it was, no field changes but `next` and the owner's
  -- queue, and nothing but the table does.
  pub block-pushes :
      (xs : List ℕ)
      → IsQueue k.proc (queue_of side (k.proc owner)) xs
      → IsSlot p
      → NotIn p xs
      → Returns
          (λ _ k'.
            IsQueue k'.proc (queue_of side (k'.proc owner)) (snoc xs p)
            × KeepsOthers k.proc k'.proc p xs
            × SameButQueue side owner k.proc k'.proc
            × (k' ≡ record k { proc = k'.proc }))
          (block side owner p k)
  block-pushes xs v s out =
      done-Returns (block_run xs v s out)
        (blocked-IsQueue xs v s out, blocked_others xs, blocked_fields xs, refl)
