-- ===== src/Msg/Unblocked.antt =====
-- `unblock` and `deadlock` of c/msg.c look for a process in a queue.
use bkernel.Base.{
  some, ap, ◌∙◌, ℕ, ◌≡◌, ◌≢◌, refl, sym, subst, List, [], ◌∷◌, arith, ◌==◌, if◌then◌else◌, NotIn,
  Apart, eq→==, ne→==, Bool-cases, inl, inr, true, false,
}
use bkernel.Kernel.{Kernel, fault, done, null, update, Returns, done-Returns}
use bkernel.Queue.Chain.{Procs, Chain, front_of_Chain, set_next, head_of_Chain}
use bkernel.Queue.Walk.{rounds}
use bkernel.Queue.Valid.{IsQueue, length-lt-rounds, IsQueue-same, IsQueue-frame, IsQueue-tail}
use bkernel.Disp.{Side, queue_of, with_queue}
use bkernel.Disp.Ready.{SameFields}
use bkernel.Msg.{find_before, unblock, deadlock}
use bkernel.Msg.Queues.{
  matches, first_match, drop_match, NotIn-before_match, before_match, has_pid, Search, absent,
  present, search_lem, find_before-Chain, pid_in_queue-Chain, All-drop_match, Distinct-drop_match,
}
use bkernel.Msg.Fields.{
  SameButQueue, SameFields-queue, written-SameButQueue, with_queue-next, queue_of-with_queue,
  queue_of-same,
}

module _ (k : Kernel) (side : Side) (owner pid : ℕ) where
  -- What `unblock` leaves behind, with the process that it gives.
  pub record Unblocked (xs : List ℕ) (p : ℕ) (k' : Kernel) : Type 0 where
    pub result : p ≡ first_match k.proc pid xs
    pub queue : IsQueue k'.proc (queue_of side (k'.proc owner)) (drop_match k.proc pid xs)
    pub others : (q : ℕ) (ys : List ℕ) → IsQueue k.proc q ys → Apart xs ys → IsQueue k'.proc q ys
    pub fields : SameButQueue side owner k.proc k'.proc
    pub rest : k' ≡ record k { proc = k'.proc }

  unblock-same :
      (xs : List ℕ)
      → IsQueue k.proc (queue_of side (k.proc owner)) xs
      → first_match k.proc pid xs ≡ null
      → drop_match k.proc pid xs ≡ xs
      → Unblocked xs null k
  unblock-same xs v g h = record {
    result = sym g;
    queue = subst (IsQueue k.proc (queue_of side (k.proc owner))) (sym h) v;
    others = λ q ys w a. w;
    fields = SameFields-queue side owner k.proc k.proc (λ a. refl);
    rest = refl;
  }

  -- The tables once the head, or a later process, has been taken off.
  abbrev beheaded : ℕ → Procs
  beheaded x = update k.proc owner (with_queue side (k.proc x).next (k.proc owner))

  abbrev cut : ℕ → ℕ → Procs
  cut b p = set_next k.proc b (k.proc p).next

  beheaded-Unblocked :
      (x : ℕ) (xs : List ℕ)
      → IsQueue k.proc (queue_of side (k.proc owner)) (x ∷ xs)
      → matches k.proc pid x ≡ true
      → Unblocked (x ∷ xs) x (record k { proc = beheaded x })
  unfolding first_match drop_match
  beheaded-Unblocked x xs v hit = record {
    result = rw hit refl;
    queue = rw hit (subst (λ q. IsQueue (beheaded x) q xs) head kept);
    others = λ q ys w a. IsQueue-same owner _ (with_queue-next side _ (k.proc owner)) w;
    fields = written-SameButQueue side owner (k.proc x).next k.proc k.proc (λ a. refl);
    rest = refl;
  }
    where
      head : (k.proc x).next ≡ queue_of side (beheaded x owner)
      head =
          rw (eq→== owner owner refl)
            (sym (queue_of-with_queue side (k.proc x).next (k.proc owner)))

      kept : IsQueue (beheaded x) (k.proc x).next xs
      kept = IsQueue-same owner _ (with_queue-next side _ (k.proc owner)) (IsQueue-tail v)

  cut-Unblocked :
      (x : ℕ) (xs : List ℕ) (b p : ℕ)
      → IsQueue k.proc (queue_of side (k.proc owner)) (x ∷ xs)
      → first_match k.proc pid (x ∷ xs) ≡ p
      → ((ys : List ℕ) → Apart (x ∷ xs) ys → NotIn b ys)
      → Chain (cut b p) (queue_of side (k.proc owner)) (drop_match k.proc pid (x ∷ xs))
      → Unblocked (x ∷ xs) p (record k { proc = cut b p })
  cut-Unblocked x xs b p v g out c = record {
    result = sym g;
    queue =
        subst (λ q. IsQueue (cut b p) q (drop_match k.proc pid (x ∷ xs))) head
          record {
            chain = c;
            distinct = Distinct-drop_match k.proc pid (x ∷ xs) v.distinct;
            slots = All-drop_match k.proc pid (x ∷ xs) v.slots;
          };
    others = λ q ys w a. IsQueue-frame b _ (out ys a) w;
    fields = SameFields-queue side owner k.proc (cut b p) same;
    rest = refl;
  }
    where
      same : SameFields k.proc (cut b p)
      same a = ground arith

      head : queue_of side (k.proc owner) ≡ queue_of side (cut b p owner)
      head = sym (queue_of-same side _ _ (same owner))

module _ (k : Kernel) (side : Side) (owner pid : ℕ) (some_owner : owner ≢ null) where
  unblock_run_head :
      (x : ℕ) (xs : List ℕ)
      → Chain k.proc (queue_of side (k.proc owner)) (x ∷ xs)
      → matches k.proc pid x ≡ true
      → unblock side owner pid k ≡ done x (record k { proc = beheaded k side owner pid x })
  unfolding unblock
  unblock_run_head x xs c hit = ground (arith, head_of_Chain c)

  unblock_run_body :
      (x : ℕ) (xs : List ℕ) (b : ℕ)
      → Chain k.proc (queue_of side (k.proc owner)) (x ∷ xs)
      → matches k.proc pid x ≡ false
      → find_before rounds k.proc (queue_of side (k.proc owner)) pid ≡ some b
      → unblock side owner pid k ≡ (
          if b == null
          then done null k
          else if (k.proc b).next == null
          then fault
          else done (k.proc b).next (record k { proc = cut k side owner pid b (k.proc b).next }))
  unfolding unblock
  unblock_run_body x xs b c miss e = ground (arith, head_of_Chain c)

  unblock_body :
      (x : ℕ) (xs : List ℕ)
      → IsQueue k.proc (queue_of side (k.proc owner)) (x ∷ xs)
      → matches k.proc pid x ≡ false
      → Search k.proc pid x xs (queue_of side (k.proc owner))
      → Returns (Unblocked k side owner pid (x ∷ xs)) (unblock side owner pid k)
  unfolding first_match drop_match
  unblock_body x xs v miss (absent b g h) =
      done-Returns (unblock_run_body x xs null v.chain miss (walk ∙ ap some b))
        (unblock-same k side owner pid (x ∷ xs) v (rw miss g) (rw (miss, h) refl))
    where
      walk :
          find_before rounds k.proc (queue_of side (k.proc owner)) pid
          ≡ some (before_match k.proc pid x xs)
      walk = find_before-Chain k.proc pid rounds xs v.chain (length-lt-rounds v)
  unblock_body x xs v miss (present b g h u) =
      done-Returns
        (unblock_run_body x xs (before_match k.proc pid x xs) v.chain miss walk
          ∙ rw (ne→== _ null b, g, ne→== _ null h) refl)
        (cut-Unblocked k side owner pid x xs (before_match k.proc pid x xs)
          (first_match k.proc pid xs) v (rw miss refl)
          (λ ys a. NotIn-before_match k.proc pid x xs ys b a) (rw miss u))
    where
      walk :
          find_before rounds k.proc (queue_of side (k.proc owner)) pid
          ≡ some (before_match k.proc pid x xs)
      walk = find_before-Chain k.proc pid rounds xs v.chain (length-lt-rounds v)

  -- On a valid queue of blocked processes `unblock` ends without a fault. It gives the first
  -- process of the queue that has the pid, the very first for pid 0, and NULL if there is none. That
  -- process is taken off the queue, and the others keep their order; every queue apart from this
  -- one is as it was, no field changes but `next` and the owner's queue, and nothing but the table
  -- does.
  pub unblock-Unblocked :
      (xs : List ℕ)
      → IsQueue k.proc (queue_of side (k.proc owner)) xs
      → Returns (Unblocked k side owner pid xs) (unblock side owner pid k)
  unfolding unblock first_match drop_match
  unblock-Unblocked [] v =
      done-Returns (ground (arith, front_of_Chain v.chain))
        (unblock-same k side owner pid [] v refl refl)
  unblock-Unblocked (x ∷ xs) v = elim (Bool-cases (matches k.proc pid x)) [
    | inl hit ↦
        done-Returns (unblock_run_head x xs v.chain hit)
          (beheaded-Unblocked k side owner pid x xs v hit)
    | inr miss ↦ unblock_body x xs v miss (search_lem k.proc pid x xs v.chain v.distinct)
  ]

-- On a valid queue `deadlock` tells whether one of its processes has the pid of the other process,
-- and changes nothing.
pub deadlock-has_pid :
    (k : Kernel) (q p : ℕ) (xs : List ℕ)
    → p ≢ null
    → IsQueue k.proc q xs
    → deadlock q p k ≡ done (has_pid k.proc (k.proc p).pid xs) k
unfolding deadlock
deadlock-has_pid k q p xs np v =
    ground (arith, pid_in_queue-Chain rounds (k.proc p).pid v.chain (length-lt-rounds v))
