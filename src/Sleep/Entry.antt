-- ===== src/Sleep/Entry.antt =====
-- `sleep` of c/sleep.c as a whole: where the list is empty, where the process comes first, and else.
use bkernel.Base.{
  ℕ, ◌+◌, ◌-◌, ◌≤◌, ◌<◌, ◌≡◌, ◌≢◌, refl, sym, subst, ap, ◌∙◌, List, [], ◌∷◌, true, false, ltb,
  sub32, word_mod, arith, NotIn, Bool-cases, inl, inr,
}
use bkernel.Kernel.{Kernel, null, done, update, with_next, Returns, done-Returns, weaken}
use bkernel.Queue.Chain.{Procs, Chain, nil, cons, head_of_Chain, tail_of_Chain, front_of_Chain}
use bkernel.Queue.Walk.{rounds}
use bkernel.Queue.Valid.{IsSlot, length-lt-rounds}
use bkernel.Queue.Same.{SameOn, Chain-SameOn, SameOn-but_two}
use bkernel.Sleep.{with_delta, sleep, sleep_loop}
use bkernel.Sleep.Delta.{alarms, place, alarms-SameOn}
use bkernel.Sleep.Steps.{plain}
use bkernel.Sleep.Insert.{Inserted, sleep_loop-Inserted}
use bkernel.Sleep.Order.{IsDelta, Slept, IsDelta-place}

-- The table once the process is the only one, and once it stands before the head `x`.
alone : Procs → ℕ → Procs
alone f p = update f p (with_next null (f p))

ahead : Procs → ℕ → ℕ → Procs
ahead f p x =
    let g = update f x (with_delta (sub32 (f x).delta_slice (f p).delta_slice) (f x)) in
    update g p (with_next x (g p))

module _ (f : Procs) (p : ℕ) where
  alone_self : alone f p p ≡ with_next null (f p)
  unfolding alone
  alone_self = ground arith

  alone_other : (a : ℕ) → a ≢ p → alone f p a ≡ f a
  unfolding alone
  alone_other a n = ground arith

  plain-alone : (a : ℕ) → plain (alone f p a) ≡ plain (f a)
  unfolding alone
  plain-alone a = ground arith

  module _ (x : ℕ) (px : p ≢ x) where
    ahead_self : ahead f p x p ≡ with_next x (f p)
    unfolding ahead
    ahead_self = ground arith

    ahead_head : ahead f p x x ≡ with_delta (sub32 (f x).delta_slice (f p).delta_slice) (f x)
    unfolding ahead
    ahead_head = ground arith

    ahead_other : (a : ℕ) → a ≢ p → a ≢ x → ahead f p x a ≡ f a
    unfolding ahead
    ahead_other a n m = ground arith

    plain-ahead : (a : ℕ) → plain (ahead f p x a) ≡ plain (f a)
    unfolding ahead
    plain-ahead a = ground arith

module _ (k : Kernel) (p : ℕ) (s : IsSlot p) (positive : 0 < (k.proc p).delta_slice)
    (small : (k.proc p).delta_slice < word_mod) where
  sleep-alone :
      k.sleep_q ≡ null
      → sleep p k ≡ done (k.proc p).delta_slice (record k { proc = alone k.proc p; sleep_q = p })
  unfolding sleep alone
  sleep-alone e = ground arith

  sleep-ahead :
      (x : ℕ)
      → k.sleep_q ≡ x
      → x ≢ null
      → p ≢ x
      → (k.proc p).delta_slice < (k.proc x).delta_slice
      → (k.proc x).delta_slice < word_mod
      → sleep p k ≡ done (k.proc x).delta_slice (record k { proc = ahead k.proc p x; sleep_q = p })
  unfolding sleep ahead
  sleep-ahead x e nx px less fits = ground arith

  sleep_behind :
      (x : ℕ)
      → k.sleep_q ≡ x
      → x ≢ null
      → (k.proc x).delta_slice ≤ (k.proc p).delta_slice
      → sleep p k ≡ sleep_loop rounds p x 0 k
  unfolding sleep
  sleep_behind x e nx le = ground arith

  due_alone :
      alarms (alone k.proc p) 0 (p ∷ []) ≡ place p (k.proc p).delta_slice (alarms k.proc 0 [])
  unfolding alarms place
  due_alone =
      let zero_add : 0 + (k.proc p).delta_slice ≡ (k.proc p).delta_slice = omega arith in
      rw (ap (λ r. r.delta_slice) (alone_self k.proc p), zero_add) refl

  due_ahead :
      (g : Procs) (x : ℕ) (xs : List ℕ)
      → (k.proc p).delta_slice < (k.proc x).delta_slice
      → (g p).delta_slice ≡ (k.proc p).delta_slice
      → (g x).delta_slice + (k.proc p).delta_slice ≡ (k.proc x).delta_slice
      → SameOn k.proc g xs
      → alarms g 0 (p ∷ x ∷ xs) ≡ place p (k.proc p).delta_slice (alarms k.proc 0 (x ∷ xs))
  unfolding alarms place
  due_ahead g x xs less own head same =
      let dp = (k.proc p).delta_slice in
      let dx = (k.proc x).delta_slice in
      let first : 0 + dp ≡ dp = omega arith in
      let second : dp + (g x).delta_slice ≡ dx = omega arith in
      let head_at : 0 + dx ≡ dx = omega arith in
      let before : ltb dp dx ≡ true = ground arith in
      rw (own, first, second, head_at, before)
        (ap (λ rest. record { who = p; at = dp } ∷ record { who = x; at = dx } ∷ rest)
          (alarms-SameOn k.proc g dx xs same))

  due_behind :
      (g : Procs) (x : ℕ) (xs ys : List ℕ)
      → (k.proc x).delta_slice ≤ (k.proc p).delta_slice
      → (g x).delta_slice ≡ (k.proc x).delta_slice
      → ((from : ℕ)
          → alarms g from ys
            ≡ place p
                (from + ((k.proc p).delta_slice - (k.proc x).delta_slice))
                (alarms k.proc from xs))
      → alarms g 0 (x ∷ ys) ≡ place p (k.proc p).delta_slice (alarms k.proc 0 (x ∷ xs))
  unfolding alarms place
  due_behind g x xs ys le own later =
      let dp = (k.proc p).delta_slice in
      let dx = (k.proc x).delta_slice in
      let sum : dx + (dp - dx) ≡ dp = omega arith in
      let head_at : 0 + dx ≡ dx = omega arith in
      let behind : ltb dp dx ≡ false = ground arith in
      rw (own, head_at, behind)
        (ap (λ rest. record { who = x; at = dx } ∷ rest) (later dx ∙ rw sum refl))

  Slept-ahead :
      (x : ℕ) (xs : List ℕ)
      → IsDelta k.proc k.sleep_q (x ∷ xs)
      → NotIn p (x ∷ xs)
      → (k.proc p).delta_slice < (k.proc x).delta_slice
      → (k.proc x).delta_slice < word_mod
      → Slept k p
          (x ∷ xs)
          (k.proc x).delta_slice
          (record k { proc = ahead k.proc p x; sleep_q = p })
  Slept-ahead x xs v out less fits = record {
    result = omega arith;
    order = p ∷ x ∷ xs;
    delta =
        IsDelta-place k.proc (ahead k.proc p x) p k.sleep_q p (x ∷ xs) (p ∷ x ∷ xs) v s out small
          due chain (subst (λ t. 0 < t) (sym own) positive);
    due = due;
    frame = λ a n m. ahead_other k.proc p x out.0 a n m.0;
    fields = plain-ahead k.proc p x out.0;
    rest = refl;
  }
    where
      at_p : ahead k.proc p x p ≡ with_next x (k.proc p)
      at_p = ahead_self k.proc p x out.0

      at_x :
          ahead k.proc p x x
          ≡ with_delta (sub32 (k.proc x).delta_slice (k.proc p).delta_slice) (k.proc x)
      at_x = ahead_head k.proc p x out.0

      own : (ahead k.proc p x p).delta_slice ≡ (k.proc p).delta_slice
      own = ap (λ r. r.delta_slice) at_p

      head : (ahead k.proc p x x).delta_slice + (k.proc p).delta_slice ≡ (k.proc x).delta_slice
      head = rw at_x (omega arith)

      same : SameOn k.proc (ahead k.proc p x) xs
      same =
          SameOn-but_two k.proc (ahead k.proc p x) p x xs out.1 v.queue.distinct.0
            (ahead_other k.proc p x out.0)

      due :
          alarms (ahead k.proc p x) 0 (p ∷ x ∷ xs)
          ≡ place p (k.proc p).delta_slice (alarms k.proc 0 (x ∷ xs))
      due = due_ahead (ahead k.proc p x) x xs less own head same

      chain : Chain (ahead k.proc p x) p (p ∷ x ∷ xs)
      chain = cons refl s.0 (
          cons (ap (λ r. r.next) at_p) v.queue.slots.0.0 (
            subst (λ q. Chain (ahead k.proc p x) q xs) (sym (ap (λ r. r.next) at_x))
              (Chain-SameOn same (tail_of_Chain v.queue.chain))))

  Slept-behind :
      (x : ℕ) (xs : List ℕ) (r : ℕ) (k' : Kernel)
      → IsDelta k.proc k.sleep_q (x ∷ xs)
      → NotIn p (x ∷ xs)
      → (k.proc x).delta_slice ≤ (k.proc p).delta_slice
      → Inserted k p x xs 0 r k'
      → Slept k p (x ∷ xs) r k'
  Slept-behind x xs r k' v out le w = record {
    result = omega arith;
    order = x ∷ w.behind;
    delta =
        IsDelta-place k.proc k'.proc p k.sleep_q k'.sleep_q (x ∷ xs) (x ∷ w.behind) v s out small
          due
          (subst (λ q. Chain k'.proc q (x ∷ w.behind))
            (sym (ap (λ m. m.sleep_q) w.rest ∙ (head_of_Chain v.queue.chain).0)) w.placed.chain)
          (subst (λ t. 0 < t) (sym w.placed.slices) v.pending);
    due = due;
    frame = w.placed.frame;
    fields = w.placed.fields;
    rest =
        w.rest
        ∙ ap (λ q. record k { proc = k'.proc; sleep_q = q }) (sym (ap (λ m. m.sleep_q) w.rest));
  }
    where
      due :
          alarms k'.proc 0 (x ∷ w.behind)
          ≡ place p (k.proc p).delta_slice (alarms k.proc 0 (x ∷ xs))
      due = due_behind k'.proc x xs w.behind le w.placed.slices w.placed.due

  -- On a list of sleeping processes whose head is not due, `sleep` ends without a fault and puts a
  -- process that is to sleep at all among the alarms at its time, behind those that are not later;
  -- all others keep their times. It gives no 0. Only `next` and `delta_slice` of processes in the
  -- list change, and nothing but the table and the list does.
  pub sleep-Slept :
      (xs : List ℕ) → IsDelta k.proc k.sleep_q xs → NotIn p xs → Returns (Slept k p xs) (sleep p k)
  sleep-Slept [] v out = done-Returns (sleep-alone (front_of_Chain v.queue.chain)) record {
    result = omega arith;
    order = p ∷ [];
    delta =
        IsDelta-place k.proc (alone k.proc p) p k.sleep_q p [] (p ∷ []) v s out small due_alone
          (cons refl s.0 (nil (ap (λ r. r.next) (alone_self k.proc p))))
          (subst (λ t. 0 < t) (sym (ap (λ r. r.delta_slice) (alone_self k.proc p))) positive);
    due = due_alone;
    frame = λ a n m. alone_other k.proc p a n;
    fields = plain-alone k.proc p;
    rest = refl;
  }
  sleep-Slept (x ∷ xs) v out =
      elim (Bool-cases (ltb (k.proc p).delta_slice (k.proc x).delta_slice)) [
        | inl less ↦
            done-Returns (sleep-ahead x head.0 head.1 out.0 (ground arith) word)
              (Slept-ahead x xs v out (ground arith) word)
        | inr more ↦ rw (sleep_behind x head.0 head.1 (ground arith)) (
            weaken
              (sleep_loop-Inserted p s.0 rounds 0 k x xs
                (subst (λ q. Chain k.proc q (x ∷ xs)) head.0 v.queue.chain)
                (length-lt-rounds v.queue) out v.queue.distinct (ground arith) small v.fits)
              (λ r k'. Slept-behind x xs r k' v out (ground arith)))
      ]
    where
      head : (k.sleep_q ≡ x) × (x ≢ null)
      head = head_of_Chain v.queue.chain

      word : (k.proc x).delta_slice < word_mod
      word = omega (arith, v.fits.0)
