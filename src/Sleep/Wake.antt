-- ===== src/Sleep/Wake.antt =====
-- `wake` of c/sleep.c makes the processes ready whose time has come.
use bkernel.Base.{
  ℕ, zero, suc, ◌<◌, ◌≡◌, ◌≢◌, refl, sym, subst, ap, ◌∙◌, List, [], ◌∷◌, ◌++◌, ◌==◌, if◌then◌else◌,
  length, arith, NotIn, Apart, Apart-snoc, Apart-tail, NotIn-of_Apart, snoc, snoc-append,
  append-nil, Bool-cases, inl, inr, ==→ne, ==→eq,
}
use bkernel.Kernel.{
  Kernel, Pcb, null, done, update, with_next, with_rc, Returns, done-Returns, weaken,
}
use bkernel.Queue.Chain.{Procs, head_of_Chain, front_of_Chain, front, pushed, pushed_fields}
use bkernel.Queue.Walk.{rounds}
use bkernel.Queue.Valid.{
  IsQueue, length-lt-rounds, IsQueue-tail, IsQueue-same, IsQueue-pushed, IsQueue-pushed_other,
}
use bkernel.Disp.Ready.{ready_run}
use bkernel.Sleep.{wake_loop, wake}

-- The processes at the front of the list that have no slices to wait, and those behind them.
unfoldable pub due_now : Procs → List ℕ → List ℕ
due_now f [] = []
due_now f (x ∷ xs) = let rest = due_now f xs in if (f x).delta_slice == 0 then x ∷ rest else []

unfoldable pub still : Procs → List ℕ → List ℕ
still f [] = []
still f (x ∷ xs) = let rest = still f xs in if (f x).delta_slice == 0 then rest else x ∷ xs

abbrev pub SameDeltas : Procs → Procs → Type 0
SameDeltas f g = (a : ℕ) → (g a).delta_slice ≡ (f a).delta_slice

due_now-SameDeltas : (f g : Procs) (xs : List ℕ) → SameDeltas f g → due_now g xs ≡ due_now f xs
unfolding due_now
due_now-SameDeltas f g [] s = refl
due_now-SameDeltas f g (x ∷ xs) s = rw (s x, due_now-SameDeltas f g xs s) refl

still-SameDeltas : (f g : Procs) (xs : List ℕ) → SameDeltas f g → still g xs ≡ still f xs
unfolding still
still-SameDeltas f g [] s = refl
still-SameDeltas f g (x ∷ xs) s = rw (s x, still-SameDeltas f g xs s) refl

-- A process block but for its link and its return code.
abbrev pub settled : Pcb → Pcb
settled r = with_rc 0 (with_next null r)

-- What `wake_loop` leaves behind.
pub record Woken (k : Kernel) (xs ys : List ℕ) (k' : Kernel) : Type 0 where
  pub ready : IsQueue k'.proc k'.ready_q (xs ++ due_now k.proc ys)
  pub asleep : IsQueue k'.proc k'.sleep_q (still k.proc ys)
  pub fields : (a : ℕ) → settled (k'.proc a) ≡ settled (k.proc a)
  pub codes : (a : ℕ) → NotIn a ys → (k'.proc a).rc ≡ (k.proc a).rc
  pub rest : k' ≡ record k { proc = k'.proc; ready_q = k'.ready_q; sleep_q = k'.sleep_q }

-- The state after one round of the loop, for the head `y`.
abbrev awake : Kernel → List ℕ → ℕ → Kernel
awake k xs y =
    let f = update k.proc y (record (k.proc y) { rc = (k.proc y).delta_slice }) in
    record k { proc = pushed f xs y; ready_q = front (snoc xs y); sleep_q = (k.proc y).next }

module _ (k : Kernel) (xs ys : List ℕ) (y : ℕ) (r : IsQueue k.proc k.ready_q xs)
    (v : IsQueue k.proc k.sleep_q (y ∷ ys)) (a : Apart xs (y ∷ ys)) where
  marked : Procs
  marked = update k.proc y (record (k.proc y) { rc = (k.proc y).delta_slice })

  wake_round :
      (n : ℕ) → (k.proc y).delta_slice ≡ 0 → wake_loop (suc n) k ≡ wake_loop n (awake k xs y)
  unfolding wake_loop
  wake_round n z =
      let at : Kernel = record k {
        proc = update k.proc y (record (k.proc y) { rc = (k.proc y).delta_slice });
        sleep_q = (k.proc y).next;
      } in
      let call = ready_run at y xs (IsQueue-same y _ refl r) v.slots.0 (NotIn-of_Apart xs y ys a) in
      ground (arith, head_of_Chain v.chain)

  wake_stop : (n : ℕ) → (k.proc y).delta_slice ≢ 0 → wake_loop (suc n) k ≡ done tt k
  unfolding wake_loop
  wake_stop n z = ground (arith, head_of_Chain v.chain)

  awake-fields : (b : ℕ) → settled ((awake k xs y).proc b) ≡ settled (k.proc b)
  unfolding marked
  awake-fields b = ap (with_rc 0) (pushed_fields marked xs y b) ∙ unmarked
    where
      unmarked : settled (marked b) ≡ settled (k.proc b)
      unmarked = ground arith

  awake-codes : (b : ℕ) → NotIn b (y ∷ ys) → ((awake k xs y).proc b).rc ≡ (k.proc b).rc
  unfolding marked
  awake-codes b out = ap (λ s. s.rc) (pushed_fields marked xs y b) ∙ unmarked
    where
      unmarked : (marked b).rc ≡ (k.proc b).rc
      unmarked = ground arith

  awake-SameDeltas : SameDeltas k.proc (awake k xs y).proc
  awake-SameDeltas b = ap (λ s. s.delta_slice) (awake-fields b)

  awake-ready : IsQueue (awake k xs y).proc (awake k xs y).ready_q (snoc xs y)
  awake-ready = IsQueue-pushed y v.slots.0 (NotIn-of_Apart xs y ys a) (IsQueue-same y _ refl r)

  awake-asleep : IsQueue (awake k xs y).proc (awake k xs y).sleep_q ys
  awake-asleep =
      IsQueue-pushed_other xs y v.distinct.0 (Apart-tail xs y ys a)
        (IsQueue-same y _ refl (IsQueue-tail v))

  Woken-more :
      (k' : Kernel)
      → (k.proc y).delta_slice ≡ 0
      → Woken (awake k xs y) (snoc xs y) ys k'
      → Woken k xs (y ∷ ys) k'
  unfolding due_now still
  Woken-more k' z w = record {
    ready =
        subst (IsQueue k'.proc k'.ready_q)
          (ap (λ zs. snoc xs y ++ zs)
              (due_now-SameDeltas k.proc (awake k xs y).proc ys awake-SameDeltas)
            ∙ snoc-append xs (due_now k.proc ys) y
            ∙ rw z refl)
          w.ready;
    asleep =
        subst (IsQueue k'.proc k'.sleep_q)
          (still-SameDeltas k.proc (awake k xs y).proc ys awake-SameDeltas ∙ rw z refl) w.asleep;
    fields = λ b. w.fields b ∙ awake-fields b;
    codes = λ b out. w.codes b out.1 ∙ awake-codes b out;
    rest = w.rest;
  }

  Woken-none : (k.proc y).delta_slice ≢ 0 → Woken k xs (y ∷ ys) k
  unfolding due_now still
  Woken-none z = record {
    ready =
        subst (IsQueue k.proc k.ready_q) (sym (append-nil xs) ∙ ap (λ zs. xs ++ zs) (ground arith))
          r;
    asleep = subst (IsQueue k.proc k.sleep_q) (ground arith) v;
    fields = λ b. refl;
    codes = λ b out. refl;
    rest = refl;
  }

pub wake_loop-Woken :
    (n : ℕ) (k : Kernel) (xs ys : List ℕ)
    → IsQueue k.proc k.ready_q xs
    → IsQueue k.proc k.sleep_q ys
    → Apart xs ys
    → length ys < n
    → Returns (λ _. Woken k xs ys) (wake_loop n k)
unfolding wake_loop due_now still
wake_loop-Woken zero k xs ys r v a h = absurd (omega arith)
wake_loop-Woken (suc n) k xs [] r v a h =
    done-Returns (ground (arith, front_of_Chain v.chain)) record {
      ready = subst (IsQueue k.proc k.ready_q) (sym (append-nil xs)) r;
      asleep = v;
      fields = λ b. refl;
      codes = λ b out. refl;
      rest = refl;
    }
wake_loop-Woken (suc n) k xs (y ∷ ys) r v a h = elim (Bool-cases ((k.proc y).delta_slice == 0)) [
  | inl due ↦ rw (wake_round k xs ys y r v a n (==→eq _ _ due)) (
      weaken
        (wake_loop-Woken n (awake k xs y) (snoc xs y) ys (awake-ready k xs ys y r v a)
          (awake-asleep k xs ys y r v a) (Apart-snoc xs y ys (Apart-tail xs y ys a) v.distinct.0)
          (omega arith))
        (λ u k'. Woken-more k xs ys y r v a k' (==→eq _ _ due)))
  | inr waits ↦
      done-Returns (wake_stop k xs ys y r v a n (==→ne _ _ waits))
        (Woken-none k xs ys y r v a (==→ne _ _ waits))
]

-- The state in which `wake` enters its loop.
abbrev headed : Kernel → List ℕ → ℕ → Kernel
headed k xs y = record k {
  proc = pushed k.proc xs y;
  ready_q = front (snoc xs y);
  sleep_q = (k.proc y).next;
}

wake_run :
    (k : Kernel) (xs ys : List ℕ) (y : ℕ)
    → IsQueue k.proc k.ready_q xs
    → IsQueue k.proc k.sleep_q (y ∷ ys)
    → Apart xs (y ∷ ys)
    → wake k ≡ wake_loop rounds (headed k xs y)
unfolding wake
wake_run k xs ys y r v a =
    let at : Kernel = record k { sleep_q = (k.proc y).next } in
    let call = ready_run at y xs r v.slots.0 (NotIn-of_Apart xs y ys a) in
    ground (arith, head_of_Chain v.chain)

-- What `wake` does on a list with a head, with the return codes.
pub wake-Woken_codes :
    (k : Kernel) (xs ys : List ℕ) (y : ℕ)
    → IsQueue k.proc k.ready_q xs
    → IsQueue k.proc k.sleep_q (y ∷ ys)
    → Apart xs (y ∷ ys)
    → Returns
        (λ _ k'.
          IsQueue k'.proc k'.ready_q (xs ++ (y ∷ due_now k.proc ys))
          × IsQueue k'.proc k'.sleep_q (still k.proc ys)
          × ((b : ℕ) → settled (k'.proc b) ≡ settled (k.proc b))
          × ((b : ℕ) → NotIn b ys → (k'.proc b).rc ≡ (k.proc b).rc)
          × (k' ≡ record k { proc = k'.proc; ready_q = k'.ready_q; sleep_q = k'.sleep_q }))
        (wake k)
wake-Woken_codes k xs ys y r v a = rw (wake_run k xs ys y r v a) (
    weaken
      (wake_loop-Woken rounds at (snoc xs y) ys asleep_ready asleep
        (Apart-snoc xs y ys (Apart-tail xs y ys a) v.distinct.0) (length-lt-rounds asleep))
      (λ u k' w. (
        subst (IsQueue k'.proc k'.ready_q)
            (ap (λ zs. snoc xs y ++ zs) (due_now-SameDeltas k.proc at.proc ys deltas)
              ∙ snoc-append xs (due_now k.proc ys) y)
            w.ready,
        subst (IsQueue k'.proc k'.sleep_q) (still-SameDeltas k.proc at.proc ys deltas) w.asleep,
        λ b. w.fields b ∙ ap (with_rc 0) (pushed_fields k.proc xs y b),
        λ b out. w.codes b out ∙ ap (λ q. q.rc) (pushed_fields k.proc xs y b),
        w.rest,
      )))
  where
    at : Kernel
    at = headed k xs y

    out : NotIn y xs
    out = NotIn-of_Apart xs y ys a

    asleep_ready : IsQueue at.proc at.ready_q (snoc xs y)
    asleep_ready = IsQueue-pushed y v.slots.0 out r

    asleep : IsQueue at.proc at.sleep_q ys
    asleep = IsQueue-pushed_other xs y v.distinct.0 (Apart-tail xs y ys a) (IsQueue-tail v)

    deltas : SameDeltas k.proc at.proc
    deltas b = ap (λ s. s.delta_slice) (pushed_fields k.proc xs y b)

-- `wake` on a list with the head `y`: it and those behind it that are due with it become ready.
pub wake-Woken :
    (k : Kernel) (xs ys : List ℕ) (y : ℕ)
    → IsQueue k.proc k.ready_q xs
    → IsQueue k.proc k.sleep_q (y ∷ ys)
    → Apart xs (y ∷ ys)
    → Returns
        (λ _ k'.
          IsQueue k'.proc k'.ready_q (xs ++ (y ∷ due_now k.proc ys))
          × IsQueue k'.proc k'.sleep_q (still k.proc ys)
          × ((b : ℕ) → settled (k'.proc b) ≡ settled (k.proc b))
          × (k' ≡ record k { proc = k'.proc; ready_q = k'.ready_q; sleep_q = k'.sleep_q }))
        (wake k)
wake-Woken k xs ys y r v a =
    weaken (wake-Woken_codes k xs ys y r v a) (λ u k' w. (w.0, w.1, w.2, w.4))
