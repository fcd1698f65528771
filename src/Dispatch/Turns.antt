-- ===== src/Dispatch/Turns.antt =====
-- Rounds of the dispatcher of c/disp.c in which every process that runs yields.
use bkernel.Base.{
  subst, sym, zero, suc, get_or, length-snoc, ℕ, ◌<◌, ◌≡◌, ◌≢◌, ◌⊎◌, ap, ◌∙◌, refl, List, [], ◌∷◌,
  arith, length, All, snoc, Bool-cases, inl, inr,
}
use bkernel.Kernel.{
  Image, Kernel, null, idle_proc_pid, ready_state, with_next, Cmd, Returns, returns, after, weaken,
  skip, ◌>>◌,
}
use bkernel.Queue.Chain.{Procs, front_of_Chain, front}
use bkernel.Queue.Valid.{IsQueue}
use bkernel.Ctsw.{Trap}
use bkernel.Dispatch.{dispatch_round}
use bkernel.Dispatch.Rounds.{
  yields, IsQuiet, gives_way, ran, after_run-IsQuiet, after_run-pid, dispatch_round-yields,
}

-- The queue after `n` rounds.
unfoldable pub rotate : ℕ → List ℕ → List ℕ
rotate zero xs = xs
rotate (suc n) [] = []
rotate (suc n) (x ∷ xs) = rotate n (snoc xs x)

get_or-snoc : (xs : List ℕ) (y i d : ℕ) → i < length xs → get_or (snoc xs y) i d ≡ get_or xs i d
get_or-snoc [] y i d h = absurd (omega arith)
get_or-snoc (x ∷ xs) y zero d h = refl
get_or-snoc (x ∷ xs) y (suc i) d h = get_or-snoc xs y i d (omega arith)

front-rotate : (n : ℕ) (xs : List ℕ) → n < length xs → front (rotate n xs) ≡ get_or xs n 0
unfolding rotate
front-rotate zero [] h = absurd (omega arith)
front-rotate zero (x ∷ xs) h = refl
front-rotate (suc n) [] h = absurd (omega arith)
front-rotate (suc n) (x ∷ xs) h =
    front-rotate n (snoc xs x) (rw (length-snoc xs x) (omega arith))
    ∙ get_or-snoc xs x n 0 (omega arith)

-- A rotation by one more,
rotate-suc : (n : ℕ) (xs : List ℕ) → rotate (suc n) xs ≡ rotate 1 (rotate n xs)
unfolding rotate
rotate-suc zero xs = refl
rotate-suc (suc n) [] = refl
rotate-suc (suc n) (x ∷ xs) = rotate-suc n (snoc xs x)

-- and none is lost.
length-rotate : (n : ℕ) (xs : List ℕ) → length (rotate n xs) ≡ length xs
unfolding rotate
length-rotate zero xs = refl
length-rotate (suc n) [] = refl
length-rotate (suc n) (x ∷ xs) = length-rotate n (snoc xs x) ∙ length-snoc xs x

-- No member of the queue has a signal pending.
abbrev pub AllQuiet : Procs → List ℕ → Type 0
AllQuiet f xs = All (λ a. IsQuiet (f a)) xs

quiet_kept :
    (f g : Procs) (xs : List ℕ) (x : ℕ)
    → ((a : ℕ) → IsQuiet (f a) → IsQuiet (g a))
    → AllQuiet f xs
    → IsQuiet (f x)
    → AllQuiet g (snoc xs x)
quiet_kept f g [] x same all q = (same x q, tt)
quiet_kept f g (y ∷ ys) x same all q = (same y all.0, quiet_kept f g ys x same all.1 q)

-- The first process `y` of the queue, before `others` more, has had its turn between `k'` and `k''`:
-- it has come back from running, with the stack pointer of the trap, and is ready again. The idle
-- process has given way if there are others, and has not run.
abbrev pub HasTurn : Kernel → Kernel → Trap → ℕ → ℕ → Type 0
HasTurn k' k'' u y others =
    (((k''.proc y).esp ≡ u.esp)
      × ((k''.proc y).state ≡ ready_state)
      × (((k'.proc y).pid ≢ idle_proc_pid) ⊎ (others ≡ 0)))
    ⊎ (((k'.proc y).pid ≡ idle_proc_pid)
        × (0 < others)
        × (with_next null (k''.proc y) ≡ with_next null (k'.proc y)))

module _ (image : Image) (t : ℕ → Trap) where
  -- Rounds in which every process that runs yields.
  unfoldable pub turns : ℕ → Cmd (Unit {0})
  turns zero = skip
  turns (suc n) = do dispatch_round image (yields (t n)); turns n

  -- What rounds keep.
  record Turned (k : Kernel) (xs : List ℕ) (k' : Kernel) : Type 0 where
    queue : IsQueue k'.proc k'.ready_q xs
    quiet : AllQuiet k'.proc xs
    pids : (a : ℕ) → (k'.proc a).pid ≡ (k.proc a).pid

  turns-Turned :
      (n : ℕ) (k : Kernel) (xs : List ℕ)
      → 0 < length xs
      → IsQueue k.proc k.ready_q xs
      → AllQuiet k.proc xs
      → Returns (λ _. Turned k (rotate n xs)) (turns n k)
  unfolding turns rotate
  turns-Turned zero k xs h v q = returns record { queue = v; quiet = q; pids = λ a. refl }
  turns-Turned (suc n) k [] h v q = absurd (omega arith)
  turns-Turned (suc n) k (x ∷ xs) h v q =
      after (dispatch_round-yields image k (t n) x xs v q.0) λ u k' p.
        weaken
          (turns-Turned n k' (snoc xs x) (rw (length-snoc xs x) (omega arith)) p.0 (
            quiet_kept k.proc k'.proc xs x
              (λ a r. subst IsQuiet (sym (p.1 a)) (after_run-IsQuiet image k (t n) x xs a r)) q.1
              q.0))
          (λ w k'' r. record {
            queue = r.queue;
            quiet = r.quiet;
            pids = λ a. r.pids a ∙ ap (λ b. b.pid) (p.1 a) ∙ after_run-pid image k (t n) x xs a;
          })

  -- One more round after `n`.
  next_turn :
      (k : Kernel) (u : Trap) (y : ℕ) (ys : List ℕ)
      → IsQueue k.proc k.ready_q (y ∷ ys)
      → IsQuiet (k.proc y)
      → Returns
          (λ _ k''. IsQueue k''.proc k''.ready_q (snoc ys y) × HasTurn k k'' u y (length ys))
          (dispatch_round image (yields u) k)
  next_turn k u y ys v q = weaken (dispatch_round-yields image k u y ys v q) λ w k'' p. (
    p.0,
    elim (Bool-cases (gives_way image k u y ys)) [
      | inl idle ↦ inr (ground (arith, p.1 y))
      | inr runs ↦
          let e : with_next null (k''.proc y) ≡ with_next null (ran image k u y ys y) =
            p.1 y ∙ rw runs refl in
          inl (ap (λ r. r.esp) e ∙ ground arith, ap (λ r. r.state) e ∙ ground arith, ground arith)
    ],
  )

  -- On a valid ready queue of processes that yield and have no signals pending, each gets its turn:
  -- after `n` rounds the process at place `n` of the queue is the first, and the queue is the same
  -- list rotated. In the round that follows, for any trap `u` that it comes back with, this process
  -- runs and comes back ready with the stack pointer of `u`, or is the idle process and gives way to
  -- others, unchanged but for a link; and the queue is rotated once more.
  pub turns-rotate :
      (n : ℕ) (k : Kernel) (u : Trap) (x : ℕ) (xs : List ℕ)
      → n < length (x ∷ xs)
      → IsQueue k.proc k.ready_q (x ∷ xs)
      → AllQuiet k.proc (x ∷ xs)
      → Returns
          (λ _ k'.
            (k'.ready_q ≡ get_or (x ∷ xs) n 0)
            × IsQueue k'.proc k'.ready_q (rotate n (x ∷ xs))
            × ((k'.proc (get_or (x ∷ xs) n 0)).pid ≡ (k.proc (get_or (x ∷ xs) n 0)).pid)
            × Returns
                (λ _ k''.
                  IsQueue k''.proc k''.ready_q (rotate (suc n) (x ∷ xs))
                  × HasTurn k' k'' u (get_or (x ∷ xs) n 0) (length xs))
                (dispatch_round image (yields u) k'))
          (turns n k)
  unfolding rotate
  turns-rotate n k u x xs h v q = weaken (turns-Turned n k (x ∷ xs) (omega arith) v q) λ w k' r. (
    front_of_Chain r.queue.chain ∙ front-rotate n (x ∷ xs) h,
    r.queue,
    r.pids _,
    last_turn k' (rotate n (x ∷ xs)) refl r,
  )
    where
      last_turn :
          (k' : Kernel) (l : List ℕ)
          → rotate n (x ∷ xs) ≡ l
          → Turned k l k'
          → Returns
              (λ _ k''.
                IsQueue k''.proc k''.ready_q (rotate (suc n) (x ∷ xs))
                × HasTurn k' k'' u (get_or (x ∷ xs) n 0) (length xs))
              (dispatch_round image (yields u) k')
      last_turn k' [] e r = absurd (omega (arith, length-rotate n (x ∷ xs), ap length e))
      last_turn k' (y ∷ ys) e r =
          let front_is : y ≡ get_or (x ∷ xs) n 0 = sym (ap front e) ∙ front-rotate n (x ∷ xs) h in
          let long : length ys ≡ length xs = omega (arith, length-rotate n (x ∷ xs), ap length e) in
          weaken (next_turn k' u y ys r.queue r.quiet.0) λ w k'' p. (
            subst (IsQueue k''.proc k''.ready_q) (sym (rotate-suc n (x ∷ xs) ∙ ap (rotate 1) e))
                p.0,
            subst (λ z. HasTurn k' k'' u z (length xs)) front_is
                (subst (HasTurn k' k'' u y) long p.1),
          )
