-- ===== src/Dispatch/Rings.antt =====
-- A sleeping process is woken by the timer while the dispatcher of c/disp.c runs the others.
use bkernel.Base.{
  ℕ, zero, suc, ◌+◌, ◌-◌, ◌*◌, ◌≤◌, ◌<◌, ◌≡◌, refl, sym, subst, ap, List, [], ◌∷◌, ◌++◌, arith,
  snoc, length, length-snoc, Bool, true, false, Bool-cases, inl, inr, ◌&&◌, ◌==◌, ltb, leb,
  if◌then◌else◌, NotIn, word_mod,
}
use mathlib.Core.List.{Memᴰ}
use mathlib.Core.List.Memᴰ
use bkernel.Kernel.{Kernel, Image, Cmd, skip, ◌>>◌, Returns, returns, after, idle_proc_pid}
use bkernel.Queue.Valid.{IsSlot, IsQueue}
use bkernel.Sleep.{sleep}
use bkernel.Sleep.Entry.{sleep-Slept}
use bkernel.Sleep.Clock.{rung}
use bkernel.Sleep.Later.{rung-Mem, waiting-Mem}
use bkernel.Ctsw.{Trap}
use bkernel.Dispatch.{dispatch_round}
use bkernel.Dispatch.Ticks.{due_in}
use bkernel.Dispatch.Alarms.{asleep_delta, IsClocked-Slept, Mem-Slept}
use bkernel.Dispatch.Slices.{
  gave_way, ran, sliced, IsTimed, IsTimed-SameNames, dispatch_round-Sliced,
}

Mem-snoc : {p : ℕ} {xs : List ℕ} (y : ℕ) → Memᴰ p xs → Memᴰ p (snoc xs y)
Mem-snoc y (Memᴰ.head e) = Memᴰ.head e
Mem-snoc y (Memᴰ.tail m) = Memᴰ.tail (Mem-snoc y m)

snoc-Mem : (xs : List ℕ) (y : ℕ) → Memᴰ y (snoc xs y)
snoc-Mem [] y = Memᴰ.head refl
snoc-Mem (x ∷ xs) y = Memᴰ.tail (snoc-Mem xs y)

-- A member is still there when the first is put behind the others and those that are woken.
Mem-rotated : {p : ℕ} (y : ℕ) (xs zs : List ℕ) → Memᴰ p (y ∷ xs) → Memᴰ p (snoc (xs ++ zs) y)
Mem-rotated y xs zs (Memᴰ.head e) =
    subst (λ q. Memᴰ q (snoc (xs ++ zs) y)) (sym e) (snoc-Mem (xs ++ zs) y)
Mem-rotated y xs zs (Memᴰ.tail m) = Mem-snoc y (Memᴰ.append_left zs m)

Mem-turned : {p : ℕ} (y : ℕ) (xs : List ℕ) → Memᴰ p (y ∷ xs) → Memᴰ p (snoc xs y)
Mem-turned y xs (Memᴰ.head e) = subst (λ q. Memᴰ q (snoc xs y)) (sym e) (snoc-Mem xs y)
Mem-turned y xs (Memᴰ.tail m) = Mem-snoc y m

-- The idle process is the first of several.
abbrev pub idle_first : Kernel → List ℕ → Bool
idle_first k [] = false
idle_first k (y ∷ xs) = (k.proc y).pid == idle_proc_pid && ltb 0 (length xs)

-- The rounds in which `at` slices pass.
abbrev pub needed : Bool → ℕ → ℕ
needed idle at = if idle then at + at else at + at - 1

needed_less : (idle : Bool) (at n : ℕ) → at + at - 1 ≤ suc n → needed idle (at - 1) ≤ n
needed_less true at n h = omega arith
needed_less false at n h = omega arith

needed_at_most : (idle : Bool) (at n : ℕ) → 2 * at ≤ n → needed idle at ≤ n
needed_at_most true at n h = omega arith
needed_at_most false at n h = omega arith

-- The process is in the ready queue, which is valid.
abbrev pub IsReady : ℕ → Kernel → Type 0
IsReady p k = (xs : List ℕ) × IsQueue k.proc k.ready_q xs × Memᴰ p xs

module _ (image : Image) (t : ℕ → Trap) where
  -- Rounds in which every process that runs is stopped by a timer interrupt.
  unfoldable pub slices : ℕ → Cmd (Unit {0})
  slices zero = skip
  slices (suc n) = do dispatch_round image (sliced (t n)); slices n

  module _ (i p : ℕ) where
    -- Who is ready stays ready.
    slices-IsReady :
        (n : ℕ) (k : Kernel) (xs ys : List ℕ)
        → IsTimed i k xs ys
        → Memᴰ p xs
        → Returns (λ _. IsReady p) (slices n k)
    unfolding slices
    slices-IsReady zero k xs ys w m = returns (xs, w.clocked.ready, m)
    slices-IsReady (suc n) k [] ys w m = elim m [ ]
    slices-IsReady (suc n) k (y ∷ xs) ys w m =
        after (dispatch_round-Sliced image i k (t n) y xs ys w) λ u k' s. elim s [
          | gave_way h w' same ↦ slices-IsReady n k' (snoc xs y) ys w' (Mem-turned y xs m)
          | ran h order w' left ↦
              slices-IsReady n k' (snoc (xs ++ rung (due_in k ys)) y) order w'
                (Mem-rotated y xs (rung (due_in k ys)) m)
        ]

    -- After the idle process has given way another is the first.
    not_idle_twice :
        (k k' : Kernel) (y : ℕ) (xs ys zs : List ℕ)
        → IsTimed i k (y ∷ xs) ys
        → IsTimed i k' (snoc xs y) zs
        → idle_first k (y ∷ xs) ≡ true
        → idle_first k' (snoc xs y) ≡ false
    not_idle_twice k k' y [] ys zs w w' h = absurd (ground arith)
    not_idle_twice k k' y (z ∷ xs) ys zs w w' h =
        ground (arith, w.lone y, w'.lone z, w.clocked.ready.distinct.0.0)

    slices-ring :
        (n at : ℕ) (k : Kernel) (xs ys : List ℕ)
        → 0 < length xs
        → IsTimed i k xs ys
        → Memᴰ (record { who = p; at = at }) (due_in k ys)
        → 0 < at
        → needed (idle_first k xs) at ≤ n
        → Returns (λ _. IsReady p) (slices n k)
    unfolding slices
    slices-ring n at k [] ys pos w m some h = absurd (omega arith)
    slices-ring zero at k (y ∷ xs) ys pos w m some h = absurd (ground arith)
    slices-ring (suc n) at k (y ∷ xs) ys pos w m some h =
        after (dispatch_round-Sliced image i k (t n) y xs ys w) λ u k' s. elim s [
          | gave_way idle w' same ↦
              slices-ring n at k' (snoc xs y) ys (rw (length-snoc xs y) (omega arith)) w'
                (subst (Memᴰ (record { who = p; at = at })) (sym same) m) some
                (rw (not_idle_twice k k' y xs ys ys w w' idle) (ground arith))
          | ran runs order w' left ↦
              let zs = snoc (xs ++ rung (due_in k ys)) y in
              elim (Bool-cases (leb at 1)) [
                | inl due ↦
                    slices-IsReady n k' zs order w'
                      (Mem-snoc y (Memᴰ.append_right xs (rung-Mem (ground arith) m)))
                | inr waits ↦
                    slices-ring n (at - 1) k' zs order
                      (rw (length-snoc (xs ++ rung (due_in k ys)) y) (omega arith)) w'
                      (subst (Memᴰ (record { who = p; at = at - 1 })) (sym left)
                        (waiting-Mem (ground arith) m))
                      (ground arith) (needed_less (idle_first k' zs) at n (ground arith))
              ]
        ]

module _ (image : Image) (t : ℕ → Trap) (i : ℕ) (k : Kernel) (p : ℕ) (xs ys : List ℕ)
    (w : IsTimed i k xs ys) where
  -- A process goes to sleep while others are ready and no slice has been counted, on a valid ready
  -- queue and list of sleeping processes whose head is not due and whose times are words, where no
  -- process has a signal pending that it does not ignore and at most one slot has the idle process's
  -- pid. Twice as many rounds of the dispatcher as the process has slices to wait, or more, in each of
  -- which the process that runs is stopped by a timer interrupt, end without a fault with the process
  -- in a valid ready queue: a round in two at the most is spent on the idle process giving way.
  pub sleep-rings :
      (n : ℕ)
      → 0 < length xs
      → IsSlot p
      → NotIn p xs
      → NotIn p ys
      → k.slice_elapsed ≡ 0
      → 0 < (k.proc p).delta_slice
      → (k.proc p).delta_slice < word_mod
      → 2 * (k.proc p).delta_slice ≤ n
      → Returns (λ _. IsReady p) ((do sleep p; slices image t n) k)
  sleep-rings n pos slot unready absent fresh positive small enough =
      after
        (sleep-Slept k p slot positive small ys (asleep_delta k p xs ys w.clocked unready fresh)
          absent)
        λ r k' s.
          slices-ring image t i p n (k.proc p).delta_slice k' xs s.order pos
            (IsTimed-SameNames i k k' xs ys xs s.order
              (λ a.
                let e = s.fields a in
                (ap (λ q. q.pid) e, ap (λ q. q.sig_pend_mask) e, ap (λ q. q.sig_ignore_mask) e))
              (IsClocked-Slept k p xs ys w.clocked unready fresh r k' s) w)
            (Mem-Slept k p xs ys w.clocked unready fresh r k' s) positive
            (needed_at_most (idle_first k' xs) (k.proc p).delta_slice n enough)
