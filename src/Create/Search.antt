-- ===== src/Create/Search.antt =====
-- The searches of `find_pid` through the process table.
use bkernel.Base.{
  ℕ, zero, suc, ◌+◌, ◌≤◌, ◌<◌, ◌≡◌, ◌≢◌, refl, subst, sym, none, some, true, false, ◌==◌, inl, inr,
  Bool-cases, ==→eq, arith,
}
use bkernel.Kernel.{proc_sz}
use bkernel.Queue.Chain.{Procs}
use bkernel.Create.{pid_unused, first_unused, next_candidate}

-- What the inner loop of the first search establishes: no slot from `i` on has the pid,
pub pid_unused_sound :
    (n : ℕ) (f : Procs) (pid i a : ℕ)
    → pid_unused n f pid i ≡ true
    → i + n ≡ proc_sz
    → i < a
    → a ≤ proc_sz
    → (f a).pid ≢ pid
unfolding pid_unused
pid_unused_sound zero f pid i a h e lo hi = cc
pid_unused_sound (suc n) f pid i a h e lo hi = elim (Bool-cases (a == i + 1)) [
  | inl here ↦ subst (λ b. (f b).pid ≢ pid) (sym (==→eq a (i + 1) here)) (ground arith)
  | inr later ↦ ground (arith, pid_unused_sound n f pid (i + 1) a)
]

-- and it finds a free pid free.
pub pid_unused_complete :
    (n : ℕ) (f : Procs) (pid i : ℕ)
    → i + suc n ≡ proc_sz
    → ((a : ℕ) → i < a → a ≤ proc_sz → (f a).pid ≢ pid)
    → pid_unused (suc n) f pid i ≡ true
unfolding pid_unused
pid_unused_complete zero f pid i e free = ground (arith, free (i + 1))
pid_unused_complete (suc n) f pid i e free = ground (
  arith,
  free (i + 1),
  pid_unused_complete n f pid (i + 1) (omega arith) (λ a lo hi. free a (omega arith) hi),
)

-- The first search finds the first pid that no slot has.
pub first_unused_sound :
    (n : ℕ) (f : Procs) (pid r : ℕ)
    → first_unused n f pid ≡ some r
    → (pid ≤ r) × (r < pid + n) × (pid_unused proc_sz f r 0 ≡ true)
unfolding first_unused
first_unused_sound zero f pid r h = cc
first_unused_sound (suc n) f pid r h = elim (Bool-cases (pid_unused proc_sz f pid 0)) [
  | inl free ↦ ground arith
  | inr used ↦ ground (arith, first_unused_sound n f (pid + 1) r)
]

pub first_unused-none :
    (n : ℕ) (f : Procs) (pid : ℕ)
    → ((q : ℕ) → pid ≤ q → q < pid + n → pid_unused proc_sz f q 0 ≡ false)
    → first_unused n f pid ≡ none
unfolding first_unused
first_unused-none zero f pid used = refl
first_unused-none (suc n) f pid used =
    rw (used pid (omega arith) (omega arith))
      (first_unused-none n f (pid + 1) λ q lo hi. used q (omega arith) (omega arith))

pub next_candidate_bounds :
    (n : ℕ) (f : Procs) (pid : ℕ)
    → (pid ≤ next_candidate n f pid) × (next_candidate n f pid ≤ pid + n)
unfolding next_candidate
next_candidate_bounds zero f pid = omega arith
next_candidate_bounds (suc n) f pid = ground (arith, next_candidate_bounds n f (pid + 1))

-- A slot with the pid is noticed.
pub pid_unused-used :
    (n : ℕ) (f : Procs) (pid i a : ℕ)
    → i + n ≡ proc_sz
    → i < a
    → a ≤ proc_sz
    → (f a).pid ≡ pid
    → pid_unused n f pid i ≡ false
unfolding pid_unused
pid_unused-used zero f pid i a e lo hi h = refl
pid_unused-used (suc n) f pid i a e lo hi h = elim (Bool-cases (a == i + 1)) [
  | inl here ↦
      let at : (f (i + 1)).pid ≡ pid = subst (λ b. (f b).pid ≡ pid) (==→eq a (i + 1) here) h in
      ground arith
  | inr later ↦ ground (arith, pid_unused-used n f pid (i + 1) a)
]
