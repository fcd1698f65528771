-- ===== src/Create/Bounds.antt =====
-- `set_max_pid` and `set_min_pid` of c/create.c find the bounds of the pids in the process table.
use bkernel.Base.{
  ap, Option, ==→eq, ==→ne, ℕ, ◌+◌, ◌-◌, ◌≤◌, ◌≡◌, ◌≢◌, ◌⊎◌, sym, inl, inr, refl, none, some, ◌==◌,
  if◌then◌else◌, arith, Bool-cases,
}
use bkernel.Kernel.{
  Kernel, done, proc_sz, idle_proc_pid, invalid_pid, min_pid_bound, ◌>>◌, Returns, done-Returns,
}
use bkernel.Queue.Chain.{Procs}
use bkernel.Queue.Valid.{IsSlot}
use bkernel.Create.{skip_idle, max_from, set_max_pid, min_from, set_min_pid}
use bkernel.Create.Loops.{
  max_from_upper, skip_idle_sound, skip_idle_passed, skip_idle_found, min_from_start,
  min_from_lower, max_from_attained, IsUsed, min_from_attained,
}

-- What the two functions compute.
upper_bound :
    (f : Procs) (i a : ℕ)
    → skip_idle proc_sz f 0 ≡ some i
    → IsSlot a
    → (f a).pid ≢ idle_proc_pid
    → (f a).pid ≤ max_from (proc_sz - i) f i (f (i + 1)).pid
upper_bound f i a e s h =
    max_from_upper (proc_sz - i) f i (f (i + 1)).pid a
      (ground (arith, skip_idle_passed proc_sz f 0 i a))
      (ground (arith, skip_idle_sound proc_sz f 0 i))

least : Procs → ℕ
least f =
    let best = min_from (proc_sz - 1) f 1 (f 1).pid in
    if best == invalid_pid then min_pid_bound else best

lower_bound :
    (f : Procs) (a : ℕ)
    → IsSlot a
    → (f a).pid ≢ idle_proc_pid
    → ((f a).pid ≡ invalid_pid) ⊎ (least f ≤ (f a).pid)
unfolding least
lower_bound f a s h = elim (Bool-cases ((f a).pid == invalid_pid)) [
  | inl bad ↦ inl (==→eq _ _ bad)
  | inr used ↦ inr (elim (Bool-cases (a == 1)) [
    | inl first ↦
        let same : (f a).pid ≡ (f 1).pid = ap (λ b. (f b).pid) (==→eq a 1 first) in
        ground (arith, min_from_start (proc_sz - 1) f 1 (f 1).pid)
    | inr later ↦ ground (
      arith,
      min_from_lower (proc_sz - 1) f 1 (f 1).pid a (ground arith) (omega arith) h (==→ne _ _ used),
    )
  ])
]

-- The table as the kernel fills it: the idle process has the first slot, and every pid is in range.
pub record IsFilled (f : Procs) : Type 0 where
  pub idle : (f 1).pid ≡ idle_proc_pid
  pub alone : (a : ℕ) → IsSlot a → (f a).pid ≡ idle_proc_pid → a ≡ 1
  pub range : (a : ℕ) → IsSlot a → (f a).pid ≤ idle_proc_pid

-- The bounds are the least and the greatest pid in use.
pub record Extremes (k k' : Kernel) : Type 0 where
  pub greatest :
      (b : ℕ) × IsSlot b × ((k.proc b).pid ≢ idle_proc_pid) × ((k.proc b).pid ≡ k'.max_pid)
  pub upper : (a : ℕ) → IsSlot a → (a ≡ 1) ⊎ ((k.proc a).pid ≤ k'.max_pid)
  pub least : (b : ℕ) × IsSlot b × IsUsed k.proc b × ((k.proc b).pid ≡ k'.min_pid)
  pub lower : (a : ℕ) → IsSlot a → ((k.proc a).pid ≡ invalid_pid) ⊎ (k'.min_pid ≤ (k.proc a).pid)
  pub rest : k' ≡ record k { max_pid = k'.max_pid; min_pid = k'.min_pid }

module _ (k : Kernel) (filled : IsFilled k.proc) (a : ℕ) (s : IsSlot a)
    (used : IsUsed k.proc a) where
  max_run :
      (i : ℕ)
      → skip_idle proc_sz k.proc 0 ≡ some i
      → (set_max_pid >> set_min_pid) k
        ≡ done tt (record k {
          max_pid = max_from (proc_sz - i) k.proc i (k.proc (i + 1)).pid;
          min_pid = least k.proc;
        })
  unfolding set_max_pid set_min_pid least
  max_run i e = ground arith

  greatest_slot :
      (i : ℕ)
      → skip_idle proc_sz k.proc 0 ≡ some i
      → (b : ℕ) × IsSlot b
        × ((k.proc b).pid ≢ idle_proc_pid)
        × ((k.proc b).pid ≡ max_from (proc_sz - i) k.proc i (k.proc (i + 1)).pid)
  greatest_slot i e =
      let (lo, hi, awake) = skip_idle_sound proc_sz k.proc 0 i e in
      elim (max_from_attained (proc_sz - i) k.proc i (k.proc (i + 1)).pid) [
        | inl start ↦ (i + 1, omega arith, awake, sym start)
        | inr (b, above, below, at) ↦
            let later : b ≢ 1 = λ one. ground (arith, filled.idle) in
            let slot : IsSlot b = omega arith in
            (b, slot, (λ idle. later (filled.alone b slot idle)), at)
      ]

  least_slot : (b : ℕ) × IsSlot b × IsUsed k.proc b × ((k.proc b).pid ≡ least k.proc)
  unfolding least
  least_slot =
      let first : a ≢ 1 = λ one. ground (arith, filled.idle) in
      let low =
        min_from_lower (proc_sz - 1) k.proc 1 (k.proc 1).pid a (omega arith) (omega arith) used.0
          used.1 in
      elim (min_from_attained (proc_sz - 1) k.proc 1 (k.proc 1).pid) [
        | inl start ↦ absurd (omega (arith, start, low, filled.idle, filled.range a s, used.0))
        | inr (b, above, below, used', at) ↦ (b, omega arith, used', ground (arith, used', at))
      ]

  -- Where the idle process has the first slot and no other, no pid is above that of the idle process,
  -- and some slot has a valid pid other than that: after the two calls that a process's end makes,
  -- without a fault, `max_pid` is the greatest pid of the other slots, and `min_pid` is the least valid
  -- one; each is the pid of a slot, and no slot's is beyond it; and nothing but the bounds has changed.
  pub set_max_pid-Extremes : Returns (λ _. Extremes k) ((set_max_pid >> set_min_pid) k)
  set_max_pid-Extremes = by_start (skip_idle proc_sz k.proc 0) refl
    where
      by_start :
          (o : Option ℕ)
          → skip_idle proc_sz k.proc 0 ≡ o
          → Returns (λ _. Extremes k) ((set_max_pid >> set_min_pid) k)
      by_start none e =
          absurd (skip_idle_found proc_sz k.proc 0 a (omega arith) (omega arith) used.0 e)
      by_start (some i) e = done-Returns (max_run i e) record {
        greatest = greatest_slot i e;
        upper = λ c slot. elim (Bool-cases ((k.proc c).pid == idle_proc_pid)) [
          | inl idle ↦ inl (filled.alone c slot (==→eq _ _ idle))
          | inr other ↦ inr (upper_bound k.proc i c e slot (==→ne _ _ other))
        ];
        least = least_slot;
        lower = λ c slot. elim (Bool-cases ((k.proc c).pid == idle_proc_pid)) [
          | inl idle ↦
              inr (
                omega (arith, ==→eq _ _ idle, least_slot.3, filled.range least_slot.0 least_slot.1))
          | inr other ↦ lower_bound k.proc c slot (==→ne _ _ other)
        ];
        rest = refl;
      }
