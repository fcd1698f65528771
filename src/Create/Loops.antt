-- ===== src/Create/Loops.antt =====
-- The loops of `set_max_pid` and `set_min_pid` of c/create.c.
use bkernel.Base.{
  ap, ==→eq, ℕ, zero, suc, ◌+◌, ◌≤◌, ◌<◌, ◌≡◌, ◌≢◌, ◌⊎◌, not, inl, inr, refl, none, some, ◌==◌,
  ◌||◌, if◌then◌else◌, ltb, arith, Bool-cases,
}
use bkernel.Kernel.{idle_proc_pid, invalid_pid}
use bkernel.Queue.Chain.{Procs}
use bkernel.Create.{skip_idle, max_from, min_from}

-- The second loop of `set_max_pid` does not lose what it starts with, and covers the rest.
pub max_from_start : (n : ℕ) (f : Procs) (i best : ℕ) → best ≤ max_from n f i best
unfolding max_from
max_from_start zero f i best = omega arith
max_from_start (suc n) f i best =
    ground (
      arith,
      max_from_start n f (i + 1) (if ltb best (f (i + 1)).pid then (f (i + 1)).pid else best),
    )

pub max_from_upper :
    (n : ℕ) (f : Procs) (i best a : ℕ) → i < a → a ≤ i + n → (f a).pid ≤ max_from n f i best
unfolding max_from
max_from_upper zero f i best a lo hi = absurd (omega arith)
max_from_upper (suc n) f i best a lo hi =
    let best' = if ltb best (f (i + 1)).pid then (f (i + 1)).pid else best in
    elim (Bool-cases (a == i + 1)) [
      | inl here ↦ rw (==→eq a (i + 1) here) (ground (arith, max_from_start n f (i + 1) best'))
      | inr later ↦ max_from_upper n f (i + 1) best' a (ground arith) (omega arith)
    ]

-- The first loop passes over slots of the idle process only.
pub skip_idle_sound :
    (n : ℕ) (f : Procs) (i j : ℕ)
    → skip_idle n f i ≡ some j
    → (i ≤ j) × (j < i + n) × ((f (j + 1)).pid ≢ idle_proc_pid)
unfolding skip_idle
skip_idle_sound zero f i j h = cc
skip_idle_sound (suc n) f i j h = ground (arith, skip_idle_sound n f (i + 1) j)

pub skip_idle_passed :
    (n : ℕ) (f : Procs) (i j a : ℕ)
    → skip_idle n f i ≡ some j
    → i < a
    → a ≤ j
    → (f a).pid ≡ idle_proc_pid
unfolding skip_idle
skip_idle_passed zero f i j a h lo hi = cc
skip_idle_passed (suc n) f i j a h lo hi = elim (Bool-cases (a == i + 1)) [
  | inl here ↦ rw (==→eq a (i + 1) here) (ground (arith, skip_idle_sound n f (i + 1) j))
  | inr later ↦ ground (arith, skip_idle_passed n f (i + 1) j a)
]

pub skip_idle_found :
    (n : ℕ) (f : Procs) (i a : ℕ)
    → i < a
    → a ≤ i + n
    → (f a).pid ≢ idle_proc_pid
    → skip_idle n f i ≢ none
unfolding skip_idle
skip_idle_found zero f i a lo hi h = absurd (omega arith)
skip_idle_found (suc n) f i a lo hi h = elim (Bool-cases (a == i + 1)) [
  | inl here ↦
      let same : (f a).pid ≡ (f (i + 1)).pid = ap (λ b. (f b).pid) (==→eq a (i + 1) here) in
      ground arith
  | inr later ↦ ground (arith, skip_idle_found n f (i + 1) a)
]

-- One round of the loop of `set_min_pid`.
abbrev pub lesser : Procs → ℕ → ℕ → ℕ
lesser f i best =
    let pid = (f (i + 1)).pid in
    if pid == idle_proc_pid || pid == invalid_pid then best else if ltb pid best then pid else best

pub min_from_start : (n : ℕ) (f : Procs) (i best : ℕ) → min_from n f i best ≤ best
unfolding min_from
min_from_start zero f i best = omega arith
min_from_start (suc n) f i best = ground (arith, min_from_start n f (i + 1) (lesser f i best))

pub min_from_lower :
    (n : ℕ) (f : Procs) (i best a : ℕ)
    → i < a
    → a ≤ i + n
    → (f a).pid ≢ idle_proc_pid
    → (f a).pid ≢ invalid_pid
    → min_from n f i best ≤ (f a).pid
unfolding min_from
min_from_lower zero f i best a lo hi h v = absurd (omega arith)
min_from_lower (suc n) f i best a lo hi h v = elim (Bool-cases (a == i + 1)) [
  | inl here ↦
      let same : (f a).pid ≡ (f (i + 1)).pid = ap (λ b. (f b).pid) (==→eq a (i + 1) here) in
      ground (arith, min_from_start n f (i + 1) (lesser f i best))
  | inr later ↦ min_from_lower n f (i + 1) (lesser f i best) a (ground arith) (omega arith) h v
]

-- The maximum is that of a slot that the loop passes, or where it starts.
pub max_from_attained :
    (n : ℕ) (f : Procs) (i best : ℕ)
    → (max_from n f i best ≡ best)
      ⊎ ((b : ℕ) × (i < b) × (b ≤ i + n) × ((f b).pid ≡ max_from n f i best))
unfolding max_from
max_from_attained zero f i best = inl refl
max_from_attained (suc n) f i best =
    let best' = if ltb best (f (i + 1)).pid then (f (i + 1)).pid else best in
    elim (max_from_attained n f (i + 1) best') [
      | inl start ↦ elim (Bool-cases (ltb best (f (i + 1)).pid)) [
        | inl more ↦ inr (i + 1, omega arith, omega arith, ground (arith))
        | inr less ↦ inl (ground (arith))
      ]
      | inr (b, lo, hi, e) ↦ inr (b, omega arith, omega arith, e)
    ]

-- The minimum is that of a slot that the loop does not skip, or where it starts.
abbrev pub IsUsed : Procs → ℕ → Type 0
IsUsed f a = ((f a).pid ≢ idle_proc_pid) × ((f a).pid ≢ invalid_pid)

pub min_from_attained :
    (n : ℕ) (f : Procs) (i best : ℕ)
    → (min_from n f i best ≡ best)
      ⊎ ((b : ℕ) × (i < b) × (b ≤ i + n) × IsUsed f b × ((f b).pid ≡ min_from n f i best))
unfolding min_from
min_from_attained zero f i best = inl refl
min_from_attained (suc n) f i best = elim (min_from_attained n f (i + 1) (lesser f i best)) [
  | inl start ↦
      elim (Bool-cases (
        (f (i + 1)).pid == idle_proc_pid
        || (f (i + 1)).pid == invalid_pid
        || not (ltb (f (i + 1)).pid best))) [
          | inl kept ↦ inl (ground arith)
          | inr less ↦ inr (i + 1, omega arith, omega arith, ground arith, ground arith)
        ]
  | inr (b, lo, hi, used, e) ↦ inr (b, omega arith, omega arith, used, e)
]
