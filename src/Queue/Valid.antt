-- ===== src/Queue/Valid.antt =====
-- A queue of distinct slots of the process table, and how long it can be.
use bkernel.Base.{
  ℕ, zero, suc, ◌≤◌, ◌<◌, ◌≡◌, ◌≢◌, refl, subst, List, [], ◌∷◌, arith, ◌==◌, if◌then◌else◌, length,
  All, NotIn, Distinct, Apart, snoc, Distinct-snoc, inl, inr, Bool-cases, eq→==, ==→eq, ==→ne,
}
use bkernel.Kernel.{Pcb, null, proc_sz, update}
use bkernel.Queue.Chain.{
  Procs, Chain, front, linked, pushed, Chain-linked, Chain-linked_other, tail_of_Chain, frame,
  frame_same,
}
use bkernel.Queue.Walk.{rounds}

-- A pointer to an entry of the process table.
abbrev pub IsSlot : ℕ → Type 0
IsSlot p = (p ≢ null) × (p ≤ proc_sz)

pub record IsQueue (f : Procs) (q : ℕ) (xs : List ℕ) : Type 0 where
  pub chain : Chain f q xs
  pub distinct : Distinct xs
  pub slots : All IsSlot xs

without : ℕ → List ℕ → List ℕ
without n [] = []
without n (x ∷ xs) = let rest = without n xs in if x == n then rest else x ∷ rest

NotIn-without : (a n : ℕ) (xs : List ℕ) → NotIn a xs → NotIn a (without n xs)
unfolding without
NotIn-without a n [] h = tt
NotIn-without a n (x ∷ xs) h = elim (Bool-cases (x == n)) [
  | inl e ↦ rw e (NotIn-without a n xs h.1)
  | inr e ↦ rw e (h.0, NotIn-without a n xs h.1)
]

Distinct-without : (n : ℕ) (xs : List ℕ) → Distinct xs → Distinct (without n xs)
unfolding without
Distinct-without n [] d = tt
Distinct-without n (x ∷ xs) d = elim (Bool-cases (x == n)) [
  | inl e ↦ rw e (Distinct-without n xs d.1)
  | inr e ↦ rw e (NotIn-without x n xs d.0, Distinct-without n xs d.1)
]

length-without_absent : (n : ℕ) (xs : List ℕ) → NotIn n xs → length (without n xs) ≡ length xs
unfolding without
length-without_absent n [] h = refl
length-without_absent n (x ∷ xs) h = ground (arith, length-without_absent n xs h.1)

length-without : (n : ℕ) (xs : List ℕ) → Distinct xs → length xs ≤ suc (length (without n xs))
unfolding without
length-without n [] d = omega arith
length-without n (x ∷ xs) d = elim (Bool-cases (x == n)) [
  | inl e ↦
      rw e (omega (arith, length-without_absent n xs (subst (λ m. NotIn m xs) (==→eq x n e) d.0)))
  | inr e ↦ rw e (omega (arith, length-without n xs d.1))
]

Within-without :
    (n : ℕ) (xs : List ℕ)
    → All (λ x. (x ≢ 0) × (x ≤ suc n)) xs
    → All (λ x. (x ≢ 0) × (x ≤ n)) (without (suc n) xs)
unfolding without
Within-without n [] a = tt
Within-without n (x ∷ xs) a = elim (Bool-cases (x == suc n)) [
  | inl e ↦ rw e (Within-without n xs a.1)
  | inr e ↦ rw e ((a.0.0, omega (arith, ==→ne x (suc n) e)), Within-without n xs a.1)
]

-- Distinct numbers from 1 to n are at most n.
pub length-le_of_Distinct :
    (n : ℕ) (xs : List ℕ) → Distinct xs → All (λ x. (x ≢ 0) × (x ≤ n)) xs → length xs ≤ n
length-le_of_Distinct zero [] d a = omega arith
length-le_of_Distinct zero (x ∷ xs) d a = absurd (omega arith)
length-le_of_Distinct (suc n) xs d a = omega (
  arith,
  length-without (suc n) xs d,
  length-le_of_Distinct n (without (suc n) xs) (Distinct-without (suc n) xs d)
      (Within-without n xs a),
)

All-snoc : (xs : List ℕ) (y : ℕ) → All IsSlot xs → IsSlot y → All IsSlot (snoc xs y)
All-snoc [] y a h = (h, tt)
All-snoc (x ∷ xs) y a h = (a.0, All-snoc xs y a.1 h)

module _ {f : Procs} {q : ℕ} where
  -- The rounds that a walk is given are enough.
  pub length-lt-rounds : {xs : List ℕ} → IsQueue f q xs → length xs < rounds
  length-lt-rounds {xs} v = omega (arith, length-le_of_Distinct proc_sz xs v.distinct v.slots)

  -- Linking a process behind the queue,
  pub IsQueue-linked :
      {xs : List ℕ} (p : ℕ)
      → (f p).next ≡ null
      → IsSlot p
      → NotIn p xs
      → IsQueue f q xs
      → IsQueue (linked f xs p) (front (snoc xs p)) (snoc xs p)
  IsQueue-linked {xs} p z s out v = record {
    chain = Chain-linked xs p z s.0 out v.distinct v.chain;
    distinct = Distinct-snoc xs p v.distinct out;
    slots = All-snoc xs p v.slots s;
  }

  -- and what that does to a queue that it does not touch.
  pub IsQueue-linked_other :
      {ys : List ℕ} (xs : List ℕ) (p : ℕ)
      → NotIn p ys
      → Apart xs ys
      → IsQueue f q ys
      → IsQueue (linked f xs p) q ys
  IsQueue-linked_other xs p out a v = record {
    chain = Chain-linked_other xs p out a v.chain;
    distinct = v.distinct;
    slots = v.slots;
  }

  -- The queue behind its first process.
  pub IsQueue-tail : {x : ℕ} {xs : List ℕ} → IsQueue f q (x ∷ xs) → IsQueue f (f x).next xs
  IsQueue-tail v = record {
    chain = tail_of_Chain v.chain;
    distinct = v.distinct.1;
    slots = v.slots.1;
  }

  -- Changes of other fields, and of processes that are no member.
  pub IsQueue-same :
      {xs : List ℕ} (a : ℕ) (v : Pcb)
      → v.next ≡ (f a).next
      → IsQueue f q xs
      → IsQueue (update f a v) q xs
  IsQueue-same a v e i = record {
    chain = frame_same a v e i.chain;
    distinct = i.distinct;
    slots = i.slots;
  }

  pub IsQueue-frame :
      {xs : List ℕ} (a : ℕ) (v : Pcb) → NotIn a xs → IsQueue f q xs → IsQueue (update f a v) q xs
  IsQueue-frame a v out i = record {
    chain = frame a v out i.chain;
    distinct = i.distinct;
    slots = i.slots;
  }

module _ {f : Procs} {q : ℕ} where
  -- A push behind the queue,
  pub IsQueue-pushed :
      {xs : List ℕ} (p : ℕ)
      → IsSlot p
      → NotIn p xs
      → IsQueue f q xs
      → IsQueue (pushed f xs p) (front (snoc xs p)) (snoc xs p)
  IsQueue-pushed p s out v =
      IsQueue-linked p (rw (eq→== p p refl) refl) s out (IsQueue-frame p _ out v)

  -- and what it does to another queue.
  pub IsQueue-pushed_other :
      {ys : List ℕ} (xs : List ℕ) (p : ℕ)
      → NotIn p ys
      → Apart xs ys
      → IsQueue f q ys
      → IsQueue (pushed f xs p) q ys
  IsQueue-pushed_other xs p out a v = IsQueue-linked_other xs p out a (IsQueue-frame p _ out v)
