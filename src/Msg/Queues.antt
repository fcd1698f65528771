-- ===== src/Msg/Queues.antt =====
-- The search of `unblock` and of `deadlock` in c/msg.c through a queue of blocked processes.
use bkernel.Base.{
  ℕ, zero, suc, ◌<◌, ◌≡◌, ◌≢◌, refl, sym, List, [], ◌∷◌, some, Bool, true, false, ◌||◌, ◌==◌,
  if◌then◌else◌, arith, length, NotIn, Apart, Distinct, All, inl, inr, Bool-cases, eq→==, ne→==,
}
use bkernel.Kernel.{null}
use bkernel.Queue.Chain.{Procs, Chain, nil, cons, set_next, frame, head_of_Chain, tail_of_Chain}
use bkernel.Queue.Valid.{IsSlot}
use bkernel.Msg.{find_before, pid_in_queue}

-- `x->pid == pid || !pid`: the pid 0 matches every process.
abbrev pub matches : Procs → ℕ → ℕ → Bool
matches f pid x = (f x).pid == pid || pid == 0

-- The first process of the list that matches, NULL if none does,
unfoldable pub first_match : Procs → ℕ → List ℕ → ℕ
first_match f pid [] = null
first_match f pid (x ∷ xs) = let rest = first_match f pid xs in if matches f pid x then x else rest

-- the list without it,
unfoldable pub drop_match : Procs → ℕ → List ℕ → List ℕ
drop_match f pid [] = []
drop_match f pid (x ∷ xs) =
    let rest = drop_match f pid xs in if matches f pid x then xs else x ∷ rest

-- and the process before it, where `x` precedes the list.
unfoldable pub before_match : Procs → ℕ → ℕ → List ℕ → ℕ
before_match f pid x [] = null
before_match f pid x (y ∷ ys) =
    let rest = before_match f pid y ys in if matches f pid y then x else rest

module _ (f : Procs) (pid : ℕ) where
  pub NotIn-drop_match : (a : ℕ) (xs : List ℕ) → NotIn a xs → NotIn a (drop_match f pid xs)
  unfolding drop_match
  NotIn-drop_match a [] n = tt
  NotIn-drop_match a (x ∷ xs) n = elim (Bool-cases (matches f pid x)) [
    | inl hit ↦ rw hit n.1
    | inr miss ↦ rw miss (n.0, NotIn-drop_match a xs n.1)
  ]

  pub Distinct-drop_match : (xs : List ℕ) → Distinct xs → Distinct (drop_match f pid xs)
  unfolding drop_match
  Distinct-drop_match [] d = tt
  Distinct-drop_match (x ∷ xs) d = elim (Bool-cases (matches f pid x)) [
    | inl hit ↦ rw hit d.1
    | inr miss ↦ rw miss (NotIn-drop_match x xs d.0, Distinct-drop_match xs d.1)
  ]

  pub All-drop_match : (xs : List ℕ) → All IsSlot xs → All IsSlot (drop_match f pid xs)
  unfolding drop_match
  All-drop_match [] a = tt
  All-drop_match (x ∷ xs) a = elim (Bool-cases (matches f pid x)) [
    | inl hit ↦ rw hit a.1
    | inr miss ↦ rw miss (a.0, All-drop_match xs a.1)
  ]

  -- The walk of `unblock` ends before the first process that matches,
  pub find_before-Chain :
      (n : ℕ) {q x : ℕ} (xs : List ℕ)
      → Chain f q (x ∷ xs)
      → length (x ∷ xs) < n
      → find_before n f q pid ≡ some (before_match f pid x xs)
  unfolding find_before before_match
  find_before-Chain zero xs c h = absurd (omega arith)
  find_before-Chain (suc n) [] (cons e nx (nil z)) h = ground arith
  find_before-Chain (suc n) (y ∷ ys) (cons e nx c) h =
      ground (arith, head_of_Chain c, find_before-Chain n ys c)

  before_match_absent :
      (a x : ℕ) (xs : List ℕ) → NotIn a (x ∷ xs) → a ≢ null → before_match f pid x xs ≢ a
  unfolding before_match
  before_match_absent a x [] n z = ground arith
  before_match_absent a x (y ∷ ys) n z = ground (arith, before_match_absent a y ys n.1 z)

  pub NotIn-before_match :
      (x : ℕ) (xs ys : List ℕ)
      → before_match f pid x xs ≢ null
      → Apart (x ∷ xs) ys
      → NotIn (before_match f pid x xs) ys
  unfolding before_match
  NotIn-before_match x [] ys b a = absurd (b refl)
  NotIn-before_match x (z ∷ zs) ys b a = elim (Bool-cases (matches f pid z)) [
    | inl hit ↦ rw hit a.0
    | inr miss ↦ rw miss (NotIn-before_match z zs ys (rw miss at b) a.1)
  ]

  -- and what it finds: nothing, or the process before the first that matches, and then taking that
  -- one out of the chain leaves the others in their order.
  pub data Search (x : ℕ) (xs : List ℕ) (q : ℕ) : Type 0 where
    absent :
        before_match f pid x xs ≡ null
        → first_match f pid xs ≡ null
        → drop_match f pid xs ≡ xs
        → Search x xs q
    present :
        before_match f pid x xs ≢ null
        → (f (before_match f pid x xs)).next ≡ first_match f pid xs
        → first_match f pid xs ≢ null
        → Chain
            (set_next f (before_match f pid x xs) (f (first_match f pid xs)).next)
            q
            (x ∷ drop_match f pid xs)
        → Search x xs q

  found_here :
      (x y : ℕ) (ys : List ℕ) {q : ℕ}
      → Chain f q (x ∷ y ∷ ys)
      → Distinct (x ∷ y ∷ ys)
      → matches f pid y ≡ true
      → Search x (y ∷ ys) q
  unfolding before_match first_match drop_match
  found_here x y ys {q} (cons e nx c) d hit =
      present (rw hit nx) (rw hit (head_of_Chain c).0) (rw hit (head_of_Chain c).1)
        (rw hit unlinked)
    where
      unlinked : Chain (set_next f x (f y).next) q (x ∷ ys)
      unlinked = cons e nx (rw (eq→== x x refl) (frame x _ d.0.1 (tail_of_Chain c)))

  found_later :
      (x y : ℕ) (ys : List ℕ) {q : ℕ}
      → Chain f q (x ∷ y ∷ ys)
      → Distinct (x ∷ y ∷ ys)
      → matches f pid y ≡ false
      → Search y ys (f x).next
      → Search x (y ∷ ys) q
  unfolding before_match first_match drop_match
  found_later x y ys c d miss (absent b g h) = absent (rw miss b) (rw miss g) (rw (miss, h) refl)
  found_later x y ys {q} (cons e nx c) d miss (present b g h u) =
      present (rw miss b) (rw miss g) (rw miss h) (rw miss unlinked)
    where
      out : x ≢ before_match f pid y ys
      out h = before_match_absent x y ys d.0 nx (sym h)

      unlinked :
          Chain
            (set_next f (before_match f pid y ys) (f (first_match f pid ys)).next)
            q
            (x ∷ y ∷ drop_match f pid ys)
      unlinked = cons e nx (rw (ne→== x _ out) u)

  pub search_lem :
      (x : ℕ) (xs : List ℕ) {q : ℕ} → Chain f q (x ∷ xs) → Distinct (x ∷ xs) → Search x xs q
  unfolding before_match first_match drop_match
  search_lem x [] c d = absent refl refl refl
  search_lem x (y ∷ ys) c d = elim (Bool-cases (matches f pid y)) [
    | inl hit ↦ found_here x y ys c d hit
    | inr miss ↦ found_later x y ys c d miss (search_lem y ys (tail_of_Chain c) d.1)
  ]

-- The walk of `deadlock`.
unfoldable pub has_pid : Procs → ℕ → List ℕ → Bool
has_pid f pid [] = false
has_pid f pid (x ∷ xs) = (f x).pid == pid || has_pid f pid xs

pub pid_in_queue-Chain :
    (n : ℕ) {f : Procs} {q : ℕ} (pid : ℕ) {xs : List ℕ}
    → Chain f q xs
    → length xs < n
    → pid_in_queue n f q pid ≡ some (has_pid f pid xs)
unfolding pid_in_queue has_pid
pid_in_queue-Chain zero pid c h = absurd (omega arith)
pid_in_queue-Chain (suc n) pid (nil e) h = ground arith
pid_in_queue-Chain (suc n) pid (cons e nx c) h = ground (arith, pid_in_queue-Chain n pid c)
