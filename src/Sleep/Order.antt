-- ===== src/Sleep/Order.antt =====
-- The list that `sleep` of c/sleep.c keeps is the list of alarms in the order of their times.
use bkernel.Base.{
  ℕ, ◌+◌, ◌<◌, ◌≡◌, ◌≢◌, sym, subst, ap, ◌∙◌, List, [], ◌∷◌, ltb, word_mod, NotIn, Distinct, Apart,
  All, Bool-cases, inl, inr,
}
use bkernel.Kernel.{Kernel}
use bkernel.Queue.Chain.{Procs, Chain}
use bkernel.Queue.Valid.{IsSlot, IsQueue}
use bkernel.Queue.Same.{SameOn, Chain-SameOn}
use bkernel.Sleep.Delta.{
  Alarm, alarms, place, sleepers, sleepers-alarms, Fits, NotIn-place, Distinct-place, All-place,
}
use bkernel.Sleep.Steps.{plain}

-- The head of the list has not slept its time, of which `elapsed` slices have passed.
abbrev pub IsEarly : Procs → ℕ → List ℕ → Type 0
IsEarly f elapsed [] = Unit
IsEarly f elapsed (x ∷ xs) = elapsed < (f x).delta_slice

abbrev pub IsPending : Procs → List ℕ → Type 0
IsPending f xs = IsEarly f 0 xs

-- A list of sleeping processes as the timer wants it.
pub record IsDelta (f : Procs) (q : ℕ) (xs : List ℕ) : Type 0 where
  pub queue : IsQueue f q xs
  pub fits : Fits f 0 xs
  pub pending : IsPending f xs

-- The times fit if they do so one by one.
Fits→All :
    (f : Procs) (from : ℕ) (xs : List ℕ)
    → Fits f from xs
    → All (λ a. a.at < word_mod) (alarms f from xs)
unfolding alarms
Fits→All f from [] h = tt
Fits→All f from (x ∷ xs) h = (h.0, Fits→All f (from + (f x).delta_slice) xs h.1)

All→Fits :
    (f : Procs) (from : ℕ) (xs : List ℕ)
    → All (λ a. a.at < word_mod) (alarms f from xs)
    → Fits f from xs
unfolding alarms
All→Fits f from [] h = tt
All→Fits f from (x ∷ xs) h = (h.0, All→Fits f (from + (f x).delta_slice) xs h.1)

All-place_early :
    (p at : ℕ) (rest : List Alarm)
    → at < word_mod
    → All (λ a. a.at < word_mod) rest
    → All (λ a. a.at < word_mod) (place p at rest)
unfolding place
All-place_early p at [] h all = (h, tt)
All-place_early p at (a ∷ rest) h all = elim (Bool-cases (ltb at a.at)) [
  | inl before ↦ rw before (h, all)
  | inr behind ↦ rw behind (all.0, All-place_early p at rest h all.1)
]

-- What `sleep` leaves behind: `order` is the list, with the process's alarm in its place.
pub record Slept (k : Kernel) (p : ℕ) (xs : List ℕ) (r : ℕ) (k' : Kernel) : Type 0 where
  pub result : r ≢ 0
  pub order : List ℕ
  pub delta : IsDelta k'.proc k'.sleep_q order
  pub due : alarms k'.proc 0 order ≡ place p (k.proc p).delta_slice (alarms k.proc 0 xs)
  pub frame : (a : ℕ) → a ≢ p → NotIn a xs → k'.proc a ≡ k.proc a
  pub fields : (a : ℕ) → plain (k'.proc a) ≡ plain (k.proc a)
  pub rest : k' ≡ record k { proc = k'.proc; sleep_q = k'.sleep_q }

-- The list in its order is the list of who sleeps.
order_of_due :
    (f g : Procs) (p at : ℕ) (xs order : List ℕ)
    → alarms g 0 order ≡ place p at (alarms f 0 xs)
    → order ≡ sleepers (place p at (alarms f 0 xs))
order_of_due f g p at xs order e = sym (sleepers-alarms g 0 order) ∙ ap sleepers e

-- The alarms settle all of the list but its links.
pub IsDelta-place :
    (f g : Procs) (p q q' : ℕ) (xs order : List ℕ)
    → IsDelta f q xs
    → IsSlot p
    → NotIn p xs
    → (f p).delta_slice < word_mod
    → alarms g 0 order ≡ place p (f p).delta_slice (alarms f 0 xs)
    → Chain g q' order
    → IsPending g order
    → IsDelta g q' order
IsDelta-place f g p q q' xs order v s out small due c pending = record {
  queue = record {
    chain = c;
    distinct = subst Distinct (sym who) (
        Distinct-place p (f p).delta_slice (alarms f 0 xs) (rw members out)
          (rw members v.queue.distinct));
    slots =
        subst (All IsSlot) (sym who)
          (All-place p (f p).delta_slice (alarms f 0 xs) s (rw members v.queue.slots));
  };
  fits = All→Fits g 0 order (
      subst (All (λ a. a.at < word_mod)) (sym due)
        (All-place_early p (f p).delta_slice (alarms f 0 xs) small (Fits→All f 0 xs v.fits)));
  pending = pending;
}
  where
    members : sleepers (alarms f 0 xs) ≡ xs
    members = sleepers-alarms f 0 xs

    who : order ≡ sleepers (place p (f p).delta_slice (alarms f 0 xs))
    who = order_of_due f g p (f p).delta_slice xs order due

module _ (k : Kernel) (p : ℕ) (ys : List ℕ) (r : ℕ) (k' : Kernel) (s : Slept k p ys r k') where
  -- `sleep` leaves the processes of other lists alone, and these stay apart from its own.
  pub SameOn-Slept : (zs : List ℕ) → Apart zs ys → NotIn p zs → SameOn k.proc k'.proc zs
  SameOn-Slept [] a n = tt
  SameOn-Slept (z ∷ zs) a n = (s.frame z (λ e. n.0 (sym e)) a.0, SameOn-Slept zs a.1 n.1)

  Apart-place :
      (zs : List ℕ)
      → Apart zs ys
      → NotIn p zs
      → Apart zs (sleepers (place p (k.proc p).delta_slice (alarms k.proc 0 ys)))
  Apart-place [] a n = tt
  Apart-place (z ∷ zs) a n = (
    NotIn-place p z (k.proc p).delta_slice (alarms k.proc 0 ys) (λ e. n.0 (sym e))
        (subst (NotIn z) (sym (sleepers-alarms k.proc 0 ys)) a.0),
    Apart-place zs a.1 n.1,
  )

  pub order-Slept : s.order ≡ sleepers (place p (k.proc p).delta_slice (alarms k.proc 0 ys))
  order-Slept = order_of_due k.proc k'.proc p (k.proc p).delta_slice ys s.order s.due

  pub Apart-Slept : (zs : List ℕ) → Apart zs ys → NotIn p zs → Apart zs s.order
  Apart-Slept zs a n = subst (Apart zs) (sym order-Slept) (Apart-place zs a n)

  -- A list apart from it is as it was.
  pub IsQueue-Slept :
      (q : ℕ) (zs : List ℕ) → Apart zs ys → NotIn p zs → IsQueue k.proc q zs → IsQueue k'.proc q zs
  IsQueue-Slept q zs a n v = record {
    chain = Chain-SameOn (SameOn-Slept zs a n) v.chain;
    distinct = v.distinct;
    slots = v.slots;
  }
