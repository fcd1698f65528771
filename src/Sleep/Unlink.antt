-- ===== src/Sleep/Unlink.antt =====
-- The list of c/sleep.c without one of its processes, whose time goes to the one behind it.
use bkernel.Base.{
  ℕ, Distinct, ◌+◌, ◌<◌, ◌≡◌, ◌≢◌, refl, sym, ap, ◌∙◌, List, [], ◌∷◌, ◌++◌, arith, All, length,
  NotIn, Apart, add32, ne→==, eq→==, word_mod, ◌==◌, if◌then◌else◌,
}
use bkernel.Kernel.{update}
use bkernel.Queue.Chain.{Procs, Chain, cons, tail_of_Chain, last, set_next, frame}
use bkernel.Queue.Valid.{IsQueue, IsSlot, IsQueue-frame, IsQueue-same}
use bkernel.Queue.Same.{SameOn, SameOn-but_one}
use bkernel.Sleep.{with_delta}
use bkernel.Sleep.Delta.{Alarm, alarms, alarms-SameOn, Fits, Fits-SameOn}
use bkernel.Sleep.Wake.{SameDeltas}
use bkernel.Sleep.Clock.{alarms-SameDeltas, Fits-earlier}

-- When the last of the processes is due.
unfoldable pub due_after : Procs → ℕ → List ℕ → ℕ
due_after f from [] = from
due_after f from (x ∷ xs) = due_after f (from + (f x).delta_slice) xs

-- The table where `p`, behind `t`, is taken out and has given its time to the one behind it.
unfoldable pub unlinked : Procs → ℕ → ℕ → List ℕ → Procs
unlinked f t p [] = set_next f t (f p).next
unlinked f t p (y ∷ ys) =
    let g = set_next f t (f p).next in
    update g y (with_delta (add32 (g y).delta_slice (f p).delta_slice) (g y))

-- The lists without the process.
module _ (p : ℕ) where
  pub NotIn-end : (a : ℕ) (xs ys : List ℕ) → NotIn a (xs ++ (p ∷ ys)) → (a ≢ p) × NotIn a ys
  NotIn-end a [] ys n = n
  NotIn-end a (x ∷ xs) ys n = NotIn-end a xs ys n.1

  pub NotIn-removed : (a : ℕ) (xs ys : List ℕ) → NotIn a (xs ++ (p ∷ ys)) → NotIn a (xs ++ ys)
  NotIn-removed a [] ys n = n.1
  NotIn-removed a (x ∷ xs) ys n = (n.0, NotIn-removed a xs ys n.1)

  pub Distinct-removed : (xs ys : List ℕ) → Distinct (xs ++ (p ∷ ys)) → Distinct (xs ++ ys)
  Distinct-removed [] ys d = d.1
  Distinct-removed (x ∷ xs) ys d = (NotIn-removed x xs ys d.0, Distinct-removed xs ys d.1)

  pub All-removed : (xs ys : List ℕ) → All IsSlot (xs ++ (p ∷ ys)) → All IsSlot (xs ++ ys)
  All-removed [] ys a = a.1
  All-removed (x ∷ xs) ys a = (a.0, All-removed xs ys a.1)

  pub NotIn-last : (a x : ℕ) (xs ys : List ℕ) → NotIn a (x ∷ (xs ++ ys)) → a ≢ last x xs
  NotIn-last a x [] ys n = n.0
  NotIn-last a x (y ∷ xs) ys n = NotIn-last a y xs ys n.1

  pub Chain-removed :
      (f : Procs) (q x : ℕ) (mid ys : List ℕ)
      → Distinct (x ∷ (mid ++ (p ∷ ys)))
      → Chain f q (x ∷ (mid ++ (p ∷ ys)))
      → Chain (set_next f (last x mid) (f p).next) q (x ∷ (mid ++ ys))
  Chain-removed f q x [] ys d (cons e n c) =
      cons e n (rw (eq→== x x refl) (frame x _ d.0.1 (tail_of_Chain c)))
  Chain-removed f q x (y ∷ mid) ys d (cons e n c) = cons e n (
      rw (ne→== x (last y mid) (NotIn-last x y mid (p ∷ ys) d.0))
        (Chain-removed f (f x).next y mid ys d.1 c))

-- The alarms without that of `p`.
unfoldable pub cancel : ℕ → List Alarm → List Alarm
cancel p [] = []
cancel p (a ∷ rest) = let others = cancel p rest in if a.who == p then rest else a ∷ others

module _ (f : Procs) (t p : ℕ) where
  pub unlinked-delta :
      (ys : List ℕ) (a : ℕ) → NotIn a ys → (unlinked f t p ys a).delta_slice ≡ (f a).delta_slice
  unfolding unlinked
  unlinked-delta [] a n = ground arith
  unlinked-delta (y ∷ ys) a n = ground (arith, n.0)

  pub alarms-later :
      (from : ℕ) (ys : List ℕ)
      → Distinct ys
      → Fits f (from + (f p).delta_slice) ys
      → (alarms (unlinked f t p ys) from ys ≡ alarms f (from + (f p).delta_slice) ys)
        × Fits (unlinked f t p ys) from ys
  unfolding unlinked alarms
  alarms-later from [] d h = (refl, tt)
  alarms-later from (y ∷ ys) d h =
      let g = unlinked f t p (y ∷ ys) in
      let at : from + (g y).delta_slice ≡ from + (f p).delta_slice + (f y).delta_slice =
        ground (arith, h.0) in
      let m = set_next f t (f p).next in
      let here : SameOn m g ys = SameOn-but_one m g y ys d.0 (λ a n. ground arith) in
      let at2 = from + (f p).delta_slice + (f y).delta_slice in
      let kept : SameDeltas f m = λ a. ground arith in
      (
        rw at (
            ap (λ rs. record { who = y; at = at2 } ∷ rs)
              (alarms-SameOn m g at2 ys here ∙ alarms-SameDeltas f m at2 ys kept)),
        (
          rw at h.0,
          rw at (Fits-SameOn m g at2 ys here (Fits-earlier f m at2 at2 ys kept (omega arith) h.1)),
        ),
      )

  pub alarms-cancel :
      (from : ℕ) (xs ys : List ℕ)
      → Distinct (xs ++ (p ∷ ys))
      → Fits f from (xs ++ (p ∷ ys))
      → (alarms (unlinked f t p ys) from (xs ++ ys) ≡ cancel p (alarms f from (xs ++ (p ∷ ys))))
        × Fits (unlinked f t p ys) from (xs ++ ys)
  unfolding cancel alarms
  alarms-cancel from [] ys d h =
      let l = alarms-later from ys d.1 h.1 in (l.0 ∙ rw (eq→== p p refl) refl, l.1)
  alarms-cancel from (x ∷ xs) ys d h =
      let same = unlinked-delta ys x (NotIn-end p x xs ys d.0).1 in
      let rest = alarms-cancel (from + (f x).delta_slice) xs ys d.1 h.1 in
      (
        rw (ne→== x p (NotIn-end p x xs ys d.0).0, same)
            (ap (λ rs. record { who = x; at = from + (f x).delta_slice } ∷ rs) rest.0),
        (rw same h.0, rw same rest.1),
      )

-- The links of the list once `p` is taken out.
module _ (f : Procs) (q x p : ℕ) (mid ys : List ℕ) (v : IsQueue f q (x ∷ (mid ++ (p ∷ ys)))) where
  pub base_IsQueue : IsQueue (set_next f (last x mid) (f p).next) q (x ∷ (mid ++ ys))
  base_IsQueue = record {
    chain = Chain-removed p f q x mid ys v.distinct v.chain;
    distinct = Distinct-removed p (x ∷ mid) ys v.distinct;
    slots = All-removed p (x ∷ mid) ys v.slots;
  }

  pub IsQueue-unlinked : (zs : List ℕ) → IsQueue (unlinked f (last x mid) p zs) q (x ∷ (mid ++ ys))
  unfolding unlinked
  IsQueue-unlinked [] = base_IsQueue
  IsQueue-unlinked (z ∷ zs) = IsQueue-same z _ refl base_IsQueue

-- A queue of other processes.
pub IsQueue-unlinked_other :
    (f : Procs) (q t p : ℕ) (ys zs : List ℕ)
    → NotIn t zs
    → IsQueue f q zs
    → IsQueue (unlinked f t p ys) q zs
unfolding unlinked
IsQueue-unlinked_other f q t p [] zs n v = IsQueue-frame t _ n v
IsQueue-unlinked_other f q t p (y ∷ ys) zs n v = IsQueue-same y _ refl (IsQueue-frame t _ n v)

-- Lists that are apart from the list with `p` in it.
module _ (p : ℕ) where
  pub NotIn-of_end : (xs pre ys : List ℕ) → Apart xs (pre ++ (p ∷ ys)) → NotIn p xs
  NotIn-of_end [] pre ys a = tt
  NotIn-of_end (x ∷ xs) pre ys a =
      ((λ e. (NotIn-end p x pre ys a.0).0 (sym e)), NotIn-of_end xs pre ys a.1)

  pub Apart-removed : (xs pre ys : List ℕ) → Apart xs (pre ++ (p ∷ ys)) → Apart xs (pre ++ ys)
  Apart-removed [] pre ys a = tt
  Apart-removed (x ∷ xs) pre ys a = (NotIn-removed p x pre ys a.0, Apart-removed xs pre ys a.1)

  pub NotIn-of_last :
      (xs : List ℕ) (x : ℕ) (mid ys : List ℕ)
      → Apart xs (x ∷ (mid ++ (p ∷ ys)))
      → NotIn (last x mid) xs
  NotIn-of_last [] x mid ys a = tt
  NotIn-of_last (z ∷ zs) x mid ys a =
      ((λ e. NotIn-last p z x mid (p ∷ ys) a.0 (sym e)), NotIn-of_last zs x mid ys a.1)

  pub Fits-front :
      (f : Procs) (from : ℕ) (xs ys : List ℕ)
      → Fits f from (xs ++ (p ∷ ys))
      → Fits f from xs × (due_after f from xs + (f p).delta_slice < word_mod)
  unfolding due_after
  Fits-front f from [] ys h = (tt, h.0)
  Fits-front f from (x ∷ xs) ys h =
      let rest = Fits-front f (from + (f x).delta_slice) xs ys h.1 in ((h.0, rest.0), rest.1)

  pub IsSlot-at : (pre ys : List ℕ) → All IsSlot (pre ++ (p ∷ ys)) → IsSlot p
  IsSlot-at [] ys a = a.0
  IsSlot-at (x ∷ pre) ys a = IsSlot-at pre ys a.1

  pub NotIn-rest : (pre ys : List ℕ) → Distinct (pre ++ (p ∷ ys)) → NotIn p ys
  NotIn-rest [] ys d = d.0
  NotIn-rest (x ∷ pre) ys d = NotIn-rest pre ys d.1

  pub NotIn-others : (pre ys : List ℕ) → Distinct (pre ++ (p ∷ ys)) → NotIn p (pre ++ ys)
  NotIn-others [] ys d = d.0
  NotIn-others (x ∷ pre) ys d =
      ((λ e. (NotIn-end p x pre ys d.0).0 (sym e)), NotIn-others pre ys d.1)

  pub shorter : (pre ys : List ℕ) → length pre < length (pre ++ (p ∷ ys))
  shorter [] ys = omega arith
  shorter (x ∷ pre) ys = omega (arith, shorter pre ys)
