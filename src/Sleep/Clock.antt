-- ===== src/Sleep/Clock.antt =====
-- The sleeping processes as alarm clocks: what one time slice does to them.
use bkernel.Base.{
  ℕ, ◌+◌, ◌-◌, ◌≤◌, ◌<◌, ◌≡◌, refl, sym, ap, ◌∙◌, List, [], ◌∷◌, false, ◌==◌, if◌then◌else◌, leb,
  arith, Bool-cases, inl, inr, ==→eq, ==→ne, subst, ◌++◌, Apart, Apart-snoc, Apart-tail, Distinct,
  snoc, snoc-append, append-nil,
}
use bkernel.Queue.Chain.{Procs}
use bkernel.Sleep.Delta.{Alarm, alarms, Fits}
use bkernel.Sleep.Order.{IsEarly, IsPending}
use bkernel.Sleep.Wake.{due_now, still, SameDeltas}

-- The slices that each process has to wait, where `elapsed` of those of the head have passed.
unfoldable pub remaining : Procs → ℕ → List ℕ → List Alarm
remaining f elapsed [] = []
remaining f elapsed (x ∷ xs) =
    let at = (f x).delta_slice - elapsed in record { who = x; at = at } ∷ alarms f at xs

-- Those whose last slice passes, and the others with one slice less to wait.
unfoldable pub rung : List Alarm → List ℕ
rung [] = []
rung (a ∷ rest) = let others = rung rest in if leb a.at 1 then a.who ∷ others else others

unfoldable pub waiting : List Alarm → List Alarm
waiting [] = []
waiting (a ∷ rest) =
    let others = waiting rest in
    if leb a.at 1 then others else record { who = a.who; at = a.at - 1 } ∷ others

-- Where more than one slice has to pass before the head's time begins, none rings.
rung-alarms_later : (f : Procs) (from : ℕ) (xs : List ℕ) → 1 < from → rung (alarms f from xs) ≡ []
unfolding rung alarms
rung-alarms_later f from [] h = refl
rung-alarms_later f from (x ∷ xs) h =
    ground (arith, rung-alarms_later f (from + (f x).delta_slice) xs)

waiting-alarms_later :
    (f : Procs) (from : ℕ) (xs : List ℕ)
    → 1 < from
    → waiting (alarms f from xs) ≡ alarms f (from - 1) xs
unfolding waiting alarms
waiting-alarms_later f from [] h = refl
waiting-alarms_later f from (x ∷ xs) h =
    let at : from + (f x).delta_slice - 1 ≡ from - 1 + (f x).delta_slice = omega arith in
    let late : leb (from + (f x).delta_slice) 1 ≡ false = ground arith in
    rw (late, waiting-alarms_later f (from + (f x).delta_slice) xs (omega arith), at) refl

-- Where the head's last slice passes, those that are due with it ring.
rung-alarms_now : (f : Procs) (xs : List ℕ) → rung (alarms f 1 xs) ≡ due_now f xs
unfolding rung alarms due_now
rung-alarms_now f [] = refl
rung-alarms_now f (x ∷ xs) = elim (Bool-cases ((f x).delta_slice == 0)) [
  | inl due ↦
      let at : 1 + (f x).delta_slice ≡ 1 = omega (arith, ==→eq _ _ due) in
      rw (due, at) (ap (λ ys. x ∷ ys) (rung-alarms_now f xs))
  | inr waits ↦
      let late : leb (1 + (f x).delta_slice) 1 ≡ false = ground (arith, ==→ne _ _ waits) in
      rw (waits, late)
        (rung-alarms_later f (1 + (f x).delta_slice) xs (omega (arith, ==→ne _ _ waits)))
]

waiting-alarms_now : (f : Procs) (xs : List ℕ) → waiting (alarms f 1 xs) ≡ alarms f 0 (still f xs)
unfolding waiting alarms still
waiting-alarms_now f [] = refl
waiting-alarms_now f (x ∷ xs) = elim (Bool-cases ((f x).delta_slice == 0)) [
  | inl due ↦
      let at : 1 + (f x).delta_slice ≡ 1 = omega (arith, ==→eq _ _ due) in
      rw (due, at) (waiting-alarms_now f xs)
  | inr waits ↦
      let late : leb (1 + (f x).delta_slice) 1 ≡ false = ground (arith, ==→ne _ _ waits) in
      let at : 1 + (f x).delta_slice - 1 ≡ 0 + (f x).delta_slice = omega arith in
      rw
        (
          waits,
          late,
          waiting-alarms_later f (1 + (f x).delta_slice) xs (omega (arith, ==→ne _ _ waits)),
          at,
        )
        refl
]

-- The two kinds of a slice, for the whole list.
pub remaining_quiet :
    (f : Procs) (elapsed : ℕ) (x : ℕ) (xs : List ℕ)
    → elapsed + 1 < (f x).delta_slice
    → (rung (remaining f elapsed (x ∷ xs)) ≡ [])
      × (waiting (remaining f elapsed (x ∷ xs)) ≡ remaining f (elapsed + 1) (x ∷ xs))
unfolding rung waiting remaining
remaining_quiet f elapsed x xs h =
    let dx = (f x).delta_slice in
    let late : leb (dx - elapsed) 1 ≡ false = ground arith in
    let at : dx - elapsed - 1 ≡ dx - (elapsed + 1) = omega arith in
    (
      rw late (rung-alarms_later f (dx - elapsed) xs (omega arith)),
      rw (late, waiting-alarms_later f (dx - elapsed) xs (omega arith), at) refl,
    )

pub alarms-SameDeltas :
    (f g : Procs) (from : ℕ) (xs : List ℕ) → SameDeltas f g → alarms g from xs ≡ alarms f from xs
unfolding alarms
alarms-SameDeltas f g from [] s = refl
alarms-SameDeltas f g from (x ∷ xs) s =
    rw (s x, alarms-SameDeltas f g (from + (f x).delta_slice) xs s) refl

pub remaining_fresh : (f : Procs) (xs : List ℕ) → remaining f 0 xs ≡ alarms f 0 xs
unfolding remaining alarms
remaining_fresh f [] = refl
remaining_fresh f (x ∷ xs) =
    let at : (f x).delta_slice - 0 ≡ 0 + (f x).delta_slice = omega arith in rw at refl

pub remaining_due :
    (f g : Procs) (elapsed : ℕ) (x : ℕ) (xs : List ℕ)
    → elapsed + 1 ≡ (f x).delta_slice
    → SameDeltas f g
    → (rung (remaining f elapsed (x ∷ xs)) ≡ x ∷ due_now f xs)
      × (waiting (remaining f elapsed (x ∷ xs)) ≡ remaining g 0 (still f xs))
unfolding rung waiting remaining
remaining_due f g elapsed x xs h s =
    let at : (f x).delta_slice - elapsed ≡ 1 = omega arith in
    (
      rw at (ap (λ ys. x ∷ ys) (rung-alarms_now f xs)),
      rw at (
          waiting-alarms_now f xs
          ∙ sym (remaining_fresh g (still f xs) ∙ alarms-SameDeltas f g 0 (still f xs) s)),
    )

-- What stays in the list is again a list for the timer.
pub Fits-earlier :
    (f g : Procs) (from to : ℕ) (xs : List ℕ)
    → SameDeltas f g
    → to ≤ from
    → Fits f from xs
    → Fits g to xs
Fits-earlier f g from to [] s h fits = tt
Fits-earlier f g from to (x ∷ xs) s h fits = rw (s x) (
  omega arith,
  Fits-earlier f g (from + (f x).delta_slice) (to + (f x).delta_slice) xs s (omega arith) fits.1,
)

pub Fits-still :
    (f g : Procs) (from : ℕ) (xs : List ℕ) → SameDeltas f g → Fits f from xs → Fits g 0 (still f xs)
unfolding still
Fits-still f g from [] s fits = tt
Fits-still f g from (x ∷ xs) s fits = elim (Bool-cases ((f x).delta_slice == 0)) [
  | inl due ↦ rw due (Fits-still f g (from + (f x).delta_slice) xs s fits.1)
  | inr waits ↦ rw waits (Fits-earlier f g from 0 (x ∷ xs) s (omega arith) fits)
]

pub IsPending-still : (f g : Procs) (xs : List ℕ) → SameDeltas f g → IsPending g (still f xs)
unfolding still
IsPending-still f g [] s = tt
IsPending-still f g (x ∷ xs) s = elim (Bool-cases ((f x).delta_slice == 0)) [
  | inl due ↦ rw due (IsPending-still f g xs s)
  | inr waits ↦ rw (waits, s x) (omega (arith, ==→ne _ _ waits))
]

-- Who becomes ready no longer sleeps.
Apart-moved :
    (f : Procs) (xs ys : List ℕ)
    → Apart xs ys
    → Distinct ys
    → Apart (xs ++ due_now f ys) (still f ys)
unfolding due_now still
Apart-moved f xs [] a d = subst (λ zs. Apart zs []) (sym (append-nil xs)) a
Apart-moved f xs (y ∷ ys) a d = elim (Bool-cases ((f y).delta_slice == 0)) [
  | inl due ↦ rw due (
      subst (λ zs. Apart zs (still f ys)) (snoc-append xs (due_now f ys) y)
        (Apart-moved f (snoc xs y) ys (Apart-snoc xs y ys (Apart-tail xs y ys a) d.0) d.1))
  | inr waits ↦ rw waits (subst (λ zs. Apart zs (y ∷ ys)) (sym (append-nil xs)) a)
]

pub Apart-due :
    (f : Procs) (xs ys : List ℕ) (y : ℕ)
    → Apart xs (y ∷ ys)
    → Distinct (y ∷ ys)
    → Apart (xs ++ (y ∷ due_now f ys)) (still f ys)
Apart-due f xs ys y a d =
    subst (λ zs. Apart zs (still f ys)) (snoc-append xs (due_now f ys) y)
      (Apart-moved f (snoc xs y) ys (Apart-snoc xs y ys (Apart-tail xs y ys a) d.0) d.1)

pub IsEarly-kept :
    (f g : Procs) (e : ℕ) (ys : List ℕ) → SameDeltas f g → IsEarly f e ys → IsEarly g e ys
IsEarly-kept f g e [] s h = tt
IsEarly-kept f g e (y ∷ ys) s h = rw (s y) h
