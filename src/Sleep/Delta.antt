-- ===== src/Sleep/Delta.antt =====
-- What the delta list of c/sleep.c stands for: each sleeping process with the number of time slices
-- after which it is to wake.
use bkernel.Base.{
  ℕ, ◌+◌, ◌≡◌, ◌≢◌, refl, sym, ap, List, [], ◌∷◌, Bool-cases, inl, inr, if◌then◌else◌, ltb,
  word_mod, ◌<◌, NotIn, Distinct, All,
}
use bkernel.Queue.Chain.{Procs}
use bkernel.Queue.Valid.{IsSlot}
use bkernel.Queue.Same.{SameOn}

pub record Alarm : Type 0 where
  pub who : ℕ
  pub at : ℕ

-- The alarms of the processes of a list, where `from` slices have passed before its head.
unfoldable pub alarms : Procs → ℕ → List ℕ → List Alarm
alarms f from [] = []
alarms f from (x ∷ xs) =
    let at = from + (f x).delta_slice in record { who = x; at = at } ∷ alarms f at xs

-- A new alarm stands behind those that are not later.
unfoldable pub place : ℕ → ℕ → List Alarm → List Alarm
place p at [] = record { who = p; at = at } ∷ []
place p at (a ∷ rest) =
    let later = place p at rest in
    if ltb at a.at then record { who = p; at = at } ∷ a ∷ rest else a ∷ later

unfoldable pub sleepers : List Alarm → List ℕ
sleepers [] = []
sleepers (a ∷ rest) = a.who ∷ sleepers rest

pub sleepers-alarms : (f : Procs) (from : ℕ) (xs : List ℕ) → sleepers (alarms f from xs) ≡ xs
unfolding sleepers alarms
sleepers-alarms f from [] = refl
sleepers-alarms f from (x ∷ xs) =
    ap (λ ys. x ∷ ys) (sleepers-alarms f (from + (f x).delta_slice) xs)

-- Alarms depend on the list's processes only.
pub alarms-SameOn :
    (f g : Procs) (from : ℕ) (xs : List ℕ) → SameOn f g xs → alarms g from xs ≡ alarms f from xs
unfolding alarms
alarms-SameOn f g from [] s = refl
alarms-SameOn f g from (x ∷ xs) s = rw s.0 (
    ap (λ rest. record { who = x; at = from + (f x).delta_slice } ∷ rest)
      (alarms-SameOn f g (from + (f x).delta_slice) xs s.1))

-- The times of the alarms are words.
abbrev pub Fits : Procs → ℕ → List ℕ → Type 0
Fits f from [] = Unit
Fits f from (x ∷ xs) = (from + (f x).delta_slice < word_mod) × Fits f (from + (f x).delta_slice) xs

pub Fits-SameOn :
    (f g : Procs) (from : ℕ) (xs : List ℕ) → SameOn f g xs → Fits f from xs → Fits g from xs
Fits-SameOn f g from [] s h = tt
Fits-SameOn f g from (x ∷ xs) s h =
    rw s.0 (h.0, Fits-SameOn f g (from + (f x).delta_slice) xs s.1 h.1)

module _ (p : ℕ) where
  pub NotIn-place :
      (a at : ℕ) (rest : List Alarm)
      → a ≢ p
      → NotIn a (sleepers rest)
      → NotIn a (sleepers (place p at rest))
  unfolding place sleepers
  NotIn-place a at [] n out = (n, tt)
  NotIn-place a at (x ∷ xs) n out = elim (Bool-cases (ltb at x.at)) [
    | inl before ↦ rw before (n, out)
    | inr behind ↦ rw behind (out.0, NotIn-place a at xs n out.1)
  ]

  pub Distinct-place :
      (at : ℕ) (rest : List Alarm)
      → NotIn p (sleepers rest)
      → Distinct (sleepers rest)
      → Distinct (sleepers (place p at rest))
  unfolding place sleepers
  Distinct-place at [] out d = (tt, tt)
  Distinct-place at (x ∷ xs) out d = elim (Bool-cases (ltb at x.at)) [
    | inl before ↦ rw before (out, d)
    | inr behind ↦
        rw behind (NotIn-place x.who at xs (λ e. out.0 (sym e)) d.0, Distinct-place at xs out.1 d.1)
  ]

  pub All-place :
      (at : ℕ) (rest : List Alarm)
      → IsSlot p
      → All IsSlot (sleepers rest)
      → All IsSlot (sleepers (place p at rest))
  unfolding place sleepers
  All-place at [] s a = (s, tt)
  All-place at (x ∷ xs) s a = elim (Bool-cases (ltb at x.at)) [
    | inl before ↦ rw before (s, a)
    | inr behind ↦ rw behind (a.0, All-place at xs s a.1)
  ]
