-- ===== src/Base/Lists.antt =====
-- Lists measured and indexed by native numbers, and membership as a predicate by recursion.
use Prim.Native.Nat.{ℕ, zero, suc, ◌+◌, ◌<◌}
use mathlib.Core.Path.{◌≡◌, refl, ap}
use mathlib.Core.Logic.{◌≢◌}
use mathlib.Core.List.{List, [], ◌∷◌, ◌++◌}
use mathlib.Core.Option.{Option, none, some}
use native.Mathlib.Omega.{arith}

module _ {ℓ} {A : Type ℓ} where
  abbrev pub length : List A → ℕ
  length [] = 0
  length (x ∷ xs) = suc (length xs)

  abbrev pub get_or : List A → ℕ → A → A
  get_or [] i d = d
  get_or (x ∷ xs) zero d = x
  get_or (x ∷ xs) (suc i) d = get_or xs i d

  abbrev pub get_elem? : List A → ℕ → Option A
  get_elem? [] i = none
  get_elem? (x ∷ xs) zero = some x
  get_elem? (x ∷ xs) (suc i) = get_elem? xs i

  -- A write out of bounds changes nothing.
  abbrev pub set : List A → ℕ → A → List A
  set [] i v = []
  set (x ∷ xs) zero v = v ∷ xs
  set (x ∷ xs) (suc i) v = x ∷ set xs i v

  abbrev pub replicate : ℕ → A → List A
  replicate zero a = []
  replicate (suc n) a = a ∷ replicate n a

  pub length-append : (xs ys : List A) → length (xs ++ ys) ≡ length xs + length ys
  length-append [] ys = omega arith
  length-append (x ∷ xs) ys = omega (arith, length-append xs ys)

  pub length-set : (xs : List A) (i : ℕ) (v : A) → length (set xs i v) ≡ length xs
  length-set [] i v = refl
  length-set (x ∷ xs) zero v = refl
  length-set (x ∷ xs) (suc i) v = ap suc (length-set xs i v)

  pub get_or-set_self :
      (xs : List A) (i : ℕ) (v d : A) → i < length xs → get_or (set xs i v) i d ≡ v
  get_or-set_self [] i v d h = absurd (omega arith)
  get_or-set_self (x ∷ xs) zero v d h = refl
  get_or-set_self (x ∷ xs) (suc i) v d h = get_or-set_self xs i v d (omega arith)

  pub get_or-set_ne :
      (xs : List A) {i j : ℕ} (v d : A) → i ≢ j → get_or (set xs i v) j d ≡ get_or xs j d
  get_or-set_ne [] v d h = refl
  get_or-set_ne (x ∷ xs) {i = zero} {j = zero} v d h = absurd (h refl)
  get_or-set_ne (x ∷ xs) {i = zero} {j = suc j} v d h = refl
  get_or-set_ne (x ∷ xs) {i = suc i} {j = zero} v d h = refl
  get_or-set_ne (x ∷ xs) {i = suc i} {j = suc j} v d h = get_or-set_ne xs v d (λ e. h (ap suc e))

  -- An index that holds something is in range, and can be written and written back.
  pub get_elem?-lt : (xs : List A) (i : ℕ) (u : A) → get_elem? xs i ≡ some u → i < length xs
  get_elem?-lt [] i u h = cc
  get_elem?-lt (x ∷ xs) zero u h = omega arith
  get_elem?-lt (x ∷ xs) (suc i) u h = omega (arith, get_elem?-lt xs i u h)

  pub get_elem?-set_self :
      (xs : List A) (i : ℕ) (u v : A) → get_elem? xs i ≡ some u → get_elem? (set xs i v) i ≡ some v
  get_elem?-set_self [] i u v h = cc
  get_elem?-set_self (x ∷ xs) zero u v h = refl
  get_elem?-set_self (x ∷ xs) (suc i) u v h = get_elem?-set_self xs i u v h

  pub set_back :
      (xs : List A) (i : ℕ) (u v : A) → get_elem? xs i ≡ some u → set (set xs i v) i u ≡ xs
  set_back [] i u v h = refl
  set_back (x ∷ xs) zero u v h = cc
  set_back (x ∷ xs) (suc i) u v h = ap (λ ys. x ∷ ys) (set_back xs i u v h)

  -- `xs ++ (x ∷ [])`
  abbrev pub snoc : List A → A → List A
  snoc [] y = y ∷ []
  snoc (x ∷ xs) y = x ∷ snoc xs y

  pub length-snoc : (xs : List A) (y : A) → length (snoc xs y) ≡ suc (length xs)
  length-snoc [] y = refl
  length-snoc (x ∷ xs) y = ap suc (length-snoc xs y)

pub snoc-append {ℓ} : {A : Type ℓ} (xs ys : List A) (y : A) → snoc xs y ++ ys ≡ xs ++ (y ∷ ys)
snoc-append [] ys y = refl
snoc-append (x ∷ xs) ys y = ap (λ zs. x ∷ zs) (snoc-append xs ys y)

-- Every member of the list satisfies `P`.
abbrev pub All {ℓ κ} : {A : Type ℓ} → (A → Type κ) → List A → Type κ
All P [] = Unit
All P (x ∷ xs) = P x × All P xs

-- `a` is no member of the list.
abbrev pub NotIn : ℕ → List ℕ → Type 0
NotIn a [] = Unit
NotIn a (x ∷ xs) = (a ≢ x) × NotIn a xs

-- No number stands in the list twice.
abbrev pub Distinct : List ℕ → Type 0
Distinct [] = Unit
Distinct (x ∷ xs) = NotIn x xs × Distinct xs

-- No number stands in both lists.
abbrev pub Apart : List ℕ → List ℕ → Type 0
Apart [] ys = Unit
Apart (x ∷ xs) ys = NotIn x ys × Apart xs ys

pub NotIn-snoc : (a : ℕ) (xs : List ℕ) (y : ℕ) → NotIn a xs → a ≢ y → NotIn a (snoc xs y)
NotIn-snoc a [] y h n = (n, tt)
NotIn-snoc a (x ∷ xs) y h n = (h.0, NotIn-snoc a xs y h.1 n)

pub Distinct-snoc : (xs : List ℕ) (y : ℕ) → Distinct xs → NotIn y xs → Distinct (snoc xs y)
Distinct-snoc [] y d n = (tt, tt)
Distinct-snoc (x ∷ xs) y d n = (NotIn-snoc x xs y d.0 (omega arith), Distinct-snoc xs y d.1 n.1)

pub Apart-snoc :
    (xs : List ℕ) (y : ℕ) (zs : List ℕ) → Apart xs zs → NotIn y zs → Apart (snoc xs y) zs
Apart-snoc [] y zs a n = (n, tt)
Apart-snoc (x ∷ xs) y zs a n = (a.0, Apart-snoc xs y zs a.1 n)

pub Apart-snoc_right : (xs zs : List ℕ) (y : ℕ) → Apart xs zs → NotIn y xs → Apart xs (snoc zs y)
Apart-snoc_right [] zs y a n = tt
Apart-snoc_right (x ∷ xs) zs y a n =
    (NotIn-snoc x zs y a.0 (omega arith), Apart-snoc_right xs zs y a.1 n.1)

pub Apart-tail : (xs : List ℕ) (z : ℕ) (zs : List ℕ) → Apart xs (z ∷ zs) → Apart xs zs
Apart-tail [] z zs a = tt
Apart-tail (x ∷ xs) z zs a = (a.0.1, Apart-tail xs z zs a.1)

pub NotIn-of_Apart : (xs : List ℕ) (z : ℕ) (zs : List ℕ) → Apart xs (z ∷ zs) → NotIn z xs
NotIn-of_Apart [] z zs a = tt
NotIn-of_Apart (x ∷ xs) z zs a = (omega arith, NotIn-of_Apart xs z zs a.1)

-- Members of lists put together.
pub NotIn-append : (a : ℕ) (xs ys : List ℕ) → NotIn a xs → NotIn a ys → NotIn a (xs ++ ys)
NotIn-append a [] ys m n = n
NotIn-append a (x ∷ xs) ys m n = (m.0, NotIn-append a xs ys m.1 n)

pub NotIn_left : (a : ℕ) (xs ys : List ℕ) → NotIn a (xs ++ ys) → NotIn a xs
NotIn_left a [] ys n = tt
NotIn_left a (x ∷ xs) ys n = (n.0, NotIn_left a xs ys n.1)

pub NotIn_right : (a : ℕ) (xs ys : List ℕ) → NotIn a (xs ++ ys) → NotIn a ys
NotIn_right a [] ys n = n
NotIn_right a (x ∷ xs) ys n = NotIn_right a xs ys n.1
