-- ===== src/Queue/Same.antt =====
-- Tables that agree on the processes of a list.
use bkernel.Base.{ℕ, ◌≡◌, ◌≢◌, sym, subst, ap, List, [], ◌∷◌, All, NotIn}
use bkernel.Queue.Chain.{Procs, Chain, nil, cons}

abbrev pub SameOn : Procs → Procs → List ℕ → Type 0
SameOn f g xs = All (λ a. g a ≡ f a) xs

pub Chain-SameOn : {f g : Procs} {p : ℕ} {xs : List ℕ} → SameOn f g xs → Chain f p xs → Chain g p xs
Chain-SameOn s (nil e) = nil e
Chain-SameOn {f} {g} s (cons {x} {xs} e n c) =
    cons e n (subst (λ q. Chain g q xs) (sym (ap (λ r. r.next) s.0)) (Chain-SameOn s.1 c))

-- Tables that agree but for some processes agree on the lists without these.
pub SameOn-but_one :
    (f g : Procs) (p : ℕ) (xs : List ℕ) → NotIn p xs → ((a : ℕ) → a ≢ p → g a ≡ f a) → SameOn f g xs
SameOn-but_one f g p [] out same = tt
SameOn-but_one f g p (x ∷ xs) out same =
    (same x (λ e. out.0 (sym e)), SameOn-but_one f g p xs out.1 same)

pub SameOn-but_two :
    (f g : Procs) (p q : ℕ) (xs : List ℕ)
    → NotIn p xs
    → NotIn q xs
    → ((a : ℕ) → a ≢ p → a ≢ q → g a ≡ f a)
    → SameOn f g xs
SameOn-but_two f g p q [] m n same = tt
SameOn-but_two f g p q (x ∷ xs) m n same =
    (same x (λ e. m.0 (sym e)) (λ e. n.0 (sym e)), SameOn-but_two f g p q xs m.1 n.1 same)

pub SameOn-but_three :
    (f g : Procs) (p q r : ℕ) (xs : List ℕ)
    → NotIn p xs
    → NotIn q xs
    → NotIn r xs
    → ((a : ℕ) → a ≢ p → a ≢ q → a ≢ r → g a ≡ f a)
    → SameOn f g xs
SameOn-but_three f g p q r [] m n o same = tt
SameOn-but_three f g p q r (x ∷ xs) m n o same = (
  same x (λ e. m.0 (sym e)) (λ e. n.0 (sym e)) (λ e. o.0 (sym e)),
  SameOn-but_three f g p q r xs m.1 n.1 o.1 same,
)
