-- ===== src/Sleep/Insert.antt =====
-- `sleep` of c/sleep.c puts a process among the alarms at its time.
use bkernel.Base.{
  ℕ, zero, suc, ◌+◌, ◌-◌, ◌≤◌, ◌<◌, ◌≡◌, ◌≢◌, refl, sym, subst, ap, ◌∙◌, List, [], ◌∷◌, true, false,
  ltb, add32, sub32, word_mod, length, arith, NotIn, Distinct, Bool-cases, inl, inr,
}
use bkernel.Kernel.{Kernel, null, with_next, Returns, done-Returns, weaken}
use bkernel.Queue.Chain.{Procs, Chain, nil, cons, head_of_Chain, tail_of_Chain}
use bkernel.Sleep.{with_delta, sleep_loop}
use bkernel.Sleep.Delta.{alarms, place, Fits, alarms-SameOn, Fits-SameOn}
use bkernel.Sleep.Steps.{
  plain, lessened, linked_last, linked_before, lessened_self, lessened_other, plain-lessened,
  linked_last_self, linked_last_before, linked_last_other, plain-linked_last, linked_before_self,
  linked_before_before, linked_before_behind, linked_before_other, plain-linked_before, loop_last,
  loop_before, loop_on,
}
use bkernel.Queue.Same.{SameOn, Chain-SameOn, SameOn-but_one, SameOn-but_three}

-- The table `g` has `p` among the processes behind `x`, `r` slices after `x`; `ys` are these.
pub record Placed (f : Procs) (p x : ℕ) (xs : List ℕ) (r : ℕ) (g : Procs) (ys : List ℕ)
    : Type 0 where
  pub chain : Chain g x (x ∷ ys)
  pub due : (from : ℕ) → alarms g from ys ≡ place p (from + r) (alarms f from xs)
  pub slices : (g x).delta_slice ≡ (f x).delta_slice
  pub frame : (a : ℕ) → a ≢ p → NotIn a (x ∷ xs) → g a ≡ f a
  pub fields : (a : ℕ) → plain (g a) ≡ plain (f a)

module _ (f : Procs) (p x : ℕ) (some_process : p ≢ null) (x_some : x ≢ null)
    (le : (f x).delta_slice ≤ (f p).delta_slice) (small : (f p).delta_slice < word_mod) where
  abbrev left : ℕ
  left = (f p).delta_slice - (f x).delta_slice

  left_lem : sub32 (f p).delta_slice (f x).delta_slice ≡ left
  left_lem = omega arith

  abbrev l : Procs
  l = lessened p f x

  left_of_p : (l p).delta_slice ≡ left
  left_of_p = ap (λ r. r.delta_slice) (lessened_self f p x) ∙ left_lem

  Placed-last : p ≢ x → Placed f p x [] left (linked_last p l x) (p ∷ [])
  unfolding alarms place
  Placed-last px = record {
    chain = cons refl x_some (
        cons (ap (λ r. r.next) (linked_last_before l p x px)) some_process
          (nil (ap (λ r. r.next) (linked_last_self l p x px))));
    due = λ from.
        ap (λ t. record { who = p; at = from + t } ∷ [])
          (ap (λ r. r.delta_slice) (linked_last_self l p x px) ∙ left_of_p);
    slices =
        ap (λ r. r.delta_slice) (linked_last_before l p x px)
        ∙ ap (λ r. r.delta_slice) (lessened_other f p x x (λ e. px (sym e)));
    frame = λ a np out. linked_last_other l p x a np out.0 ∙ lessened_other f p x a np;
    fields = λ a. plain-linked_last l p x a ∙ plain-lessened f p x a;
  }

  due_before :
      (g : Procs) (y : ℕ) (ys : List ℕ) (from : ℕ)
      → left < (f y).delta_slice
      → (g p).delta_slice ≡ left
      → (g y).delta_slice + left ≡ (f y).delta_slice
      → SameOn f g ys
      → alarms g from (p ∷ y ∷ ys) ≡ place p (from + left) (alarms f from (y ∷ ys))
  unfolding alarms place
  due_before g y ys from less own behind same =
      let sum : from + left + (g y).delta_slice ≡ from + (f y).delta_slice = omega arith in
      let before : ltb (from + left) (from + (f y).delta_slice) ≡ true = ground arith in
      rw (own, sum, before)
        (ap
          (λ rest.
            record { who = p; at = from + left }
            ∷ record { who = y; at = from + (f y).delta_slice }
            ∷ rest)
          (alarms-SameOn f g (from + (f y).delta_slice) ys same))

  Placed-before :
      (y : ℕ) (ys : List ℕ)
      → Chain f x (x ∷ y ∷ ys)
      → NotIn p (x ∷ y ∷ ys)
      → Distinct (x ∷ y ∷ ys)
      → left < (f y).delta_slice
      → (f y).delta_slice < word_mod
      → Placed f p x (y ∷ ys) left (linked_before p l x y) (p ∷ y ∷ ys)
  Placed-before y ys c out d less fits = record {
    chain = cons refl x_some (
        cons (ap (λ r. r.next) at_x) some_process
          (cons (ap (λ r. r.next) at_p) (head_of_Chain (tail_of_Chain c)).1 behind));
    due = λ from.
        due_before (linked_before p l x y) y ys from less (ap (λ r. r.delta_slice) at_p ∙ left_of_p)
          slices_y same;
    slices = ap (λ r. r.delta_slice) at_x ∙ ap (λ r. r.delta_slice) (lessened_other f p x x xp);
    frame =
        λ a np n. linked_before_other l p x y px py xy a np n.0 n.1.0 ∙ lessened_other f p x a np;
    fields = λ a. plain-linked_before l p x y px py xy a ∙ plain-lessened f p x a;
  }
    where
      px : p ≢ x
      px = out.0

      xp : x ≢ p
      xp e = out.0 (sym e)

      py : p ≢ y
      py = out.1.0

      xy : x ≢ y
      xy = d.0.0

      at_x : linked_before p l x y x ≡ with_next p (l x)
      at_x = linked_before_before l p x y px py xy

      at_p : linked_before p l x y p ≡ with_next y (l p)
      at_p = linked_before_self l p x y px py xy

      at_y : linked_before p l x y y ≡ with_delta (sub32 (l y).delta_slice (l p).delta_slice) (l y)
      at_y = linked_before_behind l p x y px py xy

      same_y : l y ≡ f y
      same_y = lessened_other f p x y (λ e. out.1.0 (sym e))

      slices_y : (linked_before p l x y y).delta_slice + left ≡ (f y).delta_slice
      slices_y = rw (at_y, same_y, left_of_p) (omega arith)

      same : SameOn f (linked_before p l x y) ys
      same =
          SameOn-but_three f (linked_before p l x y) p x y ys out.1.1 d.0.1 d.1.0
            λ a n m o. linked_before_other l p x y px py xy a n m o ∙ lessened_other f p x a n

      behind : Chain (linked_before p l x y) (linked_before p l x y y).next ys
      behind =
          subst (λ q. Chain (linked_before p l x y) q ys)
            (sym (ap (λ r. r.next) at_y ∙ ap (λ r. r.next) same_y))
            (Chain-SameOn same (tail_of_Chain (tail_of_Chain c)))

  due_after :
      (g : Procs) (y : ℕ) (ys zs : List ℕ) (from : ℕ)
      → (f y).delta_slice ≤ left
      → (g y).delta_slice ≡ (f y).delta_slice
      → alarms g (from + (f y).delta_slice) zs
        ≡ place p
            (from + (f y).delta_slice + (left - (f y).delta_slice))
            (alarms l (from + (f y).delta_slice) ys)
      → SameOn f l ys
      → alarms g from (y ∷ zs) ≡ place p (from + left) (alarms f from (y ∷ ys))
  unfolding alarms place
  due_after g y ys zs from le' own later same =
      let at : from + (f y).delta_slice + (left - (f y).delta_slice) ≡ from + left = omega arith in
      let behind : ltb (from + left) (from + (f y).delta_slice) ≡ false = ground arith in
      rw (own, behind)
        (ap (λ rest. record { who = y; at = from + (f y).delta_slice } ∷ rest)
          (later ∙ rw (at, alarms-SameOn f l (from + (f y).delta_slice) ys same) refl))

  Placed-on :
      (y : ℕ) (ys zs : List ℕ) (g : Procs)
      → Chain f x (x ∷ y ∷ ys)
      → NotIn p (x ∷ y ∷ ys)
      → Distinct (x ∷ y ∷ ys)
      → (f y).delta_slice ≤ left
      → Placed l p y ys (left - (f y).delta_slice) g zs
      → Placed f p x (y ∷ ys) left g (y ∷ zs)
  Placed-on y ys zs g c out d le' w = record {
    chain =
        cons refl x_some
          (subst (λ q. Chain g q (y ∷ zs)) (sym (ap (λ r. r.next) at_x ∙ next_x)) w.chain);
    due = due_on;
    slices = ap (λ r. r.delta_slice) at_x;
    frame = λ a np n. w.frame a np n.1 ∙ lessened_other f p x a np;
    fields = λ a. w.fields a ∙ plain-lessened f p x a;
  }
    where
      at_x : g x ≡ f x
      at_x = w.frame x (λ e. out.0 (sym e)) d.0 ∙ lessened_other f p x x (λ e. out.0 (sym e))

      next_x : (f x).next ≡ y
      next_x = (head_of_Chain (tail_of_Chain c)).0

      slices_y : (g y).delta_slice ≡ (f y).delta_slice
      slices_y = w.slices ∙ ap (λ r. r.delta_slice) (lessened_other f p x y (λ e. out.1.0 (sym e)))

      due_on : (from : ℕ) → alarms g from (y ∷ zs) ≡ place p (from + left) (alarms f from (y ∷ ys))
      due_on from =
          due_after g y ys zs from le' slices_y (w.due (from + (f y).delta_slice))
            (SameOn-but_one f l p ys out.1.1 (lessened_other f p x))

-- What `sleep_loop` does from `x` on, with `xs` behind it.
pub record Inserted (k : Kernel) (p x : ℕ) (xs : List ℕ) (cnt c : ℕ) (k' : Kernel) : Type 0 where
  pub count : cnt + (k.proc x).delta_slice ≤ c
  pub behind : List ℕ
  pub placed : Placed k.proc p x xs ((k.proc p).delta_slice - (k.proc x).delta_slice) k'.proc behind
  pub rest : k' ≡ record k { proc = k'.proc }

-- The facts that one round of the loop needs of the next.
module _ (p : ℕ) (some_process : p ≢ null) (k : Kernel) (cnt x y : ℕ) (ys : List ℕ)
    (c : Chain k.proc x (x ∷ y ∷ ys)) (out : NotIn p (x ∷ y ∷ ys)) (d : Distinct (x ∷ y ∷ ys))
    (le : (k.proc x).delta_slice ≤ (k.proc p).delta_slice)
    (small : (k.proc p).delta_slice < word_mod) (fits : Fits k.proc cnt (x ∷ y ∷ ys)) where
  abbrev on : Kernel
  on = record k { proc = lessened p k.proc x }

  on-SameOn : SameOn k.proc on.proc (y ∷ ys)
  on-SameOn = SameOn-but_one k.proc on.proc p (y ∷ ys) out.1 (lessened_other k.proc p x)

  on-left : (on.proc p).delta_slice ≡ (k.proc p).delta_slice - (k.proc x).delta_slice
  on-left = left_of_p k.proc p x some_process (head_of_Chain c).1 le small

  on-Chain : Chain on.proc y (y ∷ ys)
  on-Chain =
      Chain-SameOn on-SameOn
        (subst (λ q. Chain k.proc q (y ∷ ys)) (head_of_Chain (tail_of_Chain c)).0 (tail_of_Chain c))

  on-Fits : Fits on.proc (add32 cnt (k.proc x).delta_slice) (y ∷ ys)
  on-Fits =
      let sum : add32 cnt (k.proc x).delta_slice ≡ cnt + (k.proc x).delta_slice = omega arith in
      rw sum (Fits-SameOn k.proc on.proc (cnt + (k.proc x).delta_slice) (y ∷ ys) on-SameOn fits.1)

  Inserted-on :
      (k.proc y).delta_slice ≤ (k.proc p).delta_slice - (k.proc x).delta_slice
      → (r : ℕ) (k' : Kernel) → Inserted on p y ys (add32 cnt (k.proc x).delta_slice) r k'
      → Inserted k p x (y ∷ ys) cnt r k'
  Inserted-on le' r k' w = record {
    count = omega arith;
    behind = y ∷ w.behind;
    placed =
        Placed-on k.proc p x some_process (head_of_Chain c).1 le small y ys w.behind k'.proc c out d
          le' (subst (λ t. Placed on.proc p y ys t k'.proc w.behind) same w.placed);
    rest = w.rest;
  }
    where
      same :
          (on.proc p).delta_slice - (on.proc y).delta_slice
          ≡ (k.proc p).delta_slice - (k.proc x).delta_slice - (k.proc y).delta_slice
      same = rw (on-left, ap (λ r. r.delta_slice) on-SameOn.0) refl

module _ (p : ℕ) (some_process : p ≢ null) where
  pub sleep_loop-Inserted :
      (n cnt : ℕ) (k : Kernel) (x : ℕ) (xs : List ℕ)
      → Chain k.proc x (x ∷ xs)
      → length (x ∷ xs) < n
      → NotIn p (x ∷ xs)
      → Distinct (x ∷ xs)
      → (k.proc x).delta_slice ≤ (k.proc p).delta_slice
      → (k.proc p).delta_slice < word_mod
      → Fits k.proc cnt (x ∷ xs)
      → Returns (Inserted k p x xs cnt) (sleep_loop n p x cnt k)
  sleep_loop-Inserted zero cnt k x xs c h out d le small fits = absurd (omega arith)
  sleep_loop-Inserted (suc n) cnt k x [] c h out d le small fits =
      done-Returns (loop_last p n cnt k x some_process le c out) record {
        count = omega arith;
        behind = p ∷ [];
        placed = Placed-last k.proc p x some_process (head_of_Chain c).1 le small out.0;
        rest = refl;
      }
  sleep_loop-Inserted (suc n) cnt k x (y ∷ ys) c h out d le small fits =
      elim (Bool-cases (ltb (lessened p k.proc x p).delta_slice (k.proc y).delta_slice)) [
        | inl less ↦
            done-Returns (loop_before p n cnt k x some_process le y ys c out d.0 less) record {
              count = omega arith;
              behind = p ∷ y ∷ ys;
              placed =
                  Placed-before k.proc p x some_process (head_of_Chain c).1 le small y ys c out d
                    (ground (arith, own)) (omega arith);
              rest = refl;
            }
        | inr more ↦ rw (loop_on p n cnt k x some_process le y ys c out d.0 more) (
            weaken
              (sleep_loop-Inserted n (add32 cnt (k.proc x).delta_slice)
                (on p some_process k cnt x y ys c out d le small fits) y ys
                (on-Chain p some_process k cnt x y ys c out d le small fits) (omega arith) out.1 d.1
                (rw (own, same) (ground (arith, own))) (rw own (omega arith))
                (on-Fits p some_process k cnt x y ys c out d le small fits))
              (Inserted-on p some_process k cnt x y ys c out d le small fits (ground (arith, own))))
      ]
    where
      own : (lessened p k.proc x p).delta_slice ≡ (k.proc p).delta_slice - (k.proc x).delta_slice
      own = left_of_p k.proc p x some_process (head_of_Chain c).1 le small

      same : lessened p k.proc x y ≡ k.proc y
      same = lessened_other k.proc p x y (λ e. out.1.0 (sym e))
