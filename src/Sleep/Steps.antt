-- ===== src/Sleep/Steps.antt =====
-- The steps of the loop of `sleep`, and the tables that they leave.
use bkernel.Base.{
  ℕ, suc, ◌≤◌, ◌≡◌, ◌≢◌, List, [], ◌∷◌, true, false, ltb, add32, sub32, arith, NotIn,
}
use bkernel.Kernel.{Kernel, Pcb, null, done, update, with_next}
use bkernel.Queue.Chain.{Procs, Chain, nil, cons, head_of_Chain}
use bkernel.Sleep.{with_delta, link_between, sleep_loop}

-- A process block but for what the delta list is made of.
abbrev pub plain : Pcb → Pcb
plain r = with_delta 0 (with_next null r)

module _ (p : ℕ) where
  -- The table once the slices of `x` have been taken off those of `p`, and the tables once `p` has
  -- been linked behind `x`, the last of the list or before `y`.
  unfoldable pub lessened : Procs → ℕ → Procs
  lessened f x = update f p (with_delta (sub32 (f p).delta_slice (f x).delta_slice) (f p))

  unfoldable pub linked_last : Procs → ℕ → Procs
  linked_last f x = let g = update f p (with_next null (f p)) in update g x (with_next p (g x))

  unfoldable pub linked_before : Procs → ℕ → ℕ → Procs
  linked_before f x y =
      let g = update f y (with_delta (sub32 (f y).delta_slice (f p).delta_slice) (f y)) in
      let h = update g p (with_next y (g p)) in update h x (with_next p (h x))

  pub link_between_run :
      (k : Kernel) (x y : ℕ)
      → (k.proc x).next ≡ y
      → p ≢ null
      → x ≢ null
      → y ≢ null
      → p ≢ x
      → x ≢ y
      → link_between p x k ≡ done tt (record k { proc = linked_before k.proc x y })
  unfolding link_between linked_before
  link_between_run k x y e np nx ny px xy = ground arith

  module _ (n cnt : ℕ) (k : Kernel) (x : ℕ) (some_process : p ≢ null)
      (le : (k.proc x).delta_slice ≤ (k.proc p).delta_slice) where
    pub loop_last :
        Chain k.proc x (x ∷ [])
        → NotIn p (x ∷ [])
        → sleep_loop (suc n) p x cnt k
          ≡ done
              (add32 cnt (k.proc x).delta_slice)
              (record k { proc = linked_last (lessened k.proc x) x })
    unfolding sleep_loop lessened linked_last
    loop_last (cons e nx (nil z)) out = ground arith

    pub loop_before :
        (y : ℕ) (ys : List ℕ)
        → Chain k.proc x (x ∷ y ∷ ys)
        → NotIn p (x ∷ y ∷ ys)
        → NotIn x (y ∷ ys)
        → ltb (lessened k.proc x p).delta_slice (k.proc y).delta_slice ≡ true
        → sleep_loop (suc n) p x cnt k
          ≡ done
              (add32 cnt (k.proc x).delta_slice)
              (record k { proc = linked_before (lessened k.proc x) x y })
    unfolding sleep_loop lessened
    loop_before y ys (cons e nx c) out d less =
        let next_y : (k.proc x).next ≡ y = (head_of_Chain c).0 in
        let ny : y ≢ null = (head_of_Chain c).1 in
        let at : Kernel = record k { proc = lessened k.proc x } in
        let same : (at.proc x).next ≡ y = ground arith in
        let linking = link_between_run at x y same some_process nx ny out.0 d.0 in ground arith

    pub loop_on :
        (y : ℕ) (ys : List ℕ)
        → Chain k.proc x (x ∷ y ∷ ys)
        → NotIn p (x ∷ y ∷ ys)
        → NotIn x (y ∷ ys)
        → ltb (lessened k.proc x p).delta_slice (k.proc y).delta_slice ≡ false
        → sleep_loop (suc n) p x cnt k
          ≡ sleep_loop n p y
              (add32 cnt (k.proc x).delta_slice)
              (record k { proc = lessened k.proc x })
    unfolding sleep_loop lessened
    loop_on y ys (cons e nx c) out d more = ground (arith, head_of_Chain c)

-- These tables, process by process.
module _ (f : Procs) (p x : ℕ) where
  pub lessened_self :
      lessened p f x p ≡ with_delta (sub32 (f p).delta_slice (f x).delta_slice) (f p)
  unfolding lessened
  lessened_self = ground arith

  pub lessened_other : (a : ℕ) → a ≢ p → lessened p f x a ≡ f a
  unfolding lessened
  lessened_other a n = ground arith

  pub plain-lessened : (a : ℕ) → plain (lessened p f x a) ≡ plain (f a)
  unfolding lessened
  plain-lessened a = ground arith

  pub linked_last_self : p ≢ x → linked_last p f x p ≡ with_next null (f p)
  unfolding linked_last
  linked_last_self px = ground arith

  pub linked_last_before : p ≢ x → linked_last p f x x ≡ with_next p (f x)
  unfolding linked_last
  linked_last_before px = ground arith

  pub linked_last_other : (a : ℕ) → a ≢ p → a ≢ x → linked_last p f x a ≡ f a
  unfolding linked_last
  linked_last_other a n m = ground arith

  pub plain-linked_last : (a : ℕ) → plain (linked_last p f x a) ≡ plain (f a)
  unfolding linked_last
  plain-linked_last a = ground arith

  module _ (y : ℕ) (px : p ≢ x) (py : p ≢ y) (xy : x ≢ y) where
    pub linked_before_self : linked_before p f x y p ≡ with_next y (f p)
    unfolding linked_before
    linked_before_self = ground arith

    pub linked_before_before : linked_before p f x y x ≡ with_next p (f x)
    unfolding linked_before
    linked_before_before = ground arith

    pub linked_before_behind :
        linked_before p f x y y ≡ with_delta (sub32 (f y).delta_slice (f p).delta_slice) (f y)
    unfolding linked_before
    linked_before_behind = ground arith

    pub linked_before_other : (a : ℕ) → a ≢ p → a ≢ x → a ≢ y → linked_before p f x y a ≡ f a
    unfolding linked_before
    linked_before_other a n m o = ground arith

    pub plain-linked_before : (a : ℕ) → plain (linked_before p f x y a) ≡ plain (f a)
    unfolding linked_before
    plain-linked_before a = ground arith
