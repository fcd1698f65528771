-- ===== src/Mem/Placed.antt =====
-- The block that `kfree` of c/mem.c puts back into the list of free blocks, before neighbours are joined.
use bkernel.Base.{
  ℕ, suc, ◌+◌, ◌≤◌, ◌≡◌, ◌≢◌, refl, sym, subst, ap, ◌∙◌, List, [], ◌∷◌, ◌++◌, arith, inl, inr, ◌⊎◌,
}
use bkernel.Kernel.{null, Kernel, Returns, done-Returns, and_then}
use bkernel.Mem.Alloc.{header_size, size_field, next_field, prev_field, sanity_field, sanity_check}
use bkernel.Mem.Free.{link_in, reattach}
use bkernel.Mem.Blocks.{Block, end_of, Laid, Laid-le, front_of}
use bkernel.Mem.Relink.{last_of, start_of, last_of_bounds, Laid-at, Laid-behind}
use bkernel.Mem.Joined.{coalesced}
use bkernel.Mem.Join.{Chain, cons, OnlyWords}
use bkernel.Mem.Reattach.{reattach-first, Backed, IsNear}
use bkernel.Mem.Insert.{Ends, Linked, Chain-front_of}
use bkernel.Mem.Ends.{front_of_bounds}
use bkernel.Mem.LinkIn.{
  link_in-middle, put_words, put_words-Linked, link_in-first, first_words-Linked, first_diff,
}
use bkernel.Mem.Allocated.{IsOutside}

-- A list of free blocks that is linked forward, and back as far as `kfree` looks.
pub record IsForward (w : ℕ → ℕ) (slot : ℕ) (bs : List Block) : Type 0 where
  pub list : Chain w slot bs
  pub laid : Laid header_size bs
  pub ends : Ends w bs

-- A block as `kmalloc` leaves it.
pub record IsAllocated (w : ℕ → ℕ) (b : Block) : Type 0 where
  pub size : w (b.base + size_field) ≡ b.size
  pub sanity : w (b.base + sanity_field) ≡ sanity_check
  pub prev : w (b.base + prev_field) ≡ null

pub front_size :
    {w : ℕ → ℕ} {p : ℕ} {b : Block} {bs : List Block}
    → Chain w p (b ∷ bs)
    → w (b.base + size_field) ≡ b.size
front_size (cons e s f) = s

last_next :
    (w : ℕ → ℕ) (p : ℕ) (b : Block) (pre post : List Block)
    → Chain w p (b ∷ (pre ++ post))
    → w (last_of b.base pre + next_field) ≡ front_of post
unfolding last_of
last_next w p b [] post (cons e s f) = Chain-front_of w (w (b.base + next_field)) post f
last_next w p b (c ∷ pre) post (cons e s f) = last_next w (w (b.base + next_field)) c pre post f

Linked-base :
    (al : Block) (w w1 w' : ℕ → ℕ) (last next : ℕ)
    → ((a : ℕ) → a ≢ al.base + prev_field → w1 a ≡ w a)
    → Linked al w1 w' last next
    → Linked al w w' last next
Linked-base al w w1 w' last next same l = record {
  own_size = l.own_size;
  own_next = l.own_next;
  own_prev = l.own_prev;
  before = l.before;
  behind = l.behind;
  same = λ a n p q r. l.same a n p q r ∙ same a p;
}

only_memory :
    (k k1 : Kernel) (w : ℕ → ℕ)
    → OnlyWords k k1
    → Path Kernel (record k1 { word = w }) (record k { word = w; mem_slot = k1.mem_slot })
only_memory k k1 w o =
    ap {A = Kernel} (λ j. record j { word = w }) o
    ∙ ap {A = ℕ} {B = Kernel} (λ m. record k { word = w; mem_slot = m })
        (sym (ap {A = Kernel} (λ j. j.mem_slot) o))

module _ (k : Kernel) (al : Block) (pre post : List Block) where
  -- The block is in the list,
  abbrev pub Inserted : Kernel → Type 0
  Inserted k2 =
      Linked al k.word k2.word (last_of null pre) (front_of post)
      × (k2.mem_slot ≡ start_of al.base pre k.mem_slot)
      × (k2 ≡ record k { word = k2.word; mem_slot = k2.mem_slot })

  -- and joined to its neighbours.
  abbrev pub Freed : Kernel → Type 0
  Freed k' =
      IsForward k'.word k'.mem_slot (coalesced (pre ++ (al ∷ post)))
      × ((a : ℕ) → header_size ≤ a → IsOutside a (pre ++ (al ∷ post)) → k'.word a ≡ k.word a)
      × (k' ≡ record k { word = k'.word; mem_slot = k'.mem_slot })

module _ (k : Kernel) (al : Block) (b : Block) (pre post : List Block)
    (h : Laid header_size (b ∷ (pre ++ (al ∷ post))))
    (f : Chain k.word k.mem_slot (b ∷ (pre ++ post)))
    (s : k.word (al.base + size_field) ≡ al.size) where
  pub link_in-Inserted :
      (k1 : Kernel)
      → Backed al k (last_of b.base pre) k1
      → Returns (λ _ k2. Inserted k al (b ∷ pre) post k2) (link_in al.base k1)
  unfolding last_of start_of
  link_in-Inserted k1 backed =
      let last = last_of_bounds (end_of b) b.base pre al post (omega arith) h.1 in
      let some_block : last_of b.base pre ≢ null = elim last.1 [
        | inl y ↦ omega (arith, y, h.0)
        | inr y ↦ omega (arith, y, h.0)
      ] in
      let next : k1.word (last_of b.base pre + next_field) ≡ front_of post =
        backed.1 _ (omega (arith, last.0)) ∙ last_next k.word k.mem_slot b pre post f in
      let bounds =
        subst (λ x. (x ≡ null) ⊎ (end_of al ≤ x)) (sym next)
          (front_of_bounds (end_of al) post (Laid-behind (end_of b) pre al post h.1)) in
      let size : k1.word (al.base + size_field) ≡ al.size = backed.1 _ (omega arith) ∙ s in
      let linked =
        put_words-Linked al k1 (last_of b.base pre) some_block last.0 bounds backed.0 size in
      done-Returns (link_in-middle al k1 (last_of b.base pre) some_block last.0 bounds backed.0) (
        Linked-base al k.word k1.word (put_words al k1 (last_of b.base pre)) (last_of b.base pre)
            (front_of post) backed.1
            (subst (Linked al k1.word (put_words al k1 (last_of b.base pre)) (last_of b.base pre))
              next linked),
        ap {A = Kernel} (λ j. j.mem_slot) backed.2,
        only_memory k k1 (put_words al k1 (last_of b.base pre)) backed.2,
      )

  pub IsNear-first :
      (indeterminate : ℕ)
      → k.word (b.base + size_field) ≡ b.size
      → IsNear al (first_diff indeterminate al.base b.base (k.word (b.base + size_field))) (b ∷ pre)
  IsNear-first indeterminate e =
      let at = Laid-at (end_of b) pre al post h.1 in
      let top = Laid-le (end_of al) post (Laid-behind (end_of b) pre al post h.1) in
      rw e (ground (arith, at, top))

-- The first block.
module _ (k : Kernel) (al : Block) (c : Block) (cs : List Block) where
  pub first-Inserted :
      (n diff : ℕ)
      → Laid header_size (al ∷ c ∷ cs)
      → Chain k.word k.mem_slot (c ∷ cs)
      → Ends k.word (c ∷ cs)
      → IsAllocated k.word al
      → Returns
          (λ _ k2. Inserted k al [] (c ∷ cs) k2)
          (and_then
            (reattach (suc n) (al.base + header_size) al.base diff k.mem_slot k)
            (λ _ k1. link_in al.base k1))
  unfolding last_of start_of front_of
  first-Inserted n diff h (cons e s f) ends a =
      done-Returns
        (ap
            (λ p.
              and_then (reattach (suc n) (al.base + header_size) al.base diff p k)
                (λ _ k1. link_in al.base k1))
            e
          ∙ ap (λ r. and_then r (λ _ k1. link_in al.base k1))
              (reattach-first al n diff k c h.1.0 (Laid-le (end_of c) cs h.1.1) (omega (arith, h.0))
                s a.size ends.0)
          ∙ link_in-first al k c.base h.0 h.1.0 a.prev)
        (first_words-Linked al k c.base h.0 h.1.0 a.prev a.size, refl, refl)
