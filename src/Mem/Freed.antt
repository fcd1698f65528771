-- ===== src/Mem/Freed.antt =====
-- `kfree` of c/mem.c on any list of free blocks that is linked forward.
use bkernel.Base.{
  ℕ, ◌+◌, ◌≤◌, ◌≡◌, ◌≢◌, refl, sym, subst, ap, ◌∙◌, List, [], ◌∷◌, ◌++◌, arith, All, inl, inr,
  false,
}
use bkernel.Kernel.{null, Kernel, done, Returns, after, weaken, and_then, Run, Cmd, fault, spin}
use bkernel.Mem.Alloc.{header_size, size_field, prev_field, mem_rounds, mem_rounds_lem}
use bkernel.Mem.Free.{kfree, link_in, reattach, coalesce, invalid_address}
use bkernel.Mem.Blocks.{Block, end_of, Laid, Laid-le, front_of, length-lt-rounds}
use bkernel.Mem.Relink.{last_of, last_of_bounds, Laid-at, Laid-behind}
use bkernel.Mem.Joined.{coalesced, Laid-coalesced}
use bkernel.Mem.Join.{Chain, OnlyWords, IsOff}
use bkernel.Mem.Coalesce.{coalesce-Coalesced}
use bkernel.Mem.Reattach.{reattach-Backed, IsNear}
use bkernel.Mem.Insert.{Linked-Chain, Linked-IsSame, Place-All, Chain-front_of}
use bkernel.Mem.Ends.{Ends-coalesced, Ends-same, Linked-Ends, front_of_bounds}
use bkernel.Mem.LinkIn.{first_diff, kfree-enters}
use bkernel.Mem.Allocated.{IsOutside, IsOutside-block, IsOutside-last_of}
use bkernel.Mem.Placed.{
  IsForward, IsAllocated, Inserted, Freed, link_in-Inserted, IsNear-first, first-Inserted,
  front_size,
}

only_memory_later :
    (k k2 k' : Kernel)
    → k2 ≡ record k { word = k2.word; mem_slot = k2.mem_slot }
    → OnlyWords k2 k'
    → k' ≡ record k { word = k'.word; mem_slot = k'.mem_slot }
only_memory_later k k2 k' e o =
    o
    ∙ ap {A = Kernel} (λ j. record j { word = k'.word }) e
    ∙ ap {A = ℕ} {B = Kernel} (λ m. record k { word = k'.word; mem_slot = m })
        (sym (ap {A = Kernel} (λ j. j.mem_slot) o))

IsOutside-IsOff : (a : ℕ) (bs : List Block) → IsOutside a bs → IsOff a bs
IsOutside-IsOff a [] o = tt
IsOutside-IsOff a (b ∷ bs) o = (
  elim o.0 [
    | inl l ↦ (omega (arith, l), omega (arith, l))
    | inr l ↦ (omega (arith, l), omega (arith, l))
  ],
  IsOutside-IsOff a bs o.1,
)

IsOutside-front_of :
    (a : ℕ) (bs : List Block) → header_size ≤ a → IsOutside a bs → a ≢ front_of bs + prev_field
unfolding front_of
IsOutside-front_of a [] z o = omega arith
IsOutside-front_of a (b ∷ bs) z o = elim o.0 [ inl l ↦ omega (arith, l) | inr l ↦ omega (arith, l) ]

-- What the block's neighbours become.
module _ (k : Kernel) (al : Block) (pre post : List Block)
    (h : Laid header_size (pre ++ (al ∷ post)))
    (fw : IsForward k.word k.mem_slot (pre ++ post)) where
  Inserted-IsForward :
      (k2 : Kernel) → Inserted k al pre post k2 → IsForward k2.word k2.mem_slot (pre ++ (al ∷ post))
  Inserted-IsForward k2 i =
      let last = last_of_bounds header_size null pre al post (omega arith) h in
      let above = front_of_bounds (end_of al) post (Laid-behind header_size pre al post h) in
      let places = Place-All al header_size null pre post (omega arith) h in
      let same =
        Linked-IsSame al k.word k2.word (last_of null pre) (front_of post) (omega (arith, last.0))
          i.0 (inr last.0) above (pre ++ post) places in
      record {
        list =
            subst (λ p. Chain k2.word p (pre ++ (al ∷ post))) (sym i.1)
              (Linked-Chain al k.word k2.word (last_of null pre) k.mem_slot null header_size pre
                post refl (omega arith) h same i.0.own_size i.0.own_next i.0.before fw.list);
        laid = h;
        ends = Linked-Ends al k.word k2.word header_size pre post (omega arith) h i.0 fw.ends;
      }

  Inserted-Freed :
      (k2 : Kernel)
      → Inserted k al pre post k2
      → Returns (λ _ k'. Freed k al pre post k') (coalesce mem_rounds k2.mem_slot k2)
  Inserted-Freed k2 i =
      let fw2 = Inserted-IsForward k2 i in
      let few = length-lt-rounds (pre ++ (al ∷ post)) (omega arith) h in
      weaken
        (coalesce-Coalesced mem_rounds k2 header_size k2.mem_slot (pre ++ (al ∷ post)) few few
          (omega arith) h fw2.list)
        (λ _ k' c. (
          record {
            list =
                subst (λ p. Chain k'.word p (coalesced (pre ++ (al ∷ post))))
                  (sym (ap {A = Kernel} (λ j. j.mem_slot) c.2)) c.0;
            laid = Laid-coalesced header_size (pre ++ (al ∷ post)) h;
            ends =
                Ends-coalesced k'.word (pre ++ (al ∷ post))
                  (Ends-same k2.word k'.word header_size (pre ++ (al ∷ post)) h c.1 fw2.ends);
          },
          (λ a lo out.
              let here = IsOutside-block a pre al post out in
              let last = IsOutside-last_of a null pre al post (inr (omega arith)) out in
              c.1 a (IsOutside-IsOff a (pre ++ (al ∷ post)) out)
              ∙ i.0.same a (elim here.0 [ inl l ↦ omega (arith, l) | inr l ↦ omega (arith, l) ])
                  (elim here.0 [ inl l ↦ omega (arith, l) | inr l ↦ omega (arith, l) ])
                  (elim last [ inl l ↦ omega (arith, l) | inr l ↦ omega (arith, l) ])
                  (IsOutside-front_of a post lo here.1)),
          only_memory_later k k2 k' i.2 c.2,
        ))

and_then_assoc :
    {A B C : Type 0} (r : Run A) (f : A → Cmd B) (g : B → Cmd C)
    → and_then r (λ a k. and_then (f a k) g) ≡ and_then (and_then r f) g
and_then_assoc (done a k) f g = refl
and_then_assoc fault f g = refl
and_then_assoc spin f g = refl

All-behind : (P : Block → Type 0) (pre post : List Block) → All P (pre ++ post) → All P post
All-behind P [] post a = a
All-behind P (b ∷ pre) post a = All-behind P pre post a.1

module _ (indeterminate : ℕ) (k : Kernel) (al : Block) where
  abbrev search : Run (Unit {0})
  search =
      reattach mem_rounds (al.base + header_size) al.base
        (first_diff indeterminate al.base k.mem_slot (k.word (k.mem_slot + size_field))) k.mem_slot
        k

  later-Inserted :
      (b : Block) (pre post : List Block)
      → IsForward k.word k.mem_slot (b ∷ (pre ++ post))
      → Laid header_size (b ∷ (pre ++ (al ∷ post)))
      → IsAllocated k.word al
      → Returns
          (λ _ k2. Inserted k al (b ∷ pre) post k2)
          (and_then search (λ _ k1. link_in al.base k1))
  unfolding last_of front_of
  later-Inserted b pre post fw h a =
      let few = length-lt-rounds (b ∷ (pre ++ post)) (omega arith) fw.laid in
      let front = Chain-front_of k.word k.mem_slot (b ∷ (pre ++ post)) fw.list in
      let near =
        subst
          (λ p. IsNear al (first_diff indeterminate al.base p (k.word (p + size_field))) (b ∷ pre))
          (sym front)
          (IsNear-first k al b pre post h fw.list a.size indeterminate (front_size fw.list)) in
      after
        (reattach-Backed al mem_rounds _ k.mem_slot null header_size k (b ∷ pre) post few
          (omega arith) h fw.list (All-behind _ pre post fw.ends.1) near a.size a.prev)
        (λ _ k1 back. link_in-Inserted k al b pre post h fw.list a.size k1 back)

  search-Freed :
      (pre post : List Block)
      → Laid header_size (pre ++ (al ∷ post))
      → IsForward k.word k.mem_slot (pre ++ post)
      → k.mem_slot ≢ null
      → IsAllocated k.word al
      → invalid_address k.freemem (al.base + header_size) ≡ false
      → Returns (λ _ k2. Inserted k al pre post k2) (and_then search (λ _ k1. link_in al.base k1))
      → Returns (λ _ k'. Freed k al pre post k') (kfree indeterminate (al.base + header_size) k)
  search-Freed pre post h fw some_block a v i =
      let at = Laid-at header_size pre al post h in
      let top = Laid-le (end_of al) post (Laid-behind header_size pre al post h) in
      subst (Returns (λ _ k'. Freed k al pre post k'))
        (sym (
          kfree-enters indeterminate k al v at top a.sanity some_block ∙ and_then_assoc search _ _))
        (after i (λ _ k2 in2. Inserted-Freed k al pre post h fw k2 in2))

-- `kfree` of a block that `kmalloc` left between the free blocks `pre` and `post`, where some
-- block is free and the test on the address lets it pass, ends without a fault, whatever `diff`
-- held: the list is linked forward through `pre`, the block and `post` with all neighbours
-- joined, its first block has no link back and every other one has some, and from address 16 up
-- no word outside of these blocks is changed, nor anything but the memory.
pub kfree-Freed :
    (indeterminate : ℕ) (k : Kernel) (al : Block) (pre post : List Block)
    → k.mem_slot ≢ null
    → IsForward k.word k.mem_slot (pre ++ post)
    → Laid header_size (pre ++ (al ∷ post))
    → IsAllocated k.word al
    → invalid_address k.freemem (al.base + header_size) ≡ false
    → Returns (λ _ k'. Freed k al pre post k') (kfree indeterminate (al.base + header_size) k)
unfolding front_of
kfree-Freed indeterminate k al [] [] some_block fw h a v =
    absurd (some_block (Chain-front_of k.word k.mem_slot [] fw.list))
kfree-Freed indeterminate k al [] (c ∷ cs) some_block fw h a v =
    search-Freed indeterminate k al [] (c ∷ cs) h fw some_block a v (
      subst
        (λ n.
          Returns (λ _ k2. Inserted k al [] (c ∷ cs) k2)
            (and_then
              (reattach n (al.base + header_size) al.base
                (first_diff indeterminate al.base k.mem_slot (k.word (k.mem_slot + size_field)))
                k.mem_slot k)
              (λ _ k1. link_in al.base k1)))
        (sym mem_rounds_lem) (first-Inserted k al c cs 0x40000 _ h fw.list fw.ends a))
kfree-Freed indeterminate k al (b ∷ pre) post some_block fw h a v =
    search-Freed indeterminate k al (b ∷ pre) post h fw some_block a v
      (later-Inserted indeterminate k al b pre post fw h a)
