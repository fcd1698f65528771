-- ===== src/Mem/FirstFit.antt =====
-- `kmalloc` of c/mem.c against an allocator on the list of free blocks.
use bkernel.Base.{
  ℕ, ◌+◌, ◌≤◌, ◌≡◌, refl, some, none, Option, arith, true, false, if◌then◌else◌, inl, inr, List, [],
  ◌∷◌, ◌++◌, All,
}
use bkernel.Kernel.{null}
use bkernel.Mem.Alloc.{header_size, size_field, prev_field, next_field}
use bkernel.Mem.Blocks.{Block, end_of, FreeList, cons, Laid, Laid-le, Laid-lower, IsHeap}
use bkernel.Mem.Search.{is_small}
use bkernel.Mem.Relink.{
  remainder, last_of, last_of_bounds, next_above, Laid-at, Laid-behind, next_of_block,
}
use bkernel.Mem.Cutting.{Apart}

-- The first block that is big enough is cut: the block, and the list with its remainder.
unfoldable pub first_fit : ℕ → List Block → Option (Block × List Block)
first_fit amnt [] = none
first_fit amnt (b ∷ bs) =
    let rest = first_fit amnt bs in
    if is_small amnt b
    then elim rest [ none ↦ none | some r ↦ some (r.0, b ∷ r.1) ]
    else some (b, remainder b amnt ∷ bs)

pub first_fit-none :
    (amnt : ℕ) (bs : List Block) → All (λ b. is_small amnt b ≡ true) bs → first_fit amnt bs ≡ none
unfolding first_fit
first_fit-none amnt [] a = refl
first_fit-none amnt (b ∷ bs) a = rw a.0 (rw (first_fit-none amnt bs a.1) refl)

pub first_fit-some :
    (amnt : ℕ) (pre : List Block) (b : Block) (post : List Block)
    → All (λ c. is_small amnt c ≡ true) pre
    → is_small amnt b ≡ false
    → first_fit amnt (pre ++ (b ∷ post)) ≡ some (b, pre ++ (remainder b amnt ∷ post))
unfolding first_fit
first_fit-some amnt [] b post a e = rw e refl
first_fit-some amnt (c ∷ pre) b post a e = rw a.0 (rw (first_fit-some amnt pre b post a.1 e) refl)

pub Laid-cut :
    (low amnt : ℕ) (pre : List Block) (b : Block) (post : List Block)
    → amnt ≤ b.size
    → Laid low (pre ++ (b ∷ post))
    → Laid low (pre ++ (remainder b amnt ∷ post))
Laid-cut low amnt [] b post le h =
    (omega (arith, h.0), Laid-lower (end_of b) _ post (omega arith) h.1)
Laid-cut low amnt (d ∷ ds) b post le h = (h.0, Laid-cut (end_of d) amnt ds b post le h.1)

-- What the words of a block say.
pub block_words :
    (w : ℕ → ℕ) (q p : ℕ) (pre : List Block) (b : Block) (post : List Block)
    → FreeList w q p (pre ++ (b ∷ post))
    → (w (b.base + size_field) ≡ b.size) × (w (b.base + prev_field) ≡ last_of q pre)
unfolding last_of
block_words w q p [] b post (cons e s u f) = (s, u)
block_words w q p (d ∷ ds) b post (cons e s u f) =
    block_words w d.base (w (d.base + next_field)) ds b post f

module _ (w : ℕ → ℕ) (slot amnt : ℕ) (pre : List Block) (b : Block) (post : List Block) where
  pub IsHeap-Apart :
      header_size ≤ amnt → amnt ≤ b.size → IsHeap w slot (pre ++ (b ∷ post)) → Apart w b.base amnt
  unfolding last_of
  IsHeap-Apart header room h =
      let says = block_words w null slot pre b post h.list in
      let at = Laid-at header_size pre b post h.laid in
      let last = last_of_bounds header_size null pre b post (omega arith) h.laid in
      let laid = Laid-behind header_size pre b post h.laid in
      let next =
        next_above w b.base (w (b.base + next_field)) (end_of b) post laid
          (next_of_block w w b amnt header room post pre null slot header_size h.laid h.list) in
      let top = Laid-le (end_of b) post laid in
      record {
        some_block = omega (arith, at);
        header = header;
        room = omega (arith, says);
        small = omega (arith, says, top);
        below = elim last.1 [
          | inl e ↦ inl (omega (arith, says, e))
          | inr l ↦ inr (omega (arith, says, last.0))
        ];
        above = elim next [ inl e ↦ inl e | inr l ↦ inr (omega arith) ];
      }
