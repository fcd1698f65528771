-- ===== src/Mem/Allocated.antt =====
-- `kmalloc` of c/mem.c on any valid list of free blocks.
use bkernel.Base.{
  ℕ, ◌+◌, ◌≤◌, ◌<◌, ◌≡◌, ◌≢◌, refl, sym, subst, some, none, Option, arith, true, false, ◌==◌,
  if◌then◌else◌, ◌⊎◌, inl, inr, List, [], ◌∷◌, ◌++◌, All,
}
use bkernel.Kernel.{Kernel, done, null, Returns, done-Returns}
use bkernel.Mem.Alloc.{
  header_size, size_field, prev_field, next_field, sanity_field, sanity_check, kmalloc, amount,
  mem_rounds,
}
use bkernel.Mem.Carve.{amount_bounds}
use bkernel.Mem.Blocks.{Block, end_of, FreeList, nil, cons, IsHeap, length-lt-rounds}
use bkernel.Mem.Search.{is_small, none_fits, fits, Fit-cases, find_block-none, find_block-fits}
use bkernel.Mem.Relink.{
  Cut, OffHeader, remainder, last_of, start_of, last_of_bounds, next_of_block, Cut-FreeList,
}
use bkernel.Mem.Cutting.{cut_words, cut_words-Cut, kmalloc_cuts}
use bkernel.Mem.FirstFit.{
  first_fit, first_fit-none, first_fit-some, Laid-cut, block_words, IsHeap-Apart,
}

-- The address is in none of the blocks, header and data.
abbrev pub IsOutside : ℕ → List Block → Type 0
IsOutside a bs = All (λ c. (a < c.base) ⊎ (end_of c ≤ a)) bs

-- `r` and `k'` are what `kmalloc size` gives for the cut.
abbrev pub Allocated : Kernel → List Block → ℕ → Option (Block × List Block) → ℕ → Kernel → Type 0
Allocated k bs size none r k' = (r ≡ null) × (k' ≡ k)
Allocated k bs size (some cut) r k' =
    (r ≡ cut.0.base + header_size)
    × IsHeap k'.word k'.mem_slot cut.1
    × (k'.word (cut.0.base + size_field) + header_size ≡ amount size)
    × (k'.word (cut.0.base + sanity_field) ≡ sanity_check)
    × (k'.word (cut.0.base + prev_field) ≡ null)
    × ((a : ℕ) → header_size ≤ a → IsOutside a bs → k'.word a ≡ k.word a)
    × (k' ≡ record k { word = k'.word; mem_slot = k'.mem_slot })

-- No block is big enough with its header and too small without it.
abbrev pub NoTightFit : ℕ → List Block → Type 0
NoTightFit amnt bs = All (λ b. (is_small amnt b ≡ true) ⊎ (amnt ≤ b.size)) bs

pub NoTightFit-fits :
    (amnt : ℕ) (pre : List Block) (b : Block) (post : List Block)
    → NoTightFit amnt (pre ++ (b ∷ post))
    → is_small amnt b ≡ false
    → amnt ≤ b.size
NoTightFit-fits amnt [] b post a e = elim a.0 [ inl s ↦ ground (arith, s, e) | inr l ↦ l ]
NoTightFit-fits amnt (c ∷ pre) b post a e = NoTightFit-fits amnt pre b post a.1 e

pub IsOutside-block :
    (a : ℕ) (pre : List Block) (b : Block) (post : List Block)
    → IsOutside a (pre ++ (b ∷ post))
    → ((a < b.base) ⊎ (end_of b ≤ a)) × IsOutside a post
IsOutside-block a [] b post o = o
IsOutside-block a (c ∷ pre) b post o = IsOutside-block a pre b post o.1

pub IsOutside-last_of :
    (a q : ℕ) (pre : List Block) (b : Block) (post : List Block)
    → OffHeader q a
    → IsOutside a (pre ++ (b ∷ post))
    → OffHeader (last_of q pre) a
unfolding last_of
IsOutside-last_of a q [] b post off o = off
IsOutside-last_of a q (c ∷ pre) b post off o =
    IsOutside-last_of a c.base pre b post (elim o.0 [ inl l ↦ inl l | inr l ↦ inr (omega arith) ])
      o.1

IsOutside-next :
    (w : ℕ → ℕ) (a q p : ℕ) (post : List Block)
    → header_size ≤ a
    → FreeList w q p post
    → IsOutside a post
    → a ≢ p + prev_field
IsOutside-next w a q p [] z (nil e) o = omega (arith, e)
IsOutside-next w a q p (c ∷ cs) z (cons e s v f) o = elim o.0 [
  | inl l ↦ omega (arith, e)
  | inr l ↦ omega (arith, e)
]

-- The list begins with the remainder if nothing lies before it.
start_of_prev :
    (w : ℕ → ℕ) (p tmp : ℕ) (pre : List Block) (b : Block) (post : List Block)
    → IsHeap w p (pre ++ (b ∷ post))
    → (if w (b.base + prev_field) == null then tmp else p) ≡ start_of tmp pre p
unfolding start_of last_of
start_of_prev w p tmp [] b post h =
    let says = block_words w null p [] b post h.list in rw (says.1) refl
start_of_prev w p tmp (d ∷ ds) b post h =
    let says = block_words w null p (d ∷ ds) b post h.list in
    let last = last_of_bounds (end_of d) d.base ds b post (omega arith) h.laid.1 in
    ground (arith, says.1, last.1, h.laid.0)

module _ (k : Kernel) (size : ℕ) (pos : 0 < size) (small : size < 2147483648) where
  kmalloc-full :
      (bs : List Block)
      → IsHeap k.word k.mem_slot bs
      → All (λ b. is_small (amount size) b ≡ true) bs
      → kmalloc size k ≡ done null k
  unfolding kmalloc
  kmalloc-full bs h a =
      let found =
        find_block-none k.word (amount size) mem_rounds null k.mem_slot header_size bs
          (length-lt-rounds bs (omega arith) h.laid) (omega arith) h.laid h.list a in
      ground (arith, found)

  kmalloc-cuts :
      (pre : List Block) (b : Block) (post : List Block)
      → IsHeap k.word k.mem_slot (pre ++ (b ∷ post))
      → All (λ c. is_small (amount size) c ≡ true) pre
      → is_small (amount size) b ≡ false
      → amount size ≤ b.size
      → Returns
          (Allocated k
            (pre ++ (b ∷ post))
            size
            (some (b, pre ++ (remainder b (amount size) ∷ post))))
          (kmalloc size k)
  kmalloc-cuts pre b post h a e room =
      let heads = amount_bounds size in
      let found =
        find_block-fits k.word (amount size) mem_rounds null k.mem_slot header_size pre b post
          (length-lt-rounds (pre ++ (b ∷ post)) (omega arith) h.laid) (omega arith) h.laid h.list a
          e in
      let apart =
        IsHeap-Apart k.word k.mem_slot (amount size) pre b post (omega (arith, heads.0)) room h in
      let says = block_words k.word null k.mem_slot pre b post h.list in
      let cut = cut_words-Cut k.word b.base (amount size) apart in
      done-Returns (kmalloc_cuts k size b.base pos small found apart) (
        refl,
        record {
          list =
              subst
                (λ p.
                  FreeList (cut_words k.word b.base (amount size)) null p
                    (pre ++ (remainder b (amount size) ∷ post)))
                (sym (start_of_prev k.word k.mem_slot (b.base + amount size) pre b post h))
                (Cut-FreeList k.word (cut_words k.word b.base (amount size)) b (amount size)
                  (omega (arith, heads.0)) room post pre null k.mem_slot header_size
                  (k.word (b.base + prev_field)) says.1 (omega arith) h.laid h.list
                  (subst
                    (λ s.
                      Cut k.word (cut_words k.word b.base (amount size)) b.base s (amount size)
                        (k.word (b.base + prev_field)) (k.word (b.base + next_field)))
                    says.0 cut));
          laid = Laid-cut header_size (amount size) pre b post room h.laid;
        },
        omega (arith, cut.own_size, heads.0),
        cut.own_sanity,
        cut.own_prev,
        (λ x lo out.
            let here = IsOutside-block x pre b post out in
            let before = IsOutside-last_of x null pre b post (inr (omega arith)) out in
            let next =
              next_of_block k.word k.word b (amount size) (omega (arith, heads.0)) room post pre
                null k.mem_slot header_size h.laid h.list in
            cut.same x (elim here.0 [ inl l ↦ inl l | inr l ↦ inr (omega arith) ])
              (elim here.0 [ inl l ↦ inl (omega arith) | inr l ↦ inr (omega arith) ])
              (elim before [ inl l ↦ omega (arith, says.1, l) | inr l ↦ omega (arith, says.1, l) ])
              (IsOutside-next k.word x b.base (k.word (b.base + next_field)) post lo next here.1)),
        refl,
      )

-- On a valid heap, where no free block is big enough only if its header is counted, `kmalloc` of
-- 1 to 2 ^ 31 - 1 bytes ends without a fault and does what `first_fit` does on the list of free
-- blocks. Where no block is big enough it gives NULL and changes nothing. Otherwise it gives the
-- memory behind the header of the first one that is; the rest of that block takes its place in a
-- heap that is valid again, the header says the size in paragraphs, and from address 16 up no
-- word outside of the blocks that were free is changed, nor anything but the memory.
pub kmalloc-Allocated :
    (k : Kernel) (size : ℕ) (bs : List Block)
    → 0 < size
    → size < 2147483648
    → IsHeap k.word k.mem_slot bs
    → NoTightFit (amount size) bs
    → Returns (Allocated k bs size (first_fit (amount size) bs)) (kmalloc size k)
kmalloc-Allocated k size bs pos small h tight = elim (Fit-cases (amount size) bs) [
  | none_fits a ↦
      subst (λ c. Returns (Allocated k bs size c) (kmalloc size k))
        (sym (first_fit-none (amount size) bs a))
        (done-Returns (kmalloc-full k size pos small bs h a) (refl, refl))
  | fits pre b post e a f ↦
      subst (λ cs. Returns (Allocated k cs size (first_fit (amount size) cs)) (kmalloc size k))
        (sym e)
        (subst (λ c. Returns (Allocated k (pre ++ (b ∷ post)) size c) (kmalloc size k))
          (sym (first_fit-some (amount size) pre b post a f))
          (kmalloc-cuts k size pos small pre b post (subst (IsHeap k.word k.mem_slot) e h) a f (
            NoTightFit-fits (amount size) pre b post (subst (NoTightFit (amount size)) e tight) f)))
]
