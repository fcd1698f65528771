-- ===== src/Mem/Roundtrip.antt =====
-- `kfree` of c/mem.c after `kmalloc`, and what it adds to the free memory.
use bkernel.Base.{
  ℕ, ◌+◌, ◌-◌, ◌≤◌, ◌<◌, ◌≡◌, ◌≢◌, refl, sym, subst, ap, ◌∙◌, List, [], ◌∷◌, ◌++◌, All, arith, inl,
  inr, ◌⊎◌, false, some, Bool-cases, ◌==◌,
}
use bkernel.Kernel.{null, Kernel, Returns, weaken, done}
use bkernel.Mem.Alloc.{header_size, kmalloc, amount}
use bkernel.Mem.Carve.{amount_bounds}
use bkernel.Mem.Free.{kfree, invalid_address}
use bkernel.Mem.Blocks.{Block, end_of, Laid, Laid-lower, IsHeap, front_of, front_of-FreeList}
use bkernel.Mem.Search.{none_fits, fits, Fit-cases}
use bkernel.Mem.Relink.{remainder}
use bkernel.Mem.FirstFit.{first_fit, first_fit-none, first_fit-some}
use bkernel.Mem.Allocated.{Allocated, NoTightFit, NoTightFit-fits, kmalloc-Allocated}
use bkernel.Mem.Joined.{joined, coalesced, coalesced-grown}
use bkernel.Mem.Placed.{IsForward, IsAllocated}
use bkernel.Mem.Forward.{IsHeap-IsForward}
use bkernel.Mem.Freed.{kfree-Freed}
use bkernel.Mem.Total.{heap_total, kmemtotalsize, kmemtotalsize-heap_total}

-- The block that is handed out.
abbrev pub cut_block : Block → ℕ → Block
cut_block b amnt = record { base = b.base; size = amnt - header_size }

coalesced_cut :
    (amnt : ℕ) (pre : List Block) (b : Block) (post : List Block)
    → header_size ≤ amnt
    → amnt ≤ b.size
    → coalesced (pre ++ (cut_block b amnt ∷ remainder b amnt ∷ post))
      ≡ coalesced (pre ++ (b ∷ post))
unfolding coalesced
coalesced_cut amnt [] b post z le =
    coalesced-grown (cut_block b amnt) (remainder b amnt) post (omega arith)
    ∙ ap (λ s. coalesced (record { base = b.base; size = s } ∷ post)) (omega arith)
coalesced_cut amnt (c ∷ pre) b post z le = ap (joined c) (coalesced_cut amnt pre b post z le)

Laid-cut_block :
    (low amnt : ℕ) (pre : List Block) (b : Block) (post : List Block)
    → header_size ≤ amnt
    → amnt ≤ b.size
    → Laid low (pre ++ (b ∷ post))
    → Laid low (pre ++ (cut_block b amnt ∷ remainder b amnt ∷ post))
Laid-cut_block low amnt [] b post z le h =
    (h.0, (omega arith, Laid-lower (end_of b) (end_of (remainder b amnt)) post (omega arith) h.1))
Laid-cut_block low amnt (c ∷ pre) b post z le h =
    (h.0, Laid-cut_block (end_of c) amnt pre b post z le h.1)

heap_total-joined : (b : Block) (cs : List Block) → heap_total (joined b cs) ≡ heap_total (b ∷ cs)
unfolding joined heap_total
heap_total-joined b [] = refl
heap_total-joined b (c ∷ cs) = elim (Bool-cases (end_of b == c.base)) [
  | inl t ↦ rw t (omega arith)
  | inr f ↦ rw f refl
]

heap_total-coalesced : (bs : List Block) → heap_total (coalesced bs) ≡ heap_total bs
unfolding coalesced heap_total
heap_total-coalesced [] = refl
heap_total-coalesced (b ∷ bs) =
    heap_total-joined b (coalesced bs) ∙ omega (arith, heap_total-coalesced bs)

heap_total_middle :
    (pre : List Block) (b : Block) (post : List Block)
    → heap_total (pre ++ (b ∷ post)) ≡ heap_total (pre ++ post) + (b.size + header_size)
unfolding heap_total
heap_total_middle [] b post = omega arith
heap_total_middle (c ∷ pre) b post = omega (arith, heap_total_middle pre b post)

-- Under the conditions of `kfree-Freed`, `kmemtotalsize` after `kfree` gives the sum of all free
-- blocks before and of the block, header included.
pub kfree-kmemtotalsize :
    (indeterminate : ℕ) (k : Kernel) (al : Block) (pre post : List Block)
    → k.mem_slot ≢ null
    → IsForward k.word k.mem_slot (pre ++ post)
    → Laid header_size (pre ++ (al ∷ post))
    → IsAllocated k.word al
    → invalid_address k.freemem (al.base + header_size) ≡ false
    → Returns
        (λ _ k'. kmemtotalsize k' ≡ done (heap_total (pre ++ post) + (al.size + header_size)) k')
        (kfree indeterminate (al.base + header_size) k)
kfree-kmemtotalsize indeterminate k al pre post some_block fw h a v =
    weaken (kfree-Freed indeterminate k al pre post some_block fw h a v) (λ _ k' fr.
      kmemtotalsize-heap_total k' (coalesced (pre ++ (al ∷ post))) fr.0.laid fr.0.list
      ∙ ap (λ t. done t k')
          (heap_total-coalesced (pre ++ (al ∷ post)) ∙ heap_total_middle pre al post))

front_of_middle :
    (low : ℕ) (pre : List Block) (b : Block) (post : List Block)
    → low ≢ null
    → Laid low (pre ++ (b ∷ post))
    → front_of (pre ++ (b ∷ post)) ≢ null
unfolding front_of
front_of_middle low [] b post z h = omega (arith, h.0)
front_of_middle low (c ∷ pre) b post z h = omega (arith, h.0)

All_at :
    (P : Block → Type 0) (pre : List Block) (b : Block) (post : List Block)
    → All P (pre ++ (b ∷ post))
    → P b
All_at P [] b post a = a.0
All_at P (c ∷ pre) b post a = All_at P pre b post a.1

module _ (indeterminate : ℕ) (k k' : Kernel) (size r : ℕ) where
  Allocated-freed :
      (pre : List Block) (b : Block) (post : List Block)
      → amount size ≤ b.size
      → Laid header_size (pre ++ (b ∷ post))
      → invalid_address k.freemem (b.base + header_size) ≡ false
      → Allocated k
          (pre ++ (b ∷ post))
          size
          (some (b, pre ++ (remainder b (amount size) ∷ post)))
          r
          k'
      → Returns
          (λ _ k''. IsForward k''.word k''.mem_slot (coalesced (pre ++ (b ∷ post))))
          (kfree indeterminate r k')
  Allocated-freed pre b post room h v a =
      let heads = amount_bounds size in
      let al = cut_block b (amount size) in
      let run =
        kfree-Freed indeterminate k' al pre (remainder b (amount size) ∷ post)
          (subst (λ s. s ≢ null) (sym (front_of-FreeList _ a.1.list))
            (front_of_middle header_size pre (remainder b (amount size)) post (omega arith)
              a.1.laid))
          (IsHeap-IsForward k'.word k'.mem_slot _ a.1)
          (Laid-cut_block header_size (amount size) pre b post (omega (arith, heads.0)) room h)
          (record { size = omega (arith, a.2); sanity = a.3; prev = a.4 })
          (subst (λ f. invalid_address f (b.base + header_size) ≡ false)
            (sym (ap {A = Kernel} (λ j. j.freemem) a.6)) v) in
      subst
        (λ p.
          Returns (λ _ k''. IsForward k''.word k''.mem_slot (coalesced (pre ++ (b ∷ post))))
            (kfree indeterminate p k'))
        (sym a.0)
        (weaken run (λ _ k'' fr.
          subst (IsForward k''.word k''.mem_slot)
            (coalesced_cut (amount size) pre b post (omega (arith, heads.0)) room) fr.0))

  -- The block's case, and the case of no block.
  Allocated-kfree :
      (bs : List Block)
      → Laid header_size bs
      → NoTightFit (amount size) bs
      → All (λ b. invalid_address k.freemem (b.base + header_size) ≡ false) bs
      → Allocated k bs size (first_fit (amount size) bs) r k'
      → (r ≡ null)
        ⊎ Returns
            (λ _ k''. IsForward k''.word k''.mem_slot (coalesced bs))
            (kfree indeterminate r k')
  Allocated-kfree bs h tight v a = elim (Fit-cases (amount size) bs) [
    | none_fits s ↦
        inl (subst (λ c. Allocated k bs size c r k') (first_fit-none (amount size) bs s) a).0
    | fits pre b post e s f ↦
        let chosen = ap (first_fit (amount size)) e ∙ first_fit-some (amount size) pre b post s f in
        inr (
          subst
            (λ cs.
              Returns (λ _ k''. IsForward k''.word k''.mem_slot (coalesced cs))
                (kfree indeterminate r k'))
            (sym e)
            (Allocated-freed pre b post
              (NoTightFit-fits (amount size) pre b post (subst (NoTightFit (amount size)) e tight)
                f)
              (subst (Laid header_size) e h)
              (All_at _ pre b post
                (subst (All (λ b. invalid_address k.freemem (b.base + header_size) ≡ false)) e v))
              (subst
                (λ cs.
                  Allocated k cs size (some (b, pre ++ (remainder b (amount size) ∷ post))) r k')
                e (subst (λ c. Allocated k bs size c r k') chosen a))))
  ]

-- On a valid heap, where no free block is big enough only if its header is counted and the test
-- on the address lets the free blocks pass, `kfree` of what `kmalloc` gave, if it is not NULL,
-- leaves the list of free blocks linked forward as it was before, with neighbours joined.
pub kmalloc-kfree :
    (indeterminate : ℕ) (k : Kernel) (size : ℕ) (bs : List Block)
    → 0 < size
    → size < 2147483648
    → IsHeap k.word k.mem_slot bs
    → NoTightFit (amount size) bs
    → All (λ b. invalid_address k.freemem (b.base + header_size) ≡ false) bs
    → Returns
        (λ r k'.
          (r ≡ null)
          ⊎ Returns
              (λ _ k''. IsForward k''.word k''.mem_slot (coalesced bs))
              (kfree indeterminate r k'))
        (kmalloc size k)
kmalloc-kfree indeterminate k size bs pos small h tight v =
    weaken (kmalloc-Allocated k size bs pos small h tight)
      (λ r k' a. Allocated-kfree indeterminate k k' size r bs h.laid tight v a)
