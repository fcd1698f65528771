-- ===== src/Mem/Total.antt =====
-- `kmemhdsize` and `kmemtotalsize` of c/mem.c.
use bkernel.Base.{
  ℕ, zero, suc, ◌+◌, ◌-◌, ◌≤◌, ◌<◌, ◌≡◌, ◌≢◌, refl, subst, ap, ◌∙◌, List, [], ◌∷◌, ◌++◌, length,
  arith, word_mod, Option, none, some, add32, ne→==, ◌==◌, if◌then◌else◌,
}
use bkernel.Kernel.{Kernel, null, Cmd, get, ended, load_word, ◌>>=◌, Returns, weaken, done}
use bkernel.Mem.Alloc.{header_size, size_field, next_field, max_addr, mem_rounds, kmalloc, amount}
use bkernel.Mem.Blocks.{Block, end_of, Laid, Laid-le, IsHeap, length-lt-rounds}
use bkernel.Mem.Search.{none_fits, fits, Fit-cases}
use bkernel.Mem.Join.{Chain, nil, cons}
use bkernel.Mem.Forward.{FreeList-Chain}
use bkernel.Mem.Relink.{remainder}
use bkernel.Mem.FirstFit.{first_fit, first_fit-none, first_fit-some}
use bkernel.Mem.Allocated.{Allocated, NoTightFit, NoTightFit-fits, kmalloc-Allocated}

unfoldable pub kmemhdsize : Cmd ℕ
kmemhdsize = do tmp ← get (λ k. k.mem_slot); load_word tmp size_field

unfoldable pub total_from : ℕ → (ℕ → ℕ) → ℕ → ℕ → Option ℕ
total_from zero w total tmp = none
total_from (suc n) w total tmp =
    let rest =
      total_from n w (add32 total (add32 (w (tmp + size_field)) header_size))
        (w (tmp + next_field)) in
    if tmp == null then some total else rest

unfoldable pub kmemtotalsize : Cmd ℕ
kmemtotalsize = do
  w ← get (λ k. k.word)
  tmp ← get (λ k. k.mem_slot)
  ended (total_from mem_rounds w 0 tmp)

-- The bytes of the blocks, with their headers.
unfoldable pub heap_total : List Block → ℕ
heap_total [] = 0
heap_total (b ∷ bs) = b.size + header_size + heap_total bs

heap_total-le : (low : ℕ) (bs : List Block) → Laid low bs → low + heap_total bs ≤ max_addr
unfolding heap_total
heap_total-le low [] h = omega arith
heap_total-le low (b ∷ bs) h = omega (arith, heap_total-le (end_of b) bs h.1)

add-total :
    (total size : ℕ)
    → total + (size + header_size) < word_mod
    → add32 total (add32 size header_size) ≡ total + (size + header_size)
add-total total size h = omega arith

total_from-step :
    (n : ℕ) (w : ℕ → ℕ) (total p size : ℕ)
    → p ≢ null
    → w (p + size_field) ≡ size
    → total + (size + header_size) < word_mod
    → total_from (suc n) w total p
      ≡ total_from n w (total + (size + header_size)) (w (p + next_field))
unfolding total_from
total_from-step n w total p size z e h =
    rw (ne→== p null z) (rw e (rw (add-total total size h) refl))

total_from-heap_total :
    (n : ℕ) (w : ℕ → ℕ) (total p low : ℕ) (bs : List Block)
    → length bs < n
    → low ≢ null
    → total ≤ low
    → Laid low bs
    → Chain w p bs
    → total_from n w total p ≡ some (total + heap_total bs)
unfolding total_from heap_total
total_from-heap_total zero w total p low bs l z t h f = absurd (omega arith)
total_from-heap_total (suc n) w total p low [] l z t h (nil e) = ground arith
total_from-heap_total (suc n) w total p low (b ∷ bs) l z t h (cons e s f) =
    let end = Laid-le (end_of b) bs h.1 in
    let rest =
      total_from-heap_total n w (total + (b.size + header_size)) (w (b.base + next_field))
        (end_of b) bs (omega arith) (omega arith) (omega arith) h.1 f in
    rw e (
      total_from-step n w total b.base b.size (omega arith) s (omega arith)
      ∙ rest
      ∙ ap some (omega arith))

heap_total-cut :
    (amnt : ℕ) (pre : List Block) (b : Block) (post : List Block)
    → amnt ≤ b.size
    → heap_total (pre ++ (remainder b amnt ∷ post)) + amnt ≡ heap_total (pre ++ (b ∷ post))
unfolding heap_total
heap_total-cut amnt [] b post le = omega arith
heap_total-cut amnt (c ∷ pre) b post le = omega (arith, heap_total-cut amnt pre b post le)

-- On a list of free blocks that is linked forward `kmemtotalsize` gives the sum of the sizes and
-- headers, and changes nothing.
pub kmemtotalsize-heap_total :
    (k : Kernel) (bs : List Block)
    → Laid header_size bs
    → Chain k.word k.mem_slot bs
    → kmemtotalsize k ≡ done (heap_total bs) k
unfolding kmemtotalsize
kmemtotalsize-heap_total k bs h f =
    rw
      (total_from-heap_total mem_rounds k.word 0 k.mem_slot header_size bs
        (length-lt-rounds bs (omega arith) h) (omega arith) (omega arith) h f)
      (ap (λ t. done t k) (omega arith))

taken :
    (k k' : Kernel) (size : ℕ) (bs : List Block) (r : ℕ)
    → NoTightFit (amount size) bs
    → IsHeap k.word k.mem_slot bs
    → Allocated k bs size (first_fit (amount size) bs) r k'
    → kmemtotalsize k' ≡ done (if r == null then heap_total bs else heap_total bs - amount size) k'
taken k k' size bs r tight h a = elim (Fit-cases (amount size) bs) [
  | none_fits s ↦
      let a' : Allocated k bs size none r k' =
        subst (λ c. Allocated k bs size c r k') (first_fit-none (amount size) bs s) a in
      rw (a'.0) (rw (a'.1) (kmemtotalsize-heap_total k bs h.laid (FreeList-Chain h.list)))
  | fits pre b post e s f ↦
      let e' : first_fit (amount size) bs ≡ some (b, pre ++ (remainder b (amount size) ∷ post)) =
        ap (first_fit (amount size)) e ∙ first_fit-some (amount size) pre b post s f in
      let a' : Allocated k bs size (some (b, pre ++ (remainder b (amount size) ∷ post))) r k' =
        subst (λ c. Allocated k bs size c r k') e' a in
      let total =
        heap_total-cut (amount size) pre b post
          (NoTightFit-fits (amount size) pre b post (subst (NoTightFit (amount size)) e tight) f) in
      kmemtotalsize-heap_total k' (pre ++ (remainder b (amount size) ∷ post)) a'.1.laid
        (FreeList-Chain a'.1.list)
      ∙ ap (λ t. done t k') (rw e (ground (arith, a'.0, total)))
]

-- On a valid heap, where no free block is big enough only if its header is counted,
-- `kmemtotalsize` after `kmalloc` gives the sum of the sizes and headers of all free blocks, less
-- the request's amount, header included, if it was served.
pub kmalloc-kmemtotalsize :
    (k : Kernel) (size : ℕ) (bs : List Block)
    → 0 < size
    → size < 2147483648
    → IsHeap k.word k.mem_slot bs
    → NoTightFit (amount size) bs
    → Returns
        (λ r k'.
          kmemtotalsize k'
          ≡ done (if r == null then heap_total bs else heap_total bs - amount size) k')
        (kmalloc size k)
kmalloc-kmemtotalsize k size bs pos small h tight =
    weaken (kmalloc-Allocated k size bs pos small h tight)
      (λ r k' a. taken k k' size bs r tight h a)
