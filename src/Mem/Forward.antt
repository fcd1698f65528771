-- ===== src/Mem/Forward.antt =====
-- A valid heap is linked forward, and back as far as `kfree` of c/mem.c looks.
use bkernel.Base.{ℕ, ◌+◌, ◌≢◌, List, [], ◌∷◌, All, arith}
use bkernel.Kernel.{null}
use bkernel.Mem.Alloc.{header_size, prev_field, next_field}
use bkernel.Mem.Blocks.{Block, end_of, FreeList, nil, cons, Laid, IsHeap}
use bkernel.Mem.Join.{Chain}
use bkernel.Mem.Insert.{Ends}
use bkernel.Mem.Placed.{IsForward}

pub FreeList-Chain :
    {w : ℕ → ℕ} {prev p : ℕ} {bs : List Block} → FreeList w prev p bs → Chain w p bs
FreeList-Chain (nil z) = Chain.nil z
FreeList-Chain (cons e s q f) = Chain.cons e s (FreeList-Chain f)

FreeList-prevs :
    (w : ℕ → ℕ) (prev p low : ℕ) (bs : List Block)
    → prev ≢ null
    → low ≢ null
    → Laid low bs
    → FreeList w prev p bs
    → All (λ c. w (c.base + prev_field) ≢ null) bs
FreeList-prevs w prev p low [] n z h f = tt
FreeList-prevs w prev p low (b ∷ bs) n z h (cons e s q f) = (
  omega (arith, q, n),
  FreeList-prevs w b.base (w (b.base + next_field)) (end_of b) bs (omega (arith, h.0)) (omega arith)
      h.1 f,
)

FreeList-Ends :
    (w : ℕ → ℕ) (p low : ℕ) (bs : List Block)
    → low ≢ null
    → Laid low bs
    → FreeList w null p bs
    → Ends w bs
FreeList-Ends w p low [] z h f = tt
FreeList-Ends w p low (b ∷ bs) z h (cons e s q f) = (
  q,
  FreeList-prevs w b.base (w (b.base + next_field)) (end_of b) bs (omega (arith, h.0)) (omega arith)
      h.1 f,
)

pub IsHeap-IsForward :
    (w : ℕ → ℕ) (slot : ℕ) (bs : List Block) → IsHeap w slot bs → IsForward w slot bs
IsHeap-IsForward w slot bs h = record {
  list = FreeList-Chain h.list;
  laid = h.laid;
  ends = FreeList-Ends w slot header_size bs (omega arith) h.laid h.list;
}
