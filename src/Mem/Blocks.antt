-- ===== src/Mem/Blocks.antt =====
-- The free list of c/mem.c as a list of blocks in the order of their addresses.
use bkernel.Base.{ℕ, ◌+◌, ◌*◌, ◌≤◌, ◌<◌, ◌≡◌, sym, subst, ◌∙◌, List, [], ◌∷◌, length, arith}
use bkernel.Kernel.{null}
use bkernel.Mem.Alloc.{
  header_size, size_field, prev_field, next_field, max_addr, mem_rounds, mem_rounds_lem,
}

-- A block by the address of its header and the size of its data.
pub record Block : Type 0 where
  pub base : ℕ
  pub size : ℕ

abbrev pub end_of : Block → ℕ
end_of b = b.base + header_size + b.size

-- The list of free blocks from `p` on, behind the block at `prev`, linked both ways.
pub data FreeList (w : ℕ → ℕ) : ℕ → ℕ → List Block → Type 0 where
  nil : {prev p : ℕ} → p ≡ null → FreeList w prev p []
  cons :
      {prev p : ℕ} {b : Block} {bs : List Block}
      → p ≡ b.base
      → w (b.base + size_field) ≡ b.size
      → w (b.base + prev_field) ≡ prev
      → FreeList w b.base (w (b.base + next_field)) bs
      → FreeList w prev p (b ∷ bs)

-- The blocks lie one behind the other, from `low` up to the end of memory.
abbrev pub Laid : ℕ → List Block → Type 0
Laid low [] = low ≤ max_addr
Laid low (b ∷ bs) = (low ≤ b.base) × Laid (end_of b) bs

pub record IsHeap (w : ℕ → ℕ) (slot : ℕ) (bs : List Block) : Type 0 where
  pub list : FreeList w null slot bs
  pub laid : Laid header_size bs

-- All of them end in memory, and there are no more than it has room for headers.
pub Laid-le : (low : ℕ) (bs : List Block) → Laid low bs → low ≤ max_addr
Laid-le low [] h = h
Laid-le low (b ∷ bs) h = omega (arith, Laid-le (end_of b) bs h.1)

pub Laid-length :
    (low : ℕ) (bs : List Block) → Laid low bs → low + length bs * header_size ≤ max_addr
Laid-length low [] h = omega arith
Laid-length low (b ∷ bs) h = omega (arith, Laid-length (end_of b) bs h.1)

pub Laid-lower : (low low' : ℕ) (bs : List Block) → low' ≤ low → Laid low bs → Laid low' bs
Laid-lower low low' [] le h = omega arith
Laid-lower low low' (b ∷ bs) le h = (omega arith, h.1)

pub length-lt-rounds :
    {low : ℕ} (bs : List Block) → header_size ≤ low → Laid low bs → length bs < mem_rounds
length-lt-rounds {low} bs le h = rw mem_rounds_lem (omega (arith, Laid-length low bs h))

-- The list reads no word below its blocks.
pub FreeList-same :
    (w w' : ℕ → ℕ) (low : ℕ) {prev p : ℕ} (bs : List Block)
    → ((a : ℕ) → low ≤ a → w' a ≡ w a)
    → Laid low bs
    → FreeList w prev p bs
    → FreeList w' prev p bs
FreeList-same w w' low [] same h (nil z) = nil z
FreeList-same w w' low (b ∷ bs) same h (cons e s p f) =
    cons e (same (b.base + size_field) (omega arith) ∙ s)
      (same (b.base + prev_field) (omega arith) ∙ p)
      (subst (λ q. FreeList w' b.base q bs) (sym (same (b.base + next_field) (omega arith)))
        (FreeList-same w w' (end_of b) bs (λ a le. same a (omega arith)) h.1 f))

unfoldable pub front_of : List Block → ℕ
front_of [] = null
front_of (b ∷ bs) = b.base

pub front_of-FreeList :
    {w : ℕ → ℕ} {prev p : ℕ} (bs : List Block) → FreeList w prev p bs → p ≡ front_of bs
unfolding front_of
front_of-FreeList [] (nil z) = z
front_of-FreeList (b ∷ bs) (cons e s q f) = e
