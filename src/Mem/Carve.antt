-- ===== src/Mem/Carve.antt =====
-- `kmalloc` of c/mem.c on the first free block.
use bkernel.Base.{suc, ℕ, ◌+◌, ◌-◌, ◌%◌, ◌≤◌, ◌<◌, ◌≡◌, ◌≢◌, refl, arith, word_mod, some}
use bkernel.Kernel.{update, Kernel, done, null, Returns, done-Returns}
use bkernel.Mem.Alloc.{
  amount, header_size, paragraph_size, size_field, prev_field, next_field, sanity_field,
  sanity_check, find_block, carve, kmalloc, mem_rounds_lem, mem_rounds,
}

-- The amount is the request with a header, rounded up to paragraphs.
pub amount_bounds :
    (size : ℕ)
    → (size + header_size ≤ amount size)
      × (amount size < size + header_size + paragraph_size)
      × (amount size % paragraph_size ≡ 0)
unfolding amount
amount_bounds size = ground arith

-- The first free block is big enough, so the search ends there.
find_block_first :
    (n : ℕ) (w : ℕ → ℕ) (amnt slot : ℕ)
    → slot ≢ null
    → amnt ≤ w (slot + size_field)
    → w (slot + size_field) + header_size < word_mod
    → find_block (suc n) w amnt slot ≡ some slot
unfolding find_block
find_block_first n w amnt slot s fits small = ground arith

module _ (k : Kernel) (size : ℕ) where
  abbrev start : ℕ
  start = k.mem_slot

  abbrev rest : ℕ
  rest = start + amount size

  -- The memory once the block has been carved and its header written.
  abbrev carved : ℕ → ℕ
  carved =
      let w = update k.word (rest + size_field) (k.word (start + size_field) - amount size) in
      let w = update (update w (rest + next_field) null) (rest + prev_field) null in
      let w = update w (start + size_field) (amount size - header_size) in
      let w = update w (start + sanity_field) sanity_check in
      update (update w (start + next_field) null) (start + prev_field) null

  kmalloc_run :
      0 < size
      → size < 2147483648
      → start ≢ null
      → amount size ≤ k.word (start + size_field)
      → start + k.word (start + size_field) + header_size < word_mod
      → k.word (start + next_field) ≡ null
      → k.word (start + prev_field) ≡ null
      → kmalloc size k ≡ done (start + header_size) (record k { word = carved; mem_slot = rest })
  unfolding kmalloc carve
  kmalloc_run pos small some_block fits range last first =
      let found : find_block mem_rounds k.word (amount size) start ≡ some start =
        rw mem_rounds_lem
          (find_block_first 0x40000 k.word (amount size) start some_block fits (omega arith)) in
      ground (arith, found, amount_bounds size)

-- Where the first free block is the only one and has room for the paragraphs of the request and a
-- header, `kmalloc` gives the memory behind the block's header. The block is as long as the request
-- rounded up to paragraphs; the rest of it, with a header of its own, is the free list, and
-- the sizes add up.
pub kmalloc-carves :
    (k : Kernel) (size : ℕ)
    → 0 < size
    → size < 2147483648
    → k.mem_slot ≢ null
    → amount size ≤ k.word (k.mem_slot + size_field)
    → k.mem_slot + k.word (k.mem_slot + size_field) + header_size < word_mod
    → k.word (k.mem_slot + next_field) ≡ null
    → k.word (k.mem_slot + prev_field) ≡ null
    → Returns
        (λ r k'.
          (r ≡ k.mem_slot + header_size)
          × (size ≤ k'.word (k.mem_slot + size_field))
          × (k'.mem_slot ≡ r + k'.word (k.mem_slot + size_field))
          × (k'.word (k.mem_slot + size_field) + header_size + k'.word (k'.mem_slot + size_field)
              ≡ k.word (k.mem_slot + size_field))
          × (k'.word (k'.mem_slot + next_field) ≡ null)
          × (k'.word (k'.mem_slot + prev_field) ≡ null))
        (kmalloc size k)
unfolding kmalloc
kmalloc-carves k size pos small some_block fits range last first =
    done-Returns (kmalloc_run k size pos small some_block fits range last first) (
      refl,
      ground (arith, amount_bounds size),
      ground (arith, amount_bounds size),
      ground (arith, amount_bounds size),
      ground (arith, amount_bounds size),
      ground (arith, amount_bounds size),
    )
