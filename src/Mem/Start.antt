-- ===== src/Mem/Start.antt =====
-- `kmeminit` of c/mem.c sets up the list of free blocks.
use bkernel.Base.{ℕ, ◌+◌, ◌-◌, ◌*◌, ◌%◌, ◌≤◌, ◌<◌, ◌≡◌, refl, arith, [], ◌∷◌}
use bkernel.Kernel.{Kernel, null, Returns, done-Returns, update, done}
use bkernel.Mem.Alloc.{
  kmeminit, align, paragraph_size, header_size, hole_start, hole_end, max_addr, size_field,
  prev_field, next_field, sanity_field, sanity_check,
}
use bkernel.Mem.Blocks.{Block, FreeList, nil, cons, IsHeap}

-- The block between the kernel and the hole of the PC's memory, and the one behind the hole.
abbrev pub low_block : ℕ → Block
low_block slot = record { base = slot; size = hole_start - (slot + header_size) }

abbrev pub high_block : Block
high_block = record { base = hole_end; size = max_addr - hole_end - paragraph_size }

module _ (k : Kernel) (slot : ℕ) where
  init_words : ℕ → ℕ
  init_words =
      let w1 = update k.word (slot + size_field) (hole_start - (slot + header_size)) in
      let w2 = update (update w1 (slot + sanity_field) sanity_check) (slot + prev_field) null in
      let w3 = update w2 (slot + next_field) hole_end in
      let w4 = update w3 (hole_end + size_field) (max_addr - hole_end - paragraph_size) in
      let w5 =
        update (update w4 (hole_end + sanity_field) sanity_check) (hole_end + prev_field) slot in
      update w5 (hole_end + next_field) null

  kmeminit_run :
      k.freemem + 2 * paragraph_size ≤ hole_start
      → slot ≡ align (k.freemem + paragraph_size)
      → kmeminit k ≡ done tt (record k { mem_slot = slot; word = init_words })
  unfolding kmeminit init_words
  kmeminit_run room e = ground (arith, e)

  init_words-FreeList :
      header_size ≤ slot
      → slot + header_size ≤ hole_start
      → FreeList init_words null slot (low_block slot ∷ high_block ∷ [])
  unfolding init_words
  init_words-FreeList z le =
      cons refl (ground arith) (ground arith)
        (cons (ground arith) (ground arith) (ground arith) (nil (ground arith)))

-- With 32 bytes or more between `freemem` and the hole in memory, `kmeminit` makes a valid heap
-- of the block below the hole, from the first paragraph behind `freemem`, and the one above it.
pub kmeminit-IsHeap :
    (k : Kernel)
    → k.freemem + 2 * paragraph_size ≤ hole_start
    → Returns
        (λ _ k'.
          IsHeap k'.word k'.mem_slot (low_block k'.mem_slot ∷ high_block ∷ [])
          × (k.freemem < k'.mem_slot)
          × (k'.mem_slot ≤ k.freemem + paragraph_size)
          × (k'.mem_slot % paragraph_size ≡ 0))
        (kmeminit k)
unfolding kmeminit
kmeminit-IsHeap k room =
    let slot = align (k.freemem + paragraph_size) in
    done-Returns (kmeminit_run k slot room refl) (
      record {
        list = init_words-FreeList k slot (omega arith) (omega arith);
        laid = (omega arith, (omega arith, omega arith));
      },
      omega arith,
      omega arith,
      omega arith,
    )
