-- ===== src/Mem/Free.antt =====
-- `kfree` of c/mem.c.
use bkernel.Base.{
  ℕ, zero, suc, ◌+◌, ◌*◌, Bool, not, ◌&&◌, ◌||◌, ◌==◌, if◌then◌else◌, ltb, leb, lt_signed, add32,
  sub32,
}
use bkernel.Kernel.{null, spin, Cmd, ◌>>=◌, ◌>>◌, get, put, skip, when, load_word, store_word}
use bkernel.Mem.Alloc.{
  paragraph_size, sanity_check, header_size, hole_start, hole_end, max_addr, align, size_field,
  prev_field, next_field, sanity_field, mem_rounds,
}

-- The test on the address that is freed.
unfoldable pub invalid_address : ℕ → ℕ → Bool
invalid_address freemem addr =
    lt_signed addr (align (add32 freemem (paragraph_size * 2)))
    || lt_signed max_addr addr
    || (lt_signed hole_start addr && ltb addr (hole_end + header_size))

-- Where the block at `slot` with its header ends.
abbrev pub block_end : ℕ → ℕ → ℕ
block_end slot size = add32 (slot + header_size) size

-- The first loop of `kfree`, over the free blocks from `tmp` on. `diff` is the smallest gap so far.
unfoldable pub reattach : ℕ → ℕ → ℕ → ℕ → ℕ → Cmd (Unit {0})
reattach zero addr alloc diff tmp = λ k. spin
reattach (suc n) addr alloc diff tmp = if tmp == null then skip else do
  size ← load_word alloc size_field
  prev ← load_word tmp prev_field
  if leb (add32 addr size) tmp && prev == null
      then (do
        store_word alloc next_field tmp
        store_word tmp prev_field alloc
        put (λ k. record k { mem_slot = alloc }))
      else do
        tmp_size ← load_word tmp size_field
        let gap = sub32 (sub32 addr header_size) (block_end tmp tmp_size)
        let behind =
            leb (add32 (add32 tmp tmp_size) (header_size * 2)) addr
            && leb gap diff
            && leb (block_end tmp tmp_size) (sub32 addr header_size)
        when behind (store_word alloc prev_field tmp)
        next ← load_word tmp next_field
        reattach n addr alloc (if behind then gap else diff) next

-- The loops that join neighbours: the inner one compares `slot` with every later block.
unfoldable pub join_later : ℕ → ℕ → ℕ → Cmd (Unit {0})
join_later zero slot tmp = λ k. spin
join_later (suc n) slot tmp = if tmp == null then skip else do
  size ← load_word slot size_field
  when (block_end slot size == tmp) (do
    tmp_size ← load_word tmp size_field
    store_word slot size_field (add32 (add32 size tmp_size) header_size)
    next ← load_word tmp next_field
    store_word slot next_field next)
  next ← load_word tmp next_field
  join_later n slot next

unfoldable pub coalesce : ℕ → ℕ → Cmd (Unit {0})
coalesce zero slot = λ k. spin
coalesce (suc n) slot = if slot == null then skip else do
  tmp ← load_word slot next_field
  join_later mem_rounds slot tmp
  next ← load_word slot next_field
  coalesce n next

-- The neighbours of the block are linked to it.
unfoldable pub link_in : ℕ → Cmd (Unit {0})
link_in alloc = do
  prev ← load_word alloc prev_field
  when (not (prev == null)) (do
    next ← load_word prev next_field
    store_word alloc next_field next
    store_word prev next_field alloc)
  next ← load_word alloc next_field
  when (not (next == null)) (store_word next prev_field alloc)

-- `indeterminate` is what the variable `diff` holds before it is assigned to.
unfoldable pub kfree : ℕ → ℕ → Cmd (Unit {0})
unfolding invalid_address
kfree indeterminate addr = if addr == null then skip else do
  freemem ← get (λ k. k.freemem)
  first ← get (λ k. k.mem_slot)
  if invalid_address freemem addr then skip else do
    let alloc = sub32 addr header_size
    sanity ← load_word alloc sanity_field
    if not (sanity == sanity_check) then skip else do
      first_size ← load_word first size_field
      let diff =
          if leb (block_end first first_size) alloc
          then sub32 alloc (block_end first first_size)
          else indeterminate
      reattach mem_rounds addr alloc diff first
      link_in alloc
      first ← get (λ k. k.mem_slot)
      coalesce mem_rounds first
