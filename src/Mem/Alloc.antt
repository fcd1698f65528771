-- ===== src/Mem/Alloc.antt =====
-- `kmeminit` and `kmalloc` of c/mem.c. A header of 16 bytes lies at the address of its block: `size`,
-- `prev`, `next` and `sanityCheck`, a word each; the data follow. The free blocks are linked from
-- `memSlot`.
use bkernel.Base.{
  ◌≡◌, refl, ℕ, zero, suc, ◌+◌, ◌-◌, ◌*◌, ◌/◌, ◌%◌, Option, none, some, not, ◌||◌, ◌==◌,
  if◌then◌else◌, ltb, is_neg, add32, sub32,
}
use bkernel.Kernel.{null, Cmd, ◌>>=◌, ◌>>◌, pure, get, ended, put, when, load_word, store_word}

abbrev pub paragraph_size : ℕ
paragraph_size = 16

abbrev pub sanity_check : ℕ
sanity_check = 0xff

abbrev pub header_size : ℕ
header_size = 16

abbrev pub hole_start : ℕ
hole_start = 640 * 1024

abbrev pub hole_end : ℕ
hole_end = (1024 + 600) * 1024

abbrev pub max_addr : ℕ
max_addr = 0x400000

-- `x & PARAGRAPH_MASK`
abbrev pub align : ℕ → ℕ
align x = x - x % paragraph_size

-- The fields of a header, by their offsets.
abbrev pub size_field : ℕ
size_field = 0

abbrev pub prev_field : ℕ
prev_field = 4

abbrev pub next_field : ℕ
next_field = 8

abbrev pub sanity_field : ℕ
sanity_field = 12

-- As many rounds as there are paragraphs below `max_addr`.
unfoldable pub mem_rounds : ℕ
mem_rounds = 0x40001

pub mem_rounds_lem : mem_rounds ≡ suc 0x40000
unfolding mem_rounds
mem_rounds_lem = refl

unfoldable pub kmeminit : Cmd (Unit {0})
kmeminit = do
  freemem ← get (λ k. k.freemem)
  let slot = align (add32 freemem paragraph_size)
  put (λ k. record k { mem_slot = slot })
  store_word slot size_field (sub32 hole_start (slot + header_size))
  store_word slot sanity_field sanity_check
  store_word slot prev_field null
  store_word slot next_field hole_end
  store_word hole_end size_field (max_addr - hole_end - paragraph_size)
  store_word hole_end sanity_field sanity_check
  store_word hole_end prev_field slot
  store_word hole_end next_field null

-- `amnt`: the size rounded up to paragraphs, and the header.
unfoldable pub amount : ℕ → ℕ
amount size =
    (size / paragraph_size + (if size % paragraph_size == 0 then 0 else 1)) * paragraph_size
    + header_size

-- The first block from `slot` on whose size and header are no less than `amnt`.
unfoldable pub find_block : ℕ → (ℕ → ℕ) → ℕ → ℕ → Option ℕ
find_block zero w amnt slot = none
find_block (suc n) w amnt slot =
    let rest = find_block n w amnt (w (slot + next_field)) in
    if slot == null
    then some null
    else if ltb (add32 (w (slot + size_field)) header_size) amnt
    then rest
    else some slot

-- The remainder of the block takes its place in the list.
unfoldable pub carve : ℕ → ℕ → Cmd (Unit {0})
carve slot amnt = do
  let tmp = add32 slot amnt
  size ← load_word slot size_field
  store_word tmp size_field (sub32 size amnt)
  next ← load_word slot next_field
  store_word tmp next_field next
  prev ← load_word slot prev_field
  store_word tmp prev_field prev
  prev ← load_word tmp prev_field
  when (not (prev == null)) (store_word prev next_field tmp)
  next ← load_word tmp next_field
  when (not (next == null)) (store_word next prev_field tmp)
  prev ← load_word tmp prev_field
  when (prev == null) (put (λ k. record k { mem_slot = tmp }))

unfoldable pub kmalloc : ℕ → Cmd ℕ
unfolding carve amount
kmalloc size = if is_neg size || size == 0 then pure null else do
  let amnt = amount size
  w ← get (λ k. k.word)
  first ← get (λ k. k.mem_slot)
  slot ← ended (find_block mem_rounds w amnt first)
  if slot == null then pure null else do
    carve slot amnt
    store_word slot size_field (amnt - header_size)
    store_word slot sanity_field sanity_check
    store_word slot next_field null
    store_word slot prev_field null
    pure (add32 slot header_size)
