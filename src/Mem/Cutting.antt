-- ===== src/Mem/Cutting.antt =====
-- `carve` and the rest of `kmalloc` of c/mem.c on a block between others.
use bkernel.Base.{
  ℕ, ◌+◌, ◌-◌, ◌≤◌, ◌<◌, ◌≡◌, ◌≢◌, some, arith, word_mod, Bool-cases, ◌==◌, if◌then◌else◌, ◌⊎◌, inl,
  inr,
}
use bkernel.Kernel.{update, Kernel, done, null}
use bkernel.Mem.Alloc.{
  header_size, size_field, prev_field, next_field, sanity_field, sanity_check, carve, kmalloc,
  amount, find_block, mem_rounds,
}
use bkernel.Mem.Relink.{Cut}

module _ (w : ℕ → ℕ) (slot amnt : ℕ) where
  -- The header of the remainder.
  rest_words : ℕ → ℕ
  rest_words =
      let w1 = update w (slot + amnt + size_field) (w (slot + size_field) - amnt) in
      let w2 = update w1 (slot + amnt + next_field) (w (slot + next_field)) in
      update w2 (slot + amnt + prev_field) (w (slot + prev_field))

  -- The neighbours.
  before_words : ℕ → ℕ
  before_words =
      if w (slot + prev_field) == null
      then rest_words
      else update rest_words (w (slot + prev_field) + next_field) (slot + amnt)

  linked_words : ℕ → ℕ
  linked_words =
      if w (slot + next_field) == null
      then before_words
      else update before_words (w (slot + next_field) + prev_field) (slot + amnt)

-- The neighbours lie clear of the block that is cut.
pub record Apart (w : ℕ → ℕ) (slot amnt : ℕ) : Type 0 where
  pub some_block : slot ≢ null
  pub header : header_size ≤ amnt
  pub room : amnt ≤ w (slot + size_field)
  pub small : slot + w (slot + size_field) < word_mod
  pub below : (w (slot + prev_field) ≡ null) ⊎ (w (slot + prev_field) + header_size ≤ slot)
  pub above : (w (slot + next_field) ≡ null) ⊎ (slot + amnt + header_size ≤ w (slot + next_field))

carve_run :
    (k : Kernel) (slot amnt : ℕ)
    → Apart k.word slot amnt
    → carve slot amnt k
      ≡ done tt (record k {
        word = linked_words k.word slot amnt;
        mem_slot = if k.word (slot + prev_field) == null then slot + amnt else k.mem_slot;
      })
unfolding carve linked_words before_words rest_words
carve_run k slot amnt a = elim (Bool-cases (k.word (slot + prev_field) == null)) [
  | inl p ↦ elim (Bool-cases (k.word (slot + next_field) == null)) [
    | inl n ↦ ground (arith, a, p, n)
    | inr n ↦ ground (arith, a, p, n)
  ]
  | inr p ↦ elim (Bool-cases (k.word (slot + next_field) == null)) [
    | inl n ↦ ground (arith, a, p, n)
    | inr n ↦ ground (arith, a, p, n)
  ]
]

-- With the header of the block itself.
pub cut_words : (ℕ → ℕ) → ℕ → ℕ → ℕ → ℕ
cut_words w slot amnt =
    let w1 = update (linked_words w slot amnt) (slot + size_field) (amnt - header_size) in
    let w2 = update w1 (slot + sanity_field) sanity_check in
    update (update w2 (slot + next_field) null) (slot + prev_field) null

pub cut_words-Cut :
    (w : ℕ → ℕ) (slot amnt : ℕ)
    → Apart w slot amnt
    → Cut w
        (cut_words w slot amnt)
        slot
        (w (slot + size_field))
        amnt
        (w (slot + prev_field))
        (w (slot + next_field))
unfolding cut_words linked_words before_words rest_words
cut_words-Cut w slot amnt a = record {
  rest_size = ground (arith, a);
  rest_prev = ground (arith, a);
  rest_next = ground (arith, a);
  before = λ n. ground (arith, a, n);
  behind = λ n. ground (arith, a, n);
  own_size = ground (arith, a);
  own_sanity = ground (arith, a);
  own_prev = ground (arith, a);
  own_next = ground (arith, a);
  same = λ b o r p n. ground (arith, a, o, r, p, n);
}

pub kmalloc_cuts :
    (k : Kernel) (size slot : ℕ)
    → 0 < size
    → size < 2147483648
    → find_block mem_rounds k.word (amount size) k.mem_slot ≡ some slot
    → Apart k.word slot (amount size)
    → kmalloc size k
      ≡ done (slot + header_size) (record k {
        word = cut_words k.word slot (amount size);
        mem_slot = if k.word (slot + prev_field) == null then slot + amount size else k.mem_slot;
      })
unfolding kmalloc cut_words
kmalloc_cuts k size slot pos small found a =
    ground (arith, found, carve_run k slot (amount size) a, a)
