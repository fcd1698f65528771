-- ===== src/Mem/Search.antt =====
-- `kmalloc` of c/mem.c looks for the first block that is big enough.
use bkernel.Base.{
  ℕ, zero, suc, ◌+◌, ◌<◌, ◌≡◌, ◌≢◌, refl, ap, ◌∙◌, List, [], ◌∷◌, ◌++◌, length, arith, some,
  Bool-cases, inl, inr, ltb, All, Bool, true, false,
}
use bkernel.Kernel.{null}
use bkernel.Mem.Alloc.{header_size, next_field, find_block}
use bkernel.Mem.Blocks.{Block, end_of, FreeList, nil, cons, Laid, Laid-le}

-- Whether the block with its header is smaller than the amount.
abbrev pub is_small : ℕ → Block → Bool
is_small amnt b = ltb (b.size + header_size) amnt

-- The first that is not, between the others.
pub data Fit (amnt : ℕ) (bs : List Block) : Type 0 where
  none_fits : All (λ b. is_small amnt b ≡ true) bs → Fit amnt bs
  fits :
      (pre : List Block) (b : Block) (post : List Block)
      → bs ≡ pre ++ (b ∷ post)
      → All (λ c. is_small amnt c ≡ true) pre
      → is_small amnt b ≡ false
      → Fit amnt bs

Fit-later :
    (amnt : ℕ) (b : Block) (bs : List Block)
    → is_small amnt b ≡ true
    → Fit amnt bs
    → Fit amnt (b ∷ bs)
Fit-later amnt b bs s (none_fits a) = none_fits (s, a)
Fit-later amnt b bs s (fits pre c post e a f) = fits (b ∷ pre) c post (ap (λ cs. b ∷ cs) e) (s, a) f

pub Fit-cases : (amnt : ℕ) (bs : List Block) → Fit amnt bs
Fit-cases amnt [] = none_fits tt
Fit-cases amnt (b ∷ bs) =
    let rest = Fit-cases amnt bs in
    elim (Bool-cases (is_small amnt b)) [
      | inl small ↦ Fit-later amnt b bs small rest
      | inr big ↦ fits [] b bs refl tt big
    ]

module _ (w : ℕ → ℕ) (amnt : ℕ) where
  find_block-step :
      (n prev p low : ℕ) (b : Block) (bs : List Block)
      → low ≢ null
      → Laid low (b ∷ bs)
      → FreeList w prev p (b ∷ bs)
      → is_small amnt b ≡ true
      → find_block (suc n) w amnt p ≡ find_block n w amnt (w (b.base + next_field))
  unfolding find_block
  find_block-step n prev p low b bs z h (cons e s q f) small =
      let end = Laid-le (end_of b) bs h.1 in rw e (ground arith)

  find_block-here :
      (n prev p low : ℕ) (b : Block) (bs : List Block)
      → low ≢ null
      → Laid low (b ∷ bs)
      → FreeList w prev p (b ∷ bs)
      → is_small amnt b ≡ false
      → find_block (suc n) w amnt p ≡ some b.base
  unfolding find_block
  find_block-here n prev p low b bs z h (cons e s q f) big =
      let end = Laid-le (end_of b) bs h.1 in rw e (ground arith)

  -- With none big enough the loop ends at the end of the list,
  pub find_block-none :
      (n prev p low : ℕ) (bs : List Block)
      → length bs < n
      → low ≢ null
      → Laid low bs
      → FreeList w prev p bs
      → All (λ b. is_small amnt b ≡ true) bs
      → find_block n w amnt p ≡ some null
  unfolding find_block
  find_block-none zero prev p low bs l z h f a = absurd (omega arith)
  find_block-none (suc n) prev p low [] l z h (nil e) a = ground arith
  find_block-none (suc n) prev p low (b ∷ bs) l z h (cons e s q f) a =
      find_block-step n prev p low b bs z h (cons e s q f) a.0
      ∙ find_block-none n b.base (w (b.base + next_field)) (end_of b) bs (omega arith) (omega arith)
          h.1 f a.1

  -- and otherwise at the first that is.
  pub find_block-fits :
      (n prev p low : ℕ) (pre : List Block) (b : Block) (post : List Block)
      → length (pre ++ (b ∷ post)) < n
      → low ≢ null
      → Laid low (pre ++ (b ∷ post))
      → FreeList w prev p (pre ++ (b ∷ post))
      → All (λ c. is_small amnt c ≡ true) pre
      → is_small amnt b ≡ false
      → find_block n w amnt p ≡ some b.base
  find_block-fits zero prev p low pre b post l z h f a e = absurd (omega arith)
  find_block-fits (suc n) prev p low [] b post l z h f a e =
      find_block-here n prev p low b post z h f e
  find_block-fits (suc n) prev p low (c ∷ pre) b post l z h (cons q s v f) a e =
      find_block-step n prev p low c (pre ++ (b ∷ post)) z h (cons q s v f) a.0
      ∙ find_block-fits n c.base (w (c.base + next_field)) (end_of c) pre b post (omega arith)
          (omega arith) h.1 f a.1 e
