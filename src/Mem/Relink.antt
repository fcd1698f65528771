-- ===== src/Mem/Relink.antt =====
-- The free list of c/mem.c where one block has been cut: its remainder takes its place.
use bkernel.Base.{
  ℕ, ◌+◌, ◌-◌, ◌≤◌, ◌<◌, ◌≡◌, ◌≢◌, refl, sym, subst, ◌∙◌, List, [], ◌∷◌, ◌++◌, arith, ◌⊎◌, inl, inr,
}
use bkernel.Kernel.{null}
use bkernel.Mem.Alloc.{header_size, size_field, next_field, prev_field, sanity_field, sanity_check}
use bkernel.Mem.Blocks.{Block, end_of, FreeList, nil, cons, Laid, FreeList-same}

-- The address is in no header at `slot`.
abbrev pub OffHeader : ℕ → ℕ → Type 0
OffHeader slot a = (a < slot) ⊎ (slot + header_size ≤ a)

-- The memory `w'` has the block at `slot` cut off at `amnt`, between the blocks `prev` and `next`.
pub record Cut (w w' : ℕ → ℕ) (slot size amnt prev next : ℕ) : Type 0 where
  pub rest_size : w' (slot + amnt + size_field) ≡ size - amnt
  pub rest_prev : w' (slot + amnt + prev_field) ≡ prev
  pub rest_next : w' (slot + amnt + next_field) ≡ next
  pub before : prev ≢ null → w' (prev + next_field) ≡ slot + amnt
  pub behind : next ≢ null → w' (next + prev_field) ≡ slot + amnt
  pub own_size : w' (slot + size_field) ≡ amnt - header_size
  pub own_sanity : w' (slot + sanity_field) ≡ sanity_check
  pub own_prev : w' (slot + prev_field) ≡ null
  pub own_next : w' (slot + next_field) ≡ null
  pub same :
      (a : ℕ)
      → OffHeader slot a
      → OffHeader (slot + amnt) a
      → a ≢ prev + next_field
      → a ≢ next + prev_field
      → w' a ≡ w a

-- What is left of a block.
abbrev pub remainder : Block → ℕ → Block
remainder b amnt = record { base = b.base + amnt; size = b.size - amnt }

-- The last block of `pre`, or `prev`.
unfoldable pub last_of : ℕ → List Block → ℕ
last_of prev [] = prev
last_of prev (b ∷ bs) = last_of b.base bs

-- Where the list begins once the block behind `pre` has been cut.
unfoldable pub start_of : ℕ → List Block → ℕ → ℕ
start_of tmp [] p = tmp
start_of tmp (b ∷ bs) p = p

module _ (w w' : ℕ → ℕ) (b : Block) (amnt : ℕ) (header : header_size ≤ amnt)
    (room : amnt ≤ b.size) where
  -- The blocks behind.
  Cut-behind :
      (prev : ℕ) (post : List Block)
      → prev < b.base
      → Cut w w' b.base b.size amnt prev (w (b.base + next_field))
      → Laid (end_of b) post
      → FreeList w b.base (w (b.base + next_field)) post
      → FreeList w' (b.base + amnt) (w (b.base + next_field)) post
  Cut-behind prev [] lt c l (nil e) = nil e
  Cut-behind prev (d ∷ ds) lt c l (cons e s q f) =
      cons e (c.same _ (inr (omega arith)) (inr (omega arith)) (omega arith) (omega arith) ∙ s)
        (subst (λ n. w' (n + prev_field) ≡ b.base + amnt) e (c.behind (omega arith)))
        (subst (λ q. FreeList w' d.base q ds)
          (sym (
            c.same (d.base + next_field) (inr (omega arith)) (inr (omega arith)) (omega arith)
              (omega arith)))
          (FreeList-same w w' (end_of d) ds
            (λ a le. c.same a (inr (omega arith)) (inr (omega arith)) (omega arith) (omega arith))
            l.1 f))

-- Where the block and its neighbours lie.
pub Laid-at :
    (low : ℕ) (pre : List Block) (b : Block) (post : List Block)
    → Laid low (pre ++ (b ∷ post))
    → low ≤ b.base
Laid-at low [] b post h = h.0
Laid-at low (d ∷ ds) b post h = omega (arith, Laid-at (end_of d) ds b post h.1)

pub Laid-behind :
    (low : ℕ) (pre : List Block) (b : Block) (post : List Block)
    → Laid low (pre ++ (b ∷ post))
    → Laid (end_of b) post
Laid-behind low [] b post h = h.1
Laid-behind low (d ∷ ds) b post h = Laid-behind (end_of d) ds b post h.1

pub last_of_bounds :
    (low prev : ℕ) (pre : List Block) (b : Block) (post : List Block)
    → prev + header_size ≤ low
    → Laid low (pre ++ (b ∷ post))
    → (last_of prev pre + header_size ≤ b.base)
      × ((last_of prev pre ≡ prev) ⊎ (low ≤ last_of prev pre))
unfolding last_of
last_of_bounds low prev [] b post le h = (omega arith, inl refl)
last_of_bounds low prev (d ∷ ds) b post le h =
    let rest = last_of_bounds (end_of d) d.base ds b post (omega arith) h.1 in
    (rest.0, elim rest.1 [ inl e ↦ inr (omega (arith, e)) | inr l ↦ inr (omega (arith, l)) ])

pub next_above :
    (w : ℕ → ℕ) (prev p low : ℕ) (post : List Block)
    → Laid low post
    → FreeList w prev p post
    → (p ≡ null) ⊎ (low ≤ p)
next_above w prev p low [] h (nil z) = inl z
next_above w prev p low (d ∷ ds) h (cons e s v f) = inr (omega (arith, h.0))

module _ (w w' : ℕ → ℕ) (b : Block) (amnt : ℕ) (header : header_size ≤ amnt) (room : amnt ≤ b.size)
    (post : List Block) where
  pub next_of_block :
      (pre : List Block) (q p low : ℕ)
      → Laid low (pre ++ (b ∷ post))
      → FreeList w q p (pre ++ (b ∷ post))
      → FreeList w b.base (w (b.base + next_field)) post
  next_of_block [] q p low h (cons e s v f) = f
  next_of_block (d ∷ ds) q p low h (cons e s v f) =
      next_of_block ds d.base (w (d.base + next_field)) (end_of d) h.1 f

  start_next :
      (d : Block) (ds : List Block) (prev low : ℕ)
      → prev ≡ last_of d.base ds
      → low ≤ d.base
      → Laid (end_of d) (ds ++ (b ∷ post))
      → FreeList w d.base (w (d.base + next_field)) (ds ++ (b ∷ post))
      → header_size ≤ low
      → Cut w w' b.base b.size amnt prev (w (b.base + next_field))
      → w' (d.base + next_field) ≡ start_of (b.base + amnt) ds (w (d.base + next_field))
  unfolding start_of last_of
  start_next d [] prev low v lo h f z c =
      subst (λ a. w' (a + next_field) ≡ b.base + amnt) v (c.before (omega (arith, v)))
  start_next d (e ∷ es) prev low v lo h f z c =
      let rest = last_of_bounds (end_of e) e.base es b post (omega arith) h.1 in
      let at = Laid-at (end_of e) es b post h.1 in
      let next =
        next_above w b.base (w (b.base + next_field)) (end_of b) post
          (Laid-behind (end_of d) (e ∷ es) b post h)
          (next_of_block (e ∷ es) d.base (w (d.base + next_field)) (end_of d) h f) in
      c.same (d.base + next_field) (inl (omega (arith, at))) (inl (omega (arith, at)))
        (omega (arith, v, rest.0, lo))
        (elim next [ inl e ↦ omega (arith, at) | inr l ↦ omega (arith, at) ])

  -- Cutting the block behind `pre` puts its remainder in its place.
  pub Cut-FreeList :
      (pre : List Block) (q p low prev : ℕ)
      → prev ≡ last_of q pre
      → q + header_size ≤ low
      → Laid low (pre ++ (b ∷ post))
      → FreeList w q p (pre ++ (b ∷ post))
      → Cut w w' b.base b.size amnt prev (w (b.base + next_field))
      → FreeList w' q (start_of (b.base + amnt) pre p) (pre ++ (remainder b amnt ∷ post))
  unfolding last_of start_of
  Cut-FreeList [] q p low prev v le h (cons e s u f) c = cons refl c.rest_size (c.rest_prev ∙ v) (
      subst (λ n. FreeList w' (b.base + amnt) n post) (sym c.rest_next)
        (Cut-behind w w' b amnt header room prev post (omega (arith, v)) c h.1 f))
  Cut-FreeList (d ∷ ds) q p low prev v le h (cons e s u f) c =
      let at = Laid-at (end_of d) ds b post h.1 in
      let last = last_of_bounds (end_of d) d.base ds b post (omega arith) h.1 in
      let next =
        next_above w b.base (w (b.base + next_field)) (end_of b) post
          (Laid-behind (end_of d) ds b post h.1)
          (next_of_block ds d.base (w (d.base + next_field)) (end_of d) h.1 f) in
      let same_low : (a : ℕ) → low ≤ a → a < end_of d → a ≢ prev + next_field → w' a ≡ w a =
        λ a lo lt ne.
          c.same a (inl (omega (arith, at))) (inl (omega (arith, at))) ne
            (elim next [ inl e ↦ omega (arith, at) | inr l ↦ omega (arith, at) ]) in
      cons e
        (same_low (d.base + size_field) (omega (arith, h.0)) (omega arith) (omega (arith, v, last))
          ∙ s)
        (same_low (d.base + prev_field) (omega (arith, h.0)) (omega arith) (omega (arith, v, last))
          ∙ u)
        (subst (λ n. FreeList w' d.base n (ds ++ (remainder b amnt ∷ post)))
          (sym (start_next d ds prev low v h.0 h.1 f (omega arith) c))
          (Cut-FreeList ds d.base (w (d.base + next_field)) (end_of d) prev v (omega arith) h.1 f
            c))
