-- ===== src/Mem/Insert.antt =====
-- The free list of c/mem.c with a block put in at its place.
use bkernel.Base.{
  ℕ, ◌+◌, ◌≤◌, ◌<◌, ◌≡◌, ◌≢◌, refl, sym, subst, ◌∙◌, List, [], ◌∷◌, ◌++◌, arith, All, inl, inr, ◌⊎◌,
  ◌==◌, Bool-cases, ==→eq, ==→ne,
}
use bkernel.Kernel.{null}
use bkernel.Mem.Alloc.{header_size, size_field, next_field, prev_field}
use bkernel.Mem.Blocks.{Block, end_of, Laid, front_of}
use bkernel.Mem.Relink.{last_of, start_of, last_of_bounds, Laid-at}
use bkernel.Mem.Join.{Chain, nil, cons, Chain-same}

-- The first block has none before it in the list, and every other one has.
abbrev pub Ends : (ℕ → ℕ) → List Block → Type 0
Ends w [] = Unit {0}
Ends w (b ∷ bs) = (w (b.base + prev_field) ≡ null) × All (λ c. w (c.base + prev_field) ≢ null) bs

module _ (al : Block) where
  -- The memory `w'` has the block between `last` and `next`.
  pub record Linked (w w' : ℕ → ℕ) (last next : ℕ) : Type 0 where
    pub own_size : w' (al.base + size_field) ≡ al.size
    pub own_next : w' (al.base + next_field) ≡ next
    pub own_prev : w' (al.base + prev_field) ≡ last
    pub before : last ≢ null → w' (last + next_field) ≡ al.base
    pub behind : next ≢ null → w' (next + prev_field) ≡ al.base
    pub same :
        (a : ℕ)
        → a ≢ al.base + next_field
        → a ≢ al.base + prev_field
        → a ≢ last + next_field
        → a ≢ next + prev_field
        → w' a ≡ w a

  -- Where a block of the list lies.
  pub data Place (last next : ℕ) (c : Block) : Type 0 where
    in_front :
        header_size ≤ c.base
        → end_of c ≤ al.base
        → (c.base ≡ last) ⊎ (end_of c ≤ last)
        → Place last next c
    at_back :
        end_of al ≤ c.base → (c.base ≡ next) ⊎ (next + header_size ≤ c.base) → Place last next c

  Place-post :
      (last low next : ℕ) (post : List Block)
      → end_of al ≤ low
      → next + header_size ≤ low
      → Laid low post
      → All (Place last next) post
  Place-post last low next [] le nl h = tt
  Place-post last low next (c ∷ cs) le nl h = (
    at_back (omega (arith, h.0)) (inr (omega (arith, h.0))),
    Place-post last (end_of c) next cs (omega (arith, h.0)) (omega (arith, h.0)) h.1,
  )

  Place-behind :
      (last low : ℕ) (post : List Block)
      → end_of al ≤ low
      → Laid low post
      → All (Place last (front_of post)) post
  unfolding front_of
  Place-behind last low [] le h = tt
  Place-behind last low (c ∷ cs) le h = (
    at_back (omega (arith, h.0)) (inl refl),
    Place-post last (end_of c) c.base cs (omega (arith, h.0)) (omega arith) h.1,
  )

  pub Place-All :
      (low q : ℕ) (pre post : List Block)
      → header_size ≤ low
      → Laid low (pre ++ (al ∷ post))
      → All (Place (last_of q pre) (front_of post)) (pre ++ post)
  unfolding last_of
  Place-All low q [] post z h = Place-behind q (end_of al) post (omega arith) h.1
  Place-All low q (c ∷ pre) post z h =
      let last = last_of_bounds (end_of c) c.base pre al post (omega arith) h.1 in
      (
        in_front (omega (arith, h.0)) (Laid-at (end_of c) pre al post h.1)
            (elim last.1 [ inl e ↦ inl (sym e) | inr l ↦ inr l ]),
        Place-All (end_of c) c.base pre post (omega (arith, h.0)) h.1,
      )

-- The sizes stay, and the links of all but one.
abbrev pub IsSame : (ℕ → ℕ) → (ℕ → ℕ) → ℕ → Block → Type 0
IsSame w w' last c =
    (w' (c.base + size_field) ≡ w (c.base + size_field))
    × (c.base ≢ last → w' (c.base + next_field) ≡ w (c.base + next_field))

module _ (al : Block) (w w' : ℕ → ℕ) (last next : ℕ) (z : header_size ≤ al.base)
    (l : Linked al w w' last next) (below : (last ≡ null) ⊎ (last + header_size ≤ al.base))
    (above : (next ≡ null) ⊎ (end_of al ≤ next)) where
  pub Linked_block :
      (c : Block)
      → Place al last next c
      → (w' (c.base + size_field) ≡ w (c.base + size_field))
        × (c.base ≢ last → w' (c.base + next_field) ≡ w (c.base + next_field))
        × (c.base ≢ next → w' (c.base + prev_field) ≡ w (c.base + prev_field))
  Linked_block c (in_front p q r) = (
    l.same _ (ground arith) (ground arith) (ground arith) (ground arith),
    (λ ne. l.same _ (ground arith) (ground arith) (ground arith) (ground arith)),
    (λ ne. l.same _ (ground arith) (ground arith) (ground arith) (ground arith)),
  )
  Linked_block c (at_back p q) = (
    l.same _ (ground arith) (ground arith) (ground arith) (ground arith),
    (λ ne. l.same _ (ground arith) (ground arith) (ground arith) (ground arith)),
    (λ ne. l.same _ (ground arith) (ground arith) (ground arith) (ground arith)),
  )

  -- The pointers to a block before are written as one more of them.
  pub Linked_prev :
      (c : Block)
      → Place al last next c
      → w (c.base + prev_field) ≢ null
      → w' (c.base + prev_field) ≢ null
  Linked_prev c p ne =
      let some_block : c.base ≢ null = elim p [
        | in_front y _ _ ↦ omega (arith, y)
        | at_back y _ ↦ omega (arith, y)
      ] in
      elim (Bool-cases (c.base == next)) [
        | inl t ↦
            let e = ==→eq c.base next t in
            let is : w' (next + prev_field) ≡ al.base = l.behind (omega (arith, e, some_block)) in
            subst (λ x. w' (x + prev_field) ≢ null) (sym e) (omega (arith, is))
        | inr f ↦ let is = (Linked_block c p).2 (==→ne c.base next f) in omega (arith, is, ne)
      ]

  pub Linked-IsSame : (bs : List Block) → All (Place al last next) bs → All (IsSame w w' last) bs
  Linked-IsSame [] p = tt
  Linked-IsSame (c ∷ cs) p =
      let same = Linked_block c p.0 in ((same.0, same.1), Linked-IsSame cs p.1)

pub Chain-front_of : (w : ℕ → ℕ) (p : ℕ) (bs : List Block) → Chain w p bs → p ≡ front_of bs
unfolding front_of
Chain-front_of w p [] (nil e) = e
Chain-front_of w p (b ∷ bs) (cons e s f) = e

IsSame-later :
    (w w' : ℕ → ℕ) (last low : ℕ) (bs : List Block)
    → last < low
    → Laid low bs
    → All (IsSame w w' last) bs
    → All
        (λ c.
          (w' (c.base + size_field) ≡ w (c.base + size_field))
          × (w' (c.base + next_field) ≡ w (c.base + next_field)))
        bs
IsSame-later w w' last low [] lt h a = tt
IsSame-later w w' last low (c ∷ cs) lt h a = (
  (a.0.0, a.0.1 (omega (arith, h.0))),
  IsSame-later w w' last (end_of c) cs (omega (arith, h.0)) h.1 a.1,
)

next_front :
    (al b : Block) (w w' : ℕ → ℕ) (last low : ℕ) (pre post : List Block)
    → last ≡ last_of b.base pre
    → b.base ≢ null
    → Laid (end_of b) (pre ++ (al ∷ post))
    → IsSame w w' last b
    → (last ≢ null → w' (last + next_field) ≡ al.base)
    → start_of al.base pre (w (b.base + next_field)) ≡ w' (b.base + next_field)
unfolding start_of last_of
next_front al b w w' last low [] post e z h a bf =
    subst (λ x. al.base ≡ w' (x + next_field)) e (sym (bf (omega (arith, e))))
next_front al b w w' last low (c ∷ pre) post e z h a bf =
    let at = last_of_bounds (end_of c) c.base pre al post (omega arith) h.1 in
    sym (a.1 (elim at.1 [ inl y ↦ omega (arith, e, y, h.0) | inr y ↦ omega (arith, e, y, h.0) ]))

-- Each block keeps its size, and all but the last one in front their links.
pub Linked-Chain :
    (al : Block) (w w' : ℕ → ℕ) (last p q low : ℕ) (pre post : List Block)
    → last ≡ last_of q pre
    → q + header_size ≤ low
    → Laid low (pre ++ (al ∷ post))
    → All (IsSame w w' last) (pre ++ post)
    → w' (al.base + size_field) ≡ al.size
    → w' (al.base + next_field) ≡ front_of post
    → (last ≢ null → w' (last + next_field) ≡ al.base)
    → Chain w p (pre ++ post)
    → Chain w' (start_of al.base pre p) (pre ++ (al ∷ post))
unfolding start_of last_of
Linked-Chain al w w' last p q low [] post e le h a s n bf f = cons refl s (
    subst (λ r. Chain w' r post) (Chain-front_of w p post f ∙ sym n)
      (Chain-same w w' post (IsSame-later w w' last (end_of al) post (omega (arith, e, h.0)) h.1 a)
        f))
Linked-Chain al w w' last p q low (b ∷ pre) post e le h a s n bf (cons t u f) = cons t (a.0.0 ∙ u) (
    subst (λ r. Chain w' r (pre ++ (al ∷ post)))
      (next_front al b w w' last low pre post e (omega (arith, h.0)) h.1 a.0 bf)
      (Linked-Chain al w w' last (w (b.base + next_field)) b.base (end_of b) pre post e
        (omega arith) h.1 a.1 s n bf f))
