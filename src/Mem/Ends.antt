-- ===== src/Mem/Ends.antt =====
-- The links back of the free list of c/mem.c, as far as `kfree` looks at them.
use bkernel.Base.{
  ℕ, ◌+◌, ◌≤◌, ◌≡◌, ◌≢◌, refl, sym, ◌∙◌, List, [], ◌∷◌, ◌++◌, arith, All, inl, inr, ◌⊎◌, ◌==◌,
  Bool-cases,
}
use bkernel.Kernel.{null}
use bkernel.Mem.Alloc.{header_size, prev_field}
use bkernel.Mem.Blocks.{Block, end_of, Laid, front_of}
use bkernel.Mem.Relink.{last_of, last_of_bounds, Laid-at, Laid-behind}
use bkernel.Mem.Joined.{joined, coalesced}
use bkernel.Mem.Join.{IsOff}
use bkernel.Mem.Insert.{Ends, Linked, Place, Place-All, Linked_block, Linked_prev}
use bkernel.Mem.Coalesce.{IsOff-below}

module _ (P : ℕ → Type 0) where
  All-joined :
      (b : Block) (cs : List Block)
      → P b.base
      → All (λ c. P c.base) cs
      → All (λ c. P c.base) (joined b cs)
  unfolding joined
  All-joined b [] p a = (p, tt)
  All-joined b (c ∷ cs) p a = elim (Bool-cases (end_of b == c.base)) [
    | inl t ↦ rw t (p, a.1)
    | inr f ↦ rw f (p, a)
  ]

  All-coalesced : (bs : List Block) → All (λ c. P c.base) bs → All (λ c. P c.base) (coalesced bs)
  unfolding coalesced
  All-coalesced [] a = tt
  All-coalesced (b ∷ bs) a = All-joined b (coalesced bs) a.0 (All-coalesced bs a.1)

Ends-joined : (w : ℕ → ℕ) (b : Block) (cs : List Block) → Ends w (b ∷ cs) → Ends w (joined b cs)
unfolding joined
Ends-joined w b [] e = e
Ends-joined w b (c ∷ cs) e = elim (Bool-cases (end_of b == c.base)) [
  | inl t ↦ rw t (e.0, e.1.1)
  | inr f ↦ rw f e
]

pub Ends-coalesced : (w : ℕ → ℕ) (bs : List Block) → Ends w bs → Ends w (coalesced bs)
unfolding coalesced
Ends-coalesced w [] e = tt
Ends-coalesced w (b ∷ bs) e =
    Ends-joined w b (coalesced bs) (e.0, All-coalesced (λ p. w (p + prev_field) ≢ null) bs e.1)

-- Joining writes no link back.
prev_same_later :
    (w w' : ℕ → ℕ) (low : ℕ) (bs : List Block)
    → Laid low bs
    → ((a : ℕ) → low ≤ a → IsOff a bs → w' a ≡ w a)
    → All (λ c. w' (c.base + prev_field) ≡ w (c.base + prev_field)) bs
prev_same_later w w' low [] h same = tt
prev_same_later w w' low (b ∷ bs) h same = (
  same (b.base + prev_field) (omega (arith, h.0))
      ((omega arith, omega arith), IsOff-below _ (end_of b) bs (omega arith) h.1),
  prev_same_later w w' (end_of b) bs h.1
      (λ a le o. same a (omega (arith, h.0)) ((omega (arith, le), omega (arith, le)), o)),
)

All-prevs :
    (w w' : ℕ → ℕ) (bs : List Block)
    → All (λ c. w' (c.base + prev_field) ≡ w (c.base + prev_field)) bs
    → All (λ c. w (c.base + prev_field) ≢ null) bs
    → All (λ c. w' (c.base + prev_field) ≢ null) bs
All-prevs w w' [] s a = tt
All-prevs w w' (b ∷ bs) s a = ((λ e. a.0 (sym s.0 ∙ e)), All-prevs w w' bs s.1 a.1)

pub Ends-same :
    (w w' : ℕ → ℕ) (low : ℕ) (bs : List Block)
    → Laid low bs
    → ((a : ℕ) → IsOff a bs → w' a ≡ w a)
    → Ends w bs
    → Ends w' bs
Ends-same w w' low [] h same e = tt
Ends-same w w' low (b ∷ bs) h same e =
    let s = prev_same_later w w' low (b ∷ bs) h (λ a _ o. same a o) in
    (s.0 ∙ e.0, All-prevs w w' bs s.1 e.1)

-- The block put in has one in front of it unless it is the first.
module _ (al : Block) (w w' : ℕ → ℕ) (last next : ℕ) (z : header_size ≤ al.base)
    (l : Linked al w w' last next) (below : (last ≡ null) ⊎ (last + header_size ≤ al.base))
    (above : (next ≡ null) ⊎ (end_of al ≤ next)) where
  Linked_prevs :
      (bs : List Block)
      → All (Place al last next) bs
      → All (λ c. w (c.base + prev_field) ≢ null) bs
      → All (λ c. w' (c.base + prev_field) ≢ null) bs
  Linked_prevs [] p a = tt
  Linked_prevs (b ∷ bs) p a =
      (Linked_prev al w w' last next z l below above b p.0 a.0, Linked_prevs bs p.1 a.1)

  Linked_middle :
      (pre post : List Block)
      → last ≢ null
      → All (Place al last next) (pre ++ post)
      → All (λ c. w (c.base + prev_field) ≢ null) (pre ++ post)
      → All (λ c. w' (c.base + prev_field) ≢ null) (pre ++ (al ∷ post))
  Linked_middle [] post n p a = ((λ e. n (sym l.own_prev ∙ e)), Linked_prevs post p a)
  Linked_middle (b ∷ bs) post n p a =
      (Linked_prev al w w' last next z l below above b p.0 a.0, Linked_middle bs post n p.1 a.1)

pub front_of_bounds :
    (low : ℕ) (post : List Block) → Laid low post → (front_of post ≡ null) ⊎ (low ≤ front_of post)
unfolding front_of
front_of_bounds low [] h = inl refl
front_of_bounds low (c ∷ cs) h = inr h.0

pub Linked-Ends :
    (al : Block) (w w' : ℕ → ℕ) (low : ℕ) (pre post : List Block)
    → header_size ≤ low
    → Laid low (pre ++ (al ∷ post))
    → Linked al w w' (last_of null pre) (front_of post)
    → Ends w (pre ++ post)
    → Ends w' (pre ++ (al ∷ post))
unfolding last_of front_of
Linked-Ends al w w' low [] [] z h l e = (l.own_prev, tt)
Linked-Ends al w w' low [] (c ∷ cs) z h l e =
    let places = Place-All al low null [] (c ∷ cs) z h in
    let above = front_of_bounds (end_of al) (c ∷ cs) h.1 in
    (
      l.own_prev,
      (
        (λ n. omega (arith, z, h.0, n, l.behind (omega (arith, h.1.0)))),
        Linked_prevs al w w' null c.base (omega (arith, h.0)) l (inl refl) above cs places.1 e.1,
      ),
    )
Linked-Ends al w w' low (b ∷ pre) post z h l e =
    let places = Place-All al low null (b ∷ pre) post z h in
    let last = last_of_bounds (end_of b) b.base pre al post (omega arith) h.1 in
    let above = front_of_bounds (end_of al) post (Laid-behind (end_of b) pre al post h.1) in
    let z' : header_size ≤ al.base = omega (arith, last.0) in
    let some_block : last_of b.base pre ≢ null = elim last.1 [
      | inl y ↦ omega (arith, y, h.0)
      | inr y ↦ omega (arith, y, h.0)
    ] in
    let apart : b.base ≢ front_of post = elim above [
      | inl y ↦ omega (arith, y, h.0)
      | inr y ↦ omega (arith, y, last.0, Laid-at (end_of b) pre al post h.1)
    ] in
    let same =
      Linked_block al w w' (last_of b.base pre) (front_of post) z' l (inr last.0) above b
        places.0 in
    (
      same.2 apart ∙ e.0,
      Linked_middle al w w' (last_of b.base pre) (front_of post) z' l (inr last.0) above pre post
          some_block places.1 e.1,
    )
