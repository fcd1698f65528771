-- ===== src/Mem/Reattach.antt =====
-- The first loop of `kfree` in c/mem.c finds the free block in front of the one that is freed.
use bkernel.Base.{
  ℕ, zero, suc, ◌+◌, ◌-◌, ◌≤◌, ◌<◌, ◌≡◌, ◌≢◌, refl, sym, subst, ap, ◌∙◌, List, [], ◌∷◌, ◌++◌,
  length, arith, ne→==, All, inl, inr, ◌⊎◌,
}
use bkernel.Kernel.{Kernel, null, Returns, done-Returns, weaken, update, done}
use bkernel.Mem.Alloc.{header_size, size_field, next_field, prev_field, max_addr}
use bkernel.Mem.Free.{reattach}
use bkernel.Mem.Blocks.{Block, end_of, Laid, Laid-le}
use bkernel.Mem.Relink.{last_of, Laid-at, Laid-behind}
use bkernel.Mem.Join.{Chain, nil, cons, OnlyWords, OnlyWords-trans}

module _ (al : Block) where
  abbrev addr : ℕ
  addr = al.base + header_size

  linked_back : Kernel → ℕ → Kernel
  linked_back k q = record k { word = update k.word (al.base + prev_field) q }

  -- One round at a block in front,
  reattach-behind :
      (n diff : ℕ) (k : Kernel) (b : Block)
      → b.base ≢ null
      → end_of b ≤ al.base
      → end_of al ≤ max_addr
      → al.base - end_of b ≤ diff
      → k.word (b.base + size_field) ≡ b.size
      → k.word (al.base + size_field) ≡ al.size
      → reattach (suc n) addr al.base diff b.base k
        ≡ reattach n addr al.base
            (al.base - end_of b)
            (k.word (b.base + next_field))
            (linked_back k b.base)
  unfolding reattach linked_back
  reattach-behind n diff k b z lt top near s t = ground arith

  -- and at one behind.
  reattach-before :
      (n diff : ℕ) (k : Kernel) (b : Block)
      → end_of al ≤ b.base
      → end_of b ≤ max_addr
      → al.base ≢ null
      → k.word (b.base + size_field) ≡ b.size
      → k.word (al.base + size_field) ≡ al.size
      → k.word (b.base + prev_field) ≢ null
      → reattach (suc n) addr al.base diff b.base k
        ≡ reattach n addr al.base diff (k.word (b.base + next_field)) k
  unfolding reattach
  reattach-before n diff k b gt top z s t p = ground arith

  pub reattach-first :
      (n diff : ℕ) (k : Kernel) (b : Block)
      → end_of al ≤ b.base
      → end_of b ≤ max_addr
      → al.base ≢ null
      → k.word (b.base + size_field) ≡ b.size
      → k.word (al.base + size_field) ≡ al.size
      → k.word (b.base + prev_field) ≡ null
      → reattach (suc n) addr al.base diff b.base k
        ≡ done tt (record k {
          word = update (update k.word (al.base + next_field) b.base) (b.base + prev_field) al.base;
          mem_slot = al.base;
        })
  unfolding reattach
  reattach-first n diff k b gt top z s t p = ground arith

  -- The block and another have no address in common.
  abbrev pub IsClear : Block → Type 0
  IsClear c = (end_of c ≤ al.base) ⊎ (end_of al ≤ c.base)

  Laid-IsClear_behind :
      (low : ℕ) (post : List Block) → end_of al ≤ low → Laid low post → All IsClear post
  Laid-IsClear_behind low [] le h = tt
  Laid-IsClear_behind low (c ∷ cs) le h =
      (inr (omega (arith, h.0)), Laid-IsClear_behind (end_of c) cs (omega (arith, h.0)) h.1)

  pub Laid-IsClear :
      (low : ℕ) (pre post : List Block) → Laid low (pre ++ (al ∷ post)) → All IsClear (pre ++ post)
  Laid-IsClear low [] post h = Laid-IsClear_behind (end_of al) post (omega arith) h.1
  Laid-IsClear low (c ∷ pre) post h =
      (inl (Laid-at (end_of c) pre al post h.1), Laid-IsClear (end_of c) pre post h.1)

  -- Writing the header of the block leaves the links of the others.
  linked_back-Chain :
      (k : Kernel) (p q : ℕ) (bs : List Block)
      → All IsClear bs
      → Chain k.word p bs
      → Chain (linked_back k q).word p bs
  unfolding linked_back
  linked_back-Chain k p q [] a (nil z) = nil z
  linked_back-Chain k p q (c ∷ cs) a (cons e s f) =
      cons e (elim a.0 [ inl l ↦ ground (arith, s) | inr l ↦ ground (arith, s) ])
        (subst (λ r. Chain (linked_back k q).word r cs)
          (elim a.0 [ inl l ↦ ground arith | inr l ↦ ground arith ])
          (linked_back-Chain k (k.word (c.base + next_field)) q cs a.1 f))

  linked_back-words :
      (k : Kernel) (q : ℕ)
      → k.word (al.base + size_field) ≡ al.size
      → ((linked_back k q).word (al.base + size_field) ≡ al.size)
        × ((linked_back k q).word (al.base + prev_field) ≡ q)
  unfolding linked_back
  linked_back-words k q e = (ground (arith, e), ground arith)

  linked_back-prevs :
      (k : Kernel) (q low : ℕ) (post : List Block)
      → al.base + header_size ≤ low
      → Laid low post
      → All (λ c. k.word (c.base + prev_field) ≢ null) post
      → All (λ c. (linked_back k q).word (c.base + prev_field) ≢ null) post
  unfolding linked_back
  linked_back-prevs k q low [] le h a = tt
  linked_back-prevs k q low (c ∷ cs) le h a = (
    rw (ne→== (c.base + prev_field) (al.base + prev_field) (omega (arith, h.0))) a.0,
    linked_back-prevs k q (end_of c) cs (omega (arith, h.0)) h.1 a.1,
  )

  -- The smallest gap so far is no smaller than the next one.
  abbrev pub IsNear : ℕ → List Block → Type 0
  IsNear diff [] = Unit {0}
  IsNear diff (b ∷ bs) = al.base - end_of b ≤ diff

  nearer :
      (b : Block) (pre post : List Block)
      → Laid (end_of b) (pre ++ post)
      → IsNear (al.base - end_of b) pre
  nearer b [] post h = tt
  nearer b (c ∷ pre) post h = omega (arith, h.0)

  -- What the loop leaves.
  abbrev pub Backed : Kernel → ℕ → Kernel → Type 0
  Backed k q k' =
      (k'.word (al.base + prev_field) ≡ q)
      × ((a : ℕ) → a ≢ al.base + prev_field → k'.word a ≡ k.word a)
      × OnlyWords k k'

  linked_back-Backed : (k k' : Kernel) (q r : ℕ) → Backed (linked_back k q) r k' → Backed k r k'
  unfolding linked_back
  linked_back-Backed k k' q r b = (
    b.0,
    (λ a ne. b.1 a ne ∙ rw (ne→== a (al.base + prev_field) ne) refl),
    OnlyWords-trans k (linked_back k q) k' refl b.2,
  )

  reattach-post :
      (n diff p low : ℕ) (k : Kernel) (post : List Block)
      → length post < n
      → al.base ≢ null
      → end_of al ≤ low
      → Laid low post
      → Chain k.word p post
      → All (λ c. k.word (c.base + prev_field) ≢ null) post
      → k.word (al.base + size_field) ≡ al.size
      → reattach n addr al.base diff p k ≡ done tt k
  unfolding reattach
  reattach-post zero diff p low k post l z le h f a t = absurd (omega arith)
  reattach-post (suc n) diff p low k [] l z le h (nil e) a t = rw e refl
  reattach-post (suc n) diff p low k (c ∷ cs) l z le h (cons e s f) a t =
      ap (λ q. reattach (suc n) addr al.base diff q k) e
      ∙ reattach-before n diff k c (omega (arith, h.0)) (Laid-le (end_of c) cs h.1) z s t a.0
      ∙ reattach-post n diff (k.word (c.base + next_field)) (end_of c) k cs (omega arith) z
          (omega (arith, h.0)) h.1 f a.1 t

  pub reattach-Backed :
      (n diff p q low : ℕ) (k : Kernel) (pre post : List Block)
      → length (pre ++ post) < n
      → low ≢ null
      → Laid low (pre ++ (al ∷ post))
      → Chain k.word p (pre ++ post)
      → All (λ c. k.word (c.base + prev_field) ≢ null) post
      → IsNear diff pre
      → k.word (al.base + size_field) ≡ al.size
      → k.word (al.base + prev_field) ≡ q
      → Returns (λ _ k'. Backed k (last_of q pre) k') (reattach n addr al.base diff p k)
  unfolding last_of
  reattach-Backed zero diff p q low k pre post l z h f a near t u = absurd (omega arith)
  reattach-Backed (suc n) diff p q low k [] post l z h f a near t u =
      done-Returns
        (reattach-post (suc n) diff p (end_of al) k post l (omega (arith, h.0)) (omega arith) h.1 f
          a t)
        (u, (λ b ne. refl), refl)
  reattach-Backed (suc n) diff p q low k (b ∷ pre) post l z h (cons e s f) a near t u =
      let at = Laid-at (end_of b) pre al post h.1 in
      let top = Laid-le (end_of al) post (Laid-behind (end_of b) pre al post h.1) in
      let clear = Laid-IsClear (end_of b) pre post h.1 in
      subst
        (λ r.
          Returns (λ _ k'. Backed k (last_of b.base pre) k')
            (reattach (suc n) addr al.base diff r k))
        (sym e)
        (subst (Returns (λ _ k'. Backed k (last_of b.base pre) k'))
          (sym (reattach-behind n diff k b (omega (arith, h.0)) at top near s t))
          (weaken
            (reattach-Backed n (al.base - end_of b) (k.word (b.base + next_field)) b.base (end_of b)
              (linked_back k b.base) pre post (omega arith) (omega arith) h.1
              (linked_back-Chain k _ b.base (pre ++ post) clear f)
              (linked_back-prevs k b.base (end_of al) post (omega arith)
                (Laid-behind (end_of b) pre al post h.1) a)
              (nearer b pre (al ∷ post) h.1) (linked_back-words k b.base t).0
              (linked_back-words k b.base t).1)
            (λ _ k' r. linked_back-Backed k k' b.base (last_of b.base pre) r)))
