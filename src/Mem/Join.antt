-- ===== src/Mem/Join.antt =====
-- The inner of the loops of `kfree` in c/mem.c that join neighbours.
use bkernel.Base.{
  ℕ, zero, suc, ◌+◌, ◌≤◌, ◌<◌, ◌≡◌, ◌≢◌, refl, sym, subst, ap, ◌∙◌, List, [], ◌∷◌, length, arith,
  ◌==◌, ne→==, eq→==, All, inl, inr, Bool-cases, ==→eq, ==→ne,
}
use bkernel.Kernel.{Kernel, null, Returns, done-Returns, weaken, update, done}
use bkernel.Mem.Alloc.{header_size, size_field, next_field, max_addr}
use bkernel.Mem.Free.{join_later}
use bkernel.Mem.Blocks.{Block, end_of, Laid, Laid-le, Laid-lower}
use bkernel.Mem.Joined.{grown, coalesced, coalesced-grown, IsApart}

-- The list of free blocks from `p` on, as linked forward.
pub data Chain (w : ℕ → ℕ) : ℕ → List Block → Type 0 where
  nil : {p : ℕ} → p ≡ null → Chain w p []
  cons :
      {p : ℕ} {b : Block} {bs : List Block}
      → p ≡ b.base
      → w (b.base + size_field) ≡ b.size
      → Chain w (w (b.base + next_field)) bs
      → Chain w p (b ∷ bs)

-- Nothing but the memory differs.
abbrev pub OnlyWords : Kernel → Kernel → Type 0
OnlyWords k k' = k' ≡ record k { word = k'.word }

pub OnlyWords-trans : (k j k' : Kernel) → OnlyWords k j → OnlyWords j k' → OnlyWords k k'
OnlyWords-trans k j k' e f = f ∙ ap {A = Kernel} (λ i. record i { word = k'.word }) e

-- The address holds neither the size nor the link of a block.
abbrev pub IsOff : ℕ → List Block → Type 0
IsOff a bs = All (λ c. (a ≢ c.base + size_field) × (a ≢ c.base + next_field)) bs

pub Chain-same :
    (w w' : ℕ → ℕ) (bs : List Block) {p : ℕ}
    → All
        (λ c.
          (w' (c.base + size_field) ≡ w (c.base + size_field))
          × (w' (c.base + next_field) ≡ w (c.base + next_field)))
        bs
    → Chain w p bs
    → Chain w' p bs
Chain-same w w' [] same (nil z) = nil z
Chain-same w w' (b ∷ bs) same (cons e s f) =
    cons e (same.0.0 ∙ s) (subst (λ q. Chain w' q bs) (sym same.0.1) (Chain-same w w' bs same.1 f))

abbrev pub sized : Block → ℕ → Block
sized b size = record { base = b.base; size = size }

-- What the loop makes of a block and those behind it.
pub data Grows (w w' : ℕ → ℕ) (b : Block) (cs : List Block) : Type 0 where
  grows :
      (size : ℕ) (ds : List Block)
      → coalesced (b ∷ cs) ≡ coalesced (sized b size ∷ ds)
      → IsApart (sized b size) ds
      → Chain w' b.base (sized b size ∷ ds)
      → Laid b.base (sized b size ∷ ds)
      → length ds ≤ length cs
      → ((a : ℕ) → a ≢ b.base + size_field → a ≢ b.base + next_field → w' a ≡ w a)
      → ((a : ℕ) → IsOff a cs → IsOff a ds)
      → Grows w w' b cs

-- Behind a gap the loop finds nothing to join.
join_later-skip :
    (n : ℕ) (k : Kernel) (b : Block) (p low : ℕ) (bs : List Block)
    → length bs < n
    → b.base ≢ null
    → k.word (b.base + size_field) ≡ b.size
    → end_of b < low
    → Laid low bs
    → Chain k.word p bs
    → join_later n b.base p k ≡ done tt k
unfolding join_later
join_later-skip zero k b p low bs l z s lo h f = absurd (omega arith)
join_later-skip (suc n) k b p low [] l z s lo h (nil e) = rw e refl
join_later-skip (suc n) k b p low (c ∷ cs) l z s lo h (cons e t f) =
    let top = Laid-le (end_of c) cs h.1 in
    let rest =
      join_later-skip n k b (k.word (c.base + next_field)) (end_of c) cs (omega arith) z s
        (omega (arith, h.0)) h.1 f in
    rw e (ground (arith, rest, h.0))

join_step : Kernel → Block → Block → Kernel
join_step k b c = record k {
  word =
      update (update k.word (b.base + size_field) (b.size + c.size + header_size))
        (b.base + next_field) (k.word (c.base + next_field));
}

join_later-step :
    (n : ℕ) (k : Kernel) (b c : Block)
    → b.base ≢ null
    → end_of b ≡ c.base
    → k.word (b.base + size_field) ≡ b.size
    → k.word (c.base + size_field) ≡ c.size
    → end_of c ≤ max_addr
    → join_later (suc n) b.base c.base k
      ≡ join_later n b.base (k.word (c.base + next_field)) (join_step k b c)
unfolding join_later join_step
join_later-step n k b c z e s t top = ground arith

join_step-next :
    (k : Kernel) (b c : Block)
    → (join_step k b c).word (b.base + next_field) ≡ k.word (c.base + next_field)
unfolding join_step
join_step-next k b c = ground arith

join_step-words : (k : Kernel) (b c : Block) → OnlyWords k (join_step k b c)
unfolding join_step
join_step-words k b c = refl

grown-Grows :
    (k : Kernel) (w' : ℕ → ℕ) (b c : Block) (cs : List Block)
    → end_of b ≡ c.base
    → Grows (join_step k b c).word w' (grown b c) cs
    → Grows k.word w' b (c ∷ cs)
unfolding join_step
grown-Grows k w' b c cs e (grows size ds co ap ch la le same off) =
    grows size ds (coalesced-grown b c cs e ∙ co) ap ch la (omega (arith, le))
      (λ a s n.
        same a s n ∙ rw (ne→== a (b.base + next_field) n, ne→== a (b.base + size_field) s) refl)
      (λ a o. off a o.1)

join_step-same :
    (k : Kernel) (b c : Block) (low : ℕ) (cs : List Block)
    → b.base + header_size ≤ low
    → Laid low cs
    → All
        (λ d.
          ((join_step k b c).word (d.base + size_field) ≡ k.word (d.base + size_field))
          × ((join_step k b c).word (d.base + next_field) ≡ k.word (d.base + next_field)))
        cs
unfolding join_step
join_step-same k b c low [] le l = tt
join_step-same k b c low (d ∷ ds) le l = (
  (ground (arith, l.0), ground (arith, l.0)),
  join_step-same k b c (end_of d) ds (omega (arith, l.0)) l.1,
)

join_step-Chain :
    (k : Kernel) (b c : Block) (cs : List Block)
    → b.base ≢ null
    → end_of b ≡ c.base
    → Laid (end_of c) cs
    → Chain k.word (k.word (c.base + next_field)) cs
    → Chain (join_step k b c).word b.base (grown b c ∷ cs)
unfolding join_step
join_step-Chain k b c cs z e l f = cons refl (ground arith) (
    subst (λ p. Chain (join_step k b c).word p cs)
      (sym (rw (eq→== (b.base + next_field) (b.base + next_field) refl) refl))
      (Chain-same k.word (join_step k b c).word cs
        (join_step-same k b c (end_of c) cs (omega (arith, e)) l) f))

join_later-end :
    (n : ℕ) (k : Kernel) (slot p : ℕ) → p ≡ null → join_later (suc n) slot p k ≡ done tt k
unfolding join_later
join_later-end n k slot p e = rw e refl

pub join_later-Grows :
    (n : ℕ) (k : Kernel) (b : Block) (cs : List Block)
    → length cs < n
    → b.base ≢ null
    → Laid b.base (b ∷ cs)
    → Chain k.word b.base (b ∷ cs)
    → Returns
        (λ _ k'. Grows k.word k'.word b cs × OnlyWords k k')
        (join_later n b.base (k.word (b.base + next_field)) k)
join_later-Grows zero k b cs l z h f = absurd (omega arith)
join_later-Grows (suc n) k b [] l z h (cons e s (nil q)) =
    done-Returns (join_later-end n k b.base (k.word (b.base + next_field)) q)
      (grows b.size [] refl tt (cons e s (nil q)) h (omega arith) (λ a u v. refl) (λ a o. o), refl)
join_later-Grows (suc n) k b (c ∷ cs) l z h (cons e s (cons d t f)) =
    elim (Bool-cases (end_of b == c.base))
      as (λ _.
        Returns (λ _ k'. Grows k.word k'.word b (c ∷ cs) × OnlyWords k k')
          (join_later (suc n) b.base (k.word (b.base + next_field)) k)) [
            | inl y ↦
                let adj = ==→eq (end_of b) c.base y in
                let top = Laid-le (end_of c) cs h.1.1 in
                let run =
                  ap (λ p. join_later (suc n) b.base p k) d
                  ∙ join_later-step n k b c z adj s t top in
                let rest =
                  join_later-Grows n (join_step k b c) (grown b c) cs (omega arith) z
                    (
                      omega arith,
                      Laid-lower (end_of c) (end_of (grown b c)) cs (omega (arith, adj)) h.1.1,
                    )
                    (join_step-Chain k b c cs z adj h.1.1 f) in
                subst (Returns (λ _ k'. Grows k.word k'.word b (c ∷ cs) × OnlyWords k k'))
                  (sym (
                    run
                    ∙ ap (λ p. join_later n b.base p (join_step k b c))
                        (sym (join_step-next k b c))))
                  (weaken rest (λ _ k' g. (
                    grown-Grows k k'.word b c cs adj g.0,
                    OnlyWords-trans k (join_step k b c) k' (join_step-words k b c) g.1,
                  )))
            | inr y ↦
                let gap = ==→ne (end_of b) c.base y in
                done-Returns
                  (join_later-skip (suc n) k b (k.word (b.base + next_field)) c.base (c ∷ cs) l z s
                    (omega (arith, gap, h.1.0)) (omega arith, h.1.1) (cons d t f))
                  (
                    grows b.size (c ∷ cs) refl gap (cons e s (cons d t f)) h (omega arith)
                        (λ a u v. refl) (λ a o. o),
                    refl,
                  )
          ]
