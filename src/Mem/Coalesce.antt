-- ===== src/Mem/Coalesce.antt =====
-- `coalesce`: the loops of `kfree` in c/mem.c that join neighbours, on the list of free blocks.
use bkernel.Base.{
  ℕ, zero, suc, ◌+◌, ◌<◌, ◌≡◌, ◌≢◌, refl, fun_ext, sym, subst, ap, ◌∙◌, List, [], ◌∷◌, length,
  arith, ne→==,
}
use bkernel.Kernel.{Kernel, null, Returns, done-Returns, weaken, after, and_then, done}
use bkernel.Mem.Alloc.{size_field, next_field, mem_rounds}
use bkernel.Mem.Free.{join_later, coalesce}
use bkernel.Mem.Blocks.{Block, end_of, Laid}
use bkernel.Mem.Joined.{coalesced, coalesced-apart}
use bkernel.Mem.Join.{
  Chain, nil, cons, IsOff, sized, Grows, grows, join_later-Grows, OnlyWords, OnlyWords-trans,
}

coalesce-step :
    (n : ℕ) (slot : ℕ) (k : Kernel)
    → slot ≢ null
    → coalesce (suc n) slot k
      ≡ and_then
          (join_later mem_rounds slot (k.word (slot + next_field)) k)
          (λ _ k1. coalesce n (k1.word (slot + next_field)) k1)
unfolding coalesce
coalesce-step n slot k z = rw (ne→== slot null z) (
    rw (ne→== slot null z) (
      ap (and_then (join_later mem_rounds slot (k.word (slot + next_field)) k))
        (fun_ext (λ _. fun_ext (λ k1. rw (ne→== slot null z) refl)))))

coalesce-end : (n : ℕ) (slot : ℕ) (k : Kernel) → slot ≡ null → coalesce (suc n) slot k ≡ done tt k
unfolding coalesce
coalesce-end n slot k e = rw e refl

-- What the loops leave.
abbrev pub Coalesced : Kernel → ℕ → List Block → Kernel → Type 0
Coalesced k p bs k' =
    Chain k'.word p (coalesced bs) × ((a : ℕ) → IsOff a bs → k'.word a ≡ k.word a) × OnlyWords k k'

pub IsOff-below : (a low : ℕ) (bs : List Block) → a < low → Laid low bs → IsOff a bs
IsOff-below a low [] lt l = tt
IsOff-below a low (b ∷ bs) lt l =
    ((omega (arith, l.0), omega (arith, l.0)), IsOff-below a (end_of b) bs (omega (arith, l.0)) l.1)

-- Once the first block is as large as it gets, the rest follow.
first_Coalesced :
    (n : ℕ) (k k1 : Kernel) (b : Block) (cs : List Block)
    → length cs < n
    → length cs < mem_rounds
    → OnlyWords k k1
    → Grows k.word k1.word b cs
    → b.base ≢ null
    → ((low p : ℕ) (ds : List Block)
        → length ds < n
        → length ds < mem_rounds
        → low ≢ null
        → Laid low ds
        → Chain k1.word p ds
        → Returns (λ _ k'. Coalesced k1 p ds k') (coalesce n p k1))
    → Returns
        (λ _ k'. Coalesced k b.base (b ∷ cs) k')
        (coalesce n (k1.word (b.base + next_field)) k1)
first_Coalesced n k k1 b cs l m ow (grows size ds co apart (cons e s f) la le same off) z rest =
    weaken
      (rest (end_of (sized b size)) (k1.word (b.base + next_field)) ds (omega (arith, le))
        (omega (arith, le)) (omega arith) la.1 f)
      (λ _ k' r. (
        subst (Chain k'.word b.base) (sym (co ∙ coalesced-apart (sized b size) ds apart)) (
            cons refl
              (r.1 (b.base + size_field)
                  (IsOff-below _ (end_of (sized b size)) ds (omega arith) la.1)
                ∙ s)
              (subst (λ q. Chain k'.word q (coalesced ds))
                (sym (
                  r.1 (b.base + next_field)
                    (IsOff-below _ (end_of (sized b size)) ds (omega arith) la.1)))
                r.0)),
        (λ a o. r.1 a (off a o.1) ∙ same a o.0.0 o.0.1),
        OnlyWords-trans k k1 k' ow r.2,
      ))

pub coalesce-Coalesced :
    (n : ℕ) (k : Kernel) (low p : ℕ) (bs : List Block)
    → length bs < n
    → length bs < mem_rounds
    → low ≢ null
    → Laid low bs
    → Chain k.word p bs
    → Returns (λ _ k'. Coalesced k p bs k') (coalesce n p k)
unfolding coalesced
coalesce-Coalesced zero k low p bs l m z h f = absurd (omega arith)
coalesce-Coalesced (suc n) k low p [] l m z h (nil e) =
    done-Returns (coalesce-end n p k e) (nil e, (λ a o. refl), refl)
coalesce-Coalesced (suc n) k low p (b ∷ cs) l m z h (cons e s f) =
    let joins =
      join_later-Grows mem_rounds k b cs (omega arith) (omega (arith, h.0)) (omega arith, h.1)
        (cons refl s f) in
    subst (λ q. Returns (λ _ k'. Coalesced k q (b ∷ cs) k') (coalesce (suc n) q k)) (sym e)
      (subst (Returns (λ _ k'. Coalesced k b.base (b ∷ cs) k'))
        (sym (coalesce-step n b.base k (omega (arith, h.0))))
        (after joins (λ _ k1 g.
          first_Coalesced n k k1 b cs (omega arith) (omega arith) g.1 g.0 (omega (arith, h.0))
            (coalesce-Coalesced n k1))))
