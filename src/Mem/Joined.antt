-- ===== src/Mem/Joined.antt =====
-- Lists of blocks in which neighbours have been joined.
use bkernel.Base.{
  ℕ, ◌+◌, ◌≡◌, ◌≢◌, refl, ap, List, [], ◌∷◌, arith, ◌==◌, if◌then◌else◌, ne→==, eq→==, inl, inr,
  Bool-cases, ==→eq, ==→ne,
}
use bkernel.Mem.Alloc.{header_size}
use bkernel.Mem.Blocks.{Block, end_of, Laid, Laid-lower}

-- A block with the one right behind it.
abbrev pub grown : Block → Block → Block
grown b c = record { base = b.base; size = b.size + c.size + header_size }

-- A block in front of others.
unfoldable pub joined : Block → List Block → List Block
joined b [] = b ∷ []
joined b (c ∷ cs) = if end_of b == c.base then grown b c ∷ cs else b ∷ c ∷ cs

unfoldable pub coalesced : List Block → List Block
coalesced [] = []
coalesced (b ∷ bs) = joined b (coalesced bs)

joined-grown :
    (b c : Block) (cs : List Block)
    → end_of b ≡ c.base
    → joined b (joined c cs) ≡ joined (grown b c) cs
unfolding joined
joined-grown b c [] e = rw (eq→== (end_of b) c.base e) refl
joined-grown b c (d ∷ ds) e = elim (Bool-cases (end_of c == d.base)) [
  | inl t ↦
      let adj = ==→eq (end_of c) d.base t in
      rw t (
        rw (eq→== (end_of b) c.base e) (
          rw (eq→== (end_of (grown b c)) d.base (omega (arith, adj)))
            (ap (λ s. record { base = b.base; size = s } ∷ ds) (omega arith))))
  | inr f ↦
      let apart = ==→ne (end_of c) d.base f in
      rw f (
        rw (eq→== (end_of b) c.base e)
          (rw (ne→== (end_of (grown b c)) d.base (omega (arith, apart))) refl))
]

-- Joining the first two from the left gives the same.
pub coalesced-grown :
    (b c : Block) (cs : List Block)
    → end_of b ≡ c.base
    → coalesced (b ∷ c ∷ cs) ≡ coalesced (grown b c ∷ cs)
unfolding coalesced
coalesced-grown b c cs e = joined-grown b c (coalesced cs) e

joined-apart :
    (b c : Block) (cs : List Block) → end_of b ≢ c.base → joined b (joined c cs) ≡ b ∷ joined c cs
unfolding joined
joined-apart b c [] ne = rw (ne→== (end_of b) c.base ne) refl
joined-apart b c (d ∷ ds) ne = elim (Bool-cases (end_of c == d.base)) [
  | inl t ↦ rw t (rw (ne→== (end_of b) c.base ne) refl)
  | inr f ↦ rw f (rw (ne→== (end_of b) c.base ne) refl)
]

-- A block that touches no other stays.
abbrev pub IsApart : Block → List Block → Type 0
IsApart b [] = Unit {0}
IsApart b (c ∷ cs) = end_of b ≢ c.base

pub coalesced-apart :
    (b : Block) (bs : List Block) → IsApart b bs → coalesced (b ∷ bs) ≡ b ∷ coalesced bs
unfolding coalesced joined
coalesced-apart b [] a = refl
coalesced-apart b (c ∷ cs) a = joined-apart b c (coalesced cs) a

Laid-joined : (low : ℕ) (b : Block) (cs : List Block) → Laid low (b ∷ cs) → Laid low (joined b cs)
unfolding joined
Laid-joined low b [] h = h
Laid-joined low b (c ∷ cs) h = elim (Bool-cases (end_of b == c.base)) [
  | inl t ↦
      let e = ==→eq (end_of b) c.base t in
      rw t (h.0, Laid-lower (end_of c) (end_of (grown b c)) cs (omega (arith, e)) h.1.1)
  | inr f ↦ rw f h
]

pub Laid-coalesced : (low : ℕ) (bs : List Block) → Laid low bs → Laid low (coalesced bs)
unfolding coalesced
Laid-coalesced low [] h = h
Laid-coalesced low (b ∷ bs) h =
    Laid-joined low b (coalesced bs) (h.0, Laid-coalesced (end_of b) bs h.1)
