-- ===== src/Mem/LinkIn.antt =====
-- `link_in` and the start of `kfree` in c/mem.c.
use bkernel.Base.{
  ℕ, ◌+◌, ◌≤◌, ◌≡◌, ◌≢◌, refl, arith, ne→==, inl, inr, ◌⊎◌, ◌==◌, if◌then◌else◌, Bool-cases, leb,
  sub32, false,
}
use bkernel.Kernel.{null, Kernel, update, done, and_then}
use bkernel.Mem.Alloc.{
  header_size, size_field, next_field, prev_field, sanity_field, sanity_check, max_addr, mem_rounds,
}
use bkernel.Mem.Free.{kfree, link_in, reattach, coalesce, invalid_address, block_end}
use bkernel.Mem.Blocks.{Block, end_of}
use bkernel.Mem.Insert.{Linked}

module _ (al : Block) (k : Kernel) (last : ℕ) where
  abbrev next : ℕ
  next = k.word (last + next_field)

  pub put_words : ℕ → ℕ
  put_words =
      let w1 = update (update k.word (al.base + next_field) next) (last + next_field) al.base in
      if next == null then w1 else update w1 (next + prev_field) al.base

  pub link_in-middle :
      last ≢ null
      → last + header_size ≤ al.base
      → (next ≡ null) ⊎ (end_of al ≤ next)
      → k.word (al.base + prev_field) ≡ last
      → link_in al.base k ≡ done tt (record k { word = put_words })
  unfolding link_in put_words
  link_in-middle z le nx p = elim (Bool-cases (next == null)) [
    | inl t ↦ ground (arith, t, p)
    | inr f ↦ ground (arith, f, p)
  ]

  pub put_words-Linked :
      last ≢ null
      → last + header_size ≤ al.base
      → (next ≡ null) ⊎ (end_of al ≤ next)
      → k.word (al.base + prev_field) ≡ last
      → k.word (al.base + size_field) ≡ al.size
      → Linked al k.word put_words last next
  unfolding put_words
  put_words-Linked z le nx p s = record {
    own_size = ground (arith, s);
    own_next = ground arith;
    own_prev = ground (arith, p);
    before = λ n. ground arith;
    behind = λ n. ground (arith, n);
    same = λ a n1 n2 n3 n4. ground (arith, n1, n2, n3, n4);
  }

module _ (al : Block) (k : Kernel) (front : ℕ) where
  abbrev pub first_words : ℕ → ℕ
  first_words = update (update k.word (al.base + next_field) front) (front + prev_field) al.base

  pub link_in-first :
      header_size ≤ al.base
      → end_of al ≤ front
      → k.word (al.base + prev_field) ≡ null
      → link_in al.base (record k { word = first_words; mem_slot = al.base })
        ≡ done tt (record k {
          word = update first_words (front + prev_field) al.base;
          mem_slot = al.base;
        })
  unfolding link_in
  link_in-first z le p = ground (arith, p)

  pub first_words-Linked :
      header_size ≤ al.base
      → end_of al ≤ front
      → k.word (al.base + prev_field) ≡ null
      → k.word (al.base + size_field) ≡ al.size
      → Linked al k.word (update first_words (front + prev_field) al.base) null front
  first_words-Linked z le p s = record {
    own_size = ground (arith, s);
    own_next = ground arith;
    own_prev = ground (arith, p);
    before = λ n. absurd (n refl);
    behind = λ n. ground arith;
    same = λ a n1 n2 n3 n4. ground (arith, n1, n2, n3, n4);
  }

-- What `diff` starts from.
abbrev pub first_diff : ℕ → ℕ → ℕ → ℕ → ℕ
first_diff indeterminate alloc first size =
    if leb (block_end first size) alloc then sub32 alloc (block_end first size) else indeterminate

pub kfree-enters :
    (indeterminate : ℕ) (k : Kernel) (al : Block)
    → invalid_address k.freemem (al.base + header_size) ≡ false
    → header_size ≤ al.base
    → end_of al ≤ max_addr
    → k.word (al.base + sanity_field) ≡ sanity_check
    → k.mem_slot ≢ null
    → kfree indeterminate (al.base + header_size) k
      ≡ and_then
          (reattach mem_rounds
            (al.base + header_size)
            al.base
            (first_diff indeterminate al.base k.mem_slot (k.word (k.mem_slot + size_field)))
            k.mem_slot
            k)
          (λ _ k1. and_then (link_in al.base k1) (λ _ k2. coalesce mem_rounds k2.mem_slot k2))
unfolding kfree
kfree-enters indeterminate k al v z le s f =
    let alloc : sub32 (al.base + header_size) header_size ≡ al.base = omega arith in
    rw (ne→== (al.base + header_size) null (omega arith)) (
      rw v (
        rw alloc
          (rw (ne→== al.base null (omega (arith, z))) (rw s (rw (ne→== k.mem_slot null f) refl)))))
