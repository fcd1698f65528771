-- ===== src/Tests/Memory.antt =====
-- Examples for c/mem.c: two free blocks, of 4096 bytes at 0x20000 and of 8192 bytes at 0x30000, and a block
-- of 240 bytes behind the first that is in use.
use bkernel.Base.{ℕ, ◌≡◌, ◌-◌, ◌⊎◌, inl, inr, refl, arith, ◌==◌, if◌then◌else◌, [], ◌∷◌}
use bkernel.Kernel.{Kernel, Cmd, Run, done, ◌>>=◌, ◌>>◌, pure, Returns, null}
use bkernel.Mem.Alloc.{amount, kmalloc, kmeminit, find_block, mem_rounds}
use bkernel.Mem.Free.{kfree, invalid_address, reattach, link_in, join_later, coalesce}
use bkernel.Mem.Blocks.{Block, IsHeap, nil, cons}
use bkernel.Mem.Join.{Chain}
use bkernel.Mem.FirstFit.{first_fit}
use bkernel.Mem.Allocated.{Allocated, NoTightFit, kmalloc-Allocated}
use bkernel.Mem.Joined.{coalesced}
use bkernel.Mem.Placed.{IsForward, IsAllocated, Freed}
use bkernel.Mem.Freed.{kfree-Freed}
use bkernel.Mem.Total.{heap_total, kmemtotalsize, kmalloc-kmemtotalsize}
use bkernel.Mem.Roundtrip.{kmalloc-kfree}
use bkernel.Tests.Sample.{kernel}

abbrev memory : ℕ → ℕ
memory a =
    if a == 0x20000
    then 0x1000
    else if a == 0x20008
    then 0x30000
    else if a == 0x30000
    then 0x2000
    else if a == 0x30004
    then 0x20000
    else if a == 0x21010
    then 0xf0
    else if a == 0x2101c
    then 0xff
    else 0

abbrev two_blocks : Kernel
two_blocks = record kernel { mem_slot = 0x20000; word = memory; freemem = 0x10000 }

abbrev lower : Block
lower = record { base = 0x20000; size = 0x1000 }

abbrev upper : Block
upper = record { base = 0x30000; size = 0x2000 }

abbrev used : Block
used = record { base = 0x21010; size = 0xf0 }

two_blocks-IsHeap : IsHeap memory 0x20000 (lower ∷ upper ∷ [])
two_blocks-IsHeap = record {
  list =
      cons {p = 0x20000} {b = lower} refl refl refl
        (cons {p = 0x30000} {b = upper} refl refl refl (nil refl));
  laid = (omega arith, (omega arith, omega arith));
}

two_blocks-NoTightFit : NoTightFit (amount 5000) (lower ∷ upper ∷ [])
unfolding amount
two_blocks-NoTightFit = (inl refl, (inr (omega arith), tt))

kmalloc-Allocated_example :
    Returns
      (Allocated two_blocks
        (lower ∷ upper ∷ [])
        5000
        (first_fit (amount 5000) (lower ∷ upper ∷ [])))
      (kmalloc 5000 two_blocks)
kmalloc-Allocated_example =
    kmalloc-Allocated two_blocks 5000 (lower ∷ upper ∷ []) (omega arith) (omega arith)
      two_blocks-IsHeap two_blocks-NoTightFit

kmalloc-kmemtotalsize_example :
    Returns
      (λ r k'.
        kmemtotalsize k'
        ≡ done
            (if r == null
              then heap_total (lower ∷ upper ∷ [])
              else heap_total (lower ∷ upper ∷ []) - amount 5000)
            k')
      (kmalloc 5000 two_blocks)
kmalloc-kmemtotalsize_example =
    kmalloc-kmemtotalsize two_blocks 5000 (lower ∷ upper ∷ []) (omega arith) (omega arith)
      two_blocks-IsHeap two_blocks-NoTightFit

kmalloc-kfree_example :
    Returns
      (λ r k'.
        (r ≡ null)
        ⊎ Returns
            (λ _ k''. IsForward k''.word k''.mem_slot (coalesced (lower ∷ upper ∷ [])))
            (kfree 7 r k'))
      (kmalloc 5000 two_blocks)
unfolding invalid_address
kmalloc-kfree_example =
    kmalloc-kfree 7 two_blocks 5000 (lower ∷ upper ∷ []) (omega arith) (omega arith)
      two_blocks-IsHeap two_blocks-NoTightFit (refl, (refl, tt))

two_blocks-IsForward : IsForward memory 0x20000 (lower ∷ upper ∷ [])
two_blocks-IsForward = record {
  list = Chain.cons refl refl (Chain.cons refl refl (Chain.nil refl));
  laid = (omega arith, (omega arith, omega arith));
  ends = (refl, (omega arith, tt));
}

used-IsAllocated : IsAllocated memory used
used-IsAllocated = record { size = refl; sanity = refl; prev = refl }

kfree-Freed_example :
    Returns
      (λ _ k'. Freed two_blocks used (lower ∷ []) (upper ∷ []) k')
      (kfree 7 0x21020 two_blocks)
unfolding invalid_address
kfree-Freed_example =
    kfree-Freed 7 two_blocks used (lower ∷ []) (upper ∷ []) (omega arith) two_blocks-IsForward
      (omega arith, (omega arith, (omega arith, omega arith))) used-IsAllocated refl

abbrev booting : Kernel
booting = record kernel { freemem = 0x20000 }

abbrev result : {A : Type 0} → Run A → A → A
result (done a k) d = a
result _ d = d

-- Once the block below the hole has been given back, two requests that only the block above it can serve get
-- the same memory.
abbrev twice : Cmd (ℕ × ℕ)
twice = do
  kmeminit
  small ← kmalloc 100
  kfree 0 small
  first ← kmalloc 0x80000
  second ← kmalloc 0x80000
  pure (first, second)

twice_same : result (twice booting) (0, 0) ≡ (1662992, 1662992)
unfolding kmeminit kmalloc find_block mem_rounds kfree reattach link_in join_later coalesce
twice_same = refl
