-- ===== src/Machine/Segments.antt =====
-- `setsegs` and `sizmem` of c/i386.c: the segments, and where the free memory begins.
use bkernel.Base.{
  ℕ, ◌+◌, ◌-◌, ◌*◌, ◌/◌, ◌%◌, ◌^◌, ◌≤◌, ◌<◌, ◌≡◌, refl, ◌==◌, if◌then◌else◌, add32, sub32, arith,
  [], ◌∷◌,
}
use bkernel.Kernel.{update, Kernel, Returns, weaken}
use bkernel.Mem.Alloc.{kmeminit, paragraph_size, hole_start}
use bkernel.Mem.Blocks.{IsHeap, end_of}
use bkernel.Mem.Start.{low_block, high_block, kmeminit-IsHeap}

-- `struct sd`
pub record Sd : Type 0 where
  pub sd_lolimit : ℕ
  pub sd_lobase : ℕ
  pub sd_midbase : ℕ
  pub sd_perm : ℕ
  pub sd_iscode : ℕ
  pub sd_isapp : ℕ
  pub sd_dpl : ℕ
  pub sd_present : ℕ
  pub sd_hilimit : ℕ
  pub sd_avl : ℕ
  pub sd_mbz : ℕ
  pub sd_32b : ℕ
  pub sd_gran : ℕ
  pub sd_hibase : ℕ

abbrev pub null_segment : Sd
null_segment = record {
  sd_lolimit = 0;
  sd_lobase = 0;
  sd_midbase = 0;
  sd_perm = 0;
  sd_iscode = 0;
  sd_isapp = 0;
  sd_dpl = 0;
  sd_present = 0;
  sd_hilimit = 0;
  sd_avl = 0;
  sd_mbz = 0;
  sd_32b = 0;
  sd_gran = 0;
  sd_hibase = 0;
}

-- The segments of `gdt_copy`, for code and for data.
abbrev pub code_segment : Sd
code_segment = record {
  sd_lolimit = 0xffff;
  sd_lobase = 0;
  sd_midbase = 0;
  sd_perm = 6;
  sd_iscode = 1;
  sd_isapp = 1;
  sd_dpl = 0;
  sd_present = 1;
  sd_hilimit = 0xf;
  sd_avl = 0;
  sd_mbz = 0;
  sd_32b = 1;
  sd_gran = 1;
  sd_hibase = 0;
}

abbrev pub data_segment : Sd
data_segment = record code_segment { sd_perm = 2; sd_iscode = 0 }

abbrev pub gdt_copy : ℕ → Sd
gdt_copy i =
    if i == 1
    then code_segment
    else if i == 2
    then data_segment
    else if i == 3
    then data_segment
    else if i == 4
    then code_segment
    else null_segment

abbrev pub nbpg : ℕ
nbpg = 4096

abbrev pub kernel_stack : ℕ
kernel_stack = 4 * 4096

abbrev pub sizmem : ℕ
sizmem = 1024

-- The two halves of a limit, of 16 bits and of 4.
abbrev pub with_limit : ℕ → Sd → Sd
with_limit n s = record s { sd_lolimit = n % 2 ^ 16; sd_hilimit = n / 2 ^ 16 % 2 ^ 4 }

-- `&etext` and `&end`, which the linker sets, and `blkcopy(gdt, gdt_copy, sizeof(gdt_copy))` on the two
-- tables, from lib/.
pub record Layout : Type 0 where
  pub etext : ℕ
  pub end : ℕ
  pub blkcopy : (dst src : ℕ → Sd) → ℕ → Sd

pub record Segments : Type 0 where
  pub gdt : ℕ → Sd
  pub gdt_copy : ℕ → Sd
  pub maxaddr : ℕ
  pub initsp : ℕ
  pub freemem : ℕ

unfoldable pub setsegs : Layout → Segments → Segments
setsegs l s =
    let npages = sizmem in
    let np = (l.etext + nbpg - 1) / nbpg in
    let t = update s.gdt_copy 1 (with_limit np (s.gdt_copy 1)) in
    let t = update t 2 (with_limit npages (t 2)) in
    let t = update t 3 (with_limit npages (t 3)) in
    let t = update t 4 (with_limit npages (t 4)) in
    record {
      gdt = l.blkcopy s.gdt t;
      gdt_copy = t;
      maxaddr = npages * nbpg - 1;
      initsp = sub32 (add32 l.end kernel_stack) 4;
      freemem = add32 l.end kernel_stack;
    }

-- With the image and the kernel's stack ending 32 bytes or more below the hole in memory,
-- `kmeminit` from the `freemem` that `setsegs` sets makes a valid heap of two blocks: the first
-- begins above the kernel's stack, whose last word is at `initsp`, and the last ends at
-- `maxaddr`.
pub setsegs-kmeminit :
    (l : Layout) (s : Segments) (k : Kernel)
    → l.end + kernel_stack + 2 * paragraph_size ≤ hole_start
    → k.freemem ≡ (setsegs l s).freemem
    → Returns
        (λ _ k'.
          IsHeap k'.word k'.mem_slot (low_block k'.mem_slot ∷ high_block ∷ [])
          × ((setsegs l s).initsp + 4 < k'.mem_slot)
          × (l.end + kernel_stack ≡ (setsegs l s).initsp + 4)
          × (end_of high_block ≡ (setsegs l s).maxaddr + 1))
        (kmeminit k)
unfolding setsegs
setsegs-kmeminit l s k room e =
    weaken (kmeminit-IsHeap k (omega (arith, e)))
      (λ _ k' h. (h.0, omega (arith, h.1, e), omega arith, refl))
