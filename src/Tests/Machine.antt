-- ===== src/Tests/Machine.antt =====
-- Examples for c/i386.c and c/evec.c: a controller that masks all but the lines 1 and 2, and handlers at
-- addresses that tell the vectors apart.
use bkernel.Base.{ℕ, ◌+◌, ◌*◌, ◌≡◌, ◌≤◌, ◌<◌, refl, [], ◌∷◌, true, false, arith}
use bkernel.Kernel.{Kernel, Returns}
use bkernel.Mem.Alloc.{kmeminit}
use bkernel.Mem.Blocks.{IsHeap, end_of}
use bkernel.Mem.Start.{low_block, high_block}
use bkernel.Machine.Ports.{Ports, outb, icu1, enable_irq, init_pit, timer_1_port, timer_freq}
use bkernel.Machine.Masks.{bit, enable_irq-masks, init_pit-rate}
use bkernel.Machine.Vectors.{Entries, Tables, zero_gate, initevec, contextinit}
use bkernel.Machine.Boot.{Leads, meant, contextinit-Leads}
use bkernel.Machine.Segments.{
  Layout, Segments, setsegs, gdt_copy, null_segment, kernel_stack, setsegs-kmeminit,
}
use bkernel.Tests.Sample.{kernel}

abbrev all_masked : Ports → ℕ → ℕ
all_masked ps port = 0xf9

enable_irq-masks_example :
    (val : ℕ) × (enable_irq all_masked 1 true [] ≡ outb (icu1 + 1) val []) × (bit 1 val ≡ 1)
enable_irq-masks_example =
    enable_irq-masks all_masked 1 true [] 1 (omega arith) (omega arith) (omega arith)

init_pit-rate_example :
    (lo hi : ℕ) × (init_pit all_masked 100 []
      ≡ enable_irq all_masked 0 false
          (outb timer_1_port hi (outb timer_1_port lo (outb (timer_1_port + 3) 0x34 []))))
    × (lo < 256)
    × (hi < 256)
    × ((lo + 256 * hi) * 100 ≤ timer_freq + 50)
    × (timer_freq + 50 < (lo + 256 * hi + 1) * 100)
init_pit-rate_example = init_pit-rate all_masked 100 [] (omega arith) (omega arith)

abbrev entries : Entries
entries = record {
  defevec = λ i. 0x100000 + 16 * i;
  syscall_entry_point = 0x112345;
  timer_entry_point = 0x223456;
  kbd_entry_point = 0x334567;
}

abbrev no_tables : Tables
no_tables = record { idt = λ i. zero_gate; ports = [] }

contextinit-Leads_example :
    Leads ((contextinit all_masked entries (initevec entries no_tables)).idt 33) (meant entries 33)
contextinit-Leads_example =
    contextinit-Leads all_masked entries no_tables 33 (omega arith) (omega arith) (omega arith)
      (omega arith) (omega arith)

abbrev layout : Layout
layout = record { etext = 0x15000; end = 0x1c000; blkcopy = λ dst src i. src i }

abbrev at_start : Segments
at_start = record {
  gdt = λ i. null_segment;
  gdt_copy = gdt_copy;
  maxaddr = 0;
  initsp = 0;
  freemem = 0;
}

abbrev booting : Kernel
booting = record kernel { freemem = 0x20000 }

setsegs-kmeminit_example :
    Returns
      (λ _ k'.
        IsHeap k'.word k'.mem_slot (low_block k'.mem_slot ∷ high_block ∷ [])
        × ((setsegs layout at_start).initsp + 4 < k'.mem_slot)
        × (0x1c000 + kernel_stack ≡ (setsegs layout at_start).initsp + 4)
        × (end_of high_block ≡ (setsegs layout at_start).maxaddr + 1))
      (kmeminit booting)
unfolding setsegs
setsegs-kmeminit_example = setsegs-kmeminit layout at_start booting (omega arith) refl
