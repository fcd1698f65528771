-- ===== src/Machine/Vectors.antt =====
-- The table of interrupt vectors: c/evec.c, and `contextinit` of c/ctsw.c.
use bkernel.Base.{ℕ, zero, suc, ◌+◌, ◌/◌, ◌%◌, ◌^◌, ltb, if◌then◌else◌}
use bkernel.Kernel.{update}
use bkernel.Machine.Ports.{Ports, init8259, init_pit}

-- `struct idt`
pub record Gate : Type 0 where
  pub igd_loffset : ℕ
  pub igd_segsel : ℕ
  pub igd_rsvd : ℕ
  pub igd_mbz : ℕ
  pub igd_type : ℕ
  pub igd_dpl : ℕ
  pub igd_present : ℕ
  pub igd_hoffset : ℕ

abbrev pub zero_gate : Gate
zero_gate = record {
  igd_loffset = 0;
  igd_segsel = 0;
  igd_rsvd = 0;
  igd_mbz = 0;
  igd_type = 0;
  igd_dpl = 0;
  igd_present = 0;
  igd_hoffset = 0;
}

abbrev pub nid : ℕ
nid = 48

abbrev pub igdt_trapg : ℕ
igdt_trapg = 15

abbrev pub irqbase : ℕ
irqbase = 32

abbrev pub kernel_int : ℕ
kernel_int = 64

abbrev pub clock_divisor : ℕ
clock_divisor = 100

-- The table by its index; an index of 256 or more is memory behind it.
abbrev pub Idt : Type 0
Idt = ℕ → Gate

-- The fields that `set_evec` assigns to.
abbrev pub trap_gate : ℕ → Gate → Gate
trap_gate handler gate = record gate {
  igd_loffset = handler % 2 ^ 16;
  igd_segsel = 0x8;
  igd_mbz = 0;
  igd_type = igdt_trapg;
  igd_dpl = 0;
  igd_present = 1;
  igd_hoffset = handler / 2 ^ 16 % 2 ^ 16;
}

unfoldable pub set_evec : ℕ → ℕ → Idt → Idt
set_evec xnum handler idt = update idt xnum (trap_gate handler (idt xnum))

-- `memset(idt, 0, sizeof(struct idt) * 256)`
abbrev pub clear : Idt → Idt
clear idt i = if ltb i 256 then zero_gate else idt i

-- `for (i=0; i<NID; ++i) set_evec(i, defevec[i])`, from `i` on, with `n` vectors to go.
unfoldable pub set_all : (ℕ → ℕ) → ℕ → ℕ → Idt → Idt
set_all defevec zero i idt = idt
set_all defevec (suc n) i idt = set_all defevec n (i + 1) (set_evec i (defevec i) idt)

-- The handlers that intr.S and the assembly of c/ctsw.c define.
pub record Entries : Type 0 where
  pub defevec : ℕ → ℕ
  pub syscall_entry_point : ℕ
  pub timer_entry_point : ℕ
  pub kbd_entry_point : ℕ

pub record Tables : Type 0 where
  pub idt : Idt
  pub ports : Ports

-- `lidt` is assembly and left out.
unfoldable pub initevec : Entries → Tables → Tables
initevec e t = record { idt = set_all e.defevec nid 0 (clear t.idt); ports = init8259 t.ports }

unfoldable pub contextinit : (Ports → ℕ → ℕ) → Entries → Tables → Tables
contextinit inb e t =
    let idt = set_evec kernel_int e.syscall_entry_point t.idt in
    let idt = set_evec irqbase e.timer_entry_point idt in
    let ports = init_pit inb clock_divisor t.ports in
    record { idt = set_evec (irqbase + 1) e.kbd_entry_point idt; ports = ports }
