-- ===== src/Machine/Ports.antt =====
-- The interrupt controllers and the timer of c/i386.c, by what is written to their ports.
use bkernel.Base.{
  ℕ, ◌+◌, ◌-◌, ◌/◌, ◌%◌, ◌^◌, List, ◌∷◌, Bool, false, ltb, if◌then◌else◌, bit_and, bit_or,
}
use bkernel.Signal.Mask.{not32}

-- `outb(port, val)`
pub record Write : Type 0 where
  pub port : ℕ
  pub val : ℕ

-- All writes so far, the last one first.
abbrev pub Ports : Type 0
Ports = List Write

abbrev pub outb : ℕ → ℕ → Ports → Ports
outb port val ps = record { port = port; val = val } ∷ ps

abbrev pub icu1 : ℕ
icu1 = 0x20

abbrev pub icu2 : ℕ
icu2 = 0xa0

abbrev pub timer_irq : ℕ
timer_irq = 0

abbrev pub timer_1_port : ℕ
timer_1_port = 0x40

abbrev pub timer_mode : ℕ
timer_mode = timer_1_port + 3

abbrev pub timer_sel0 : ℕ
timer_sel0 = 0

abbrev pub timer_rategen : ℕ
timer_rategen = 4

abbrev pub timer_16bit : ℕ
timer_16bit = 0x30

abbrev pub timer_freq : ℕ
timer_freq = 1193182

-- `TIMER_DIV(x)`
abbrev pub timer_div : ℕ → ℕ
timer_div x = (timer_freq + x / 2) / x

-- The writes of `disable` in c/intr.S, which masks all lines.
unfoldable pub disable : Ports → Ports
disable ps = outb (icu1 + 1) 0xff (outb (icu2 + 1) 0xff ps)

unfoldable pub init8259 : Ports → Ports
init8259 ps =
    let ps = outb icu1 0x11 ps in
    let ps = outb (icu1 + 1) 0x20 ps in
    let ps = outb (icu1 + 1) 0x4 ps in
    let ps = outb (icu1 + 1) 0x1 ps in
    let ps = outb icu1 0xb ps in
    let ps = outb icu2 0x11 ps in
    let ps = outb (icu2 + 1) 0x28 ps in
    let ps = outb (icu2 + 1) 0x2 ps in let ps = outb (icu2 + 1) 0xb ps in disable (outb icu2 0xb ps)

unfoldable pub end_of_intr : Ports → Ports
end_of_intr ps = outb icu2 0x20 (outb icu1 0x20 ps)

-- The mask of the controller with the bit of `irq`; `val` is an `unsigned char`.
unfoldable pub masked : ℕ → ℕ → Bool → ℕ
masked val irq disable =
    if disable then bit_or val (2 ^ irq) % 256 else bit_and val (not32 (2 ^ irq)) % 256

-- `inb ps port` is what a port gives after the writes `ps`.
unfoldable pub enable_irq : (Ports → ℕ → ℕ) → ℕ → Bool → Ports → Ports
enable_irq inb irq disable ps =
    let port = if ltb irq 8 then icu1 + 1 else icu2 + 1 in
    let irq = if ltb irq 8 then irq else irq - 8 in outb port (masked (inb ps port) irq disable) ps

unfoldable pub init_pit : (Ports → ℕ → ℕ) → ℕ → Ports → Ports
init_pit inb divisor ps =
    let ps = outb timer_mode (bit_or (bit_or timer_sel0 timer_rategen) timer_16bit) ps in
    let ps = outb timer_1_port (bit_and (timer_div divisor) 0xff) ps in
    let ps = outb timer_1_port (timer_div divisor / 256 % 256) ps in
    enable_irq inb timer_irq false ps
