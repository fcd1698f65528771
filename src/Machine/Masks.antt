-- ===== src/Machine/Masks.antt =====
-- `enable_irq` and `initPIT` of c/i386.c.
use bkernel.Base.{
  ℕ, zero, suc, ◌+◌, ◌-◌, ◌*◌, ◌/◌, ◌%◌, ◌^◌, ◌≤◌, ◌<◌, ◌≡◌, refl, sym, Bool, true, false, ltb,
  ◌==◌, if◌then◌else◌, bit_and, arith, ==→eq, Bool-cases, inl, inr, ap, ◌∙◌, subst,
}
use native.Mathlib.Nat.{div-lt_iff_lt-mul, div-mul-le_self, lt-div-mul-add}
use bkernel.Machine.Ports.{
  Ports, outb, icu1, icu2, masked, enable_irq, init_pit, timer_div, timer_freq, timer_1_port,
}

-- The bit `i` of a byte.
abbrev pub bit : ℕ → ℕ → ℕ
bit i x = x / 2 ^ i % 2

-- Whether a test succeeds on every number less than a bound.
every : (ℕ → Bool) → ℕ → Bool
every test zero = true
every test (suc m) = if test m then every test m else false

every-true : (test : ℕ → Bool) (m i : ℕ) → i < m → every test m ≡ true → test i ≡ true
unfolding every
every-true test zero i small e = absurd (omega arith)
every-true test (suc m) i small e = elim (Bool-cases (test m)) [
  | inl holds ↦ ground (arith, holds, every-true test m i)
  | inr fails ↦ ground (arith, fails)
]

abbrev masks : Bool → Bool
masks d =
    every
      (λ v.
        every
          (λ n.
            every (λ i. bit i (masked v n d) == (if i == n then (if d then 1 else 0) else bit i v))
              8)
          8)
      256

masks_on : masks true ≡ true
unfolding every masked
masks_on = refl

masks_off : masks false ≡ true
unfolding every masked
masks_off = refl

masks_both : (d : Bool) → masks d ≡ true
masks_both true = masks_on
masks_both false = masks_off

masked-bit :
    (d : Bool) (v n i : ℕ)
    → v < 256
    → n < 8
    → i < 8
    → bit i (masked v n d) ≡ (if i == n then (if d then 1 else 0) else bit i v)
masked-bit d v n i lv ln li =
    ==→eq _ _ (every-true _ 8 i li (every-true _ 8 n ln (every-true _ 256 v lv (masks_both d))))

-- The controller of an interrupt, and its line there.
abbrev pub controller : ℕ → ℕ
controller irq = if ltb irq 8 then icu1 else icu2

abbrev pub line : ℕ → ℕ
line irq = if ltb irq 8 then irq else irq - 8

enable_irq-outb :
    (inb : Ports → ℕ → ℕ) (irq : ℕ) (disable : Bool) (ps : Ports)
    → enable_irq inb irq disable ps
      ≡ outb (controller irq + 1) (masked (inb ps (controller irq + 1)) (line irq) disable) ps
unfolding enable_irq
enable_irq-outb inb irq disable ps = elim (Bool-cases (ltb irq 8)) [
  | inl t ↦ rw t refl
  | inr f ↦ rw f refl
]

-- `enable_irq` for one of the 16 interrupt lines, the mask read being a byte, writes one byte to
-- the mask port of the line's controller: the line's bit is set to disable and cleared to enable,
-- and every other bit is as it was read.
pub enable_irq-masks :
    (inb : Ports → ℕ → ℕ) (irq : ℕ) (disable : Bool) (ps : Ports) (i : ℕ)
    → irq < 16
    → inb ps (controller irq + 1) < 256
    → i < 8
    → (val : ℕ) × (enable_irq inb irq disable ps ≡ outb (controller irq + 1) val ps)
      × (bit i val ≡ (
          if i == line irq
          then (if disable then 1 else 0)
          else bit i (inb ps (controller irq + 1))))
enable_irq-masks inb irq disable ps i lt byte li = (
  masked (inb ps (controller irq + 1)) (line irq) disable,
  enable_irq-outb inb irq disable ps,
  masked-bit disable (inb ps (controller irq + 1)) (line irq) i byte (ground arith) li,
)

-- The low byte of a word of 16 bits.
low_byte_table : every (λ h. every (λ l. bit_and (h * 256 + l) 0xff == l) 256) 256 ≡ true
unfolding every
low_byte_table = refl

low_byte : (c : ℕ) → c < 65536 → bit_and c 0xff ≡ c % 256
low_byte c lt =
    let row =
      every-true (λ h. every (λ l. bit_and (h * 256 + l) 0xff == l) 256) 256 (c / 256) (omega arith)
        low_byte_table in
    let table =
      ==→eq _ _
        (every-true (λ l. bit_and (c / 256 * 256 + l) 0xff == l) 256 (c % 256) (omega arith) row) in
    ap (λ x. bit_and x 0xff) (omega arith) ∙ table

timer_div_bounds :
    (d : ℕ)
    → 19 ≤ d
    → (timer_div d < 65536)
      × (timer_div d * d ≤ timer_freq + d / 2)
      × (timer_freq + d / 2 < (timer_div d + 1) * d)
timer_div_bounds d ge =
    let n = timer_freq + d / 2 in
    (
      (div-lt_iff_lt-mul {k = d} {x = n} {y = 65536} (omega arith)).1 (omega arith),
      div-mul-le_self n d,
      grind (arith, lt-div-mul-add {a = n} {b = d} (omega arith)),
    )

-- For a rate of 19 to 2 ^ 31 - 1 ticks a second `initPIT` selects the rate generator, writes the
-- low and the high byte of a count, and enables the timer's line: the count is the timer's
-- frequency divided by the rate, rounded to the nearest.
pub init_pit-rate :
    (inb : Ports → ℕ → ℕ) (divisor : ℕ) (ps : Ports)
    → 19 ≤ divisor
    → divisor < 2147483648
    → (lo hi : ℕ) × (init_pit inb divisor ps
        ≡ enable_irq inb 0 false
            (outb timer_1_port hi (outb timer_1_port lo (outb (timer_1_port + 3) 0x34 ps))))
      × (lo < 256)
      × (hi < 256)
      × ((lo + 256 * hi) * divisor ≤ timer_freq + divisor / 2)
      × (timer_freq + divisor / 2 < (lo + 256 * hi + 1) * divisor)
unfolding init_pit
init_pit-rate inb divisor ps ge lt =
    let c = timer_div divisor in
    let b = timer_div_bounds divisor ge in
    let whole : c % 256 + 256 * (c / 256 % 256) ≡ c = omega (arith, b.0) in
    (
      c % 256,
      c / 256 % 256,
      ap
          (λ lo. enable_irq inb 0 false (
            outb timer_1_port (c / 256 % 256)
              (outb timer_1_port lo (outb (timer_1_port + 3) 0x34 ps))))
          (low_byte c b.0),
      omega arith,
      omega arith,
      subst (λ x. x * divisor ≤ timer_freq + divisor / 2) (sym whole) b.1,
      subst (λ x. timer_freq + divisor / 2 < (x + 1) * divisor) (sym whole) b.2,
    )
