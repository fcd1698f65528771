-- ===== src/Signal/Mask.antt =====
-- The bit masks of c/signal.c.
use bkernel.Base.{
  ℕ, zero, suc, ◌-◌, ◌*◌, ◌/◌, ◌%◌, Option, none, some, ◌==◌, if◌then◌else◌, add32, word_mod,
  bit_or,
}

-- `~m`
abbrev pub not32 : ℕ → ℕ
not32 m = word_mod - 1 - m

-- `for(i=0 ; i<sig_no ; i++) bit_mask *= 2;`
unfoldable pub double : ℕ → ℕ → ℕ
double zero mask = mask
double (suc n) mask = double n (mask * 2 % word_mod)

-- `for(i=0 ; i<sig_no ; i++) { bit_mask <<= 1; bit_mask |= BIT_ON; }`
unfoldable pub fill : ℕ → ℕ → ℕ
fill zero mask = mask
fill (suc n) mask = fill n (bit_or (mask * 2 % word_mod) 1)

-- `while(mask) { sig_no++; mask >>= 1; }`: where it leaves `sig_no`.
unfoldable pub highest : ℕ → ℕ → ℕ → Option ℕ
highest zero mask sig_no = none
highest (suc n) mask sig_no =
    let rest = highest n (mask / 2) (add32 sig_no 1) in if mask == 0 then some sig_no else rest

-- A word has 32 bits, so the loop ends in 33 rounds.
abbrev pub mask_rounds : ℕ
mask_rounds = 33
