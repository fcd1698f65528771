-- ===== src/Kbd/Extended.antt =====
-- A scan code of c/scanToASCII.c that is never seen.
use bkernel.Base.{ℕ, ◌≡◌, false, arith, ◌%◌}
use bkernel.Kernel.{ScanState}
use bkernel.Kbd.Scan.{kbtoa, release_key}

release_key-extended : (key : ℕ) (s : ScanState) → (release_key key s).extended ≡ s.extended
unfolding release_key
release_key-extended key s = ground arith

-- The prefix of the extended codes has the bit of a released key, so no code ever sets the flag
-- EXTENDED.
pub kbtoa-extended :
    (indeterminate code : ℕ) (s : ScanState)
    → s.extended ≡ false
    → (kbtoa indeterminate code s).1.extended ≡ false
unfolding kbtoa
kbtoa-extended indeterminate code s e = ground (arith, release_key-extended (code % 0x80) s)
