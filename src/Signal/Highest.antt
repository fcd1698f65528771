-- ===== src/Signal/Highest.antt =====
-- The loop of c/signal.c that looks for the highest bit of a mask.
use bkernel.Base.{
  ℕ, zero, suc, ◌+◌, ◌*◌, ◌/◌, ◌%◌, ◌^◌, ◌≤◌, ◌<◌, ◌≡◌, ◌≢◌, refl, ◌∙◌, ap, some, ◌==◌, add32, neg,
  bit_and, word_mod, arith, Bool-cases, inl, inr, ==→eq, ==→ne, ne→==,
}
use native.Mathlib.Nat.{pow-le-pow_right}
use bkernel.Kernel.{Image, Kernel, null, update}
use bkernel.Signal.{sighigh, sigdeliver}
use bkernel.Signal.Mask.{highest, mask_rounds, double, not32}

-- The mask has `bits` bits, and the loop counts them.
record Counted (n mask sig_no : ℕ) : Type 0 where
  pub bits : ℕ
  pub found : highest n mask sig_no ≡ some (add32 sig_no bits)
  pub few : bits < n
  pub above : mask < 2 ^ bits
  pub none : mask ≡ 0 → bits ≡ 0
  pub below : mask ≢ 0 → 2 ^ bits ≤ 2 * mask

highest-Counted :
    (m n mask sig_no : ℕ) → m < n → mask < 2 ^ m → sig_no < word_mod → Counted n mask sig_no
unfolding highest
highest-Counted m zero mask s h l w = absurd (omega arith)
highest-Counted zero (suc n) mask s h l w = record {
  bits = 0;
  found = ground arith;
  few = omega arith;
  above = l;
  none = λ z. refl;
  below = λ z. absurd (omega arith);
}
highest-Counted (suc m) (suc n) mask s h l w = elim (Bool-cases (mask == 0)) [
  | inl zeros ↦ record {
    bits = 0;
    found = ground arith;
    few = omega arith;
    above = omega (arith, ==→eq _ _ zeros);
    none = λ z. refl;
    below = λ z. absurd (z (==→eq _ _ zeros));
  }
  | inr more ↦
      let rest =
        highest-Counted m n (mask / 2) (add32 s 1) (omega arith) (omega arith) (omega arith) in
      record {
        bits = suc rest.bits;
        found = rw (more, rest.found) (ap some (omega arith));
        few = omega (arith, rest.few);
        above = omega (arith, rest.above);
        none = λ z. absurd (==→ne _ _ more z);
        below = λ z. elim (Bool-cases (mask / 2 == 0)) [
          | inl last ↦ rw (rest.none (==→eq _ _ last)) (omega arith)
          | inr left ↦ omega (arith, rest.below (==→ne _ _ left))
        ];
      }
]

top_bit :
    (mask bits : ℕ)
    → mask ≢ 0
    → mask < 2 ^ bits
    → 2 ^ bits ≤ 2 * mask
    → (s : ℕ) × (bits ≡ suc s) × (2 ^ s ≤ mask) × (mask < 2 ^ suc s)
top_bit mask zero z above below = absurd (omega arith)
top_bit mask (suc s) z above below = (s, refl, omega arith, above)

-- On a mask with a bit set the loop ends within its rounds, and gives the number of the highest bit
-- that is set.
pub highest-ends :
    (mask : ℕ)
    → mask < word_mod
    → mask ≢ 0
    → (s : ℕ) × (highest mask_rounds mask (neg 1) ≡ some s)
      × (2 ^ s ≤ mask)
      × (mask < 2 ^ suc s)
      × (s < 32)
highest-ends mask l z =
    let c = highest-Counted 32 mask_rounds mask (neg 1) (omega arith) l (omega arith) in
    let t = top_bit mask c.bits z c.above (c.below z) in
    (t.0, c.found ∙ ap some (omega (arith, c.few, t.1)), t.2, t.3, omega (arith, c.few, t.1))

double-pow : (n j : ℕ) → j + n < 32 → double n (2 ^ j) ≡ 2 ^ (j + n)
unfolding double
double-pow zero j h = ap (λ i. 2 ^ i) (omega arith)
double-pow (suc n) j h =
    let small : 2 ^ suc j ≤ 2 ^ 31 =
      pow-le-pow_right {n = 2} (omega arith) {i = suc j} {j = 31} (omega arith) in
    let next : 2 ^ j * 2 % word_mod ≡ 2 ^ suc j = omega (arith, small) in
    rw next (double-pow n (suc j) (omega arith) ∙ ap (λ i. 2 ^ i) (omega arith))

module _ (image : Image) (k : Kernel) (p : ℕ) where
  abbrev pending : ℕ
  pending = (k.proc p).sig_pend_mask

  -- The state with the signal `s` no longer pending.
  abbrev pub taken : ℕ → Kernel
  taken s = record k {
    proc = update k.proc p (record (k.proc p) { sig_pend_mask = bit_and pending (not32 (2 ^ s)) });
  }

  -- With a signal pending, `sighigh` takes the highest one that is, whether the process ignores it or
  -- not, clears its bit, and delivers it.
  pub sighigh-highest :
      p ≢ null
      → pending ≢ 0
      → pending < word_mod
      → (s : ℕ) × (2 ^ s ≤ pending)
        × (pending < 2 ^ suc s)
        × (sighigh image p k ≡ sigdeliver image (k.proc p).pid s (taken s))
  unfolding sighigh
  sighigh-highest n z l =
      let t = highest-ends pending l z in
      let few : t.0 < 32 = t.4 in
      let bit : double t.0 1 ≡ 2 ^ t.0 =
        double-pow t.0 0 (omega (arith, few)) ∙ ap (λ i. 2 ^ i) (omega arith) in
      (
        t.0,
        t.2,
        t.3,
        rw (ne→== p null n, t.1, ne→== t.0 (neg 1) (omega (arith, few)), bit)
            (rw (ne→== p null n) refl),
      )
