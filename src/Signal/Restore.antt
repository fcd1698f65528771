-- ===== src/Signal/Restore.antt =====
-- The masks of c/signal.c: which signal is picked, and what a handler's return restores.
use bkernel.Base.{
  ◌+◌, inl, inr, Bool-cases, ==→eq, ℕ, zero, suc, ◌-◌, ◌^◌, ◌≤◌, ◌<◌, ◌≡◌, refl, none, some, Bool,
  true, false, ◌&&◌, ◌||◌, ◌==◌, leb, bit_and, neg, word_mod, arith,
}
use bkernel.Signal.Mask.{not32, double, fill, highest, mask_rounds}
use bkernel.Signal.{ceased_mask}

-- All signals from `level` up: what the ignore mask lets through while a handler of the signal
-- below runs (all of them at level 0).
abbrev pub from_level : ℕ → ℕ
from_level level = word_mod - 2 ^ level

-- The test holds of `left` numbers in a row.
every_from : ℕ → ℕ → (ℕ → Bool) → Bool
every_from start zero test = true
every_from start (suc left) test =
    let later = every_from (start + 1) left test in test start && later

every_from-hit :
    (left start : ℕ) (test : ℕ → Bool) (s : ℕ)
    → start ≤ s
    → s < start + left
    → every_from start left test ≡ true
    → test s ≡ true
unfolding every_from
every_from-hit zero start test s lo hi h = absurd (omega arith)
every_from-hit (suc left) start test s lo hi h = elim (Bool-cases (s == start)) [
  | inl here ↦ rw (==→eq s start here) (ground arith)
  | inr on ↦ every_from-hit left (start + 1) test s (ground arith) (omega arith) (ground arith)
]

highest_is : ℕ → ℕ → Bool
highest_is mask s = elim (highest mask_rounds mask (neg 1)) [ none ↦ false | some n ↦ n == s ]

highest_is-some :
    (mask s : ℕ) → highest_is mask s ≡ true → highest mask_rounds mask (neg 1) ≡ some s
unfolding highest_is
highest_is-some mask s h = ground arith

-- The mask while a handler of signal `s` runs, entered at `level`.
abbrev pub running : ℕ → ℕ → ℕ
running s level = bit_and (from_level level) (not32 (fill s 1))

restores : ℕ → ℕ → Bool
restores s level =
    leb (suc s) level
    || ((running s level == from_level (suc s))
        && highest_is (not32 (running s level)) s
        && (ceased_mask (running s level) s (from_level level) == from_level level))

restores_table : every_from 0 32 (λ s. every_from 0 32 (restores s)) ≡ true
unfolding every_from restores highest_is highest double fill ceased_mask
restores_table = refl

restores_lem : (s level : ℕ) → s < 32 → level ≤ s → restores s level ≡ true
restores_lem s level hs hl =
    let row =
      every_from-hit 32 0 (λ s. every_from 0 32 (restores s)) s (omega arith) hs restores_table in
    every_from-hit 32 0 (restores s) level (omega arith) (omega arith) row

-- The facts that the table gives, for a signal that is not ignored at the level.
pub record Restores (s level : ℕ) : Type 0 where
  pub masked : running s level ≡ from_level (suc s)
  pub found : highest mask_rounds (not32 (running s level)) (neg 1) ≡ some s
  pub restored : ceased_mask (running s level) s (from_level level) ≡ from_level level

pub sigcease-Restores_lem : (s level : ℕ) → s < 32 → level ≤ s → Restores s level
unfolding restores
sigcease-Restores_lem s level hs hl = record {
  masked = ground (arith, restores_lem s level hs hl);
  found = highest_is-some _ s (ground (arith, restores_lem s level hs hl));
  restored = ground (arith, restores_lem s level hs hl);
}
