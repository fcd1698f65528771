-- ===== src/Disp/Lookup.antt =====
-- The search of c/disp.c for the process with a pid.
use bkernel.Base.{
  ℕ, zero, suc, ◌+◌, ◌<◌, ◌≡◌, ◌≢◌, refl, sym, subst, ◌==◌, arith, Bool-cases, inl, inr, ==→eq,
  ==→ne,
}
use bkernel.Kernel.{Kernel, null, proc_sz, Returns, returns}
use bkernel.Queue.Chain.{Procs}
use bkernel.Queue.Valid.{IsSlot}
use bkernel.Disp.{scan_table, get_proc}

-- The answer for a table: NULL if no slot has the pid, the first slot that has it otherwise.
pub data Answer (f : Procs) (pid : ℕ) : ℕ → Type 0 where
  absent : ((a : ℕ) → IsSlot a → (f a).pid ≢ pid) → Answer f pid null
  first :
      (p : ℕ)
      → IsSlot p
      → (f p).pid ≡ pid
      → ((a : ℕ) → 0 < a → a < p → (f a).pid ≢ pid)
      → Answer f pid p

scan_table-Answer :
    (n : ℕ) (f : Procs) (pid i : ℕ)
    → n + i ≡ proc_sz
    → ((a : ℕ) → 0 < a → a < i + 1 → (f a).pid ≢ pid)
    → Answer f pid (scan_table n f pid i)
unfolding scan_table
scan_table-Answer zero f pid i h none = absent (λ a s. none a (omega (arith, s)) (omega (arith, s)))
scan_table-Answer (suc n) f pid i h none = elim (Bool-cases ((f (i + 1)).pid == pid)) [
  | inl here ↦ rw here (first (i + 1) (omega arith) (==→eq _ _ here) none)
  | inr other ↦ rw other (
      scan_table-Answer n f pid (i + 1) (omega arith) (λ a pos lt. elim (Bool-cases (a == i + 1)) [
        | inl same ↦ subst (λ b. (f b).pid ≢ pid) (sym (==→eq _ _ same)) (==→ne _ _ other)
        | inr less ↦ none a pos (omega (arith, ==→ne _ _ less))
      ]))
]

-- `get_proc` gives the first process of the table that has the pid, and NULL where none has it; it
-- changes nothing.
pub get_proc-Answer :
    (k : Kernel) (pid : ℕ) → Returns (λ p k'. Answer k.proc pid p × (k' ≡ k)) (get_proc pid k)
unfolding get_proc
get_proc-Answer k pid =
    returns (scan_table-Answer proc_sz k.proc pid 0 refl (λ a pos lt. absurd (omega arith)), refl)
