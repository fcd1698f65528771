-- ===== src/Tests/Ownership.antt =====
-- Examples for c/di_calls.c: process 4 opens the echoing keyboard.
use bkernel.Base.{ℕ, ◌≡◌, ◌⊎◌, refl, List, [], ◌∷◌, arith}
use bkernel.Kernel.{Devsw, Returns, done, sys_err}
use bkernel.Kbd.Driver.{dev_success}
use bkernel.Devices.{di_open, di_close}
use bkernel.Devices.Exclusive.{Closed, tries, refusals, di_open-excludes, di_close-di_open}
use bkernel.Tests.Sample.{kernel}

abbrev necho : Devsw
necho = record { dvowner = 0; dvnum = 0 }

abbrev echo : Devsw
echo = record { dvowner = 0; dvnum = 1 }

abbrev calls : List (ℕ × ℕ)
calls = (2, 0) ∷ (4, 1) ∷ (3, 7) ∷ []

di_open-excludes_example :
    Returns
      (λ fd k'. (fd ≡ sys_err) ⊎ (tries calls k' ≡ done (refusals calls) k'))
      (di_open 4 1 kernel)
di_open-excludes_example =
    di_open-excludes kernel 4 necho echo (omega arith) refl 1 calls (omega arith) (ground arith)
      (omega arith)

di_close-di_open_example :
    Returns
      (λ fd k'.
        (fd ≡ sys_err)
        ⊎ Returns (λ rc k''. (rc ≡ dev_success) × Closed kernel k'') (di_close 4 fd k'))
      (di_open 4 1 kernel)
di_close-di_open_example =
    di_close-di_open kernel 4 necho echo (omega arith) refl 1 (omega arith) (omega arith) refl
