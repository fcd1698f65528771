-- ===== src/Tests/Signals.antt =====
-- Examples for c/signal.c.
use bkernel.Base.{ℕ, suc, ◌^◌, ◌≤◌, ◌<◌, ◌≡◌, refl, arith, neg, some}
use bkernel.Signal.Mask.{highest, mask_rounds}
use bkernel.Signal.Highest.{highest-ends, taken, sighigh-highest}
use bkernel.Kernel.{Kernel, done, Returns, sig_success, update}
use bkernel.Disp.{get_proc, scan_table}
use bkernel.Signal.{sigdeliver, sigcease, sighigh}
use bkernel.Signal.Restore.{from_level}
use bkernel.Signal.Deliver.{Delivered, sigdeliver-Delivered, sigcease-restores}
use bkernel.Tests.Sample.{kernel, image}

get_four : get_proc 4 kernel ≡ done 4 kernel
unfolding get_proc scan_table
get_four = refl

sigdeliver-Delivered_example :
    Returns
      (λ rc k'. (rc ≡ sig_success) × Delivered image kernel 4 4 7 0 k')
      (sigdeliver image 4 7 kernel)
sigdeliver-Delivered_example =
    sigdeliver-Delivered image kernel 4 4 7 0 get_four (omega arith) (omega arith) (omega arith)
      refl (omega arith) (omega arith)

abbrev handling : Kernel
handling = record kernel {
  proc = update kernel.proc 4 (record (kernel.proc 4) { sig_ignore_mask = from_level 8 });
}

sigcease-restores_example :
    sigcease 4 (from_level 3) handling
    ≡ done tt (record handling {
      proc = update handling.proc 4 (record (handling.proc 4) { sig_ignore_mask = from_level 3 });
    })
sigcease-restores_example =
    sigcease-restores handling 4 7 3 (omega arith) (omega arith) (omega arith) refl

highest-ends_example :
    (s : ℕ) × (highest mask_rounds 12 (neg 1) ≡ some s) × (2 ^ s ≤ 12) × (12 < 2 ^ suc s) × (s < 32)
highest-ends_example = highest-ends 12 (omega arith) (omega arith)

abbrev pending : Kernel
pending = record kernel {
  proc = update kernel.proc 4 (record (kernel.proc 4) { sig_pend_mask = 12 });
}

sighigh-highest_example :
    (s : ℕ) × (2 ^ s ≤ 12)
    × (12 < 2 ^ suc s)
    × (sighigh image 4 pending ≡ sigdeliver image 4 s (taken image pending 4 s))
sighigh-highest_example = sighigh-highest image pending 4 (omega arith) (omega arith) (omega arith)
