-- ===== src/Signal/Deliver.antt =====
-- A signal handler runs on a stack of its own, above that of the process: `sigdeliver` and the way
-- back through `sigreturn`.
use bkernel.Base.{
  ℕ, ◌+◌, ◌-◌, ◌≤◌, ◌<◌, ◌≡◌, ◌≢◌, ◌⊎◌, refl, sym, ap, ◌∙◌, subst, fun_ext, suc, word_mod, sub32,
  get_or, bit_and, arith, some, neg,
}
use bkernel.Kernel.{
  Pcb, Kernel, Image, null, sig_sz, sig_success, update, done, Returns, done-Returns,
}
use bkernel.Disp.{get_proc}
use bkernel.Create.{frame_size, initial_eflags}
use bkernel.Signal.Mask.{not32, fill, highest, mask_rounds}
use bkernel.Signal.{sig_arg_size, push_sig_arg, push_frame, sigdeliver, sigcease, ceased_mask}
use bkernel.Signal.Restore.{from_level, running, sigcease-Restores_lem}

module _ (image : Image) where
  abbrev arg_words : (ℕ → ℕ) → ℕ → ℕ → Pcb → ℕ → ℕ
  arg_words w base s r =
      update
        (update (update (update (update w (base + 12) r.rc) (base + 8) r.esp) (base + 4) r.esp)
          (base + 0) (get_or r.sig_table s 0))
        (base + 16) r.sig_ignore_mask

  abbrev frame_words : (ℕ → ℕ) → ℕ → ℕ → ℕ
  frame_words w base =
      update
        (update
          (update (update (update w (base + 36) image.cs) (base + 32) image.sigtramp) (base + 12)
            base)
          (base + 8) base)
        (base + 40) initial_eflags

  push_sig_arg_run :
      (k : Kernel) (base s : ℕ) (r : Pcb)
      → base ≢ null
      → push_sig_arg image base s r k ≡ done tt (record k { word = arg_words k.word base s r })
  unfolding push_sig_arg
  push_sig_arg_run k base s r h = ground arith

  push_frame_run :
      (k : Kernel) (base : ℕ)
      → base ≢ null
      → push_frame image base k ≡ done tt (record k { word = frame_words k.word base })
  unfolding push_frame
  push_frame_run k base h = ground arith

module _ (image : Image) (k : Kernel) (p pid s level : ℕ) where
  abbrev r : Pcb
  r = k.proc p

  abbrev args : ℕ
  args = r.esp - sig_arg_size

  -- What `sigdeliver` leaves behind: the stack pointer lies below a frame that starts `sigtramp` and
  -- below its arguments, which hold the handler and the old stack pointer, return code and mask.
  pub record Delivered (k' : Kernel) : Type 0 where
    pub stack : (k'.proc p).esp + frame_size + sig_arg_size ≡ r.esp
    pub trampoline : k'.word ((k'.proc p).esp + 32) ≡ image.sigtramp
    pub handler : k'.word (args + 0) ≡ get_or r.sig_table s 0
    pub old_esp : k'.word (args + 8) ≡ r.esp
    pub old_rc : k'.word (args + 12) ≡ r.rc
    pub old_mask : k'.word (args + 16) ≡ r.sig_ignore_mask
    pub mask : (k'.proc p).sig_ignore_mask ≡ from_level (suc s)
    pub frame : (a : ℕ) → (a < (k'.proc p).esp) ⊎ (r.esp ≤ a) → k'.word a ≡ k.word a
    pub rest : k' ≡ record k {
      word = k'.word;
      proc =
          update k.proc p
            (record r { esp = (k'.proc p).esp; sig_ignore_mask = (k'.proc p).sig_ignore_mask });
    }

  abbrev delivered : Kernel
  delivered =
      let f =
        update k.proc p
          (record r { sig_ignore_mask = bit_and r.sig_ignore_mask (not32 (fill s 1)) }) in
      record k {
        word = frame_words image (arg_words image k.word args s r) (args - frame_size);
        proc = update f p (record (f p) { esp = args - frame_size });
      }

  sigdeliver_run :
      get_proc pid k ≡ done p k
      → p ≢ null
      → s < sig_sz
      → frame_size + sig_arg_size < r.esp
      → r.esp < word_mod
      → sigdeliver image pid s k ≡ done sig_success delivered
  unfolding sigdeliver
  sigdeliver_run here np hs room w =
      let f =
        update k.proc p
          (record r { sig_ignore_mask = bit_and r.sig_ignore_mask (not32 (fill s 1)) }) in
      let e : sub32 r.esp sig_arg_size ≡ args = omega arith in
      let e' : sub32 args frame_size ≡ args - frame_size = omega arith in
      ground (
        arith,
        here,
        e,
        e',
        push_sig_arg_run image k args s r (omega arith),
        push_frame_run image (record k { word = arg_words image k.word args s r; proc = f })
            (args - frame_size) (omega arith),
      )

  -- A signal number below SIG_SZ is delivered without a fault to a process that `get_proc` finds,
  -- where its stack pointer is a word, its stack has room for the frame and the arguments, and it
  -- ignores the signals below a level that is no higher than the signal. The process is set to run
  -- `sigtramp` on a new frame, with the handler, the old stack pointer, the old return code and the
  -- old mask as its arguments; it ignores all signals up to this one from then on. No word outside
  -- the frame and the arguments changes, and nothing else of the state but the stack pointer and the
  -- mask.
  pub sigdeliver-Delivered :
      get_proc pid k ≡ done p k
      → p ≢ null
      → s < sig_sz
      → level ≤ s
      → r.sig_ignore_mask ≡ from_level level
      → frame_size + sig_arg_size < r.esp
      → r.esp < word_mod
      → Returns (λ rc k'. (rc ≡ sig_success) × Delivered k') (sigdeliver image pid s k)
  sigdeliver-Delivered here np hs hl m room w =
      done-Returns {k = delivered} (sigdeliver_run here np hs room w) (
        refl,
        record {
          stack = ground arith;
          trampoline = ground arith;
          handler = ground arith;
          old_esp = ground arith;
          old_rc = ground arith;
          old_mask = ground arith;
          frame = λ a out. ground arith;
          mask = ground (arith, m, (sigcease-Restores_lem s level hs hl).masked);
          rest = ap (λ f. record delivered { proc = f }) (fun_ext λ a. ground arith);
        },
      )

module _ (k : Kernel) (p s level : ℕ) where
  -- The way back. Whatever the process and the others have done to the rest of the state, a process
  -- that still has the mask of the handler gets back the mask that it had before the delivery,
  -- and keeps all else.
  pub sigcease-restores :
      p ≢ null
      → s < sig_sz
      → level ≤ s
      → (k.proc p).sig_ignore_mask ≡ from_level (suc s)
      → sigcease p (from_level level) k
        ≡ done tt (record k {
          proc = update k.proc p (record (k.proc p) { sig_ignore_mask = from_level level });
        })
  unfolding sigcease
  sigcease-restores np hs hl m =
      let t = sigcease-Restores_lem s level hs hl in
      let e : running s level ≡ (k.proc p).sig_ignore_mask = t.masked ∙ sym m in
      let found : highest mask_rounds (not32 (k.proc p).sig_ignore_mask) (neg 1) ≡ some s =
        subst (λ v. highest mask_rounds (not32 v) (neg 1) ≡ some s) e t.found in
      let restored : ceased_mask (k.proc p).sig_ignore_mask s (from_level level)
          ≡ from_level level =
        subst (λ v. ceased_mask v s (from_level level) ≡ from_level level) e t.restored in
      ground (arith, found, restored)
