-- ===== src/Devices/Opened.antt =====
-- What a call of `di_open` of c/di_calls.c leaves behind.
use bkernel.Base.{
  subst, get_or, ==→eq, ℕ, zero, suc, ◌+◌, ◌<◌, ◌≡◌, ◌≢◌, ◌⊎◌, inl, inr, Option, refl, List, [],
  ◌∷◌, none, some, true, false, ◌==◌, if◌then◌else◌, arith, neg, get_elem?, set, Bool-cases,
}
use bkernel.Kernel.{Kbd, Kernel, Devsw, done, null, dev_sz, sys_err, update, Returns, done-Returns}
use bkernel.Kbd.Driver.{kbd_open, echo_owned}
use bkernel.Devices.{di_open, any_owned, free_fd, set_owner, with_fd}

-- Where one of the two devices has an owner, `di_open` fails, whoever calls.
pub di_open_busy :
    (k : Kernel) (q n : ℕ) (d e : Devsw)
    → n < dev_sz
    → k.dev_table ≡ d ∷ e ∷ []
    → any_owned (d ∷ e ∷ []) ≡ true
    → di_open q n k ≡ done sys_err k
unfolding di_open any_owned
di_open_busy k q zero d e h t b = ground arith
di_open_busy k q (suc zero) d e h t b = ground arith
di_open_busy k q (suc (suc n)) d e h t b = absurd (omega arith)

-- The first free descriptor is free.
free_fd_sound :
    (fds : List ℕ) (i fd : ℕ)
    → free_fd fds i ≡ some fd
    → (j : ℕ) × (fd ≡ i + j) × (get_elem? fds j ≡ some (neg 1))
unfolding free_fd
free_fd_sound [] i fd h = cc
free_fd_sound (major ∷ fds) i fd h = elim (Bool-cases (major == neg 1)) [
  | inl free ↦ (0, ground arith, rw (==→eq major (neg 1) free) refl)
  | inr used ↦
      let (j, at, found) = free_fd_sound fds (i + 1) fd (ground arith) in
      (suc j, omega arith, found)
]

module _ (k : Kernel) (p n : ℕ) (d e : Devsw) where
  -- The table of devices once the device `n` is the process's.
  abbrev pub taken : List Devsw
  taken = set (d ∷ e ∷ []) n (record (get_or (d ∷ e ∷ []) n d) { dvowner = (k.proc p).pid })

  -- The driver's variables after `kbd_open`.
  abbrev pub switched_on : Kbd
  switched_on =
      let b = record k.kbd { kbd_irq = true } in
      if echo_owned taken then record b { kbd_echo_flag = true } else b

  -- What a call that succeeds leaves behind.
  pub record Opened (fd : ℕ) (k' : Kernel) : Type 0 where
    pub found : get_elem? (k.proc p).fd_table fd ≡ some (neg 1)
    pub idle : any_owned (d ∷ e ∷ []) ≡ false
    pub table : k'.dev_table ≡ taken
    pub proc : k'.proc ≡ update k.proc p (with_fd fd n (k.proc p))

module _ (k : Kernel) (p : ℕ) (d e : Devsw) (some_process : p ≢ null)
    (devices : k.dev_table ≡ d ∷ e ∷ []) where
  di_open_free :
      (n fd : ℕ)
      → n < dev_sz
      → any_owned (d ∷ e ∷ []) ≡ false
      → free_fd (k.proc p).fd_table 0 ≡ some fd
      → di_open p n k
        ≡ done fd (record k {
          proc = update k.proc p (with_fd fd n (k.proc p));
          dev_table = taken k p n d e;
          kbd = switched_on k p n d e;
        })
  unfolding di_open any_owned set_owner kbd_open
  di_open_free zero fd h idle free = ground arith
  di_open_free (suc zero) fd h idle free = ground arith
  di_open_free (suc (suc n)) fd h idle free = absurd (omega arith)

  di_open_full :
      (n : ℕ)
      → n < dev_sz
      → any_owned (d ∷ e ∷ []) ≡ false
      → free_fd (k.proc p).fd_table 0 ≡ none
      → di_open p n k ≡ done sys_err k
  unfolding di_open any_owned
  di_open_full zero h idle full = ground arith
  di_open_full (suc zero) h idle full = ground arith
  di_open_full (suc (suc n)) h idle full = absurd (omega arith)

  -- A call of `di_open` changes nothing, or the device and a descriptor are the process's.
  pub di_open-Opened :
      (n : ℕ)
      → n < dev_sz
      → Returns (λ fd k'. ((fd ≡ sys_err) × (k' ≡ k)) ⊎ Opened k p n d e fd k') (di_open p n k)
  di_open-Opened n h = elim (Bool-cases (any_owned (d ∷ e ∷ []))) [
    | inl busy ↦ done-Returns (di_open_busy k p n d e h devices busy) (inl (refl, refl))
    | inr idle ↦ by_descriptor idle (free_fd (k.proc p).fd_table 0) refl
  ]
    where
      by_descriptor :
          any_owned (d ∷ e ∷ []) ≡ false
          → (o : Option ℕ) → free_fd (k.proc p).fd_table 0 ≡ o
          → Returns (λ fd k'. ((fd ≡ sys_err) × (k' ≡ k)) ⊎ Opened k p n d e fd k') (di_open p n k)
      by_descriptor idle none full = done-Returns (di_open_full n h idle full) (inl (refl, refl))
      by_descriptor idle (some fd) free =
          let (j, at, found) = free_fd_sound (k.proc p).fd_table 0 fd free in
          done-Returns (di_open_free n fd h idle free) (
            inr record {
              found =
                  subst (λ x. get_elem? (k.proc p).fd_table x ≡ some (neg 1)) (omega arith) found;
              idle = idle;
              table = refl;
              proc = refl;
            })
