-- ===== src/Devices/Exclusive.antt =====
-- The keyboard has one owner at a time: `di_open` and `di_close` of c/di_calls.c.
use bkernel.Base.{
  sym, ap, ◌∙◌, subst, get_elem?-lt, get_elem?-set_self, set_back, get_or, ==→eq, ℕ, zero, suc, ◌<◌,
  ◌≡◌, ◌≢◌, ◌⊎◌, inl, inr, refl, List, [], ◌∷◌, some, false, ◌==◌, arith, neg, length, get_elem?,
  set, Bool-cases, All, ltb, word_mod,
}
use bkernel.Kernel.{
  Kernel, Devsw, done, null, dev_sz, fd_sz, sys_err, update, Returns, done-Returns, weaken, Cmd,
  ◌>>=◌, pure,
}
use bkernel.Kbd.Driver.{kbd_close, dev_success}
use bkernel.Devices.{di_open, di_close, any_owned, set_owner, with_fd}
use bkernel.Devices.Opened.{taken, Opened, di_open_busy, di_open-Opened}

-- The devices and the processes are as in `k`.
abbrev pub Closed : Kernel → Kernel → Type 0
Closed k k'' = (k''.dev_table ≡ k.dev_table) × ((a : ℕ) → k''.proc a ≡ k.proc a)

-- A number that is neither in the table nor one past its end is refused.
di_open_no_device :
    (k : Kernel) (q m : ℕ) → dev_sz < m → m < word_mod → di_open q m k ≡ done sys_err k
unfolding di_open
di_open_no_device k q m h w = ground arith

-- Calls of `di_open` in a row, each of a process and for a device, and what they return.
pub tries : List (ℕ × ℕ) → Cmd (List ℕ)
tries [] = pure []
tries ((q, m) ∷ calls) = do rc ← di_open q m; rcs ← tries calls; pure (rc ∷ rcs)

-- Each call returns SYSERR.
pub refusals : List (ℕ × ℕ) → List ℕ
refusals [] = []
refusals (call ∷ calls) = sys_err ∷ refusals calls

-- A word, and not the number of devices, which `di_open` takes for that of a device.
abbrev pub IsNumber : ℕ × ℕ → Type 0
IsNumber call = (call.1 < word_mod) × (call.1 ≢ dev_sz)

tries_refused :
    (k : Kernel) (calls : List (ℕ × ℕ))
    → ((q m : ℕ) → m < word_mod → m ≢ dev_sz → di_open q m k ≡ done sys_err k)
    → All IsNumber calls
    → tries calls k ≡ done (refusals calls) k
unfolding tries refusals
tries_refused k [] h all = refl
tries_refused k ((q, m) ∷ calls) h all =
    rw (h q m all.0.0 all.0.1, tries_refused k calls h all.1) refl

module _ (k : Kernel) (p : ℕ) (d e : Devsw) (some_process : p ≢ null)
    (devices : k.dev_table ≡ d ∷ e ∷ []) where
  excluded :
      (n q m fd : ℕ) (k' : Kernel)
      → n < dev_sz
      → m < word_mod
      → m ≢ dev_sz
      → (k.proc p).pid ≢ 0
      → Opened k p n d e fd k'
      → di_open q m k' ≡ done sys_err k'
  unfolding any_owned
  excluded n q m fd k' hn wm hm pid o = elim (Bool-cases (ltb m dev_sz)) [
    | inl device ↦ owned (ground arith) n hn refl
    | inr other ↦ di_open_no_device k' q m (ground arith) wm
  ]
    where
      owned : m < dev_sz → (i : ℕ) → i < dev_sz → n ≡ i → di_open q m k' ≡ done sys_err k'
      owned ok zero hi at =
          let o' : Opened k p 0 d e fd k' = subst (λ j. Opened k p j d e fd k') at o in
          di_open_busy k' q m (record d { dvowner = (k.proc p).pid }) e ok o'.table (ground arith)
      owned ok (suc zero) hi at =
          let o' : Opened k p 1 d e fd k' = subst (λ j. Opened k p j d e fd k') at o in
          di_open_busy k' q m d (record e { dvowner = (k.proc p).pid }) ok o'.table (ground arith)
      owned ok (suc (suc i)) hi at = absurd (omega arith)

  -- The process's own block in such a state.
  Opened-block :
      (n fd : ℕ) (k' : Kernel) → Opened k p n d e fd k' → k'.proc p ≡ with_fd fd n (k.proc p)
  Opened-block n fd k' o = ap (λ f. f p) o.proc ∙ ground arith

  di_close_run :
      (n fd : ℕ) (k' : Kernel)
      → n < dev_sz
      → (k.proc p).pid ≢ 0
      → fd < fd_sz
      → Opened k p n d e fd k'
      → get_elem? (k'.proc p).fd_table fd ≡ some n
      → di_close p fd k'
        ≡ done dev_success (record k' {
          dev_table = set (taken k p n d e) n (record (get_or (d ∷ e ∷ []) n d) { dvowner = 0 });
          proc = update k'.proc p (with_fd fd (neg 1) (k'.proc p));
          kbd = record k'.kbd { kbd_echo_flag = false; kbd_eof_flag = false; kbd_irq = false };
        })
  unfolding di_close set_owner kbd_close
  di_close_run zero fd k' hn pid hf o at =
      let own = ap (λ r. r.pid) (Opened-block 0 fd k' o) in ground arith
  di_close_run (suc zero) fd k' hn pid hf o at =
      let own = ap (λ r. r.pid) (Opened-block 1 fd k' o) in ground arith
  di_close_run (suc (suc n)) fd k' hn pid hf o at = absurd (omega arith)

  -- While a process, whose pid is not 0, has one of the two devices open, and no other call of the
  -- device interface is made, no call of `di_open` succeeds: any number of calls that follow a
  -- successful one, by any processes, each return SYSERR and change nothing. The numbers that they
  -- name are words, those of the two devices and those past the table, but for the number of devices
  -- itself, for which `di_open` reads past the end of the table.
  pub di_open-excludes :
      (n : ℕ) (calls : List (ℕ × ℕ))
      → n < dev_sz
      → All IsNumber calls
      → (k.proc p).pid ≢ 0
      → Returns
          (λ fd k'. (fd ≡ sys_err) ⊎ (tries calls k' ≡ done (refusals calls) k'))
          (di_open p n k)
  di_open-excludes n calls hn all pid =
      weaken (di_open-Opened k p d e some_process devices n hn) fails
    where
      fails :
          (fd : ℕ) (k' : Kernel)
          → ((fd ≡ sys_err) × (k' ≡ k)) ⊎ Opened k p n d e fd k'
          → (fd ≡ sys_err) ⊎ (tries calls k' ≡ done (refusals calls) k')
      fails fd k' (inl failed) = inl failed.0
      fails fd k' (inr o) =
          inr (tries_refused k' calls (λ q m w h. excluded n q m fd k' hn w h pid o) all)

  -- The device is free again, since it was before,
  table_back :
      (n : ℕ)
      → n < dev_sz
      → any_owned (d ∷ e ∷ []) ≡ false
      → set (taken k p n d e) n (record (get_or (d ∷ e ∷ []) n d) { dvowner = 0 }) ≡ k.dev_table
  unfolding any_owned
  table_back zero h idle =
      let free : d.dvowner ≡ 0 = ground arith in
      rw devices (ap (λ x. record d { dvowner = x } ∷ e ∷ []) (sym free))
  table_back (suc zero) h idle =
      let free : e.dvowner ≡ 0 = ground arith in
      rw devices (ap (λ x. d ∷ record e { dvowner = x } ∷ []) (sym free))
  table_back (suc (suc n)) h idle = absurd (omega arith)

  -- and so is the descriptor.
  block_back :
      (n fd : ℕ) (k' : Kernel) (a : ℕ)
      → Opened k p n d e fd k'
      → update k'.proc p (with_fd fd (neg 1) (k'.proc p)) a ≡ k.proc a
  block_back n fd k' a o = elim (Bool-cases (a == p)) [
    | inl own ↦
        rw (own, ==→eq a p own, Opened-block n fd k' o)
          (ap (λ t. record (k.proc p) { fd_table = t })
            (set_back (k.proc p).fd_table fd (neg 1) n o.found))
    | inr other ↦ rw other (ap (λ f. f a) o.proc ∙ rw other refl)
  ]

  -- `di_close` undoes `di_open`: after a successful call the process, if its table has FD_SZ
  -- descriptors and its pid is not 0, can close what it was given, and then the table of devices and
  -- every process are as they were.
  pub di_close-di_open :
      (n : ℕ)
      → n < dev_sz
      → (k.proc p).pid ≢ 0
      → length (k.proc p).fd_table ≡ fd_sz
      → Returns
          (λ fd k'.
            (fd ≡ sys_err)
            ⊎ Returns (λ rc k''. (rc ≡ dev_success) × Closed k k'') (di_close p fd k'))
          (di_open p n k)
  di_close-di_open n hn pid len = weaken (di_open-Opened k p d e some_process devices n hn) closes
    where
      closes :
          (fd : ℕ) (k' : Kernel)
          → ((fd ≡ sys_err) × (k' ≡ k)) ⊎ Opened k p n d e fd k'
          → (fd ≡ sys_err)
            ⊎ Returns (λ rc k''. (rc ≡ dev_success) × Closed k k'') (di_close p fd k')
      closes fd k' (inl failed) = inl failed.0
      closes fd k' (inr o) =
          let room = get_elem?-lt (k.proc p).fd_table fd (neg 1) o.found in
          let at = get_elem?-set_self (k.proc p).fd_table fd (neg 1) n o.found in
          inr (
            done-Returns
              (di_close_run n fd k' hn pid (omega arith) o
                (ap (λ r. get_elem? r.fd_table fd) (Opened-block n fd k' o) ∙ at))
              (refl, (table_back n hn o.idle, λ a. block_back n fd k' a o)))
