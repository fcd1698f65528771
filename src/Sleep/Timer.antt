-- ===== src/Sleep/Timer.antt =====
-- The timer of c/sleep.c: after how many ticks it comes due.
use bkernel.Base.{
  ℕ, zero, suc, ◌+◌, ◌*◌, ◌≤◌, ◌<◌, ◌≡◌, ◌≢◌, refl, ap, Bool, true, false, ◌||◌, add32, sub32,
  word_mod, arith,
}
use bkernel.Kernel.{Kernel, null, update, Cmd, done, ◌>>=◌, pure, Returns, done-Returns, with_next}
use bkernel.Sleep.{tick, sleep, sleep_to_slice, with_delta}

-- `n` ticks in a row, and whether any of them came due.
unfoldable pub ticks : ℕ → Cmd Bool
ticks zero = pure false
ticks (suc n) = do due ← tick; later ← ticks n; pure (due || later)

-- The time slices of `sleep_to_slice` are the tenths of the milliseconds, rounded up.
pub sleep_to_slice_bounds :
    (ms : ℕ) → ms < word_mod → (ms ≤ 10 * sleep_to_slice ms) × (10 * sleep_to_slice ms < ms + 10)
unfolding sleep_to_slice
sleep_to_slice_bounds ms h = ground arith

module _ (k : Kernel) (some_sleeper : k.sleep_q ≢ null) where
  abbrev delta : ℕ
  delta = (k.proc k.sleep_q).delta_slice

  pub tick_early :
      suc k.slice_elapsed ≢ delta
      → suc k.slice_elapsed < word_mod
      → tick k ≡ done false (record k { slice_elapsed = suc k.slice_elapsed })
  unfolding tick
  tick_early h w = ground arith

  pub tick_due :
      suc k.slice_elapsed ≡ delta
      → delta < word_mod
      → tick k ≡ done true (record k { slice_elapsed = 0 })
  unfolding tick
  tick_due h w = ground arith

ticks_quiet :
    (n : ℕ) (k : Kernel)
    → k.sleep_q ≢ null
    → k.slice_elapsed + n < word_mod
    → ((m : ℕ) → m < n → suc k.slice_elapsed + m ≢ (k.proc k.sleep_q).delta_slice)
    → ticks n k ≡ done false (record k { slice_elapsed = k.slice_elapsed + n })
unfolding ticks
ticks_quiet zero k s w miss = ground arith
ticks_quiet (suc n) k s w miss =
    let one = tick_early k s (λ e. miss 0 (omega arith) (omega arith)) (omega arith) in
    let rest =
      ticks_quiet n (record k { slice_elapsed = suc k.slice_elapsed }) s (omega arith)
        (λ m h e. miss (suc m) (omega arith) (omega arith)) in
    rw (one) (rw rest (ap (λ t. done false (record k { slice_elapsed = t })) (omega arith)))

module _ (k : Kernel) (some_sleeper : k.sleep_q ≢ null) (n : ℕ) where
  abbrev head_delta : ℕ
  head_delta = (k.proc k.sleep_q).delta_slice

  -- While fewer ticks have been counted than the head of the sleep queue waits for, the timer comes
  -- due with the tick that makes up the number, with none before it, and starts to count anew.
  pub tick-on_time :
      k.slice_elapsed + suc n ≡ head_delta
      → head_delta < word_mod
      → (ticks n k ≡ done false (record k { slice_elapsed = k.slice_elapsed + n }))
        × (tick (record k { slice_elapsed = k.slice_elapsed + n })
            ≡ done true (record k { slice_elapsed = 0 }))
  tick-on_time h w = (
    ticks_quiet n k some_sleeper (omega arith) (λ m lt e. omega arith),
    tick_due (record k { slice_elapsed = k.slice_elapsed + n }) some_sleeper (omega arith) w,
  )

  -- Once as many ticks have been counted as the head waits for, the timer does not come due again
  -- before the count wraps round at 2 ^ 32.
  pub tick-overdue :
      head_delta ≤ k.slice_elapsed
      → k.slice_elapsed + n < word_mod
      → ticks n k ≡ done false (record k { slice_elapsed = k.slice_elapsed + n })
  tick-overdue h w = ticks_quiet n k some_sleeper w (λ m lt e. omega arith)

-- A process that asks for less time than the head of the sleep queue waits for, and for no more than
-- the ticks that are counted already, becomes the head, and the timer does not come due for it before
-- the count wraps round at 2 ^ 32.
pub sleep-starves :
    (k : Kernel) (p n : ℕ)
    → k.sleep_q ≢ null
    → p ≢ null
    → p ≢ k.sleep_q
    → (k.proc p).delta_slice < (k.proc k.sleep_q).delta_slice
    → (k.proc p).delta_slice ≤ k.slice_elapsed
    → k.slice_elapsed + n < word_mod
    → Returns
        (λ _ k'.
          (k'.sleep_q ≡ p)
          × (ticks n k' ≡ done false (record k' { slice_elapsed = k'.slice_elapsed + n })))
        (sleep p k)
unfolding sleep
sleep-starves k p n s np ne less over w =
    let q = k.sleep_q in
    let f =
      update k.proc q
        (with_delta (sub32 (k.proc q).delta_slice (k.proc p).delta_slice) (k.proc q)) in
    let k' : Kernel = record k { proc = update f p (with_next q (f p)); sleep_q = p } in
    let left = sub32 (k.proc q).delta_slice (k.proc p).delta_slice in
    done-Returns {a = add32 (k.proc p).delta_slice left} {k = k'} (ground arith)
      (refl, tick-overdue k' np n (ground arith) w)
