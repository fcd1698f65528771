-- ===== src/Dispatch/Ticks.antt =====
-- What the sleep device does to the sleeping processes at a timer interrupt, in the dispatcher of c/disp.c.
use bkernel.Base.{
  ℕ, suc, ◌+◌, ◌<◌, ◌≡◌, ◌≢◌, refl, sym, subst, ap, List, [], ◌∷◌, ◌++◌, arith, Apart, NotIn,
  append-nil, Bool-cases, inl, inr, length, ltb,
}
use bkernel.Kernel.{Kernel, null, done, Returns, done-Returns, weaken}
use bkernel.Queue.Chain.{head_of_Chain}
use bkernel.Queue.Walk.{rounds, count_from-Chain}
use bkernel.Queue.Valid.{IsQueue, length-lt-rounds}
use bkernel.Sleep.{sleeper, wake}
use bkernel.Sleep.Delta.{Alarm, Fits}
use bkernel.Sleep.Order.{IsEarly}
use bkernel.Sleep.Timer.{tick_early, tick_due}
use bkernel.Sleep.Wake.{due_now, still, settled, SameDeltas, wake-Woken_codes}
use bkernel.Sleep.Clock.{
  remaining, rung, waiting, remaining_quiet, remaining_due, Fits-still, IsPending-still, Apart-due,
}
use bkernel.Dispatch.{timer_tick}

-- The ready queue and the sleep list as the timer wants them.
pub record IsClocked (k : Kernel) (xs ys : List ℕ) : Type 0 where
  pub ready : IsQueue k.proc k.ready_q xs
  pub asleep : IsQueue k.proc k.sleep_q ys
  pub fits : Fits k.proc 0 ys
  pub early : IsEarly k.proc k.slice_elapsed ys
  pub apart : Apart xs ys

-- The slices that each process has to wait.
unfoldable pub due_in : Kernel → List ℕ → List Alarm
due_in k ys = remaining k.proc k.slice_elapsed ys

-- What a tick leaves behind: who has slept its time is ready, and each other process has one slice
-- less to wait.
pub record Ticked (k : Kernel) (xs ys : List ℕ) (k' : Kernel) : Type 0 where
  pub order : List ℕ
  pub clocked : IsClocked k' (xs ++ rung (due_in k ys)) order
  pub left : due_in k' order ≡ waiting (due_in k ys)
  pub fields : (a : ℕ) → settled (k'.proc a) ≡ settled (k.proc a)
  pub codes : (a : ℕ) → NotIn a ys → (k'.proc a).rc ≡ (k.proc a).rc
  pub rest : k' ≡ record k {
    proc = k'.proc;
    ready_q = k'.ready_q;
    sleep_q = k'.sleep_q;
    slice_elapsed = k'.slice_elapsed;
  }

pub sleeper_run :
    (k : Kernel) (ys : List ℕ) → IsQueue k.proc k.sleep_q ys → sleeper k ≡ done (length ys) k
unfolding sleeper
sleeper_run k ys v = ground (arith, count_from-Chain rounds 0 v.chain (length-lt-rounds v))

module _ (k : Kernel) (xs : List ℕ) where
  timer_tick-none : IsClocked k xs [] → Returns (λ _. Ticked k xs []) (timer_tick k)
  unfolding timer_tick due_in remaining rung waiting
  timer_tick-none c = done-Returns (rw (sleeper_run k [] c.asleep) refl) record {
    order = [];
    clocked = subst (λ zs. IsClocked k zs []) (sym (append-nil xs)) c;
    left = refl;
    fields = λ a. refl;
    codes = λ a out. refl;
    rest = refl;
  }

  module _ (y : ℕ) (ys : List ℕ) (c : IsClocked k xs (y ∷ ys)) where
    some_asleep : k.sleep_q ≢ null
    some_asleep = ground (arith, head_of_Chain c.asleep.chain)

    quiet_run :
        k.slice_elapsed + 1 < (k.proc y).delta_slice
        → timer_tick k ≡ done tt (record k { slice_elapsed = suc k.slice_elapsed })
    unfolding timer_tick
    quiet_run h = ground (
      arith,
      sleeper_run k (y ∷ ys) c.asleep,
      head_of_Chain c.asleep.chain,
      tick_early k some_asleep,
      c.fits,
    )

    due_run :
        k.slice_elapsed + 1 ≡ (k.proc y).delta_slice
        → timer_tick k ≡ wake (record k { slice_elapsed = 0 })
    unfolding timer_tick
    due_run h = ground (
      arith,
      sleeper_run k (y ∷ ys) c.asleep,
      head_of_Chain c.asleep.chain,
      tick_due k some_asleep,
      c.fits,
    )

    timer_tick-quiet :
        k.slice_elapsed + 1 < (k.proc y).delta_slice
        → Returns (λ _. Ticked k xs (y ∷ ys)) (timer_tick k)
    unfolding due_in
    timer_tick-quiet h =
        let clock = remaining_quiet k.proc k.slice_elapsed y ys h in
        done-Returns (quiet_run h) record {
          order = y ∷ ys;
          clocked =
              subst
                (λ zs.
                  IsClocked (record k { slice_elapsed = suc k.slice_elapsed }) (xs ++ zs) (y ∷ ys))
                (sym clock.0)
                (subst
                  (λ zs. IsClocked (record k { slice_elapsed = suc k.slice_elapsed }) zs (y ∷ ys))
                  (sym (append-nil xs))
                  (record {
                    ready = c.ready;
                    asleep = c.asleep;
                    fits = c.fits;
                    early = omega arith;
                    apart = c.apart;
                  }));
          left =
              subst
                (λ e.
                  remaining k.proc e (y ∷ ys) ≡ waiting (remaining k.proc k.slice_elapsed (y ∷ ys)))
                (omega arith) (sym clock.1);
          fields = λ a. refl;
          codes = λ a out. refl;
          rest = refl;
        }

    -- What `wake` leaves, where it runs at the end of the head's time.
    Ticked-woken :
        (k' : Kernel)
        → k.slice_elapsed + 1 ≡ (k.proc y).delta_slice
        → IsQueue k'.proc k'.ready_q (xs ++ (y ∷ due_now k.proc ys))
        → IsQueue k'.proc k'.sleep_q (still k.proc ys)
        → ((b : ℕ) → settled (k'.proc b) ≡ settled (k.proc b))
        → ((b : ℕ) → NotIn b ys → (k'.proc b).rc ≡ (k.proc b).rc)
        → k' ≡ record k {
          proc = k'.proc;
          ready_q = k'.ready_q;
          sleep_q = k'.sleep_q;
          slice_elapsed = 0;
        }
        → Ticked k xs (y ∷ ys) k'
    unfolding due_in
    Ticked-woken k' h r v fields codes rest =
        let same : SameDeltas k.proc k'.proc = λ b. ap (λ s. s.delta_slice) (fields b) in
        let reset : k'.slice_elapsed ≡ 0 = ap (λ s. s.slice_elapsed) rest in
        let clock = remaining_due k.proc k'.proc k.slice_elapsed y ys h same in
        record {
          order = still k.proc ys;
          clocked =
              subst (λ zs. IsClocked k' (xs ++ zs) (still k.proc ys)) (sym clock.0)
                record {
                  ready = r;
                  asleep = v;
                  fits = Fits-still k.proc k'.proc (0 + (k.proc y).delta_slice) ys same c.fits.1;
                  early =
                      subst (λ e. IsEarly k'.proc e (still k.proc ys)) (sym reset)
                        (IsPending-still k.proc k'.proc ys same);
                  apart = Apart-due k.proc xs ys y c.apart c.asleep.distinct;
                };
          left =
              subst
                (λ e.
                  remaining k'.proc e (still k.proc ys)
                  ≡ waiting (remaining k.proc k.slice_elapsed (y ∷ ys)))
                (sym reset) (sym clock.1);
          fields = fields;
          codes = λ b out. codes b out.1;
          rest =
              subst
                (λ e. k' ≡ record k {
                  proc = k'.proc;
                  ready_q = k'.ready_q;
                  sleep_q = k'.sleep_q;
                  slice_elapsed = e;
                })
                (sym reset) rest;
        }

    timer_tick-due :
        k.slice_elapsed + 1 ≡ (k.proc y).delta_slice
        → Returns (λ _. Ticked k xs (y ∷ ys)) (timer_tick k)
    timer_tick-due h = rw (due_run h) (
        weaken (wake-Woken_codes (record k { slice_elapsed = 0 }) xs ys y c.ready c.asleep c.apart)
          (λ u k' w. Ticked-woken k' h w.0 w.1 w.2 w.3 w.4))

-- The sleep device's part of a timer interrupt: it takes one slice from the time that each process
-- has to wait.
pub timer_tick-Ticked :
    (k : Kernel) (xs ys : List ℕ) → IsClocked k xs ys → Returns (λ _. Ticked k xs ys) (timer_tick k)
timer_tick-Ticked k xs [] c = timer_tick-none k xs c
timer_tick-Ticked k xs (y ∷ ys) c =
    elim (Bool-cases (ltb (k.slice_elapsed + 1) (k.proc y).delta_slice)) [
      | inl quiet ↦ timer_tick-quiet k xs y ys c (ground (arith))
      | inr due ↦ timer_tick-due k xs y ys c (ground (arith, c.early))
    ]
