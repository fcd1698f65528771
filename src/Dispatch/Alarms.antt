-- ===== src/Dispatch/Alarms.antt =====
-- A process that goes to sleep is not woken before its time, in the dispatcher of c/disp.c.
use bkernel.Base.{
  ℕ, zero, suc, ◌-◌, ◌<◌, ◌≡◌, refl, sym, subst, ap, ◌∙◌, List, [], ◌∷◌, ◌++◌, Bool-cases, inl, inr,
  ltb, NotIn, append-nil, word_mod,
}
use mathlib.Core.List.{Memᴰ, append_assoc}
use bkernel.Kernel.{Kernel, Cmd, skip, ◌>>◌, Returns, returns, after, weaken}
use bkernel.Queue.Valid.{IsSlot, IsQueue}
use bkernel.Sleep.{sleep}
use bkernel.Sleep.Delta.{Alarm, alarms, place}
use bkernel.Sleep.Order.{IsEarly, IsDelta, Slept, IsQueue-Slept, Apart-Slept}
use bkernel.Sleep.Entry.{sleep-Slept}
use bkernel.Sleep.Clock.{rung, remaining, remaining_fresh}
use bkernel.Sleep.Later.{rung_in, waiting_after, waiting_after-Mem}
use bkernel.Dispatch.{timer_tick}
use bkernel.Dispatch.Ticks.{IsClocked, Ticked, due_in, timer_tick-Ticked}

-- The sleep device's part of `n` timer interrupts in a row.
unfoldable pub timer_ticks : ℕ → Cmd (Unit {0})
timer_ticks zero = skip
timer_ticks (suc n) = do timer_tick; timer_ticks n

-- What they leave behind.
pub record Elapsed (n : ℕ) (k : Kernel) (xs ys : List ℕ) (k' : Kernel) : Type 0 where
  pub order : List ℕ
  pub clocked : IsClocked k' (xs ++ rung_in n (due_in k ys)) order
  pub left : due_in k' order ≡ waiting_after n (due_in k ys)

Elapsed-suc :
    (n : ℕ) (k k' k'' : Kernel) (xs ys : List ℕ)
    → (t : Ticked k xs ys k') → Elapsed n k' (xs ++ rung (due_in k ys)) t.order k''
    → Elapsed (suc n) k xs ys k''
unfolding rung_in waiting_after
Elapsed-suc n k k' k'' xs ys t e = record {
  order = e.order;
  clocked =
      subst (λ zs. IsClocked k'' zs e.order)
        (append_assoc xs (rung (due_in k ys)) (rung_in n (due_in k' t.order))
          ∙ ap (λ rs. xs ++ (rung (due_in k ys) ++ rung_in n rs)) t.left)
        e.clocked;
  left = e.left ∙ ap (waiting_after n) t.left;
}

-- The sleep device at interrupts in a row, on a valid ready queue and list of sleeping processes: those that have
-- slept their time are ready, in the order in which their times came, and each other process has as
-- many slices less to wait as there were interrupts.
pub timer_ticks-Elapsed :
    (n : ℕ) (k : Kernel) (xs ys : List ℕ)
    → IsClocked k xs ys
    → Returns (λ _. Elapsed n k xs ys) (timer_ticks n k)
unfolding timer_ticks rung_in waiting_after
timer_ticks-Elapsed zero k xs ys c = returns record {
  order = ys;
  clocked = subst (λ zs. IsClocked k zs ys) (sym (append-nil xs)) c;
  left = refl;
}
timer_ticks-Elapsed (suc n) k xs ys c = after (timer_tick-Ticked k xs ys c) λ u k' t.
    weaken (timer_ticks-Elapsed n k' (xs ++ rung (due_in k ys)) t.order t.clocked)
      (λ v k'' e. Elapsed-suc n k k' k'' xs ys t e)

place-Mem : (p at : ℕ) (rs : List Alarm) → Memᴰ (record { who = p; at = at }) (place p at rs)
unfolding place
place-Mem p at [] = Memᴰ.head refl
place-Mem p at (a ∷ rs) = elim (Bool-cases (ltb at a.at)) [
  | inl before ↦ rw before (Memᴰ.head refl)
  | inr behind ↦ rw behind (Memᴰ.tail (place-Mem p at rs))
]

module _ (k : Kernel) (p : ℕ) (xs ys : List ℕ) (c : IsClocked k xs ys) (out : NotIn p xs)
    (fresh : k.slice_elapsed ≡ 0) where
  pub asleep_delta : IsDelta k.proc k.sleep_q ys
  asleep_delta = record {
    queue = c.asleep;
    fits = c.fits;
    pending = subst (λ e. IsEarly k.proc e ys) fresh c.early;
  }

  pub IsClocked-Slept : (r : ℕ) (k' : Kernel) → (s : Slept k p ys r k') → IsClocked k' xs s.order
  IsClocked-Slept r k' s = record {
    ready =
        subst (λ q. IsQueue k'.proc q xs) (sym (ap (λ m. m.ready_q) s.rest))
          (IsQueue-Slept k p ys r k' s k.ready_q xs c.apart out c.ready);
    asleep = s.delta.queue;
    fits = s.delta.fits;
    early =
        subst (λ e. IsEarly k'.proc e s.order) (sym (ap (λ m. m.slice_elapsed) s.rest ∙ fresh))
          s.delta.pending;
    apart = Apart-Slept k p ys r k' s xs c.apart out;
  }

  -- Its alarm is one of those that the timer counts down.
  pub Mem-Slept :
      (r : ℕ) (k' : Kernel)
      → (s : Slept k p ys r k')
      → Memᴰ (record { who = p; at = (k.proc p).delta_slice }) (due_in k' s.order)
  unfolding due_in
  Mem-Slept r k' s =
      subst (Memᴰ (record { who = p; at = (k.proc p).delta_slice }))
        (sym (
          ap (λ e. remaining k'.proc e s.order) (ap (λ m. m.slice_elapsed) s.rest ∙ fresh)
          ∙ remaining_fresh k'.proc s.order
          ∙ s.due))
        (place-Mem p (k.proc p).delta_slice (alarms k.proc 0 ys))

  module _ (slot : IsSlot p) (absent : NotIn p ys) (positive : 0 < (k.proc p).delta_slice)
      (small : (k.proc p).delta_slice < word_mod) (n : ℕ) where
    -- A process goes to sleep while no slice has been counted, on a valid ready queue and list of
    -- sleeping processes whose head is not due and whose times are words. After fewer runs of the
    -- sleep device's part of a timer interrupt than it has slices to wait, it is in the list of
    -- sleeping processes, with the difference left to wait.
    pub sleep-waits :
        n < (k.proc p).delta_slice
        → Returns
            (λ _ k'.
              (order : List ℕ) × IsQueue k'.proc k'.sleep_q order
              × Memᴰ (record { who = p; at = (k.proc p).delta_slice - n }) (due_in k' order))
            ((do sleep p; timer_ticks n) k)
    sleep-waits lt = after (sleep-Slept k p slot positive small ys asleep_delta absent) λ r k' s.
        weaken (timer_ticks-Elapsed n k' xs s.order (IsClocked-Slept r k' s)) (λ u k'' e. (
          e.order,
          e.clocked.asleep,
          subst (Memᴰ (record { who = p; at = (k.proc p).delta_slice - n })) (sym e.left) (
              waiting_after-Mem n (record { who = p; at = (k.proc p).delta_slice })
                (due_in k' s.order) lt (Mem-Slept r k' s)),
        ))
