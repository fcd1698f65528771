-- ===== src/Dispatch/Loop.antt =====
-- The loop of `dispatch` in c/disp.c over any number of rounds, for processes that compute, yield, ask
-- for their pid, print and sleep.
use bkernel.Base.{ℕ, zero, suc, ◌≡◌, sym, subst, List, [], ◌∷◌, ◌++◌}
use mathlib.Core.List.{Memᴰ, Perm}
use mathlib.Core.List.Memᴰ
use mathlib.Core.List.Perm
use bkernel.Kernel.{Image, Kernel, Cmd, ◌>>=◌, ◌>>◌, get, skip, after, Returns, returns, weaken}
use bkernel.Queue.Chain.{head_of_Chain}
use bkernel.Calls.{timer_int_request}
use bkernel.Ctsw.{Trap}
use bkernel.Dispatch.{dispatch_round}
use bkernel.Dispatch.Layout.{IsLaid}
use bkernel.Dispatch.System.{IsCalm, Round, dispatch_round-Round}

-- What `n` rounds leave: the same processes are ready or asleep, `idle` among the ready ones.
pub record Kept (idle : ℕ) (xs ys : List ℕ) (k' : Kernel) : Type 0 where
  pub ready : List ℕ
  pub asleep : List ℕ
  pub laid : IsLaid k' ready asleep
  pub same : Perm (xs ++ ys) (ready ++ asleep)
  pub idles : Memᴰ idle ready

module _ (image : Image) (trap : ℕ → ℕ → Trap) where
  -- Rounds of the loop, where the process `p` comes back with `trap n p` if `n` rounds remain.
  unfoldable pub dispatch_rounds : ℕ → Cmd (Unit {0})
  dispatch_rounds zero = skip
  dispatch_rounds (suc n) = do
    p ← get (λ k. k.ready_q)
    dispatch_round image (trap n p)
    dispatch_rounds n

  module _ (idle : ℕ) (calm : (n p : ℕ) → IsCalm (trap n p))
      (waits : (n : ℕ) → (trap n idle).interrupt ≡ timer_int_request) where
    idle_stays :
        (n x : ℕ) (xs ys : List ℕ) (k' : Kernel)
        → (r : Round x xs ys (trap n x) k') → Memᴰ idle (x ∷ xs)
        → Memᴰ idle (xs ++ r.served.more)
    idle_stays n x xs ys k' r (Memᴰ.head e) =
        let back = subst (λ z. (trap n z).interrupt ≡ timer_int_request) e (waits n) in
        Memᴰ.append_right xs (Memᴰ.cast e (r.served.stays (r.interrupted back)))
    idle_stays n x xs ys k' r (Memᴰ.tail m) = Memᴰ.append_left r.served.more m

    -- The processes compute until the timer interrupts them, yield, ask for their pid, print or sleep,
    -- and the idle process is only interrupted. On a valid ready queue that holds the idle process
    -- and a valid list of sleeping processes, with no signals pending, any number of rounds ends
    -- without a fault. Both lists are valid again, no process is in both or twice in one, together
    -- they hold the processes that they held before, and the idle process is still ready.
    pub dispatch_rounds-Kept :
        (n : ℕ) (k : Kernel) (xs ys : List ℕ)
        → IsLaid k xs ys
        → Memᴰ idle xs
        → Returns (λ _. Kept idle xs ys) (dispatch_rounds n k)
    unfolding dispatch_rounds
    dispatch_rounds-Kept zero k xs ys l m =
        returns record { ready = xs; asleep = ys; laid = l; same = Perm.refl (xs ++ ys); idles = m }
    dispatch_rounds-Kept (suc n) k [] ys l m = absurd (Memᴰ.not-nil m)
    dispatch_rounds-Kept (suc n) k (x ∷ xs) ys l m =
        subst
          (λ p.
            Returns (λ _. Kept idle (x ∷ xs) ys)
              ((do dispatch_round image (trap n p); dispatch_rounds n) k))
          (sym (head_of_Chain l.ready.chain).0)
          (after (dispatch_round-Round image k x xs ys (trap n x) l (calm n x)) λ u k' r.
            weaken
              (dispatch_rounds-Kept n k' (xs ++ r.served.more) r.served.order r.served.laid
                (idle_stays n x xs ys k' r m))
              (λ v k'' e. record {
                ready = e.ready;
                asleep = e.asleep;
                laid = e.laid;
                same = Perm.trans r.served.kept e.same;
                idles = e.idles;
              }))
