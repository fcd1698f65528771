-- ===== src/Dispatch/Layout.antt =====
-- How the dispatcher of c/disp.c keeps the queues of the processes that it manages.
use bkernel.Base.{
  ℕ, ◌+◌, ◌≡◌, ◌≢◌, refl, sym, subst, ap, List, [], ◌∷◌, ◌++◌, arith, NotIn, Apart, Apart-snoc,
  append-nil, Bool-cases, inl, inr, snoc, ◌==◌, ==→eq, ==→ne, add32,
}
use bkernel.Kernel.{Kernel, Pcb, done, Returns, done-Returns, weaken, update, with_rc}
use bkernel.Queue.Chain.{Procs, head_of_Chain, pushed, pushed_fields}
use bkernel.Queue.Valid.{IsSlot, IsQueue, IsQueue-frame, IsQueue-pushed, IsQueue-pushed_other}
use bkernel.Disp.{ready}
use bkernel.Disp.Ready.{ready_run}
use bkernel.Sleep.{tick, wake}
use bkernel.Sleep.Delta.{Fits}
use bkernel.Sleep.Order.{IsEarly, IsDelta}
use bkernel.Sleep.Wake.{due_now, still, settled, SameDeltas, wake-Woken}
use bkernel.Sleep.Clock.{IsEarly-kept, Fits-still, Fits-earlier, IsPending-still, Apart-due}
use bkernel.Dispatch.{timer_tick}
use bkernel.Dispatch.Ticks.{sleeper_run}
use bkernel.Dispatch.Rounds.{IsQuiet}

-- The ready processes and the sleeping ones, each in one valid list, with no signals pending.
pub record IsLaid (k : Kernel) (xs ys : List ℕ) : Type 0 where
  pub ready : IsQueue k.proc k.ready_q xs
  pub asleep : IsDelta k.proc k.sleep_q ys
  pub apart : Apart xs ys
  pub quiet : (a : ℕ) → IsQuiet (k.proc a)

-- The process `x` is in neither list.
pub record IsOut (x : ℕ) (xs ys : List ℕ) : Type 0 where
  pub slot : IsSlot x
  pub unready : NotIn x xs
  pub awake : NotIn x ys

-- The times depend on the slices alone.
pub IsDelta-SameDeltas :
    (f g : Procs) (q r : ℕ) (ys : List ℕ)
    → SameDeltas f g
    → IsQueue g r ys
    → IsDelta f q ys
    → IsDelta g r ys
IsDelta-SameDeltas f g q r ys s v d = record {
  queue = v;
  fits = Fits-earlier f g 0 0 ys s (omega arith) d.fits;
  pending = IsEarly-kept f g 0 ys s d.pending;
}

-- Changes of a process outside of the lists.
IsEarly-framed :
    (f : Procs) (x : ℕ) (r : Pcb) (e : ℕ) (ys : List ℕ)
    → NotIn x ys
    → IsEarly f e ys
    → IsEarly (update f x r) e ys
IsEarly-framed f x r e [] out h = tt
IsEarly-framed f x r e (y ∷ ys) out h = ground arith

Fits-framed :
    (f : Procs) (x : ℕ) (r : Pcb) (from : ℕ) (ys : List ℕ)
    → NotIn x ys
    → Fits f from ys
    → Fits (update f x r) from ys
Fits-framed f x r from [] out h = tt
Fits-framed f x r from (y ∷ ys) out h =
    let same : update f x r y ≡ f y = ground arith in
    rw same (h.0, Fits-framed f x r (from + (f y).delta_slice) ys out.1 h.1)

pub IsLaid-update :
    (k : Kernel) (x : ℕ) (xs ys : List ℕ) (r : Pcb)
    → IsOut x xs ys
    → IsQuiet r
    → IsLaid k xs ys
    → IsLaid (record k { proc = update k.proc x r }) xs ys
IsLaid-update k x xs ys r o q l = record {
  ready = IsQueue-frame x r o.unready l.ready;
  asleep = record {
    queue = IsQueue-frame x r o.awake l.asleep.queue;
    fits = Fits-framed k.proc x r 0 ys o.awake l.asleep.fits;
    pending = IsEarly-framed k.proc x r 0 ys o.awake l.asleep.pending;
  };
  apart = l.apart;
  quiet =
      λ a. elim (Bool-cases (a == x)) [ inl same ↦ rw same q | inr other ↦ rw other (l.quiet a) ];
}

pub IsQuiet-same : (r s : Pcb) → settled r ≡ settled s → IsQuiet s → IsQuiet r
IsQuiet-same r s e q = subst IsQuiet (sym e) q

-- `ready` puts it behind the ready ones.
pub IsLaid-ready :
    (k : Kernel) (x : ℕ) (xs ys : List ℕ)
    → IsOut x xs ys
    → IsLaid k xs ys
    → Returns (λ _ k'. IsLaid k' (snoc xs x) ys) (ready x k)
IsLaid-ready k x xs ys o l = done-Returns (ready_run k x xs l.ready o.slot o.unready) record {
  ready = IsQueue-pushed x o.slot o.unready l.ready;
  asleep =
      IsDelta-SameDeltas k.proc (pushed k.proc xs x) k.sleep_q k.sleep_q ys
        (λ a. ap (λ r. r.delta_slice) (pushed_fields k.proc xs x a))
        (IsQueue-pushed_other xs x o.awake l.apart l.asleep.queue) l.asleep;
  apart = Apart-snoc xs x ys l.apart o.awake;
  quiet = λ a.
      IsQuiet-same (pushed k.proc xs x a) (k.proc a) (ap (with_rc 0) (pushed_fields k.proc xs x a))
        (l.quiet a);
}

-- What the part for the sleep device of a timer interrupt leaves: some are moved.
pub record Moved (xs ys : List ℕ) (k' : Kernel) : Type 0 where
  pub moved : List ℕ
  pub order : List ℕ
  pub laid : IsLaid k' (xs ++ moved) order
  pub all : moved ++ order ≡ ys

due_now-still : (f : Procs) (ys : List ℕ) → due_now f ys ++ still f ys ≡ ys
unfolding due_now still
due_now-still f [] = refl
due_now-still f (y ∷ ys) = elim (Bool-cases ((f y).delta_slice == 0)) [
  | inl due ↦ rw due (ap (λ zs. y ∷ zs) (due_now-still f ys))
  | inr waits ↦ rw waits refl
]

Moved-none : (k k' : Kernel) (xs ys : List ℕ) → IsLaid k' xs ys → Moved xs ys k'
Moved-none k k' xs ys l = record {
  moved = [];
  order = ys;
  laid = subst (λ zs. IsLaid k' zs ys) (sym (append-nil xs)) l;
  all = refl;
}

module _ (k : Kernel) (xs : List ℕ) (y : ℕ) (ys : List ℕ) (l : IsLaid k xs (y ∷ ys)) where
  wake-Moved : Returns (λ _. Moved xs (y ∷ ys)) (wake k)
  wake-Moved = weaken (wake-Woken k xs ys y l.ready l.asleep.queue l.apart) (λ u k' w.
      let same : SameDeltas k.proc k'.proc = λ b. ap (λ s. s.delta_slice) (w.2 b) in
      record {
        moved = y ∷ due_now k.proc ys;
        order = still k.proc ys;
        laid = record {
          ready = w.0;
          asleep = record {
            queue = w.1;
            fits = Fits-still k.proc k'.proc (0 + (k.proc y).delta_slice) ys same l.asleep.fits.1;
            pending = IsPending-still k.proc k'.proc ys same;
          };
          apart = Apart-due k.proc xs ys y l.apart l.asleep.queue.distinct;
          quiet = λ a. IsQuiet-same (k'.proc a) (k.proc a) (w.2 a) (l.quiet a);
        };
        all = ap (λ zs. y ∷ zs) (due_now-still k.proc ys);
      })

  counted : (e : ℕ) → IsLaid (record k { slice_elapsed = e }) xs (y ∷ ys)
  counted e = record { ready = l.ready; asleep = l.asleep; apart = l.apart; quiet = l.quiet }

  due_run :
      add32 k.slice_elapsed 1 ≡ (k.proc y).delta_slice
      → timer_tick k ≡ wake (record k { slice_elapsed = 0 })
  unfolding timer_tick tick
  due_run due =
      ground (arith, sleeper_run k (y ∷ ys) l.asleep.queue, head_of_Chain l.asleep.queue.chain)

  quiet_run :
      add32 k.slice_elapsed 1 ≢ (k.proc y).delta_slice
      → timer_tick k ≡ done tt (record k { slice_elapsed = add32 k.slice_elapsed 1 })
  unfolding timer_tick tick
  quiet_run due =
      ground (arith, sleeper_run k (y ∷ ys) l.asleep.queue, head_of_Chain l.asleep.queue.chain)

-- On a valid layout the sleep device ends without a fault, whatever number of slices is counted.
pub timer_tick-Moved :
    (k : Kernel) (xs ys : List ℕ) → IsLaid k xs ys → Returns (λ _. Moved xs ys) (timer_tick k)
unfolding timer_tick
timer_tick-Moved k xs [] l =
    done-Returns (rw (sleeper_run k [] l.asleep.queue) refl) (Moved-none k k xs [] l)
timer_tick-Moved k xs (y ∷ ys) l =
    elim (Bool-cases (add32 k.slice_elapsed 1 == (k.proc y).delta_slice)) [
      | inl due ↦
          rw (due_run k xs y ys l (==→eq _ _ due))
            (wake-Moved (record k { slice_elapsed = 0 }) xs y ys (counted k xs y ys l 0))
      | inr waits ↦
          done-Returns (quiet_run k xs y ys l (==→ne _ _ waits))
            (Moved-none k _ xs (y ∷ ys) (counted k xs y ys l (add32 k.slice_elapsed 1)))
    ]
