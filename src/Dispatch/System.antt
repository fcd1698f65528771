-- ===== src/Dispatch/System.antt =====
-- The loop of the dispatcher in c/disp.c: round after round, no process is lost from the queues.
use bkernel.Base.{
  ℕ, ◌+◌, ◌≡◌, ◌≢◌, refl, sym, subst, ap, ◌∙◌, List, [], ◌∷◌, Bool, true, false, not, ◌&&◌, arith,
  append-nil, Bool-cases, inl, inr, ltb, snoc, ◌==◌, if◌then◌else◌, ne→==, length,
}
use bkernel.Kernel.{
  Image, Kernel, Pcb, null, and_then, after, Returns, returns, done-Returns, weaken, modify, when,
  with_rc, idle_proc_pid,
}
use bkernel.Queue.Chain.{head_of_Chain}
use bkernel.Queue.Valid.{IsQueue-tail}
use bkernel.Disp.{ready, next_ready}
use bkernel.Disp.Ready.{count-length}
use bkernel.Calls.{
  Request, timer_int, yield_proc, get_pid, puts, sleep_ms, timer_int_request, yield_request,
  getpid_request, puts_request, sleep_request, read_request, process_request, one_arg,
}
use bkernel.Ctsw.{Trap, context_switch, with_args, with_esp}
use bkernel.Dispatch.{take_request, serve, dispatch_round}
use bkernel.Dispatch.Rounds.{IsQuiet, running}
use bkernel.Dispatch.Layout.{IsLaid, IsOut, IsLaid-update, IsLaid-ready}
use bkernel.Dispatch.Service.{IsMild, Served, Served-ready}
use bkernel.Dispatch.Nap.{serve-Served}

-- The traps of a process that computes until the timer interrupts it, yields, asks for its pid,
-- prints or sleeps.
pub data IsCalm (t : Trap) : Type 0 where
  interrupted : t.interrupt ≡ timer_int_request → IsCalm t
  yields : t.interrupt ≡ 0 → t.rc ≡ yield_request → IsCalm t
  asks_pid : t.interrupt ≡ 0 → t.rc ≡ getpid_request → IsCalm t
  prints : t.interrupt ≡ 0 → t.rc ≡ puts_request → t.args ≢ null → IsCalm t
  sleeps : t.interrupt ≡ 0 → t.rc ≡ sleep_request → t.args ≢ null → IsCalm t

-- What the context switch leaves.
pub record Switched (x : ℕ) (xs ys : List ℕ) (t : Trap) (code : ℕ) (k' : Kernel) : Type 0 where
  pub request : code ≡ (if t.interrupt == 0 then t.rc else t.interrupt)
  pub laid : IsLaid k' xs ys
  pub given : t.args ≢ null → (k'.proc x).args ≡ t.args

module _ (x : ℕ) (xs ys : List ℕ) (o : IsOut x xs ys) where
  -- A change of fields of the process that runs, under a condition.
  when-modify-IsLaid :
      (k : Kernel) (b : Bool) (g : Pcb → Pcb)
      → ((r : Pcb) → IsQuiet r → IsQuiet (g r))
      → IsLaid k xs ys
      → Returns
          (λ _ k'. IsLaid k' xs ys × (k'.proc x ≡ (if b then g (k.proc x) else k.proc x)))
          (when b (modify x g) k)
  when-modify-IsLaid k true g q l = rw (ne→== x null o.slot.0) (
      returns (IsLaid-update k x xs ys (g (k.proc x)) o (q (k.proc x) (l.quiet x)) l, ground arith))
  when-modify-IsLaid k false g q l = returns (l, refl)

  context_switch-Switched :
      (k : Kernel) (t : Trap) → IsLaid k xs ys → Returns (Switched x xs ys t) (context_switch x t k)
  unfolding context_switch
  context_switch-Switched k t l =
      after (when-modify-IsLaid k (not (t.interrupt == 0)) (with_rc t.rc) (λ r q. q) l) λ u k1 w.
        after (when-modify-IsLaid k1 (not (t.args == 0)) (with_args t.args) (λ r q. q) w.0)
          λ u k2 v. after (when-modify-IsLaid k2 true (with_esp t.esp) (λ r q. q) v.0) λ u k3 z.
            returns (record {
              request = refl;
              laid = z.0;
              given = λ n. ap (λ r. r.args) z.1 ∙ ap (λ r. r.args) v.1 ∙ rw (ne→== t.args 0 n) refl;
            })

  -- The request that the dispatcher takes.
  Taken : Trap → Request → Kernel → Type 0
  Taken t r k' = IsMild r × (t.interrupt ≡ timer_int_request → r ≡ timer_int) × IsLaid k' xs ys

  read_request-Taken :
      (t : Trap) (code : ℕ) (k' : Kernel)
      → Switched x xs ys t code k'
      → IsCalm t
      → Returns (Taken t) (read_request (k'.proc x).args t.port_status t.port_code code k')
  unfolding Taken read_request process_request one_arg
  read_request-Taken t code k' w (interrupted i) =
      done-Returns {a = timer_int} {k = k'} (ground (arith, w.request))
        (IsMild.timer, (λ e. refl), w.laid)
  read_request-Taken t code k' w (yields i c) =
      done-Returns {a = yield_proc} {k = k'} (ground (arith, w.request))
        (IsMild.yields, (λ e. absurd (omega arith)), w.laid)
  read_request-Taken t code k' w (asks_pid i c) =
      done-Returns {a = get_pid} {k = k'} (ground (arith, w.request))
        (IsMild.asks_pid, (λ e. absurd (omega arith)), w.laid)
  read_request-Taken t code k' w (prints i c n) =
      done-Returns {a = puts (k'.word (t.args + 0))} {k = k'} (ground (arith, w.request, w.given n))
        (IsMild.prints, (λ e. absurd (omega arith)), w.laid)
  read_request-Taken t code k' w (sleeps i c n) =
      done-Returns {a = sleep_ms (k'.word (t.args + 0))} {k = k'}
        (ground (arith, w.request, w.given n)) (IsMild.sleeps, (λ e. absurd (omega arith)), w.laid)

  take_request-Taken :
      (k : Kernel) (t : Trap) → IsCalm t → IsLaid k xs ys → Returns (Taken t) (take_request x t k)
  unfolding take_request Taken
  take_request-Taken k t c l =
      after (context_switch-Switched k t l)
        λ code k' w. rw (ne→== x null o.slot.0) (read_request-Taken t code k' w c)

-- What a round leaves: the process that was the first is ready or asleep again, and so is every other;
-- after an interrupt it is ready.
pub record Round (x : ℕ) (xs ys : List ℕ) (t : Trap) (k' : Kernel) : Type 0 where
  pub request : Request
  pub interrupted : t.interrupt ≡ timer_int_request → request ≡ timer_int
  pub served : Served x xs ys request k'

module _ (image : Image) (k : Kernel) (x : ℕ) (xs ys : List ℕ) (t : Trap)
    (l : IsLaid k (x ∷ xs) ys) where
  abbrev popped : Kernel
  popped = record k { ready_q = (k.proc x).next }

  out : IsOut x xs ys
  out = record { slot = l.ready.slots.0; unready = l.ready.distinct.0; awake = l.apart.0 }

  popped-IsLaid : IsLaid popped xs ys
  popped-IsLaid = record {
    ready = IsQueue-tail l.ready;
    asleep = l.asleep;
    apart = l.apart.1;
    quiet = l.quiet;
  }

  abbrev is_idle : Bool
  is_idle = (k.proc x).pid == idle_proc_pid && ltb 0 (length xs)

  round_idle : is_idle ≡ true → dispatch_round image t k ≡ ready x popped
  unfolding dispatch_round next_ready
  round_idle h =
      ground (arith, head_of_Chain l.ready.chain, count-length popped xs (IsQueue-tail l.ready))

  round_runs :
      is_idle ≡ false
      → dispatch_round image t k
        ≡ and_then (take_request x t (record popped { proc = running k x })) (serve image x)
  unfolding dispatch_round next_ready
  round_runs h =
      ground (
        arith,
        head_of_Chain l.ready.chain,
        count-length popped xs (IsQueue-tail l.ready),
        l.quiet x,
      )

  -- On a valid ready queue and list of sleeping processes with no signals pending, a round for a
  -- process that the timer interrupts, or that yields, asks for its pid, prints or sleeps, ends
  -- without a fault. The process and all others are again in one of the two lists, which are valid
  -- and apart, and after an interrupt the process is ready.
  pub dispatch_round-Round : IsCalm t → Returns (λ _. Round x xs ys t) (dispatch_round image t k)
  unfolding Taken
  dispatch_round-Round c = elim (Bool-cases is_idle) [
    | inl idle ↦ rw (round_idle idle) (
        weaken (IsLaid-ready popped x xs ys out popped-IsLaid) (λ u k' m. record {
          request = timer_int;
          interrupted = λ e. refl;
          served =
              Served-ready x xs ys timer_int [] ys k' refl
                (subst (λ zs. IsLaid k' (snoc zs x) ys) (sym (append-nil xs)) m);
        }))
    | inr runs ↦ rw (round_runs runs) (
        after
          (take_request-Taken x xs ys out (record popped { proc = running k x }) t c
            (IsLaid-update popped x xs ys _ out (l.quiet x) popped-IsLaid))
          λ r k' w.
            weaken (serve-Served image k' x xs ys r w.0 out w.2)
              (λ u k'' v. record { request = r; interrupted = w.1; served = v }))
  ]
