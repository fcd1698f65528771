-- ===== src/Dispatch/Nap.antt =====
-- The dispatcher of c/disp.c serves the requests of processes that keep to themselves, SLEEP among
-- them: no process is lost from the queues.
use bkernel.Base.{
  ℕ, ◌<◌, ◌≡◌, refl, sym, subst, ap, List, [], ◌∷◌, ◌++◌, arith, append-nil, Bool-cases, inl, inr,
  ltb, ◌==◌, ==→ne, ne→==, word_mod,
}
use mathlib.Core.List.{Perm, perm_middle}
use mathlib.Core.List.Perm
use bkernel.Kernel.{
  Image, Kernel, Pcb, null, after, Returns, returns, update, with_state, sleep_state, Output,
}
use bkernel.Queue.Valid.{IsQueue, IsQueue-same}
use bkernel.Sleep.{sleep_to_slice, with_delta}
use bkernel.Sleep.Delta.{Alarm, place, sleepers, sleepers-alarms, alarms}
use bkernel.Sleep.Order.{Slept, order-Slept, Apart-Slept, IsQueue-Slept}
use bkernel.Sleep.Entry.{sleep-Slept}
use bkernel.Sleep.Steps.{plain}
use bkernel.Calls.{Request, yield_proc, get_pid, puts, sleep_ms}
use bkernel.Dispatch.{serve_sleep, serve}
use bkernel.Dispatch.Rounds.{IsQuiet}
use bkernel.Dispatch.Service.{
  IsMild, timer, yields, asks_pid, prints, sleeps, Served, back_to_ready-Served_now,
  return_code-Served, serve_timer-Served,
}
use bkernel.Dispatch.Layout.{IsLaid, IsOut, IsLaid-update, IsDelta-SameDeltas}

place-Perm : (p at : ℕ) (rs : List Alarm) → Perm (p ∷ sleepers rs) (sleepers (place p at rs))
unfolding place sleepers
place-Perm p at [] = Perm.refl _
place-Perm p at (a ∷ rs) = elim (Bool-cases (ltb at a.at)) [
  | inl before ↦ rw before (Perm.refl _)
  | inr behind ↦ rw behind (Perm.trans (Perm.swap _ _ _) (Perm.cons a.who (place-Perm p at rs)))
]

IsQuiet-plain : (r s : Pcb) → plain r ≡ plain s → IsQuiet s → IsQuiet r
IsQuiet-plain r s e q = subst IsQuiet (sym e) q

module _ (k : Kernel) (x : ℕ) (xs ys : List ℕ) (o : IsOut x xs ys) (l : IsLaid k xs ys) where
  -- What `sleep` leaves, with the state of the process set.
  asleep_now : Kernel → Kernel
  asleep_now k' = record k' { proc = update k'.proc x (with_state sleep_state (k'.proc x)) }

  IsLaid-Slept : (r : ℕ) (k' : Kernel) → (s : Slept k x ys r k') → IsLaid (asleep_now k') xs s.order
  unfolding asleep_now
  IsLaid-Slept r k' s = record {
    ready =
        subst (λ q. IsQueue (asleep_now k').proc q xs) (sym (ap (λ m. m.ready_q) s.rest))
          (IsQueue-same x _ refl
            (IsQueue-Slept k x ys r k' s k.ready_q xs l.apart o.unready l.ready));
    asleep =
        IsDelta-SameDeltas k'.proc (asleep_now k').proc k'.sleep_q k'.sleep_q s.order
          (λ a. ground arith) (IsQueue-same x _ refl s.delta.queue) s.delta;
    apart = Apart-Slept k x ys r k' s xs l.apart o.unready;
    quiet = λ a. elim (Bool-cases (a == x)) [
      | inl same ↦ rw same (IsQuiet-plain (k'.proc x) (k.proc x) (s.fields x) (l.quiet x))
      | inr other ↦ rw other (IsQuiet-plain (k'.proc a) (k.proc a) (s.fields a) (l.quiet a))
    ];
  }

  order_kept : (r : ℕ) (k' : Kernel) → (s : Slept k x ys r k') → Perm (x ∷ ys) s.order
  order_kept r k' s =
      subst (λ zs. Perm (x ∷ zs) s.order) (sleepers-alarms k.proc 0 ys)
        (subst (Perm (x ∷ sleepers (alarms k.proc 0 ys))) (sym (order-Slept k x ys r k' s))
          (place-Perm x (k.proc x).delta_slice (alarms k.proc 0 ys)))

  Served-Slept :
      (ms r : ℕ) (k' : Kernel) → Slept k x ys r k' → Served x xs ys (sleep_ms ms) (asleep_now k')
  Served-Slept ms r k' s = record {
    more = [];
    order = s.order;
    laid =
        subst (λ zs. IsLaid (asleep_now k') zs s.order) (sym (append-nil xs)) (IsLaid-Slept r k' s);
    kept =
        subst (λ zs. Perm (x ∷ (xs ++ ys)) (zs ++ s.order)) (sym (append-nil xs))
          (Perm.trans (Perm.symm (perm_middle xs ys))
            (Perm.append (Perm.refl xs) (order_kept r k' s)));
    stays = λ e. cc;
  }

slice_word : (ms : ℕ) → sleep_to_slice ms < word_mod
unfolding sleep_to_slice
slice_word ms = ground arith

serve_sleep-Served :
    (k : Kernel) (x ms : ℕ) (xs ys : List ℕ)
    → IsOut x xs ys
    → IsLaid k xs ys
    → Returns (λ _. Served x xs ys (sleep_ms ms)) (serve_sleep x ms k)
unfolding serve_sleep asleep_now
serve_sleep-Served k x ms xs ys o l =
    let slices = sleep_to_slice ms in
    let at : Kernel = record k { proc = update k.proc x (with_delta slices (k.proc x)) } in
    let laid = IsLaid-update k x xs ys (with_delta slices (k.proc x)) o (l.quiet x) l in
    rw (ne→== x null o.slot.0) (elim (Bool-cases (slices == 0)) [
      | inl none ↦ rw none (return_code-Served x xs ys (sleep_ms ms) at 0 o laid)
      | inr some ↦
          let own : (at.proc x).delta_slice ≡ slices = ground arith in
          rw some (
            after
              (sleep-Slept at x o.slot (rw own (omega (arith, ==→ne _ _ some)))
                (rw own (slice_word ms)) ys laid.asleep o.awake)
              λ r k' s.
                rw (ne→== r 0 s.result, ne→== x null o.slot.0)
                  (returns (Served-Slept at x xs ys o laid ms r k' s)))
    ])

-- A request of a process that keeps to itself, where it is out of the lists.
pub serve-Served :
    (image : Image) (k : Kernel) (x : ℕ) (xs ys : List ℕ) (r : Request)
    → IsMild r
    → IsOut x xs ys
    → IsLaid k xs ys
    → Returns (λ _. Served x xs ys r) (serve image x r k)
unfolding serve
serve-Served image k x xs ys _ timer o l = serve_timer-Served k x xs ys o l
serve-Served image k x xs ys _ yields o l = back_to_ready-Served_now x xs ys yield_proc k o l
serve-Served image k x xs ys _ asks_pid o l =
    rw (ne→== x null o.slot.0) (return_code-Served x xs ys get_pid k (k.proc x).pid o l)
serve-Served image k x xs ys _ (prints {str}) o l = elim (Bool-cases (str == null)) [
  | inl none ↦ rw none (back_to_ready-Served_now x xs ys (puts str) k o l)
  | inr some ↦ rw some (
      back_to_ready-Served_now x xs ys (puts str)
        (record k { console = k.console ++ (Output.text str ∷ []) }) o
        (record { ready = l.ready; asleep = l.asleep; apart = l.apart; quiet = l.quiet }))
]
serve-Served image k x xs ys _ (sleeps {ms}) o l = serve_sleep-Served k x ms xs ys o l
