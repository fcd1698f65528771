-- ===== src/Dispatch/Service.antt =====
-- The dispatcher of c/disp.c serves the requests that leave a process ready or asleep: no process is
-- lost from the queues.
use bkernel.Base.{
  NotIn-append, NotIn_left, NotIn_right, ℕ, ◌≡◌, refl, sym, subst, ap, ◌∙◌, List, [], ◌∷◌, ◌++◌,
  NotIn, append-nil, snoc, snoc-append, ne→==,
}
use mathlib.Core.List.{Memᴰ, Perm, perm_middle, append_assoc}
use mathlib.Core.List.Perm
use bkernel.Kernel.{Kernel, null, after, Returns, weaken, update, with_state, with_rc, ready_state}
use bkernel.Calls.{Request, timer_int, yield_proc, get_pid, puts, sleep_ms}
use bkernel.Dispatch.{back_to_ready, return_code, serve_timer}
use bkernel.Dispatch.Layout.{IsLaid, IsOut, IsLaid-update, IsLaid-ready, timer_tick-Moved}

-- The requests of processes that keep to themselves.
pub data IsMild : Request → Type 0 where
  timer : IsMild timer_int
  yields : IsMild yield_proc
  asks_pid : IsMild get_pid
  prints : {str : ℕ} → IsMild (puts str)
  sleeps : {ms : ℕ} → IsMild (sleep_ms ms)

-- What the service of a request of `x` leaves: `x` is again among the ready or the sleeping
-- processes, and all others still are. It is ready after an interrupt.
pub record Served (x : ℕ) (xs ys : List ℕ) (r : Request) (k' : Kernel) : Type 0 where
  pub more : List ℕ
  pub order : List ℕ
  pub laid : IsLaid k' (xs ++ more) order
  pub kept : Perm (x ∷ (xs ++ ys)) ((xs ++ more) ++ order)
  pub stays : r ≡ timer_int → Memᴰ x more

snoc_within : (xs more : List ℕ) (x : ℕ) → snoc (xs ++ more) x ≡ xs ++ snoc more x
snoc_within [] more x = refl
snoc_within (y ∷ xs) more x = ap (λ zs. y ∷ zs) (snoc_within xs more x)

snoc-Mem : (more : List ℕ) (x : ℕ) → Memᴰ x (snoc more x)
snoc-Mem [] x = Memᴰ.head refl
snoc-Mem (y ∷ more) x = Memᴰ.tail (snoc-Mem more x)

module _ (x : ℕ) (xs ys : List ℕ) (r : Request) where
  -- It stands behind those that were moved.
  pub Served-ready :
      (moved order : List ℕ) (k' : Kernel)
      → moved ++ order ≡ ys
      → IsLaid k' (snoc (xs ++ moved) x) order
      → Served x xs ys r k'
  Served-ready moved order k' all l = record {
    more = snoc moved x;
    order = order;
    laid = subst (λ zs. IsLaid k' zs order) (snoc_within xs moved x) l;
    kept = Perm.symm (
        subst (λ zs. Perm zs (x ∷ (xs ++ ys)))
          (sym (snoc-append (xs ++ moved) order x)
            ∙ ap (λ zs. zs ++ order) (snoc_within xs moved x))
          (subst (λ zs. Perm ((xs ++ moved) ++ (x ∷ order)) (x ∷ zs))
            (append_assoc xs moved order ∙ ap (λ zs. xs ++ zs) all)
            (perm_middle (xs ++ moved) order)));
    stays = λ e. snoc-Mem moved x;
  }

  back_to_ready-Served :
      (k : Kernel) (moved order : List ℕ)
      → moved ++ order ≡ ys
      → IsOut x (xs ++ moved) order
      → IsLaid k (xs ++ moved) order
      → Returns (λ _. Served x xs ys r) (back_to_ready x k)
  unfolding back_to_ready
  back_to_ready-Served k moved order all o l =
      let f = update k.proc x (with_state ready_state (k.proc x)) in
      rw (ne→== x null o.slot.0) (
        weaken
          (IsLaid-ready (record k { proc = f }) x (xs ++ moved) order o
            (IsLaid-update k x (xs ++ moved) order _ o (l.quiet x) l))
          (λ u k' l'. Served-ready moved order k' all l'))

  pub back_to_ready-Served_now :
      (k : Kernel)
      → IsOut x xs ys
      → IsLaid k xs ys
      → Returns (λ _. Served x xs ys r) (back_to_ready x k)
  back_to_ready-Served_now k o l =
      let same = sym (append-nil xs) in
      back_to_ready-Served k [] ys refl (subst (λ zs. IsOut x zs ys) same o)
        (subst (λ zs. IsLaid k zs ys) same l)

  pub return_code-Served :
      (k : Kernel) (rc : ℕ)
      → IsOut x xs ys
      → IsLaid k xs ys
      → Returns (λ _. Served x xs ys r) (return_code x rc k)
  unfolding return_code
  return_code-Served k rc o l =
      let f = update k.proc x (with_rc rc (k.proc x)) in
      rw (ne→== x null o.slot.0) (
        back_to_ready-Served_now (record k { proc = f }) o
          (IsLaid-update k x xs ys _ o (l.quiet x) l))

-- The process is still out of the lists when others have been moved.
IsOut-moved :
    (x : ℕ) (xs ys moved order : List ℕ)
    → moved ++ order ≡ ys
    → IsOut x xs ys
    → IsOut x (xs ++ moved) order
IsOut-moved x xs ys moved order all o =
    let n : NotIn x (moved ++ order) = subst (NotIn x) (sym all) o.awake in
    record {
      slot = o.slot;
      unready = NotIn-append x xs moved o.unready (NotIn_left x moved order n);
      awake = NotIn_right x moved order n;
    }

module _ (k : Kernel) (x : ℕ) (xs ys : List ℕ) (o : IsOut x xs ys) (l : IsLaid k xs ys) where
  pub serve_timer-Served : Returns (λ _. Served x xs ys timer_int) (serve_timer x k)
  unfolding serve_timer
  serve_timer-Served = after (timer_tick-Moved k xs ys l) λ u k' m.
      back_to_ready-Served x xs ys timer_int k' m.moved m.order m.all
        (IsOut-moved x xs ys m.moved m.order m.all o) m.laid
