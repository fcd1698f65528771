-- ===== src/Create/Fresh.antt =====
-- `find_pid` of c/create.c gives out unused pids, and keeps its bounds.
use bkernel.Base.{
  ℕ, suc, ◌+◌, ◌-◌, ◌≤◌, ◌<◌, ◌≡◌, ◌≢◌, refl, Option, none, some, true, ◌&&◌, ltb, inl, inr, ◌⊎◌,
  Bool-cases, arith,
}
use bkernel.Kernel.{
  Kernel, proc_sz, max_pid_bound, min_pid_bound, idle_proc_pid, invalid_pid, sys_err, update, done,
  Returns, returns, done-Returns, weaken,
}
use bkernel.Queue.Valid.{IsSlot}
use bkernel.Create.{start_pid, first_unused, next_candidate, pid_unused, find_pid, find_between}
use bkernel.Create.Search.{
  pid_unused_sound, first_unused_sound, first_unused-none, next_candidate_bounds, pid_unused-used,
}

-- What the comment above `find_pid` draws: the pids in use lie between `min_pid` and `max_pid`.
pub record PidBounds (k : Kernel) : Type 0 where
  pub upper : (a : ℕ) → IsSlot a → (k.proc a).pid ≢ idle_proc_pid → (k.proc a).pid ≤ k.max_pid
  pub lower :
      (a : ℕ)
      → IsSlot a
      → (k.proc a).pid ≢ idle_proc_pid
      → (k.proc a).pid ≢ invalid_pid
      → k.min_pid ≤ (k.proc a).pid
  pub ordered : k.min_pid ≤ suc k.max_pid
  pub positive : 1 ≤ k.max_pid
  pub small : k.max_pid < max_pid_bound
  pub next_low : 2 ≤ k.next_pid
  pub next_high : k.next_pid ≤ max_pid_bound

start_pid_bounds :
    (next low high : ℕ)
    → 2 ≤ next
    → next ≤ max_pid_bound
    → low ≤ suc high
    → high < max_pid_bound
    → (2 ≤ start_pid next low high) × (start_pid next low high < max_pid_bound)
unfolding start_pid
start_pid_bounds next low high a b c e = ground arith

-- What a successful call gives: a pid in range that no slot has, and bounds that cover it as well as
-- what they covered before. Only the three variables change.
pub record Found (k : Kernel) (r : ℕ) (k' : Kernel) : Type 0 where
  pub fresh : (a : ℕ) → IsSlot a → (k.proc a).pid ≢ r
  pub above : min_pid_bound < r
  pub below : r < max_pid_bound
  pub only : k' ≡ record k { min_pid = k'.min_pid; max_pid = k'.max_pid; next_pid = k'.next_pid }
  pub covers : (k'.min_pid ≤ r) × (r ≤ k'.max_pid)
  pub wider : (k'.min_pid ≤ k.min_pid) × (k.max_pid ≤ k'.max_pid)
  pub small : k'.max_pid < max_pid_bound
  pub next_in : (2 ≤ k'.next_pid) × (k'.next_pid ≤ max_pid_bound)

abbrev pub Outcome : Kernel → ℕ → Kernel → Type 0
Outcome k r k' = ((r ≡ sys_err) × (k' ≡ k)) ⊎ Found k r k'

module _ (k : Kernel) (b : PidBounds k) where
  abbrev pid : ℕ
  pid = start_pid k.next_pid k.min_pid k.max_pid

  pid_bounds : (2 ≤ pid) × (pid < max_pid_bound)
  pid_bounds =
      start_pid_bounds k.next_pid k.min_pid k.max_pid b.next_low b.next_high b.ordered b.small

  upper_fresh : k.max_pid < pid → (a : ℕ) → IsSlot a → (k.proc a).pid ≢ pid
  upper_fresh h a s e = omega (arith, b.upper a s, pid_bounds)

  lower_fresh : pid < k.min_pid → (a : ℕ) → IsSlot a → (k.proc a).pid ≢ pid
  lower_fresh h a s e = omega (arith, b.lower a s, pid_bounds)

  Found-middle :
      (r : ℕ)
      → (pid ≤ r) × (r < pid + (k.max_pid - pid)) × (pid_unused proc_sz k.proc r 0 ≡ true)
      → k.min_pid ≤ pid
      → Found k r (record k { next_pid = next_candidate (k.max_pid - (r + 1)) k.proc (r + 1) })
  Found-middle r h low = record {
    fresh = λ a s. pid_unused_sound proc_sz k.proc r 0 a h.2 refl (omega arith) s.1;
    above = omega (arith, pid_bounds);
    below = omega (arith, b.small);
    only = refl;
    covers = omega arith;
    wider = omega arith;
    small = b.small;
    next_in =
        omega
          (arith, pid_bounds, b.small, next_candidate_bounds (k.max_pid - (r + 1)) k.proc (r + 1));
  }

  find_between-Found : k.min_pid ≤ pid → Returns (Outcome k) (find_between pid k)
  unfolding find_between
  find_between-Found low = found_or_none (first_unused (k.max_pid - pid) k.proc pid) refl
    where
      found_or_none :
          (o : Option ℕ)
          → first_unused (k.max_pid - pid) k.proc pid ≡ o
          → Returns (Outcome k) (find_between pid k)
      found_or_none none e = done-Returns {k = k} (ground arith) (inl (refl, refl))
      found_or_none (some r) e =
          done-Returns (ground arith)
            (inr (Found-middle r (first_unused_sound (k.max_pid - pid) k.proc pid r e) low))

  -- While the bounds hold, `find_pid` ends without a fault. It gives SYSERR and changes nothing, or
  -- it gives a pid between MIN_PID and MAX_PID, both excluded, that no process of the table has,
  -- changes nothing but its three variables, and widens the bounds to cover the new pid.
  pub find_pid-Found : Returns (Outcome k) (find_pid k)
  unfolding find_pid
  find_pid-Found = elim (Bool-cases (ltb k.max_pid pid && ltb pid max_pid_bound)) [
    | inl high ↦ rw high (
        returns (
          inr (record {
            fresh = upper_fresh (ground arith);
            above = omega (arith, pid_bounds);
            below = omega (arith, pid_bounds);
            only = refl;
            covers = ground (arith, b.ordered);
            wider = ground arith;
            small = omega (arith, pid_bounds);
            next_in = omega (arith, pid_bounds);
          })))
    | inr not_high ↦ rw not_high (elim (Bool-cases (ltb pid k.min_pid && ltb min_pid_bound pid)) [
      | inl low ↦ rw low (
          returns (
            inr (record {
              fresh = lower_fresh (ground arith);
              above = omega (arith, pid_bounds);
              below = omega (arith, pid_bounds);
              only = refl;
              covers = ground (arith, b.ordered);
              wider = ground arith;
              small = b.small;
              next_in = ground (arith, pid_bounds, b.small);
            })))
      | inr not_low ↦ rw not_low (find_between-Found (ground (arith, pid_bounds)))
    ])
  ]

  -- A process that is given the new pid keeps the bounds.
  Found-PidBounds :
      (r : ℕ) (k' : Kernel) (p : ℕ)
      → Found k r k'
      → PidBounds (record k' { proc = update k'.proc p (record (k'.proc p) { pid = r }) })
  Found-PidBounds r k' p d = record {
    upper = λ a s. ground (arith, b.upper a s, d.only, d.covers, d.wider);
    lower = λ a s. ground (arith, b.lower a s, d.only, d.covers, d.wider);
    ordered = ground (arith, d.covers);
    positive = ground (arith, d.covers, d.above);
    small = d.small;
    next_low = d.next_in.0;
    next_high = d.next_in.1;
  }

  -- The bounds last: while they hold, a call of `find_pid` ends without a fault, and when its result
  -- is given to any process, as `create` does, they hold again, so the next call starts from them;
  -- if there is no result, it is SYSERR and nothing has changed.
  pub find_pid-PidBounds :
      (p : ℕ)
      → Returns
          (λ r k'.
            ((r ≡ sys_err) × (k' ≡ k))
            ⊎ PidBounds (record k' { proc = update k'.proc p (record (k'.proc p) { pid = r }) }))
          (find_pid k)
  find_pid-PidBounds p = weaken find_pid-Found covered
    where
      covered :
          (r : ℕ) (k' : Kernel)
          → Outcome k r k'
          → ((r ≡ sys_err) × (k' ≡ k))
            ⊎ PidBounds (record k' { proc = update k'.proc p (record (k'.proc p) { pid = r }) })
      covered r k' (inl failed) = inl failed
      covered r k' (inr d) = inr (Found-PidBounds r k' p d)

  -- Where the search starts no lower than `min_pid` and every pid from there up to `max_pid` is in
  -- use, `find_pid` gives SYSERR and changes nothing, whatever pids below its start are free.
  pub find_pid-gives_up :
      k.min_pid ≤ pid
      → pid ≤ k.max_pid
      → ((q : ℕ) → pid ≤ q → q < k.max_pid → (a : ℕ) × IsSlot a × ((k.proc a).pid ≡ q))
      → find_pid k ≡ done sys_err k
  unfolding find_pid find_between
  find_pid-gives_up low high used =
      let nothing : first_unused (k.max_pid - pid) k.proc pid ≡ none =
        first_unused-none (k.max_pid - pid) k.proc pid (λ q lo hi.
          let (a, s, e) = used q lo (omega arith) in
          pid_unused-used proc_sz k.proc q 0 a refl (omega arith) s.1 e) in
      ground (arith, nothing)
