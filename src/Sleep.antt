-- ===== src/Sleep.antt =====
-- c/sleep.c: the delta list of sleeping processes and the timer.
pub mod Timer
pub mod Delta
pub mod Steps
pub mod Insert
pub mod Order
pub mod Entry
pub mod Wake
pub mod Clock
pub mod Later
pub mod Early
pub mod Unlink
pub mod Cancel
use bkernel.Base.{
  ℕ, zero, suc, ◌/◌, ◌%◌, Bool, true, false, not, ◌&&◌, ◌==◌, if◌then◌else◌, ltb, leb, add32, sub32,
}
use bkernel.Kernel.{
  Pcb, null, ready_state, spin, Cmd, ◌>>=◌, ◌>>◌, pure, get, ended, put, skip, when, load, modify,
  with_next,
}
use bkernel.Queue.Walk.{rounds, count_from}
use bkernel.Disp.{ready}

unfoldable pub sleep_to_slice : ℕ → ℕ
sleep_to_slice ms = add32 (ms / 10) (if ms % 10 == 0 then 0 else 1)

abbrev pub with_delta : ℕ → Pcb → Pcb
with_delta d r = record r { delta_slice = d }

-- The process goes between `tmp` and the one behind that, which sleeps by so much less.
unfoldable pub link_between : ℕ → ℕ → Cmd (Unit {0})
link_between p tmp = do
  t ← load tmp
  r ← load p
  s ← load t.next
  modify t.next (with_delta (sub32 s.delta_slice r.delta_slice))
  t ← load tmp
  modify p (with_next t.next)
  modify tmp (with_next p)

-- The loop of `sleep`.
unfoldable pub sleep_loop : ℕ → ℕ → ℕ → ℕ → Cmd ℕ
sleep_loop zero p tmp cnt = λ k. spin
sleep_loop (suc n) p tmp cnt = if tmp == null then pure 0 else do
  t ← load tmp
  let cnt' = add32 cnt t.delta_slice
  r ← load p
  if leb t.delta_slice r.delta_slice
      then (do
        modify p (with_delta (sub32 r.delta_slice t.delta_slice))
        r ← load p
        t ← load tmp
        f ← get (λ k. k.proc)
        if not (t.next == null) && ltb r.delta_slice (f t.next).delta_slice
            then (do link_between p tmp; pure cnt')
            else if t.next == null
            then (do modify p (with_next null); modify tmp (with_next p); pure cnt')
            else sleep_loop n p t.next cnt')
      else sleep_loop n p t.next cnt'

unfoldable pub sleep : ℕ → Cmd ℕ
sleep p = if p == null then pure 0 else do
  tmp ← get (λ k. k.sleep_q)
  if tmp == null
      then (do
        put (λ k. record k { sleep_q = p })
        modify p (with_next null)
        r ← load p
        pure r.delta_slice)
      else do
        r ← load p
        head ← load tmp
        if ltb r.delta_slice head.delta_slice
            then (do
              modify tmp (with_delta (sub32 head.delta_slice r.delta_slice))
              head ← load tmp
              modify p (with_next tmp)
              put (λ k. record k { sleep_q = p })
              pure (add32 r.delta_slice head.delta_slice))
            else sleep_loop rounds p tmp 0

-- The loop of `wake`: the processes behind the head whose time has come too.
unfoldable pub wake_loop : ℕ → Cmd (Unit {0})
wake_loop zero = λ k. spin
wake_loop (suc n) = do
  q ← get (λ k. k.sleep_q)
  if q == null then skip else do
    r ← load q
    if r.delta_slice == 0
        then (do
          modify q (λ r. record r { rc = r.delta_slice })
          put (λ k. record k { sleep_q = r.next })
          ready q
          wake_loop n)
        else skip

unfoldable pub wake : Cmd (Unit {0})
wake = do
  p ← get (λ k. k.sleep_q)
  if p == null
      then skip
      else do r ← load p; put (λ k. record k { sleep_q = r.next }); ready p; wake_loop rounds

-- The loop of `wake_early`.
unfoldable pub wake_early_loop : ℕ → ℕ → ℕ → ℕ → Cmd (Unit {0})
wake_early_loop zero p tmp cnt = λ k. spin
wake_early_loop (suc n) p tmp cnt = if tmp == null then skip else do
  t ← load tmp
  if t.next == null then skip else do
    let cnt' = add32 cnt t.delta_slice
    s ← load t.next
    r ← load p
    if s.pid == r.pid
        then (do
          modify tmp (with_next s.next)
          t ← load tmp
          when (not (t.next == null))
              (modify t.next (λ s. with_delta (add32 s.delta_slice r.delta_slice) s))
          modify p (λ r. record r { rc = add32 cnt' r.delta_slice; state = ready_state })
          ready p)
        else wake_early_loop n p t.next cnt'

-- `wake_early` for the head of the list, with `next` behind it.
unfoldable pub wake_head : ℕ → ℕ → Cmd (Unit {0})
wake_head p next = do
  put (λ k. record k { sleep_q = next; slice_elapsed = 0 })
  r ← load p
  when (not (next == null)) (modify next (λ s. with_delta (add32 s.delta_slice r.delta_slice) s))
  modify p (λ r. record r { rc = r.delta_slice; state = ready_state })
  ready p

unfoldable pub wake_early : ℕ → Cmd (Unit {0})
wake_early p = if p == null then skip else do
  q ← get (λ k. k.sleep_q)
  head ← load q
  r ← load p
  if head.pid == r.pid then wake_head p head.next else wake_early_loop rounds p q 0

unfoldable pub tick : Cmd Bool
tick = do
  put (λ k. record k { slice_elapsed = add32 k.slice_elapsed 1 })
  k ← get (λ k. k)
  head ← load k.sleep_q
  if k.slice_elapsed == head.delta_slice
      then (do put (λ k. record k { slice_elapsed = 0 }); pure true)
      else pure false

unfoldable pub sleeper : Cmd ℕ
sleeper = do f ← get (λ k. k.proc); tmp ← get (λ k. k.sleep_q); ended (count_from rounds f tmp 0)
