-- ===== src/Kbd/Queue.antt =====
-- The queue of processes that wait for the keyboard: `kbd_enqueue` and `kbd_dequeue` of c/kbd.c.
use bkernel.Base.{ℕ, ◌==◌, if◌then◌else◌}
use bkernel.Kernel.{
  null, ready_state, Cmd, ◌>>=◌, ◌>>◌, pure, get, ended, put, skip, when, load, modify, with_next,
  with_state, with_rc,
}
use bkernel.Queue.Walk.{rounds, find_last}
use bkernel.Disp.{ready}

-- The walk starts from what `kbd_q` was on entry.
abbrev walk_from : ℕ → Cmd ℕ
walk_from tmp =
    if tmp == null then pure null else do f ← get (λ k. k.proc); ended (find_last rounds f tmp)

unfoldable pub kbd_enqueue : ℕ → Cmd (Unit {0})
kbd_enqueue p = do
  tmp ← get (λ k. k.kbd_q)
  modify p (with_next null)
  when (tmp == null) (put (λ k. record k { kbd_q = p }))
  tail ← walk_from tmp
  modify tail (with_next p)

-- With the end-of-file flag set it writes through `p` while that is still NULL.
unfoldable pub kbd_dequeue : Cmd (Unit {0})
kbd_dequeue = do
  q ← get (λ k. k.kbd_q)
  if q == null then skip else do
    eof ← get (λ k. k.kbd.kbd_eof_flag)
    when eof (modify null (with_rc 0))
    r ← load q
    put (λ k. record k { kbd_q = r.next })
    modify q (with_state ready_state)
    ready q
