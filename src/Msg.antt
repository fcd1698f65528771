-- ===== src/Msg.antt =====
-- c/msg.c: blocking, synchronous, unbuffered messages between processes.
pub mod Queues
pub mod Fields
pub mod Blocked
pub mod Unblocked
use bkernel.Base.{
  ℕ, zero, suc, Option, none, some, Bool, true, false, ◌&&◌, ◌||◌, ◌==◌, if◌then◌else◌, lt_signed,
}
use bkernel.Kernel.{
  Image, null, ready_state, block_on_send_state, block_on_recv_state, receive_any_pid, err_pid,
  err_loopback, err_ipc, Cmd, ◌>>=◌, ◌>>◌, pure, get, ended, put, when, load, modify, with_next,
  with_state, with_rc, load_word, store_word,
}
use bkernel.Queue.Chain.{Procs}
use bkernel.Queue.Walk.{rounds, find_last}
use bkernel.Mem.Alloc.{kmalloc, hole_start, hole_end, max_addr}
use bkernel.Mem.Free.{kfree}
use bkernel.Disp.{get_proc, ready, Side, senders, receivers, queue_of, with_queue}

-- `block(&(owner->blocked_senders), p)` and `block(&(owner->blocked_receivers), p)`
unfoldable pub block : Side → ℕ → ℕ → Cmd (Unit {0})
block side owner p = do
  r ← load owner
  let tmp = queue_of side r
  modify p (with_next null)
  if tmp == null then modify owner (with_queue side p) else (do
    f ← get (λ k. k.proc)
    tail ← ended (find_last rounds f tmp)
    modify tail (with_next p))

-- The loop of `unblock`: the process before the one that is looked for, NULL if there is none.
unfoldable pub find_before : ℕ → Procs → ℕ → ℕ → Option ℕ
find_before zero f tmp pid = none
find_before (suc n) f tmp pid =
    let rest = find_before n f (f tmp).next pid in
    if tmp == null || (f tmp).next == null
    then some null
    else if (f (f tmp).next).pid == pid || pid == 0
    then some tmp
    else rest

unfoldable pub unblock : Side → ℕ → ℕ → Cmd ℕ
unblock side owner pid = do
  r ← load owner
  let q = queue_of side r
  if q == null then pure null else do
    head ← load q
    if head.pid == pid || pid == 0
        then (do modify owner (with_queue side head.next); pure q)
        else (do
          f ← get (λ k. k.proc)
          tmp ← ended (find_before rounds f q pid)
          if tmp == null then pure null else do
            t ← load tmp
            found ← load t.next
            modify tmp (with_next found.next)
            pure t.next)

-- The loop of `deadlock`: whether a process of the queue has the pid.
unfoldable pub pid_in_queue : ℕ → Procs → ℕ → ℕ → Option Bool
pid_in_queue zero f q pid = none
pid_in_queue (suc n) f q pid =
    let rest = pid_in_queue n f (f q).next pid in
    if q == null then some false else if (f q).pid == pid then some true else rest

unfoldable pub deadlock : ℕ → ℕ → Cmd Bool
deadlock q p = do r ← load p; f ← get (λ k. k.proc); ended (pid_in_queue rounds f q r.pid)

-- `ipc_t`, by the offsets of its fields.
abbrev pub ipc_size : ℕ
ipc_size = 16

abbrev pub ipc_pid : ℕ
ipc_pid = 0

abbrev pub ipc_pid_ptr : ℕ
ipc_pid_ptr = 4

abbrev pub ipc_buffer : ℕ
ipc_buffer = 8

abbrev pub ipc_buffer_len : ℕ
ipc_buffer_len = 12

-- `p->state = READY_STATE; p->rc = rc; ready(p);`
unfoldable pub reply : ℕ → ℕ → Cmd (Unit {0})
reply p rc = do modify p (with_state ready_state); modify p (with_rc rc); ready p

-- The test on the address of a buffer that `send` and `recv` share.
unfoldable pub outside_user_space : ℕ → ℕ → Bool
outside_user_space freemem buffer =
    lt_signed buffer freemem
    || (lt_signed hole_start buffer && lt_signed buffer hole_end)
    || lt_signed max_addr buffer

-- Both ends are ready again, with the smaller of the two lengths.
exchange : ℕ → ℕ → ℕ → ℕ → Cmd (Unit {0})
exchange p proc own_len other_len = do
  let rc = if lt_signed own_len other_len then own_len else other_len
  modify p (with_rc rc)
  modify proc (with_rc rc)

wake_both : ℕ → ℕ → Cmd (Unit {0})
wake_both p proc = do
  modify p (with_state ready_state)
  modify proc (with_state ready_state)
  ready p
  ready proc

module _ (image : Image) where
  -- `sprintf(rcv_buffer, "%s", snd_buffer)`
  copy_string : ℕ → ℕ → Cmd (Unit {0})
  copy_string dst src = put (λ k. record k { byte = image.sprintf k.byte dst src })

  -- The message goes from `p` to the process that waits for it.
  deliver : ℕ → ℕ → ℕ → Cmd (Unit {0})
  unfolding exchange copy_string
  deliver p proc comm = do
    r ← load proc
    let dst_comm = r.ptr
    src ← load_word comm ipc_buffer
    dst ← load_word dst_comm ipc_buffer
    copy_string dst src
    own ← load_word comm ipc_buffer_len
    other ← load_word dst_comm ipc_buffer_len
    exchange p proc own other

  -- Whether `proc` waits for a message from anyone.
  receives_any : ℕ → Cmd Bool
  receives_any proc = do
    r ← load proc
    if r.ptr == null then pure false else do
      pid_ptr ← load_word r.ptr ipc_pid_ptr
      wanted ← load_word pid_ptr 0
      pure (wanted == receive_any_pid && r.state == block_on_recv_state)

  -- `send` once its arguments are known to be good, and no receiver waits for `p`.
  send_blocking : ℕ → ℕ → ℕ → Cmd (Unit {0})
  unfolding deliver wake_both receives_any reply
  send_blocking p pid comm = do
    proc ← get_proc pid
    if proc == null then (do kfree image.indeterminate comm; reply p err_pid) else do
      any ← receives_any proc
      if any
          then (do
            deliver p proc comm
            dst ← load proc
            pid_ptr ← load_word dst.ptr ipc_pid_ptr
            r ← load p
            store_word pid_ptr 0 r.pid
            wake_both p proc)
          else do
            r ← load p
            stuck ← deadlock r.blocked_senders proc
            if stuck
                then (do kfree image.indeterminate comm; reply p err_ipc)
                else (do block senders proc p; modify p (with_state block_on_send_state))

  unfoldable pub send : ℕ → ℕ → ℕ → ℕ → Cmd (Unit {0})
  unfolding send_blocking outside_user_space
  send p pid buffer buffer_len = do
    store_word image.send_pid 0 pid
    r ← load p
    freemem ← get (λ k. k.freemem)
    if r.pid == pid
        then reply p err_loopback
        else if buffer_len == 0 || buffer == null || pid == 0
        then reply p err_ipc
        else if outside_user_space freemem buffer
        then reply p err_ipc
        else do
          comm ← kmalloc ipc_size
          store_word comm ipc_pid_ptr image.send_pid
          store_word comm ipc_buffer buffer
          store_word comm ipc_buffer_len buffer_len
          store_word comm ipc_pid pid
          modify p (λ r. record r { ptr = comm })
          proc ← unblock receivers p pid
          if proc == null
              then send_blocking p pid comm
              else (do deliver p proc comm; wake_both p proc)

  -- `recv` when no sender waits for `p`.
  recv_blocking : ℕ → ℕ → ℕ → Cmd (Unit {0})
  unfolding reply
  recv_blocking p pid comm = if pid == 0 then modify p (with_state block_on_recv_state) else do
    proc ← get_proc pid
    if proc == null then (do kfree image.indeterminate comm; reply p err_pid) else do
      r ← load p
      stuck ← deadlock r.blocked_receivers proc
      if stuck
          then (do kfree image.indeterminate comm; reply p err_ipc)
          else (do block receivers proc p; modify p (with_state block_on_recv_state))

  -- The message goes from the blocked sender `proc` to `p`.
  collect : ℕ → ℕ → ℕ → ℕ → Cmd (Unit {0})
  unfolding exchange copy_string
  collect p proc comm pid_ptr = do
    pid ← load_word pid_ptr 0
    r ← load proc
    when (pid == 0) (store_word pid_ptr 0 r.pid)
    let src_comm = r.ptr
    src ← load_word src_comm ipc_buffer
    dst ← load_word comm ipc_buffer
    copy_string dst src
    own ← load_word comm ipc_buffer_len
    other ← load_word src_comm ipc_buffer_len
    exchange p proc own other

  unfoldable pub recv : ℕ → ℕ → ℕ → ℕ → Cmd (Unit {0})
  unfolding recv_blocking collect wake_both outside_user_space reply
  recv p pid_ptr buffer buffer_len = do
    r ← load p
    pid ← load_word pid_ptr 0
    freemem ← get (λ k. k.freemem)
    if r.pid == pid
        then reply p err_loopback
        else if buffer_len == 0 || buffer == null
        then reply p err_ipc
        else if outside_user_space freemem buffer
        then reply p err_ipc
        else do
          comm ← kmalloc ipc_size
          store_word comm ipc_pid_ptr pid_ptr
          store_word comm ipc_buffer buffer
          store_word comm ipc_buffer_len buffer_len
          modify p (λ r. record r { ptr = comm })
          pid ← load_word pid_ptr 0
          proc ← unblock senders p pid
          if proc == null
              then recv_blocking p pid comm
              else (do collect p proc comm pid_ptr; wake_both p proc)
