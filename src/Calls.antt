-- ===== src/Calls.antt =====
-- The requests of h/xeroskernel.h, and how the dispatcher of c/disp.c reads the arguments of one.
use bkernel.Base.{ℕ, ◌*◌, ◌==◌, if◌then◌else◌}
use bkernel.Kernel.{Cmd, ◌>>=◌, pure, load_word}

-- The request codes.
abbrev pub timer_int_request : ℕ
timer_int_request = 1

abbrev pub kbd_int_request : ℕ
kbd_int_request = 2

abbrev pub stop_request : ℕ
stop_request = 100

abbrev pub yield_request : ℕ
yield_request = 101

abbrev pub create_request : ℕ
create_request = 102

abbrev pub getpid_request : ℕ
getpid_request = 103

abbrev pub puts_request : ℕ
puts_request = 104

abbrev pub sleep_request : ℕ
sleep_request = 105

abbrev pub send_request : ℕ
send_request = 106

abbrev pub recv_request : ℕ
recv_request = 107

abbrev pub sig_handler_request : ℕ
sig_handler_request = 1000

abbrev pub sig_return_request : ℕ
sig_return_request = 1001

abbrev pub sig_kill_request : ℕ
sig_kill_request = 1002

abbrev pub sig_wait_request : ℕ
sig_wait_request = 1003

abbrev pub dev_open_request : ℕ
dev_open_request = 2000

abbrev pub dev_close_request : ℕ
dev_close_request = 2001

abbrev pub dev_write_request : ℕ
dev_write_request = 2002

abbrev pub dev_read_request : ℕ
dev_read_request = 2003

abbrev pub dev_ioctl_request : ℕ
dev_ioctl_request = 2004

-- The cases of the dispatcher's `switch` with their arguments; the keyboard interrupt comes with what
-- its ports hold. There is no case for any other code.
pub data Request : Type 0 where
  timer_int : Request
  kbd_int : (status code : ℕ) → Request
  create_proc : (func stack : ℕ) → Request
  yield_proc : Request
  stop_proc : Request
  get_pid : Request
  puts : (str : ℕ) → Request
  sleep_ms : (ms : ℕ) → Request
  send_to : (pid buffer buffer_len : ℕ) → Request
  recv_from : (pid_ptr buffer buffer_len : ℕ) → Request
  sig_handler : (sig_no new_handler old_handler : ℕ) → Request
  sig_return : (osp orc oim : ℕ) → Request
  sig_kill : (pid sig_no : ℕ) → Request
  sig_wait : Request
  dev_open : (dev_no : ℕ) → Request
  dev_close : (fd_no : ℕ) → Request
  dev_write : (fd_no buffer buffer_len : ℕ) → Request
  dev_read : (fd_no buffer buffer_len : ℕ) → Request
  dev_ioctl : (fd_no cmd eof : ℕ) → Request
  no_case : Request

-- `va_arg(ap, T)` for the argument `i`, each of which takes four bytes.
abbrev pub va_arg : ℕ → ℕ → Cmd ℕ
va_arg ap i = load_word ap (4 * i)

module _ (ap : ℕ) where
  unfoldable pub one_arg : (ℕ → Request) → Cmd Request
  one_arg f = do a ← va_arg ap 0; pure (f a)

  unfoldable pub two_args : (ℕ → ℕ → Request) → Cmd Request
  two_args f = do a ← va_arg ap 0; b ← va_arg ap 1; pure (f a b)

  unfoldable pub three_args : (ℕ → ℕ → ℕ → Request) → Cmd Request
  three_args f = do a ← va_arg ap 0; b ← va_arg ap 1; c ← va_arg ap 2; pure (f a b c)

  -- The cases of the `switch` on the request code, with the arguments that each reads.
  unfoldable pub device_request : ℕ → Cmd Request
  device_request code =
      if code == dev_open_request
      then one_arg dev_open
      else if code == dev_close_request
      then one_arg dev_close
      else if code == dev_write_request
      then three_args dev_write
      else if code == dev_read_request
      then three_args dev_read
      else if code == dev_ioctl_request
      then three_args dev_ioctl
      else pure no_case

  unfoldable pub signal_request : ℕ → Cmd Request
  signal_request code =
      if code == sig_handler_request
      then three_args sig_handler
      else if code == sig_return_request
      then three_args sig_return
      else if code == sig_kill_request
      then two_args sig_kill
      else if code == sig_wait_request
      then pure sig_wait
      else device_request code

  unfoldable pub process_request : ℕ → Cmd Request
  process_request code =
      if code == create_request
      then two_args create_proc
      else if code == yield_request
      then pure yield_proc
      else if code == stop_request
      then pure stop_proc
      else if code == getpid_request
      then pure get_pid
      else if code == puts_request
      then one_arg puts
      else if code == sleep_request
      then one_arg sleep_ms
      else if code == send_request
      then three_args send_to
      else if code == recv_request
      then three_args recv_from
      else signal_request code

  unfoldable pub read_request : (status code : ℕ) → ℕ → Cmd Request
  read_request status code request =
      if request == timer_int_request
      then pure timer_int
      else if request == kbd_int_request
      then pure (kbd_int status code)
      else process_request request
