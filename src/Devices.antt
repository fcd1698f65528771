-- ===== src/Devices.antt =====
-- c/di_calls.c: the device independent layer.
pub mod Opened
pub mod Exclusive
use bkernel.Base.{
  ℕ, ◌+◌, Option, none, some, List, [], ◌∷◌, Bool, false, not, ◌||◌, ◌==◌, if◌then◌else◌, is_neg,
  lt_signed, neg, get_elem?, set,
}
use bkernel.Kernel.{
  Pcb, Devsw, Image, null, dev_sz, fd_sz, set_eof, sys_err, Cmd, ◌>>=◌, ◌>>◌, pure, get, put, crash,
  load, modify,
}
use bkernel.Kbd.Driver.{kbd_open, kbd_close, kbd_read, kbd_ioctl}

-- An entry of a table; an access out of bounds is a fault.
abbrev pub entry : {A : Type 0} → List A → ℕ → Cmd A
entry xs i = elim (get_elem? xs i) [ none ↦ crash | some x ↦ pure x ]

-- Whether a device of the table has an owner.
unfoldable pub any_owned : List Devsw → Bool
any_owned [] = false
any_owned (d ∷ ds) = not (d.dvowner == 0) || any_owned ds

-- The first free descriptor from `i` on.
unfoldable pub free_fd : List ℕ → ℕ → Option ℕ
free_fd [] i = none
free_fd (major ∷ fds) i = if major == neg 1 then some i else free_fd fds (i + 1)

unfoldable pub set_owner : ℕ → ℕ → Cmd (Unit {0})
set_owner device_no owner = do
  table ← get (λ k. k.dev_table)
  d ← entry table device_no
  put (λ k. record k { dev_table = set k.dev_table device_no (record d { dvowner = owner }) })

abbrev pub with_fd : ℕ → ℕ → Pcb → Pcb
with_fd fd major r = record r { fd_table = set r.fd_table fd major }

unfoldable pub di_open : ℕ → ℕ → Cmd ℕ
unfolding any_owned free_fd set_owner
di_open p device_no = if is_neg device_no || lt_signed dev_sz device_no then pure sys_err else do
  table ← get (λ k. k.dev_table)
  d ← entry table device_no
  if not (d.dvowner == 0) then pure sys_err else if any_owned table then pure sys_err else do
    r ← load p
    elim (free_fd r.fd_table 0) [
      | none ↦ pure sys_err
      | some fd ↦ do modify p (with_fd fd device_no); set_owner device_no r.pid; kbd_open; pure fd
    ]

-- What the other calls check first: the descriptor is in range and open.
abbrev bad_fd : ℕ → Bool
bad_fd fd = is_neg fd || lt_signed fd_sz fd

unfoldable pub di_close : ℕ → ℕ → Cmd ℕ
unfolding set_owner
di_close p fd = if bad_fd fd then pure sys_err else do
  r ← load p
  dvmajor ← entry r.fd_table fd
  if dvmajor == neg 1 then pure sys_err else do
    table ← get (λ k. k.dev_table)
    d ← entry table dvmajor
    if not (d.dvowner == r.pid)
        then pure sys_err
        else do set_owner dvmajor 0; modify p (with_fd fd (neg 1)); kbd_close

unfoldable pub di_write : ℕ → ℕ → ℕ → ℕ → Cmd ℕ
di_write p fd buf buflen = if bad_fd fd then pure sys_err else do
  r ← load p
  dvmajor ← entry r.fd_table fd
  if dvmajor == neg 1
      then pure sys_err
      else if buf == null || buflen == 0
      then pure sys_err
      else do table ← get (λ k. k.dev_table); d ← entry table dvmajor; pure sys_err

unfoldable pub di_read : Image → ℕ → ℕ → ℕ → ℕ → Cmd ℕ
di_read image p fd buf buflen = if bad_fd fd then pure sys_err else do
  r ← load p
  dvmajor ← entry r.fd_table fd
  if dvmajor == neg 1 then pure sys_err else if buf == null || buflen == 0 then pure sys_err else do
    table ← get (λ k. k.dev_table)
    d ← entry table dvmajor
    if not (d.dvowner == r.pid) then pure sys_err else kbd_read image p dvmajor buf buflen

unfoldable pub di_ioctl : ℕ → ℕ → ℕ → ℕ → Cmd ℕ
di_ioctl p fd command eof = if bad_fd fd then pure sys_err else do
  r ← load p
  dvmajor ← entry r.fd_table fd
  if dvmajor == neg 1
      then pure sys_err
      else if not (command == set_eof)
      then pure sys_err
      else if is_neg eof || lt_signed 127 eof
      then pure sys_err
      else do
        table ← get (λ k. k.dev_table)
        d ← entry table dvmajor
        if not (d.dvowner == r.pid) then pure sys_err else kbd_ioctl eof
