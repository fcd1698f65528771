-- ===== src/Kbd/Driver.antt =====
-- The driver of c/kbd.c: opening, closing, reading, end of file, and the interrupt.
use bkernel.Base.{
  ℕ, ◌+◌, ◌-◌, ◌%◌, none, some, List, [], ◌∷◌, ◌++◌, Bool, true, false, not, ◌&&◌, ◌||◌, ◌==◌,
  if◌then◌else◌, ltb, lt_signed, add32, neg, length, get_elem?, set, replicate, bit_and,
}
use bkernel.Kernel.{
  Kbd, Devsw, Output, Image, null, ready_state, kbd_necho, kbd_echo, Cmd, ◌>>=◌, ◌>>◌, pure, get,
  put, skip, when, crash, load, modify, with_state, with_rc, load_word, store_word,
}
use bkernel.Mem.Alloc.{kmalloc}
use bkernel.Disp.{ready}
use bkernel.Kbd.Queue.{kbd_enqueue, kbd_dequeue}
use bkernel.Kbd.Scan.{kbtoa}

abbrev pub enter_key : ℕ
enter_key = 10

abbrev pub dev_success : ℕ
dev_success = 0

abbrev pub dev_err : ℕ
dev_err = neg 1

abbrev pub put_kbd : (Kbd → Kbd) → Cmd (Unit {0})
put_kbd f = put (λ k. record k { kbd = f k.kbd })

-- `kbdi_t`, by the offsets of its fields.
abbrev pub kbdi_size : ℕ
kbdi_size = 16

abbrev pub kbdi_d : ℕ
kbdi_d = 0

abbrev pub kbdi_buf : ℕ
kbdi_buf = 4

abbrev pub kbdi_buflen : ℕ
kbdi_buflen = 8

abbrev pub kbdi_bufi : ℕ
kbdi_bufi = 12

unfoldable pub kbd_init : Cmd (Unit {0})
kbd_init = put (λ k. record k {
  dev_table =
      record { dvowner = 0; dvnum = kbd_necho } ∷ record { dvowner = 0; dvnum = kbd_echo } ∷ [];
})

-- Whether the echoing keyboard has an owner.
unfoldable pub echo_owned : List Devsw → Bool
echo_owned table = elim (get_elem? table kbd_echo) [ none ↦ false | some d ↦ not (d.dvowner == 0) ]

unfoldable pub kbd_open : Cmd ℕ
unfolding echo_owned
kbd_open = do
  put_kbd (λ b. record b { kbd_irq = true })
  table ← get (λ k. k.dev_table)
  when (echo_owned table) (put_kbd (λ b. record b { kbd_echo_flag = true }))
  pure dev_success

unfoldable pub kbd_close : Cmd ℕ
kbd_close = do
  put_kbd (λ b. record b { kbd_echo_flag = false; kbd_eof_flag = false; kbd_irq = false })
  pure dev_success

unfoldable pub kbd_write : ℕ → ℕ → Cmd ℕ
kbd_write buf buflen = pure dev_err

unfoldable pub kbd_ioctl : ℕ → Cmd ℕ
kbd_ioctl eof = do put_kbd (λ b. record b { kbd_eof = eof % 256 }); pure dev_success

unfoldable pub kbd_error : Cmd ℕ
kbd_error = do
  put (λ k. record k { console = k.console ++ (Output.unsupported ∷ []) })
  pure dev_err

-- `kbd_buf[kbd_buf_i] = key; kbd_buf_i++; kbd_free--;`
store_key : ℕ → Cmd (Unit {0})
store_key key = do
  b ← get (λ k. k.kbd)
  if ltb b.kbd_buf_i (length b.kbd_buf)
      then put_kbd (λ b. record b {
        kbd_buf = set b.kbd_buf b.kbd_buf_i key;
        kbd_buf_i = b.kbd_buf_i + 1;
        kbd_free = b.kbd_free - 1;
      })
      else crash

-- `kbd_buf[i-1]`
last_key : List ℕ → ℕ → Cmd ℕ
last_key buf i =
    if i == 0 then crash else elim (get_elem? buf (i - 1)) [ none ↦ crash | some key ↦ pure key ]

module _ (image : Image) where
  -- With the end-of-file flag set, the process is put on the ready queue and then queued all the
  -- same.
  unfoldable pub kbd_read : ℕ → ℕ → ℕ → ℕ → Cmd ℕ
  kbd_read p device_no buf buflen = do
    eof ← get (λ k. k.kbd.kbd_eof_flag)
    when eof (do modify p (with_rc 0); modify p (with_state ready_state); ready p)
    mem ← kmalloc kbdi_size
    put (λ k. record k { byte = image.strncpy_empty k.byte buf buflen })
    store_word mem kbdi_d (image.dev_addr device_no)
    store_word mem kbdi_buf buf
    store_word mem kbdi_buflen buflen
    store_word mem kbdi_bufi 0
    modify p (λ r. record r { ptr = mem })
    kbd_enqueue p
    pure dev_success

  -- The characters of the buffer go behind the string at `buf`.
  transfer : ℕ → ℕ → Cmd (Unit {0})
  transfer buf buflen = do
    b ← get (λ k. k.kbd)
    let tmp = image.strncpy (replicate 5 0) [] 5
    if lt_signed buflen b.kbd_buf_i
        then (do
          put_kbd (λ b. record b { kbd_free = add32 b.kbd_free buflen })
          put (λ k. record k {
            byte = image.strncat k.byte buf (image.strncpy tmp b.kbd_buf buflen) buflen;
          }))
        else (do
          put (λ k. record k {
            byte = image.strcat k.byte buf (image.strncpy tmp b.kbd_buf b.kbd_buf_i);
          })
          put_kbd (λ b. record b { kbd_free = add32 b.kbd_free b.kbd_buf_i }))

  unfoldable pub kbd_notify : Cmd (Unit {0})
  unfolding transfer last_key
  kbd_notify = do
    b ← get (λ k. k.kbd)
    q ← get (λ k. k.kbd_q)
    if q == null then skip else do
      r ← load q
      buf ← load_word r.ptr kbdi_buf
      buflen ← load_word r.ptr kbdi_buflen
      transfer buf buflen
      bufi ← load_word r.ptr kbdi_bufi
      let bufi' = add32 bufi b.kbd_buf_i
      store_word r.ptr kbdi_bufi bufi'
      put_kbd (λ b. record b { kbd_buf_i = 0 })
      key ← last_key b.kbd_buf b.kbd_buf_i
      when (key == enter_key || not (lt_signed bufi' buflen))
          (do modify q (with_rc (if lt_signed buflen bufi' then buflen else bufi')); kbd_dequeue)

  -- `status` and `code` are what the two ports hold.
  unfoldable pub kbd_iint : ℕ → ℕ → Cmd ℕ
  unfolding store_key
  kbd_iint status code = if bit_and 1 status == 0 then pure dev_success else do
    s ← get (λ k. k.scan)
    let (ch, s') = kbtoa image.indeterminate code s
    put (λ k. record k { scan = s' })
    let key = ch % 256
    b ← get (λ k. k.kbd)
    let typed = not (key == 0) && not (key == b.kbd_eof)
    when (typed && b.kbd_echo_flag)
        (put (λ k. record k { console = k.console ++ (Output.key key ∷ []) }))
    when (typed && ltb 0 b.kbd_free) (store_key key)
    when (key == b.kbd_eof) (do put_kbd (λ b. record b { kbd_eof_flag = true }); kbd_dequeue)
    eof ← get (λ k. k.kbd.kbd_eof_flag)
    when (not (key == 0) && not eof) kbd_notify
    pure dev_success
