-- ===== src/Kernel/Command.antt =====
-- Kernel code as commands on the state. A read or write through NULL is `fault`, and a loop that
-- has not ended within the rounds it is given is `spin`.
use bkernel.Base.{ℕ, ◌+◌, Option, none, some, Bool, true, false, ◌==◌, if◌then◌else◌}
use bkernel.Kernel.State.{Kernel, Pcb, null}

pub data Run (A : Type 0) : Type 0 where
  done : A → Kernel → Run A
  fault : Run A
  spin : Run A

abbrev pub Cmd : Type 0 → Type 0
Cmd A = Kernel → Run A

module _ {A B : Type 0} where
  abbrev pub and_then : Run A → (A → Cmd B) → Run B
  and_then (done a k) f = f a k
  and_then fault f = fault
  and_then spin f = spin

  infixl 5 ◌>>=◌ ◌>>◌
  abbrev pub ◌>>=◌ : Cmd A → (A → Cmd B) → Cmd B
  m >>= f = λ k. and_then (m k) f

  abbrev pub ◌>>◌ : Cmd A → Cmd B → Cmd B
  m >> n = m >>= λ _. n

module _ {A : Type 0} where
  abbrev pub pure : A → Cmd A
  pure a k = done a k

  abbrev pub get : (Kernel → A) → Cmd A
  get f k = done (f k) k

  -- An access out of bounds, or through NULL.
  abbrev pub crash : Cmd A
  crash k = fault

  -- The result of a loop: `none` if its rounds ran out.
  abbrev pub ended : Option A → Cmd A
  ended none k = spin
  ended (some a) k = done a k

abbrev pub put : (Kernel → Kernel) → Cmd (Unit {0})
put f k = done tt (f k)

abbrev pub skip : Cmd (Unit {0})
skip k = done tt k

-- `if (b) m`
abbrev pub when : Bool → Cmd (Unit {0}) → Cmd (Unit {0})
when true m = m
when false m = skip

-- A store with the value at one address replaced.
abbrev pub update {ℓ} : {A : Type ℓ} → (ℕ → A) → ℕ → A → ℕ → A
update f p v a = if a == p then v else f a

-- `*p`
abbrev pub load : ℕ → Cmd Pcb
load p k = if p == null then fault else done (k.proc p) k

-- An assignment to fields of `*p`.
abbrev pub modify : ℕ → (Pcb → Pcb) → Cmd (Unit {0})
modify p g k =
    if p == null then fault else done tt (record k { proc = update k.proc p (g (k.proc p)) })

-- The word `offset` bytes into the object at `base`.
abbrev pub load_word : ℕ → ℕ → Cmd ℕ
load_word base offset k = if base == null then fault else done (k.word (base + offset)) k

abbrev pub store_word : ℕ → ℕ → ℕ → Cmd (Unit {0})
store_word base offset v k =
    if base == null then fault else done tt (record k { word = update k.word (base + offset) v })

-- Assignments to the fields that the kernel writes most.
abbrev pub with_next : ℕ → Pcb → Pcb
with_next q r = record r { next = q }

abbrev pub with_state : ℕ → Pcb → Pcb
with_state s r = record r { state = s }

abbrev pub with_rc : ℕ → Pcb → Pcb
with_rc v r = record r { rc = v }
