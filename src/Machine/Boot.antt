-- ===== src/Machine/Boot.antt =====
-- The interrupt vectors once `initevec` of c/evec.c and `contextinit` of c/ctsw.c have run.
use bkernel.Base.{
  ℕ, zero, suc, ◌+◌, ◌*◌, ◌^◌, ◌<◌, ◌≡◌, refl, ltb, leb, ◌&&◌, ◌==◌, if◌then◌else◌, word_mod, arith,
  Option, none, some, ◌∙◌, sym, subst, Bool-cases, inl, inr, true, false,
}
use bkernel.Machine.Ports.{Ports}
use bkernel.Machine.Vectors.{
  Gate, trap_gate, Idt, set_evec, set_all, Entries, Tables, initevec, contextinit, clear, nid,
  igdt_trapg, irqbase, kernel_int,
}

-- The address that the processor reads from a gate.
abbrev pub handler_of : Gate → ℕ
handler_of g = g.igd_loffset + g.igd_hoffset * 2 ^ 16

-- A trap gate in the kernel's code segment for a handler, or one that is not present.
abbrev pub Leads : Gate → Option ℕ → Type 0
Leads g none = g.igd_present ≡ 0
Leads g (some h) =
    (handler_of g ≡ h)
    × (g.igd_segsel ≡ 0x8)
    × (g.igd_type ≡ igdt_trapg)
    × (g.igd_dpl ≡ 0)
    × (g.igd_present ≡ 1)

-- Which handler is meant for a vector.
abbrev pub meant : Entries → ℕ → Option ℕ
meant e i =
    if i == irqbase + 1
    then some e.kbd_entry_point
    else if i == irqbase
    then some e.timer_entry_point
    else if i == kernel_int
    then some e.syscall_entry_point
    else if ltb i nid
    then some (e.defevec i)
    else none

set_all_at :
    (defevec : ℕ → ℕ) (n i : ℕ) (idt : Idt) (j : ℕ)
    → set_all defevec n i idt j
      ≡ (if leb i j && ltb j (i + n) then trap_gate (defevec j) (idt j) else idt j)
unfolding set_all set_evec
set_all_at defevec zero i idt j = ground arith
set_all_at defevec (suc n) i idt j =
    set_all_at defevec n (i + 1) (set_evec i (defevec i) idt) j ∙ ground arith

trap_gate-Leads : (h : ℕ) (g : Gate) → h < word_mod → Leads (trap_gate h g) (some h)
trap_gate-Leads h g lt = (omega arith, refl, refl, refl, refl)

set_evec-Leads :
    (idt : Idt) (x h i : ℕ) (o : Option ℕ)
    → h < word_mod
    → Leads (idt i) o
    → Leads (set_evec x h idt i) (if i == x then some h else o)
unfolding set_evec
set_evec-Leads idt x h i o lt l = elim (Bool-cases (i == x)) [
  | inl t ↦ rw t (trap_gate-Leads h (idt x) lt)
  | inr f ↦ rw f l
]

set_all-Leads :
    (e : Entries) (idt : Idt) (i : ℕ)
    → i < 256
    → e.defevec i < word_mod
    → Leads (set_all e.defevec nid 0 (clear idt) i) (if ltb i nid then some (e.defevec i) else none)
set_all-Leads e idt i lt d =
    let small : ltb i 256 ≡ true = ground arith in
    subst (λ g. Leads g (if ltb i nid then some (e.defevec i) else none))
      (sym (set_all_at e.defevec nid 0 (clear idt) i))
      (elim (Bool-cases (ltb i nid)) [
        | inl t ↦
            let within : (leb 0 i && ltb i (0 + nid)) ≡ true = ground (arith, t) in
            rw within (rw t (trap_gate-Leads (e.defevec i) (clear idt i) d))
        | inr f ↦
            let outside : (leb 0 i && ltb i (0 + nid)) ≡ false = ground (arith, f) in
            rw outside (rw f (rw small refl))
      ])

-- After `initevec` and `contextinit`, for handlers whose addresses are words: the vectors 64, 32
-- and 33 lead to the system call, timer and keyboard entries, every other one below 48 to its
-- default handler, each as a trap gate in the kernel's code segment, and no other vector of the
-- table is present.
pub contextinit-Leads :
    (inb : Ports → ℕ → ℕ) (e : Entries) (t : Tables) (i : ℕ)
    → i < 256
    → e.defevec i < word_mod
    → e.syscall_entry_point < word_mod
    → e.timer_entry_point < word_mod
    → e.kbd_entry_point < word_mod
    → Leads ((contextinit inb e (initevec e t)).idt i) (meant e i)
unfolding contextinit initevec
contextinit-Leads inb e t i lt d s c k = set_evec-Leads _ (irqbase + 1) e.kbd_entry_point i _ k (
    set_evec-Leads _ irqbase e.timer_entry_point i _ c
      (set_evec-Leads _ kernel_int e.syscall_entry_point i _ s (set_all-Leads e t.idt i lt d)))
