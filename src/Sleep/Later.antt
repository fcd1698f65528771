-- ===== src/Sleep/Later.antt =====
-- The sleeping processes as alarm clocks: what becomes of each over several time slices.
use bkernel.Base.{
  ℕ, zero, suc, ◌-◌, ◌≤◌, ◌<◌, ◌≡◌, subst, ap, List, [], ◌++◌, true, false, leb, arith, Bool-cases,
  inl, inr,
}
use mathlib.Core.List.{Memᴰ}
use mathlib.Core.List.Memᴰ
use bkernel.Sleep.Delta.{Alarm}
use bkernel.Sleep.Clock.{rung, waiting}

-- Those whose time passes within `n` slices, and those that wait for longer.
unfoldable pub rung_in : ℕ → List Alarm → List ℕ
rung_in zero rs = []
rung_in (suc n) rs = rung rs ++ rung_in n (waiting rs)

unfoldable pub waiting_after : ℕ → List Alarm → List Alarm
waiting_after zero rs = rs
waiting_after (suc n) rs = waiting_after n (waiting rs)

abbrev pub earlier : Alarm → ℕ → Alarm
earlier a n = record { who = a.who; at = a.at - n }

pub rung-Mem : {a : Alarm} {rs : List Alarm} → a.at ≤ 1 → Memᴰ a rs → Memᴰ a.who (rung rs)
unfolding rung
rung-Mem {a} h (Memᴰ.head {x} {xs} e) =
    let due : leb x.at 1 ≡ true = subst (λ b. leb b.at 1 ≡ true) e (ground arith) in
    rw due (Memᴰ.head (ap (λ b. b.who) e))
rung-Mem h (Memᴰ.tail {x} {xs} m) = elim (Bool-cases (leb x.at 1)) [
  | inl due ↦ rw due (Memᴰ.tail (rung-Mem h m))
  | inr waits ↦ rw waits (rung-Mem h m)
]

pub waiting-Mem :
    {a : Alarm} {rs : List Alarm} → 1 < a.at → Memᴰ a rs → Memᴰ (earlier a 1) (waiting rs)
unfolding waiting
waiting-Mem {a} h (Memᴰ.head {x} {xs} e) =
    let late : leb x.at 1 ≡ false = subst (λ b. leb b.at 1 ≡ false) e (ground arith) in
    rw late (Memᴰ.head (ap (λ b. earlier b 1) e))
waiting-Mem h (Memᴰ.tail {x} {xs} m) = elim (Bool-cases (leb x.at 1)) [
  | inl due ↦ rw due (waiting-Mem h m)
  | inr waits ↦ rw waits (Memᴰ.tail (waiting-Mem h m))
]

pub rung_in-Mem :
    (n : ℕ) (a : Alarm) (rs : List Alarm) → 0 < n → a.at ≤ n → Memᴰ a rs → Memᴰ a.who (rung_in n rs)
unfolding rung_in
rung_in-Mem zero a rs pos h m = absurd (omega arith)
rung_in-Mem (suc n) a rs pos h m = elim (Bool-cases (leb a.at 1)) [
  | inl due ↦ Memᴰ.append_left (rung_in n (waiting rs)) (rung-Mem (ground arith) m)
  | inr waits ↦ Memᴰ.append_right (rung rs) (
      rung_in-Mem n (earlier a 1) (waiting rs) (ground arith) (ground arith)
        (waiting-Mem (ground arith) m))
]

pub waiting_after-Mem :
    (n : ℕ) (a : Alarm) (rs : List Alarm)
    → n < a.at
    → Memᴰ a rs
    → Memᴰ (earlier a n) (waiting_after n rs)
unfolding waiting_after
waiting_after-Mem zero a rs h m =
    subst (λ t. Memᴰ (record { who = a.who; at = t }) rs) (omega arith) m
waiting_after-Mem (suc n) a rs h m =
    subst (λ t. Memᴰ (record { who = a.who; at = t }) (waiting_after n (waiting rs))) (omega arith)
      (waiting_after-Mem n (earlier a 1) (waiting rs) (omega arith) (waiting-Mem (omega arith) m))
