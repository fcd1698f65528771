-- ===== src/Msg/Fields.antt =====
-- What the queues of blocked processes are in a process block, for `block` and `unblock` of c/msg.c.
use bkernel.Base.{ap, ==→eq, ℕ, ◌≡◌, refl, ◌==◌, if◌then◌else◌, Bool-cases, inl, inr}
use bkernel.Kernel.{Pcb, null, with_next, update}
use bkernel.Queue.Chain.{Procs}
use bkernel.Disp.{Side, senders, receivers, queue_of, with_queue}
use bkernel.Disp.Ready.{SameFields}

-- No field differs but `next` and, in the owner, the queue.
abbrev pub SameButQueue : Side → ℕ → Procs → Procs → Type 0
SameButQueue side owner f g =
    (a : ℕ)
    → with_next null (g a) ≡ (
        let r = with_next null (f a) in
        if a == owner then with_queue side (queue_of side (g a)) r else r)

pub with_queue-next : (side : Side) (q : ℕ) (r : Pcb) → (with_queue side q r).next ≡ r.next
with_queue-next senders q r = refl
with_queue-next receivers q r = refl

pub queue_of-with_queue : (side : Side) (q : ℕ) (r : Pcb) → queue_of side (with_queue side q r) ≡ q
queue_of-with_queue senders q r = refl
queue_of-with_queue receivers q r = refl

pub queue_of-with_next :
    (side : Side) (q : ℕ) (r : Pcb) → queue_of side (with_next q r) ≡ queue_of side r
queue_of-with_next senders q r = refl
queue_of-with_next receivers q r = refl

pub with_queue-with_next :
    (side : Side) (q n : ℕ) (r : Pcb)
    → with_next n (with_queue side q r) ≡ with_queue side q (with_next n r)
with_queue-with_next senders q n r = refl
with_queue-with_next receivers q n r = refl

-- A change of `next` alone changes no queue.
pub queue_of-same :
    (side : Side) (r r' : Pcb)
    → with_next null r' ≡ with_next null r
    → queue_of side r' ≡ queue_of side r
queue_of-same senders r r' e = ap (λ r. r.blocked_senders) e
queue_of-same receivers r r' e = ap (λ r. r.blocked_receivers) e

pub queue_kept :
    (side : Side) (r r' : Pcb)
    → with_next null r' ≡ with_next null r
    → with_next null r' ≡ with_queue side (queue_of side r') (with_next null r)
queue_kept senders r r' e = ap (with_queue senders r'.blocked_senders) e
queue_kept receivers r r' e = ap (with_queue receivers r'.blocked_receivers) e

pub SameFields-queue :
    (side : Side) (owner : ℕ) (f g : Procs) → SameFields f g → SameButQueue side owner f g
SameFields-queue side owner f g same a = elim (Bool-cases (a == owner)) [
  | inl hit ↦ rw hit (queue_kept side (f a) (g a) (same a))
  | inr miss ↦ rw miss (same a)
]

pub written-SameButQueue :
    (side : Side) (owner q : ℕ) (f f' : Procs)
    → SameFields f f'
    → SameButQueue side owner f (update f' owner (with_queue side q (f owner)))
written-SameButQueue side owner q f f' same a = elim (Bool-cases (a == owner)) [
  | inl hit ↦
      rw (hit, ==→eq a owner hit, queue_of-with_queue side q (f owner))
        (with_queue-with_next side q null (f owner))
  | inr miss ↦ rw miss (same a)
]
