-- ===== src/Queue/Walk.antt =====
-- The loops over a queue that c/disp.c, c/msg.c, c/sleep.c and c/kbd.c share. Each is given a
-- number of rounds; `proc_sz + 1` rounds are enough for a queue of distinct processes.
use bkernel.Base.{
  ℕ, zero, suc, ◌+◌, ◌<◌, ◌≡◌, List, ◌∷◌, Option, none, some, arith, ◌==◌, if◌then◌else◌, eq→==,
  ne→==, length,
}
use bkernel.Kernel.{null, proc_sz}
use bkernel.Queue.Chain.{Procs, Chain, nil, cons, last}

abbrev pub rounds : ℕ
rounds = proc_sz + 1

-- `while(tmp) { if(!tmp->next) break; tmp = tmp->next; }`: where it leaves `tmp`.
unfoldable pub find_last : ℕ → Procs → ℕ → Option ℕ
find_last zero f tmp = none
find_last (suc n) f tmp =
    let rest = find_last n f (f tmp).next in
    if tmp == null then some tmp else if (f tmp).next == null then some tmp else rest

-- `while(tmp) { cnt++; tmp = tmp->next; }`
unfoldable pub count_from : ℕ → Procs → ℕ → ℕ → Option ℕ
count_from zero f tmp cnt = none
count_from (suc n) f tmp cnt =
    let rest = count_from n f (f tmp).next (cnt + 1) in if tmp == null then some cnt else rest

-- The walk ends at the last process of the queue,
pub find_last-Chain :
    (n : ℕ) {f : Procs} {p x : ℕ} {xs : List ℕ}
    → Chain f p (x ∷ xs)
    → length (x ∷ xs) < n
    → find_last n f p ≡ some (last x xs)
unfolding find_last
find_last-Chain zero c h = absurd (omega arith)
find_last-Chain (suc n) {f} (cons {x} e nx (nil z)) h =
    rw (e, ne→== x null nx, eq→== (f x).next null z)
find_last-Chain (suc n) {f} (cons {x} e nx (cons {x = y} e' ny c)) h = rw (
  e,
  ne→== x null nx,
  find_last-Chain n (cons e' ny c) (omega arith),
  ne→== (f x).next null (rw e' ny),
)

-- and the count is its length.
pub count_from-Chain :
    (n : ℕ) {f : Procs} {p : ℕ} {xs : List ℕ} (cnt : ℕ)
    → Chain f p xs
    → length xs < n
    → count_from n f p cnt ≡ some (cnt + length xs)
unfolding count_from
count_from-Chain zero cnt c h = absurd (omega arith)
count_from-Chain (suc n) cnt (nil e) h = ground arith
count_from-Chain (suc n) cnt (cons e nx c) h = ground (arith, count_from-Chain n (cnt + 1) c)
