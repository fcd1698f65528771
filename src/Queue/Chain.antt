-- ===== src/Queue/Chain.antt =====
-- Queues of processes: what a list of processes linked through `next` means, and which writes
-- leave it alone.
use bkernel.Base.{
  ℕ, ◌≡◌, ◌≢◌, refl, sym, subst, inl, inr, List, [], ◌∷◌, arith, ◌==◌, eq→==, ne→==, ==→eq,
  Bool-cases, NotIn, Distinct, Apart, snoc,
}
use bkernel.Kernel.{Pcb, null, update, with_next}

abbrev pub Procs : Type 0
Procs = ℕ → Pcb

-- From `p` the `next` pointers lead through the processes of the list to NULL.
pub data Chain (f : Procs) : ℕ → List ℕ → Type 0 where
  nil : {p : ℕ} → p ≡ null → Chain f p []
  cons : {p x : ℕ} {xs : List ℕ} → p ≡ x → x ≢ null → Chain f (f x).next xs → Chain f p (x ∷ xs)

-- The first element of a queue, NULL if it is empty.
abbrev pub front : List ℕ → ℕ
front [] = null
front (x ∷ xs) = x

abbrev pub last : ℕ → List ℕ → ℕ
last x [] = x
last x (y ∷ ys) = last y ys

abbrev pub set_next : Procs → ℕ → ℕ → Procs
set_next f p q = update f p (with_next q (f p))

-- The last process of the queue `xs` points to `p`; in an empty queue `p` points to NULL.
abbrev pub linked : Procs → List ℕ → ℕ → Procs
linked f [] p = set_next f p null
linked f (x ∷ xs) p = set_next f (last x xs) p

-- What a push of `p` behind the queue `xs` makes of the table.
abbrev pub pushed : Procs → List ℕ → ℕ → Procs
pushed f xs p = linked (set_next f p null) xs p

pub front_of_Chain : {f : Procs} {p : ℕ} {xs : List ℕ} → Chain f p xs → p ≡ front xs
front_of_Chain (nil e) = e
front_of_Chain (cons e n c) = e

-- A chain survives a change of a process that is no member,
pub frame :
    {f : Procs} {p : ℕ} {xs : List ℕ} (a : ℕ) (v : Pcb)
    → NotIn a xs
    → Chain f p xs
    → Chain (update f a v) p xs
frame a v out (nil e) = nil e
frame a v out (cons {x} e n c) = cons e n (rw (ne→== x a (λ q. out.0 (sym q))) (frame a v out.1 c))

-- and a change that keeps `next`.
pub frame_same :
    {f : Procs} {p : ℕ} {xs : List ℕ} (a : ℕ) (v : Pcb)
    → v.next ≡ (f a).next
    → Chain f p xs
    → Chain (update f a v) p xs
frame_same a v same (nil e) = nil e
frame_same {f} a v same (cons {x} {xs} e n c) =
    cons e n (subst (λ q. Chain (update f a v) q xs) kept (frame_same a v same c))
  where
    kept : (f x).next ≡ (update f a v x).next
    kept = elim (Bool-cases (x == a)) [
      | inl hit ↦ rw (hit, same, ==→eq x a hit)
      | inr miss ↦ rw miss
    ]

pub NotIn-last : (a x : ℕ) (xs : List ℕ) → NotIn a (x ∷ xs) → a ≢ last x xs
NotIn-last a x [] n = n.0
NotIn-last a x (y ∷ ys) n = NotIn-last a y ys n.1

pub last-snoc : (x : ℕ) (xs : List ℕ) (y : ℕ) → last x (snoc xs y) ≡ y
last-snoc x [] y = refl
last-snoc x (z ∷ zs) y = last-snoc z zs y

module _ {f : Procs} where
  -- No member of a queue is NULL,
  pub last_ne_null : (x : ℕ) (xs : List ℕ) {p : ℕ} → Chain f p (x ∷ xs) → last x xs ≢ null
  last_ne_null x [] (cons e n c) = n
  last_ne_null x (y ∷ ys) (cons e n c) = last_ne_null y ys c

  -- the first one is where the queue points, and the rest is a queue.
  pub head_of_Chain : {p x : ℕ} {xs : List ℕ} → Chain f p (x ∷ xs) → (p ≡ x) × (x ≢ null)
  head_of_Chain (cons e n c) = (e, n)

  pub tail_of_Chain : {p x : ℕ} {xs : List ℕ} → Chain f p (x ∷ xs) → Chain f (f x).next xs
  tail_of_Chain (cons e n c) = c

  -- Linking `p` behind the last process of a queue.
  pub link :
      (x : ℕ) (xs : List ℕ) {q : ℕ} (p : ℕ)
      → (f p).next ≡ null
      → p ≢ null
      → NotIn p (x ∷ xs)
      → Distinct (x ∷ xs)
      → Chain f q (x ∷ xs)
      → Chain (set_next f (last x xs) p) q (snoc (x ∷ xs) p)
  link x [] p z np out d (cons e n c) =
      cons e n (rw (eq→== x x refl) (cons refl np (rw (ne→== p x out.0) (nil z))))
  link x (y ∷ ys) p z np out d (cons e n c) =
      cons e n (rw (ne→== x (last y ys) (NotIn-last x y ys d.0)) (link y ys p z np out.1 d.1 c))

-- Linking puts the process behind the queue,
pub Chain-linked :
    {f : Procs} {q : ℕ} (xs : List ℕ) (p : ℕ)
    → (f p).next ≡ null
    → p ≢ null
    → NotIn p xs
    → Distinct xs
    → Chain f q xs
    → Chain (linked f xs p) (front (snoc xs p)) (snoc xs p)
Chain-linked [] p z np out d c = cons refl np (rw (eq→== p p refl) (nil refl))
Chain-linked {f} (x ∷ xs) p z np out d c =
    subst (λ q. Chain (linked f (x ∷ xs) p) q (snoc (x ∷ xs) p)) (head_of_Chain c).0
      (link x xs p z np out d c)

-- and leaves another queue alone.
pub Chain-linked_other :
    {f : Procs} {q : ℕ} {ys : List ℕ} (xs : List ℕ) (p : ℕ)
    → NotIn p ys
    → Apart xs ys
    → Chain f q ys
    → Chain (linked f xs p) q ys
Chain-linked_other [] p out a c = frame p _ out c
Chain-linked_other {ys} (x ∷ xs) p out a c = frame (last x xs) _ (NotIn_last x xs a) c
  where
    NotIn_last : (x : ℕ) (xs : List ℕ) → Apart (x ∷ xs) ys → NotIn (last x xs) ys
    NotIn_last x [] a = a.0
    NotIn_last x (z ∷ zs) a = NotIn_last z zs a.1

-- A push leaves every field but `next` alone.
pub pushed_fields :
    (f : Procs) (xs : List ℕ) (p a : ℕ) → with_next null (pushed f xs p a) ≡ with_next null (f a)
pushed_fields f [] p a = ground arith
pushed_fields f (x ∷ xs) p a = ground arith
