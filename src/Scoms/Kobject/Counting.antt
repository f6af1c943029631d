-- ===== src/Scoms/Kobject/Counting.antt =====
-- The reference count across `try_get` and `put`.
use zxfoundation.Base.{
  ℕ, ◌+◌, ◌-◌, ◌%◌, ◌^◌, ◌<◌, ◌≡◌, ◌≢◌, sym, subst, ◌∙◌, ℕ_discrete, true, false, Option, none,
  some, done, arith, if◌then◌else◌, ◌==◌,
}
use zxfoundation.Base.Arrays.{update}
use zxfoundation.Scoms.Kobject.{Heap, Finalizer, try_get_ref, put_ref, try_get, finish_put, put}

-- A reference that `try_get` hands out is given back by `put`, which leaves the count as it was.
put_ref-try_get_ref :
    (count : ℕ) {c : ℕ} → try_get_ref count ≡ done (true, c) → put_ref c ≡ done (false, count)
unfolding try_get_ref put_ref
put_ref-try_get_ref count h = ground arith

-- How a memory's counts change: by one at `p`, and nowhere else.
abbrev pub one_at : ℕ → ℕ → ℕ
one_at p q = if p == q then 1 else 0

-- A reference is handed out only while the object is live, and is counted at that object alone.
pub try_get-counts :
    (h : Heap) (p : ℕ) {h' : Heap}
    → try_get h p ≡ done (true, h')
    → (0 < (h p).count) × ((q : ℕ) → (h' q).count ≡ (h q).count + one_at p q)
unfolding try_get try_get_ref
try_get-counts h p e = (ground arith, λ q. ground arith)

-- Only the last reference runs the finalizer: while others remain, `put` lowers the count of that
-- object by one and touches nothing else.
pub put-counts :
    (f : Option Finalizer) (h : Heap) (p : ℕ)
    → 1 < (h p).count
    → (h p).count < 2 ^ 32
    → (h' : Heap) × (put f h p ≡ done h') × ((q : ℕ) → (h' q).count + one_at p q ≡ (h q).count)
unfolding put put_ref
put-counts f h p many word = (
  update h p (record (h p) { count = ((h p).count + 2 ^ 32 - 1) % 2 ^ 32 }),
  ground arith,
  λ q. ground arith,
)

-- What a finalizer does is confined to the header that it reclaims.
abbrev pub IsConfined : Finalizer → Type 0
IsConfined run =
    (h : Heap) (p : ℕ) (h' : Heap)
    → run h p ≡ done h'
    → ((q : ℕ) → p ≢ q → h' q ≡ h q) × ((h' p).count < 2 ^ 32)

abbrev pub Confined : Option Finalizer → Type 0
Confined none = Unit {0}
Confined (some run) = IsConfined run

-- Every count fits the u32 that holds it.
abbrev pub AreWords : Heap → Type 0
AreWords h = (p : ℕ) → (h p).count < 2 ^ 32

pub record Put (h : Heap) (p : ℕ) (h' : Heap) : Type 0 where
  pub live : 0 < (h p).count
  pub elsewhere : (q : ℕ) → p ≢ q → (h' q).count ≡ (h q).count
  pub lowered : 1 < (h p).count → (h' p).count + 1 ≡ (h p).count
  pub words : AreWords h'

pub lowered_heap : Heap → ℕ → Heap
lowered_heap h p = update h p (record (h p) { count = ((h p).count + 2 ^ 32 - 1) % 2 ^ 32 })

pub put_at_one :
    (f : Option Finalizer) (h : Heap) (p : ℕ)
    → (h p).count ≡ 1
    → put f h p ≡ finish_put f (lowered_heap h p) p true
unfolding put lowered_heap
put_at_one f h p one = ground arith

finish_put-Put :
    (f : Option Finalizer) (h : Heap) (p : ℕ) {h' : Heap}
    → Confined f
    → AreWords h
    → (h p).count ≡ 1
    → finish_put f (lowered_heap h p) p true ≡ done h'
    → Put h p h'
unfolding finish_put lowered_heap
finish_put-Put none h p c w one e = cc
finish_put-Put (some run) h p {h'} c w one e =
    let (same, small) = c (lowered_heap h p) p h' e in
    record {
      live = omega (arith, one);
      elsewhere = λ q ne. ground (arith, same q ne);
      lowered = λ more. absurd (omega (arith, one, more));
      words = λ q. elim (ℕ_discrete p q) [
        | yes at ↦ subst (λ x. (h' x).count < 2 ^ 32) at small
        | no ne ↦ ground (arith, same q ne, w q)
      ];
    }

pub put_live :
    (f : Option Finalizer) (h : Heap) (p : ℕ) {h' : Heap} → put f h p ≡ done h' → 0 < (h p).count
unfolding put
put_live f h p e = ground arith

put-Put_shared :
    (f : Option Finalizer) (h : Heap) (p : ℕ) {h' : Heap}
    → AreWords h
    → 1 < (h p).count
    → put f h p ≡ done h'
    → Put h p h'
put-Put_shared f h p {h'} w many e =
    let (h1, e1, counts) = put-counts f h p many (w p) in
    let same : h1 ≡ h' = cc in
    let at : (q : ℕ) → (h' q).count + one_at p q ≡ (h q).count =
      subst (λ (x : Heap). (q : ℕ) → (x q).count + one_at p q ≡ (h q).count) same counts in
    record {
      live = omega (arith, many);
      elsewhere = λ q ne. ground (arith, at q);
      lowered = λ _. ground (arith, at p);
      words = λ q. ground (arith, at q, w q);
    }

-- A put that returns, where every count is a u32 and the finalizer touches only the header that it
-- reclaims: the object was live, no other count changes, and while references remain the count
-- falls by exactly one.
pub put-Put :
    (f : Option Finalizer) (h : Heap) (p : ℕ) {h' : Heap}
    → Confined f
    → AreWords h
    → put f h p ≡ done h'
    → Put h p h'
put-Put f h p {h'} c w e = elim (ℕ_discrete (h p).count 1) [
  | yes one ↦ finish_put-Put f h p c w one (sym (put_at_one f h p one) ∙ e)
  | no ne ↦ put-Put_shared f h p w (omega (arith, put_live f h p e, ne)) e
]
