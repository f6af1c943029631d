-- ===== src/Scoms/Kobject/Totality.antt =====
-- When a put cannot stop the kernel.
use zxfoundation.Base.{ℕ, ◌^◌, ◌<◌, ◌≡◌, ◌∙◌, true, Option, none, some, done, arith, ℕ_discrete}
use zxfoundation.Scoms.Kobject.{Heap, Finalizer, finish_put, put}
use zxfoundation.Scoms.Kobject.Counting.{put-counts, put_at_one, lowered_heap}

-- A finalizer is installed and comes to an end.
abbrev pub Runs : Option Finalizer → Type 0
Runs none = ⊥
Runs (some run) = (h : Heap) (p : ℕ) → (h' : Heap) × (run h p ≡ done h')

finish_put_total :
    (f : Option Finalizer) (h : Heap) (p : ℕ)
    → Runs f
    → (h' : Heap) × (finish_put f h p true ≡ done h')
unfolding finish_put
finish_put_total none h p r = elim r [ ]
finish_put_total (some run) h p r = r h p

-- Putting a live object does not trap.
pub put_total :
    (f : Option Finalizer) (h : Heap) (p : ℕ)
    → Runs f
    → 0 < (h p).count
    → (h p).count < 2 ^ 32
    → (h' : Heap) × (put f h p ≡ done h')
put_total f h p r live word = elim (ℕ_discrete (h p).count 1) [
  | yes one ↦
      let (h', e) = finish_put_total f (lowered_heap h p) p r in (h', put_at_one f h p one ∙ e)
  | no ne ↦ let (h', e, _) = put-counts f h p (omega (arith, live, ne)) word in (h', e)
]
