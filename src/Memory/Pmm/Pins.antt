-- ===== src/Memory/Pmm/Pins.antt =====
-- frame_ref and frame_unref one after the other.
use zxfoundation.Base.{
  ℕ, suc, ◌+◌, ◌-◌, ◌%◌, ◌^◌, ◌<◌, ◌≡◌, refl, ap, ◌∙◌, subst, false, ok, arith, ◌==◌, ==_ne,
  ==_refl, ℕ_discrete,
}
use zxfoundation.Base.Arrays.{update, update_self}
use zxfoundation.Memory.Pmm.{ZoneState, FrameDesc}
use zxfoundation.Memory.Pmm.Frames.{
  pfn_of, with_refcount, ref_at, frame_ref, unref_at, frame_unref, with_frame,
}

abbrev pub recounted : FrameDesc → ℕ → FrameDesc
recounted d n = record d { refcount = n }

ref-step :
    (phys pfn : ℕ) (s : ZoneState)
    → pfn_of s phys ≡ ok pfn
    → (s.frames pfn).refcount < 0xffff
    → let more = suc (s.frames pfn).refcount in
      frame_ref phys s ≡ (with_frame pfn (recounted (s.frames pfn) more) s, ok more)
unfolding frame_ref ref_at with_refcount
ref-step phys pfn s at small =
    let d = s.frames pfn in
    let full : (d.refcount == 0xffff) ≡ false = ground (arith, small) in
    let more : (d.refcount + 1) % 2 ^ 16 ≡ suc d.refcount = omega (arith, small) in
    rw (at, full) (ap (λ n. (with_frame pfn (recounted d n) s, ok n)) more)

unref-step :
    (phys pfn n : ℕ) (s : ZoneState)
    → pfn_of s phys ≡ ok pfn
    → (s.frames pfn).refcount ≡ suc n
    → n < 0xffff
    → frame_unref phys s ≡ (with_frame pfn (recounted (s.frames pfn) n) s, ok n)
unfolding frame_unref unref_at with_refcount
unref-step phys pfn n s at some_pins small =
    let d = s.frames pfn in
    let pinned : (d.refcount == 0) ≡ false = ground (arith, some_pins) in
    let less : (d.refcount + (2 ^ 16 - 1)) % 2 ^ 16 ≡ n = omega (arith, some_pins, small) in
    rw (at, pinned) (ap (λ m. (with_frame pfn (recounted d m) s, ok m)) less)

put_back :
    (frames : ℕ → FrameDesc) (pfn n k : ℕ)
    → update
        (update frames pfn (recounted (frames pfn) n))
        pfn
        (recounted (update frames pfn (recounted (frames pfn) n) pfn) (frames pfn).refcount)
        k
      ≡ frames k
put_back frames pfn n k = elim (ℕ_discrete pfn k) [
  | yes e ↦
      subst
        (λ t.
          update (update frames pfn (recounted (frames pfn) n)) pfn
            (recounted (update frames pfn (recounted (frames pfn) n) pfn) (frames pfn).refcount) t
          ≡ frames t)
        e (rw (==_refl pfn) refl)
  | no ne ↦ rw (==_ne pfn k ne) refl
]

-- While a frame's count is below the highest u16, frame_ref answers the count plus one, frame_unref
-- after it answers the count that was, and every descriptor is then as it was before.
frame_ref-frame_unref :
    (phys pfn : ℕ) (s : ZoneState)
    → pfn_of s phys ≡ ok pfn
    → (s.frames pfn).refcount < 0xffff
    → let current = (s.frames pfn).refcount in
      let pinned = frame_ref phys s in
      let dropped = frame_unref phys pinned.0 in
      (pinned.1 ≡ ok (suc current))
      × (dropped.1 ≡ ok current)
      × ((k : ℕ) → dropped.0.frames k ≡ s.frames k)
unfolding with_frame pfn_of
frame_ref-frame_unref phys pfn s at small =
    let d = s.frames pfn in
    let first = ref-step phys pfn s at small in
    let t = with_frame pfn (recounted d (suc d.refcount)) s in
    let second =
      unref-step phys pfn d.refcount t at
        (ap (λ f. f.refcount) (update_self s.frames pfn (recounted d (suc d.refcount)))) small in
    let after = ap (λ r. frame_unref phys r.0) first ∙ second in
    (
      ap (λ r. r.1) first,
      ap (λ r. r.1) after,
      λ k. ap (λ r. r.0.frames k) after ∙ put_back s.frames pfn (suc d.refcount) k,
    )
