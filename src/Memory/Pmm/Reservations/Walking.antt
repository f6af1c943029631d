-- ===== src/Memory/Pmm/Reservations/Walking.antt =====
-- The second loop of sort_merge_reservations, and the two questions that init asks of the merged
-- reservations as it walks a region.
use zxfoundation.Base.{
  ℕ, ◌≤◌, ◌<◌, ◌≡◌, ◌⊎◌, inl, inr, refl, ◌↔◌, List, [], ◌∷◌, arith, if◌then◌else◌, ltb, leb, ◌&&◌,
  Bool-cases,
}
use zxfoundation.Memory.Pmm.Reservations.{
  ResvEntry, longer, merge_onto, merge_all, sort_merge_reservations, resv_skip_end, nearest_start,
  next_resv_start,
}
use zxfoundation.Memory.Pmm.Reservations.Sorting.{
  IsInside, IsReserved, AllFrom, IsAscending, sorted_resv, sorted-IsAscending, sorted-IsReserved,
}

-- The first entry starts after the address, if there is one.
unfoldable pub StartsAfter : ℕ → List ResvEntry → Type 0
StartsAfter b [] = Unit
StartsAfter b (r ∷ rs) = b < r.start

-- Each entry starts after the end of the one before it.
unfoldable pub IsSeparated : List ResvEntry → Type 0
IsSeparated [] = Unit
IsSeparated (r ∷ rs) = StartsAfter r.end rs × IsSeparated rs

merge-StartsAfter :
    (b : ℕ) (last : ResvEntry) (rs : List ResvEntry)
    → b < last.start
    → StartsAfter b (merge_onto last rs)
unfolding merge_onto StartsAfter
merge-StartsAfter b last [] h = h
merge-StartsAfter b last (r ∷ rs) h = elim (Bool-cases (leb r.start last.end)) [
  | inl e ↦ rw e (merge-StartsAfter b (record last { end = longer last.end r.end }) rs h)
  | inr e ↦ rw e h
]

merge-IsSeparated : (last : ResvEntry) (rs : List ResvEntry) → IsSeparated (merge_onto last rs)
unfolding merge_onto IsSeparated StartsAfter
merge-IsSeparated last [] = (tt, tt)
merge-IsSeparated last (r ∷ rs) = elim (Bool-cases (leb r.start last.end)) [
  | inl e ↦ rw e (merge-IsSeparated (record last { end = longer last.end r.end }) rs)
  | inr e ↦ rw e (merge-StartsAfter last.end r rs (ground arith), merge-IsSeparated r rs)
]

merge-AllFrom :
    (b : ℕ) (last : ResvEntry) (rs : List ResvEntry)
    → b ≤ last.start
    → AllFrom b rs
    → AllFrom b (merge_onto last rs)
unfolding merge_onto AllFrom
merge-AllFrom b last [] h f = (h, tt)
merge-AllFrom b last (r ∷ rs) h (x, f) = elim (Bool-cases (leb r.start last.end)) [
  | inl e ↦ rw e (merge-AllFrom b (record last { end = longer last.end r.end }) rs h f)
  | inr e ↦ rw e (h, merge-AllFrom b r rs x f)
]

merge-IsAscending :
    (last : ResvEntry) (rs : List ResvEntry)
    → AllFrom last.start rs
    → IsAscending rs
    → IsAscending (merge_onto last rs)
unfolding merge_onto AllFrom IsAscending
merge-IsAscending last [] f a = (tt, tt)
merge-IsAscending last (r ∷ rs) (x, f) (g, a) = elim (Bool-cases (leb r.start last.end)) [
  | inl e ↦ rw e (merge-IsAscending (record last { end = longer last.end r.end }) rs f a)
  | inr e ↦ rw e (merge-AllFrom last.start r rs x f, merge-IsAscending r rs g a)
]

-- Two entries, the second starting within the first or at its end, are one.
extended :
    (q : ℕ) (last r : ResvEntry)
    → last.start ≤ r.start
    → r.start ≤ last.end
    → IsInside q (record last { end = longer last.end r.end }) ↔ (IsInside q last ⊎ IsInside q r)
extended q last r h g = (
  λ x. ground (arith, x.0, x.1),
  λ x. elim x [
    | inl y ↦ (y.0, ground (arith, y.1))
    | inr y ↦ (omega (arith, y.0, h), ground (arith, y.1))
  ],
)

merge-IsReserved :
    (q : ℕ) (last : ResvEntry) (rs : List ResvEntry)
    → AllFrom last.start rs
    → IsAscending rs
    → IsReserved q (merge_onto last rs) ↔ (IsInside q last ⊎ IsReserved q rs)
unfolding merge_onto AllFrom IsAscending IsReserved
merge-IsReserved q last [] f a = (λ h. h, λ h. h)
merge-IsReserved q last (r ∷ rs) (x, f) (g, a) = elim (Bool-cases (leb r.start last.end)) [
  | inl e ↦
      let (to, back) = merge-IsReserved q (record last { end = longer last.end r.end }) rs f a in
      let (split, join) = extended q last r x (ground arith) in
      rw e (
        λ h. elim (to h) [
          | inl y ↦ elim (split y) [ inl z ↦ inl z | inr z ↦ inr (inl z) ]
          | inr y ↦ inr (inr y)
        ],
        λ h. elim h [
          | inl y ↦ back (inl (join (inl y)))
          | inr y ↦ elim y [ inl z ↦ back (inl (join (inr z))) | inr z ↦ back (inr z) ]
        ],
      )
  | inr e ↦
      let (to, back) = merge-IsReserved q r rs g a in
      rw e (
        λ h. elim h [ inl y ↦ inl y | inr y ↦ inr (to y) ],
        λ h. elim h [ inl y ↦ inl y | inr y ↦ inr (back y) ],
      )
]

merge_all-law :
    (q : ℕ) (rs : List ResvEntry)
    → IsAscending rs
    → IsAscending (merge_all rs)
      × IsSeparated (merge_all rs)
      × (IsReserved q (merge_all rs) ↔ IsReserved q rs)
unfolding merge_all IsAscending IsSeparated IsReserved
merge_all-law q [] a = (tt, tt, (λ h. h, λ h. h))
merge_all-law q (r ∷ rs) (f, a) =
    (merge-IsAscending r rs f a, merge-IsSeparated r rs, merge-IsReserved q r rs f a)

-- The staged reservations, sorted and merged, reserve exactly the addresses they reserved before, in
-- the order of their starts, and each starts after the end of the one before it.
pub sort_merge_reservations-IsSeparated :
    (q : ℕ) (resv : List ResvEntry)
    → let merged = sort_merge_reservations resv in
      IsAscending merged × IsSeparated merged × (IsReserved q merged ↔ IsReserved q resv)
unfolding sort_merge_reservations
sort_merge_reservations-IsSeparated q resv =
    let law = merge_all-law q (sorted_resv resv) (sorted-IsAscending resv) in
    let (to, back) = law.2 in
    let (out, into) = sorted-IsReserved q resv in
    (law.0, law.1, (λ h. out (to h), λ h. back (into h)))

not_before : (b q : ℕ) (rs : List ResvEntry) → AllFrom b rs → q < b → IsReserved q rs → ⊥
unfolding AllFrom IsReserved
not_before b q [] f h i = i
not_before b q (r ∷ rs) (x, f) h (inl i) = absurd (omega (arith, x, h, i.0))
not_before b q (r ∷ rs) (x, f) h (inr i) = not_before b q rs f h i

-- Nothing to skip, or all of what is skipped is reserved.
abbrev pub IsSkipped : ℕ → ℕ → List ResvEntry → Type 0
IsSkipped phys skip rs =
    ((skip ≡ 0) × (IsReserved phys rs → ⊥))
    ⊎ ((phys < skip) × ((q : ℕ) → phys ≤ q → q < skip → IsReserved q rs))

skip-IsSkipped :
    (phys : ℕ) (rs : List ResvEntry) → IsAscending rs → IsSkipped phys (resv_skip_end phys rs) rs
unfolding resv_skip_end IsAscending IsReserved AllFrom
skip-IsSkipped phys [] a = inl (refl, λ i. i)
skip-IsSkipped phys (r ∷ rs) (f, a) = elim (Bool-cases (ltb phys r.start)) [
  | inl e ↦
      rw e (inl (refl, λ i. not_before r.start phys (r ∷ rs) (omega arith, f) (ground arith) i))
  | inr e ↦ elim (Bool-cases (ltb phys r.end)) [
    | inl g ↦ rw (e, g) (inr (ground arith, λ q low high. inl (ground (arith, e, low), high)))
    | inr g ↦
        rw (e, g)
          (elim (skip-IsSkipped phys rs a) [
            | inl (none, out) ↦
                inl (none, λ i. elim i [ inl x ↦ absurd (ground (arith, g, x.1)) | inr y ↦ out y ])
            | inr (some_skip, all) ↦ inr (some_skip, λ q low high. inr (all q low high))
          ])
  ]
]

nearest-le : (phys nearest : ℕ) (rs : List ResvEntry) → nearest_start phys nearest rs ≤ nearest
unfolding nearest_start
nearest-le phys nearest [] = omega arith
nearest-le phys nearest (r ∷ rs) = elim (Bool-cases (ltb phys r.start && ltb r.start nearest)) [
  | inl e ↦ rw e (ground (arith, nearest-le phys r.start rs, e))
  | inr e ↦ rw e (nearest-le phys nearest rs)
]

-- Up to the next start, nothing is reserved where `phys` is not.
nearest-free :
    (phys nearest q : ℕ) (rs : List ResvEntry)
    → (IsReserved phys rs → ⊥)
    → phys ≤ q
    → q < nearest_start phys nearest rs
    → IsReserved q rs
    → ⊥
unfolding nearest_start IsReserved
nearest-free phys nearest q [] out low high i = i
nearest-free phys nearest q (r ∷ rs) out low high (inr i) =
    nearest-free phys (if ltb phys r.start && ltb r.start nearest then r.start else nearest) q rs
      (λ j. out (inr j)) low high i
nearest-free phys nearest q (r ∷ rs) out low high (inl i) =
    let far =
      nearest-le phys (if ltb phys r.start && ltb r.start nearest then r.start else nearest) rs in
    out (inl (ground (arith, far, low, high, i.0, i.1), omega (arith, low, i.1)))

-- At every step of the walk over a region, with the merged reservations: where resv_skip_end answers
-- an address, it is further on and everything up to it was staged as reserved; where it answers 0,
-- nothing from there up to next_resv_start, which is within the limit, was.
pub resv_walk_lem :
    (phys limit : ℕ) (resv : List ResvEntry)
    → let merged = sort_merge_reservations resv in
      let skip = resv_skip_end phys merged in
      let run_end = next_resv_start phys limit merged in
      ((phys < skip) × ((q : ℕ) → phys ≤ q → q < skip → IsReserved q resv))
      ⊎ ((skip ≡ 0)
          × (run_end ≤ limit)
          × ((q : ℕ) → phys ≤ q → q < run_end → IsReserved q resv → ⊥))
unfolding next_resv_start
resv_walk_lem phys limit resv =
    let merged = sort_merge_reservations resv in
    elim (skip-IsSkipped phys merged (sort_merge_reservations-IsSeparated phys resv).0) [
      | inr (further, all) ↦
          inl (
            further,
            λ q low high. (sort_merge_reservations-IsSeparated q resv).2.0 (all q low high),
          )
      | inl (none, out) ↦ inr (
        none,
        nearest-le phys limit merged,
        λ q low high i.
            nearest-free phys limit q merged out low high
              ((sort_merge_reservations-IsSeparated q resv).2.1 i),
      )
    ]
