-- ===== src/Memory/Pmm/Reservations.antt =====
-- The reservations that pmm::init stages, of pmm.zcomponent/core.cxx. The array is the list of its
-- entries.
pub mod Sorting
pub mod Walking
use zxfoundation.Base.{
  ℕ, ◌+◌, ◌-◌, ◌*◌, ◌/◌, ◌%◌, ◌^◌, Bool, List, [], ◌∷◌, if◌then◌else◌, ltb, leb, ◌&&◌,
}

-- Page-aligned, `end` exclusive.
pub record ResvEntry : Type 0 where
  pub start : ℕ
  pub end : ℕ

-- The entries sorted so far, from the last one on: those that start after the key move up by one,
-- from the last one to the first that does not.
unfoldable pub insert_back : ResvEntry → List ResvEntry → List ResvEntry
insert_back key [] = key ∷ []
insert_back key (r ∷ rs) =
    let rest = insert_back key rs in if ltb key.start r.start then r ∷ rest else key ∷ r ∷ rs

unfoldable pub sort_onto : List ResvEntry → List ResvEntry → List ResvEntry
sort_onto sorted [] = sorted
sort_onto sorted (key ∷ rest) = sort_onto (insert_back key sorted) rest

unfoldable pub reverse_onto : List ResvEntry → List ResvEntry → List ResvEntry
reverse_onto done [] = done
reverse_onto done (r ∷ rs) = reverse_onto (r ∷ done) rs

abbrev pub longer : ℕ → ℕ → ℕ
longer a b = if ltb a b then b else a

-- `last` is `resv[out - 1]`: it is made longer while the entries start at or before its end.
unfoldable pub merge_onto : ResvEntry → List ResvEntry → List ResvEntry
merge_onto last [] = last ∷ []
merge_onto last (r ∷ rs) =
    let extended = merge_onto (record last { end = longer last.end r.end }) rs in
    let next = merge_onto r rs in if leb r.start last.end then extended else last ∷ next

unfoldable pub merge_all : List ResvEntry → List ResvEntry
merge_all [] = []
merge_all (r ∷ rs) = merge_onto r rs

unfoldable pub sort_merge_reservations : List ResvEntry → List ResvEntry
sort_merge_reservations resv = merge_all (reverse_onto [] (sort_onto [] resv))

unfoldable pub align_resv : ResvEntry → ResvEntry
align_resv r = record {
  start = r.start / 4096 * 4096;
  end = (r.end + 4096 + (2 ^ 64 - 1)) % 2 ^ 64 / 4096 * 4096;
}

unfoldable pub resv_skip_end : ℕ → List ResvEntry → ℕ
resv_skip_end phys [] = 0
resv_skip_end phys (r ∷ rs) =
    let later = resv_skip_end phys rs in
    if ltb phys r.start then 0 else if ltb phys r.end then r.end else later

-- `nearest` is the best start found so far.
unfoldable pub nearest_start : ℕ → ℕ → List ResvEntry → ℕ
nearest_start phys nearest [] = nearest
nearest_start phys nearest (r ∷ rs) =
    nearest_start phys (if ltb phys r.start && ltb r.start nearest then r.start else nearest) rs

unfoldable pub next_resv_start : ℕ → ℕ → List ResvEntry → ℕ
next_resv_start phys limit resv = nearest_start phys limit resv
