-- ===== src/Memory/Pmm/Reservations/Sorting.antt =====
-- The first loop of sort_merge_reservations.
use zxfoundation.Base.{ℕ, ◌≤◌, ◌<◌, ◌⊎◌, inl, inr, ◌↔◌, List, [], ◌∷◌, arith, ltb, Bool-cases}
use zxfoundation.Memory.Pmm.Reservations.{ResvEntry, insert_back, sort_onto, reverse_onto}

abbrev pub IsInside : ℕ → ResvEntry → Type 0
IsInside q r = (r.start ≤ q) × (q < r.end)

-- The address is reserved.
unfoldable pub IsReserved : ℕ → List ResvEntry → Type 0
IsReserved q [] = ⊥
IsReserved q (r ∷ rs) = IsInside q r ⊎ IsReserved q rs

-- Every entry starts at or before, at or after the address.
unfoldable pub AllUpTo : ℕ → List ResvEntry → Type 0
AllUpTo b [] = Unit
AllUpTo b (r ∷ rs) = (r.start ≤ b) × AllUpTo b rs

unfoldable pub AllFrom : ℕ → List ResvEntry → Type 0
AllFrom b [] = Unit
AllFrom b (r ∷ rs) = (b ≤ r.start) × AllFrom b rs

unfoldable pub IsDescending : List ResvEntry → Type 0
IsDescending [] = Unit
IsDescending (r ∷ rs) = AllUpTo r.start rs × IsDescending rs

unfoldable pub IsAscending : List ResvEntry → Type 0
IsAscending [] = Unit
IsAscending (r ∷ rs) = AllFrom r.start rs × IsAscending rs

up_to-weaken : (a b : ℕ) (rs : List ResvEntry) → a ≤ b → AllUpTo a rs → AllUpTo b rs
unfolding AllUpTo
up_to-weaken a b [] h u = u
up_to-weaken a b (r ∷ rs) h (x, u) = (omega (arith, x, h), up_to-weaken a b rs h u)

pub from-weaken : (a b : ℕ) (rs : List ResvEntry) → a ≤ b → AllFrom b rs → AllFrom a rs
unfolding AllFrom
from-weaken a b [] h u = u
from-weaken a b (r ∷ rs) h (x, u) = (omega (arith, x, h), from-weaken a b rs h u)

insert-up_to :
    (b : ℕ) (key : ResvEntry) (rs : List ResvEntry)
    → key.start ≤ b
    → AllUpTo b rs
    → AllUpTo b (insert_back key rs)
unfolding AllUpTo insert_back
insert-up_to b key [] h u = (h, u)
insert-up_to b key (r ∷ rs) h (x, u) = elim (Bool-cases (ltb key.start r.start)) [
  | inl e ↦ rw e (x, insert-up_to b key rs h u)
  | inr e ↦ rw e (h, (x, u))
]

insert-IsDescending :
    (key : ResvEntry) (rs : List ResvEntry) → IsDescending rs → IsDescending (insert_back key rs)
unfolding IsDescending AllUpTo insert_back
insert-IsDescending key [] d = (tt, tt)
insert-IsDescending key (r ∷ rs) (u, d) = elim (Bool-cases (ltb key.start r.start)) [
  | inl e ↦ rw e (insert-up_to r.start key rs (ground arith) u, insert-IsDescending key rs d)
  | inr e ↦
      let low : r.start ≤ key.start = ground arith in
      rw e ((low, up_to-weaken r.start key.start rs low u), (u, d))
]

insert-IsReserved :
    (q : ℕ) (key : ResvEntry) (rs : List ResvEntry)
    → IsReserved q (insert_back key rs) ↔ (IsInside q key ⊎ IsReserved q rs)
unfolding IsReserved insert_back
insert-IsReserved q key [] = (λ h. h, λ h. h)
insert-IsReserved q key (r ∷ rs) = elim (Bool-cases (ltb key.start r.start)) [
  | inl e ↦
      let (to, back) = insert-IsReserved q key rs in
      rw e (
        λ h. elim h [
          | inl a ↦ inr (inl a)
          | inr b ↦ elim (to b) [ inl c ↦ inl c | inr c ↦ inr (inr c) ]
        ],
        λ h. elim h [
          | inl a ↦ inr (back (inl a))
          | inr b ↦ elim b [ inl c ↦ inl c | inr c ↦ inr (back (inr c)) ]
        ],
      )
  | inr e ↦ rw e (λ h. h, λ h. h)
]

sort-IsDescending :
    (sorted rs : List ResvEntry) → IsDescending sorted → IsDescending (sort_onto sorted rs)
unfolding sort_onto
sort-IsDescending sorted [] d = d
sort-IsDescending sorted (key ∷ rest) d =
    sort-IsDescending (insert_back key sorted) rest (insert-IsDescending key sorted d)

sort-IsReserved :
    (q : ℕ) (sorted rs : List ResvEntry)
    → IsReserved q (sort_onto sorted rs) ↔ (IsReserved q sorted ⊎ IsReserved q rs)
unfolding sort_onto IsReserved
sort-IsReserved q sorted [] = (λ h. inl h, λ h. elim h [ inl a ↦ a | inr b ↦ absurd b ])
sort-IsReserved q sorted (key ∷ rest) =
    let (to, back) = sort-IsReserved q (insert_back key sorted) rest in
    let (out, into) = insert-IsReserved q key sorted in
    (
      λ h. elim (to h) [
        | inl a ↦ elim (out a) [ inl k ↦ inr (inl k) | inr s ↦ inl s ]
        | inr b ↦ inr (inr b)
      ],
      λ h. elim h [
        | inl s ↦ back (inl (into (inr s)))
        | inr b ↦ elim b [ inl k ↦ back (inl (into (inl k))) | inr r ↦ back (inr r) ]
      ],
    )

-- Every entry of the first list starts at or before every one of the second.
IsBefore : List ResvEntry → List ResvEntry → Type 0
IsBefore [] later = Unit
IsBefore (r ∷ rs) later = AllFrom r.start later × IsBefore rs later

IsBefore-cons :
    (r : ResvEntry) (rs later : List ResvEntry)
    → AllUpTo r.start rs
    → IsBefore rs later
    → IsBefore rs (r ∷ later)
unfolding IsBefore AllUpTo AllFrom
IsBefore-cons r [] later u b = tt
IsBefore-cons r (x ∷ rs) later (h, u) (a, b) = ((h, a), IsBefore-cons r rs later u b)

IsBefore-nil : (rs : List ResvEntry) → IsBefore rs []
unfolding IsBefore AllFrom
IsBefore-nil [] = tt
IsBefore-nil (r ∷ rs) = (tt, IsBefore-nil rs)

reverse-IsAscending :
    (done rs : List ResvEntry)
    → IsDescending rs
    → IsAscending done
    → IsBefore rs done
    → IsAscending (reverse_onto done rs)
unfolding reverse_onto IsDescending IsAscending IsBefore
reverse-IsAscending done [] d a b = a
reverse-IsAscending done (r ∷ rs) (u, d) a (f, b) =
    reverse-IsAscending (r ∷ done) rs d (f, a) (IsBefore-cons r rs done u b)

reverse-IsReserved :
    (q : ℕ) (done rs : List ResvEntry)
    → IsReserved q (reverse_onto done rs) ↔ (IsReserved q done ⊎ IsReserved q rs)
unfolding reverse_onto IsReserved
reverse-IsReserved q done [] = (λ h. inl h, λ h. elim h [ inl a ↦ a | inr b ↦ absurd b ])
reverse-IsReserved q done (r ∷ rs) =
    let (to, back) = reverse-IsReserved q (r ∷ done) rs in
    (
      λ h. elim (to h) [
        | inl a ↦ elim a [ inl x ↦ inr (inl x) | inr y ↦ inl y ]
        | inr b ↦ inr (inr b)
      ],
      λ h. elim h [
        | inl a ↦ back (inl (inr a))
        | inr b ↦ elim b [ inl x ↦ back (inl (inl x)) | inr y ↦ back (inr y) ]
      ],
    )

abbrev pub sorted_resv : List ResvEntry → List ResvEntry
sorted_resv resv = reverse_onto [] (sort_onto [] resv)

pub sorted-IsAscending : (resv : List ResvEntry) → IsAscending (sorted_resv resv)
unfolding IsDescending IsAscending
sorted-IsAscending resv =
    reverse-IsAscending [] (sort_onto [] resv) (sort-IsDescending [] resv tt) tt
      (IsBefore-nil (sort_onto [] resv))

pub sorted-IsReserved :
    (q : ℕ) (resv : List ResvEntry) → IsReserved q (sorted_resv resv) ↔ IsReserved q resv
unfolding IsReserved
sorted-IsReserved q resv =
    let (to, back) = reverse-IsReserved q [] (sort_onto [] resv) in
    let (out, into) = sort-IsReserved q [] resv in
    (
      λ h. elim (to h) [ inl a ↦ absurd a | inr b ↦ elim (out b) [ inl c ↦ absurd c | inr c ↦ c ] ],
      λ h. back (inr (into (inr h))),
    )
