-- ===== src/Sched/Cpupri/Search.antt =====
-- The CPU that `find_fitness` chooses.
use zxfoundation.Base.{
  ℕ, zero, suc, ◌+◌, ◌%◌, ◌^◌, ◌≤◌, ◌<◌, ◌≡◌, ◌⊎◌, inl, inr, refl, arith, Bool, true, false, ◌&&◌,
  none, some, done, leb, Bool-cases, ℕ_discrete, dec_lt,
}
use zxfoundation.Sched.Cpupri.{
  CpupriIndex, cpupri_nr_priorities, has_mask, find_cpu, find_pri, find_fitness,
}
use zxfoundation.Sched.Cpupri.Index.{IsIndexed}

-- No CPU from `i` to before `j` is in the mask and allowed.
abbrev IsEmpty : (mask allowed : ℕ → Bool) (i j : ℕ) → Type 0
IsEmpty mask allowed i j = (c : ℕ) → i ≤ c → c < j → (mask c && allowed c) ≡ false

record IsHit (mask allowed : ℕ → Bool) (width cpu : ℕ) : Type 0 where
  both : (mask cpu && allowed cpu) ≡ true
  below : cpu < width

find_cpu-result :
    (n i : ℕ) (mask allowed : ℕ → Bool)
    → ((find_cpu n i mask allowed ≡ none) × IsEmpty mask allowed i (i + n))
      ⊎ ((cpu : ℕ) × (find_cpu n i mask allowed ≡ some cpu) × IsHit mask allowed (i + n) cpu)
unfolding find_cpu
find_cpu-result zero i mask allowed = inl (refl, λ c low high. absurd (omega (arith, low, high)))
find_cpu-result (suc n) i mask allowed = elim (Bool-cases (mask i && allowed i)) [
  | inl yes_here ↦ inr (i, ground arith, record { both = yes_here; below = omega arith })
  | inr not_here ↦ elim (find_cpu-result n (i + 1) mask allowed) [
    | inl (e, empty) ↦ inl (
      ground arith,
      λ c low high. elim (ℕ_discrete i c) [
        | yes z ↦ rw (← z) not_here
        | no ne ↦ empty c (omega (arith, low, ne)) (omega (arith, high))
      ],
    )
    | inr (cpu, e, hit) ↦
        inr (cpu, ground arith, record { both = hit.both; below = omega (arith, hit.below) })
  ]
]

record IsFirst (x : CpupriIndex) (allowed : ℕ → Bool) (width p q cpu : ℕ) : Type 0 where
  low : p ≤ q
  hit : IsHit (x.pri_mask q) allowed width cpu
  lower : (r : ℕ) → p ≤ r → r < q → IsEmpty (x.pri_mask r) allowed 0 width

find_pri-result :
    (n p width : ℕ) (x : CpupriIndex) (allowed : ℕ → Bool)
    → p + n ≤ cpupri_nr_priorities
    → ((find_pri n p width x allowed ≡ done none)
        × ((r : ℕ) → p ≤ r → r < p + n → IsEmpty (x.pri_mask r) allowed 0 width))
      ⊎ ((cpu : ℕ) × (q : ℕ) × (find_pri n p width x allowed ≡ done (some cpu))
          × (q < p + n)
          × IsFirst x allowed width p q cpu)
unfolding find_pri
find_pri-result zero p width x allowed room =
    inl (refl, λ r low high. absurd (omega (arith, low, high)))
find_pri-result (suc n) p width x allowed room =
    let inside : leb cpupri_nr_priorities p ≡ false = ground (arith, room) in
    elim (find_cpu-result width 0 (x.pri_mask p) allowed) [
      | inr (cpu, e, hit) ↦ inr (
        cpu,
        p,
        ground arith,
        omega arith,
        record {
          low = omega arith;
          hit = record { both = hit.both; below = omega (arith, hit.below) };
          lower = λ r low high. absurd (omega (arith, low, high));
        },
      )
      | inl (e, none_here) ↦
          let empty : IsEmpty (x.pri_mask p) allowed 0 width =
            λ c low high. none_here c low (omega (arith, high)) in
          elim (find_pri-result n (p + 1) width x allowed (omega (arith, room))) [
            | inr (cpu, q, found, below, first) ↦ inr (
              cpu,
              q,
              ground arith,
              omega (arith, below),
              record {
                low = omega (arith, first.low);
                hit = first.hit;
                lower = λ r low high. elim (ℕ_discrete p r) [
                  | yes z ↦ rw (← z) empty
                  | no ne ↦ first.lower r (omega (arith, low, ne)) high
                ];
              },
            )
            | inl (none_there, all) ↦ inl (
              ground arith,
              λ r low high. elim (ℕ_discrete p r) [
                | yes z ↦ rw (← z) empty
                | no ne ↦ all r (omega (arith, low, ne)) (omega (arith, high))
              ],
            )
          ]
    ]

-- Every allowed CPU has a higher top priority than `t`, or none.
abbrev pub AllAbove : CpupriIndex → (allowed : ℕ → Bool) → (width t : ℕ) → Type 0
AllAbove x allowed width t = (c : ℕ) → c < width → allowed c ≡ true → t < x.cpu_top_pri c

-- The CPU is allowed and has no real-time work.
pub record IsIdle (x : CpupriIndex) (allowed : ℕ → Bool) (cpu : ℕ) : Type 0 where
  pub allowed_it : allowed cpu ≡ true
  pub free : has_mask (x.cpu_top_pri cpu) ≡ false

-- The CPU is allowed, its top priority is at most `t`, and no allowed CPU has a lower one.
pub record IsLowest (x : CpupriIndex) (allowed : ℕ → Bool) (width t cpu : ℕ) : Type 0 where
  pub allowed_it : allowed cpu ≡ true
  pub within : x.cpu_top_pri cpu ≤ t
  pub lowest : (c : ℕ) → c < width → allowed c ≡ true → x.cpu_top_pri cpu ≤ x.cpu_top_pri c

-- In an index that agrees with the top priorities of the CPUs that are up, and for a priority below
-- 128, `find_fitness` gives a CPU that is up and allowed, of the lowest top priority, if one is at or below the priority that it asks for; an
-- allowed CPU without real-time work, if all others are above; or else the number of CPUs.
pub find_fitness-IsLowest :
    (max_cpus width : ℕ) (online : ℕ → Bool) (x : CpupriIndex) (t : ℕ) (affinity : ℕ → Bool)
    → t < cpupri_nr_priorities
    → ((c : ℕ) → c < width → online c ≡ true → IsIndexed x c)
    → let allowed = λ (cpu : ℕ). affinity cpu && online cpu in
      let result = find_fitness max_cpus width online x t affinity in
      ((cpu : ℕ) × (result ≡ done cpu) × IsLowest x allowed width t cpu)
      ⊎ (((cpu : ℕ) × (result ≡ done cpu) × IsIdle x allowed cpu)
          ⊎ (result ≡ done (max_cpus % 2 ^ 16)))
        × AllAbove x allowed width t
unfolding find_fitness
find_fitness-IsLowest max_cpus width online x t affinity low indexed =
    let allowed = λ (cpu : ℕ). affinity cpu && online cpu in
    elim (find_pri-result (t + 1) 0 width x allowed (omega (arith, low))) [
      | inr (cpu, q, found, below, first) ↦
          let hit = first.hit.both in
          let in_mask =
            (indexed cpu first.hit.below (ground arith)).masks q (omega (arith, low, below)) in
          let top : x.cpu_top_pri cpu ≡ q = ground arith in
          inl (
            cpu,
            ground arith,
            record {
              allowed_it = ground arith;
              within = omega (arith, top, below);
              lowest = λ c inside may. elim (dec_lt (x.cpu_top_pri c) q) [
                | no high ↦ omega (arith, top, high)
                | yes lower ↦
                    let missed =
                      first.lower (x.cpu_top_pri c) (omega arith) lower c (omega arith) inside in
                    let mask =
                      (indexed c inside (ground arith)).masks (x.cpu_top_pri c)
                        (omega (arith, low, below, lower)) in
                    absurd (ground arith)
              ];
            },
          )
      | inl (none_there, all) ↦
          let above : AllAbove x allowed width t = λ c inside may.
            elim (dec_lt t (x.cpu_top_pri c)) [
              | yes high ↦ high
              | no not_high ↦
                  let missed =
                    all (x.cpu_top_pri c) (omega arith) (omega (arith, not_high)) c (omega arith)
                      inside in
                  let mask =
                    (indexed c inside (ground arith)).masks (x.cpu_top_pri c)
                      (omega (arith, low, not_high)) in
                  absurd (ground arith)
            ] in
          inr (
            elim (find_cpu-result width 0 x.free_mask allowed) [
              | inl (e, empty) ↦ inr (ground arith)
              | inr (cpu, e, hit) ↦
                  let both = hit.both in
                  let free = (indexed cpu (omega (arith, hit.below)) (ground arith)).free in
                  inl (cpu, ground arith, record { allowed_it = ground arith; free = ground arith })
            ],
            above,
          )
    ]
