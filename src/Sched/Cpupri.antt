-- ===== src/Sched/Cpupri.antt =====
-- Which CPUs run at which real-time priority: zxfoundation/sched/cpupri.zcomponent/core.cxx. A mask
-- is a predicate of the CPU. `max_cpus` is `CONFIG_ZX_MAX_CPUS`, `width` the number of bits of a
-- mask and `online` the mask of the CPUs that are up.
pub mod Index
pub mod Search
use zxfoundation.Base.{
  ℕ, zero, suc, ◌+◌, ◌%◌, ◌^◌, Bool, true, false, not, ◌&&◌, Option, none, some, Outcome, done,
  fault, if◌then◌else◌, ltb, leb, ◌==◌,
}
use zxfoundation.Base.Arrays.{update}

abbrev pub cpupri_nr_priorities : ℕ
cpupri_nr_priorities = 128

abbrev pub cpupri_invalid : ℕ
cpupri_invalid = 255

-- `cpupri_index` with `g_cpu_top_pri`
pub record CpupriIndex : Type 0 where
  pub pri_mask : ℕ → ℕ → Bool
  pub free_mask : ℕ → Bool
  pub cpu_top_pri : ℕ → ℕ

unfoldable pub init : (max_cpus : ℕ) (online : ℕ → Bool) → CpupriIndex → CpupriIndex
init max_cpus online x = record {
  pri_mask = λ p cpu. if ltb p cpupri_nr_priorities then false else x.pri_mask p cpu;
  free_mask = λ cpu. ltb cpu max_cpus && online cpu;
  cpu_top_pri = λ cpu. if ltb cpu max_cpus then cpupri_invalid else x.cpu_top_pri cpu;
}

-- The test of `pri_set` for a priority that has a mask of its own.
abbrev pub has_mask : ℕ → Bool
has_mask pri = not (pri == cpupri_invalid) && ltb pri cpupri_nr_priorities

-- One of the two halves of `pri_set`: the mask of the priority, or else of the free CPUs.
unfoldable pub mark : CpupriIndex → (cpu pri : ℕ) → Bool → CpupriIndex
mark x cpu pri b =
    if has_mask pri
    then record x { pri_mask = update x.pri_mask pri (update (x.pri_mask pri) cpu b) }
    else record x { free_mask = update x.free_mask cpu b }

unfoldable pub pri_set : (max_cpus : ℕ) → CpupriIndex → (cpu old_pri new_pri : ℕ) → CpupriIndex
pri_set max_cpus x cpu old_pri new_pri =
    if leb max_cpus cpu
    then x
    else let marked = mark (mark x cpu old_pri false) cpu new_pri true in
      record marked { cpu_top_pri = update marked.cpu_top_pri cpu new_pri }

unfoldable pub pri_top : (max_cpus : ℕ) → CpupriIndex → ℕ → ℕ
pri_top max_cpus x cpu = if leb max_cpus cpu then cpupri_invalid else x.cpu_top_pri cpu

-- The search of one mask, from CPU `i` with the bits left: `first_set` and `next_set`.
unfoldable pub find_cpu : (n i : ℕ) → (mask allowed : ℕ → Bool) → Option ℕ
find_cpu zero i mask allowed = none
find_cpu (suc n) i mask allowed = elim (mask i && allowed i) [
  | true ↦ some i
  | false ↦ find_cpu n (i + 1) mask allowed
]

-- The loop over the priorities from `p` on, with the rounds left. An index past the array is a
-- fault.
unfoldable pub find_pri : (n p : ℕ) → (width : ℕ) → CpupriIndex → (ℕ → Bool) → Outcome (Option ℕ)
find_pri zero p width x allowed = done none
find_pri (suc n) p width x allowed =
    if leb cpupri_nr_priorities p then fault else elim (find_cpu width 0 (x.pri_mask p) allowed) [
      | some cpu ↦ done (some cpu)
      | none ↦ find_pri n (p + 1) width x allowed
    ]

unfoldable pub find_fitness :
    (max_cpus width : ℕ) (online : ℕ → Bool)
    → CpupriIndex
    → (pri_threshold : ℕ) (affinity : ℕ → Bool) → Outcome ℕ
find_fitness max_cpus width online x pri_threshold affinity =
    let allowed = λ (cpu : ℕ). affinity cpu && online cpu in
    elim (find_pri (pri_threshold + 1) 0 width x allowed) [
      | fault ↦ fault
      | done (some cpu) ↦ done cpu
      | done none ↦ elim (find_cpu width 0 x.free_mask allowed) [
        | some cpu ↦ done cpu
        | none ↦ done (max_cpus % 2 ^ 16)
      ]
    ]
