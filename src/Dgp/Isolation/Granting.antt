-- ===== src/Dgp/Isolation/Granting.antt =====
-- Which key an allocation grants, and what a teardown gives back.
use zxfoundation.Base.{
  ℕ, zero, suc, ◌+◌, ◌≤◌, ◌<◌, ◌≡◌, ◌≢◌, ◌⊎◌, inl, inr, refl, Bool, true, false, none, some, ok,
  err, from_generic, from_memory, invalid_arg, out_of_memory, arith, ℕ_discrete, dec_lt, subst,
  Bool-cases, KernelError,
}
use zxfoundation.Base.Arrays.{update}
use zxfoundation.Dgp.Isolation.{
  Keys, free_key, allocate_storage_key, storage_key_auto, storage_key_user_base,
  storage_key_user_max,
}

-- What the search finds: a free key with all keys before it in use, or none free at all.
pub free_key-cases :
    (n key : ℕ) (used : ℕ → Bool)
    → ((free_key n key used ≡ none) × ((j : ℕ) → key ≤ j → j < key + n → used j ≡ true))
      ⊎ ((k : ℕ) × (free_key n key used ≡ some k) × (key ≤ k) × (k < key + n) × (used k ≡ false))
unfolding free_key
free_key-cases zero key used = inl (refl, λ j p q. absurd (omega (arith, p, q)))
free_key-cases (suc n) key used = elim (Bool-cases (used key)) [
  | inr free ↦ inr (key, ground arith, omega arith, omega arith, free)
  | inl busy ↦ elim (free_key-cases n (key + 1) used) [
    | inl (e, all) ↦ inl (
      ground arith,
      λ j p q. elim (ℕ_discrete key j) [
        | yes eq ↦ subst (λ k. used k ≡ true) eq busy
        | no ne ↦ all j (omega (arith, p, ne)) (omega (arith, q))
      ],
    )
    | inr (k, e, low, high, free) ↦
        inr (k, ground arith, omega (arith, low), omega (arith, high), free)
  ]
]

-- The keys that domains may hold.
abbrev pub IsUserKey : ℕ → Type 0
IsUserKey k = (storage_key_user_base ≤ k) × (k ≤ storage_key_user_max)

-- An allocation either grants a user key that was free, which is in use from then on with every
-- other key as before, the requested one if one was requested; or it changes nothing, and then the
-- request is for a key that is no user key or is in use, or is for any key and all are in use.
pub allocate_storage_key-Granted :
    (s : Keys) (requested : ℕ)
    → ((k : ℕ) × (allocate_storage_key s requested
          ≡ (ok k, record s { used = update s.used k true }))
        × IsUserKey k
        × (s.used k ≡ false)
        × ((requested ≡ storage_key_auto) ⊎ (requested ≡ k)))
      ⊎ ((e : KernelError) × (allocate_storage_key s requested ≡ (err e, s))
          × (((requested ≢ storage_key_auto) × ((s.used requested ≡ true) ⊎ ¬ IsUserKey requested))
              ⊎ ((requested ≡ storage_key_auto) × ((j : ℕ) → IsUserKey j → s.used j ≡ true))))
unfolding allocate_storage_key
allocate_storage_key-Granted s requested = elim (ℕ_discrete requested storage_key_auto) [
  | yes any ↦ elim (free_key-cases 8 8 s.used) [
    | inl (e, all) ↦
        inr (
          from_memory out_of_memory,
          ground arith,
          inr (any, λ j h. all j h.0 (omega (arith, h.1))),
        )
    | inr (k, e, low, high, free) ↦ inl (k, ground arith, (low, omega (arith, high)), free, inl any)
  ]
  | no one ↦ elim (dec_lt requested 8) [
    | yes small ↦
        inr
          (from_generic invalid_arg, ground arith, inl (one, inr (λ h. omega (arith, h.0, small))))
    | no not_small ↦ elim (dec_lt 15 requested) [
      | yes big ↦
          inr
            (from_generic invalid_arg, ground arith, inl (one, inr (λ h. omega (arith, h.1, big))))
      | no not_big ↦ elim (Bool-cases (s.used requested)) [
        | inl busy ↦ inr (from_memory out_of_memory, ground arith, inl (one, inl busy))
        | inr free ↦ inl (
          requested,
          ground arith,
          (omega (arith, not_small), omega (arith, not_big)),
          free,
          inr refl,
        )
      ]
    ]
  ]
]
