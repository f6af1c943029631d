-- ===== src/Dgp/SyncContract/Claim.antt =====
-- A domain's teardown is claimed once.
use zxfoundation.Base.{
  ◌≡◌, ◌⊎◌, inl, inr, refl, List, [], ◌∷◌, ok, err, from_generic, invalid_arg, arith,
}
use zxfoundation.Scoms.Kobject.{active, dying, transition}
use zxfoundation.Dgp.SyncContract.{
  Domain, TeardownPhase, none_phase, claim_domain_destroy, advance_domain_teardown_phase,
}

-- A claim is granted exactly for an active domain whose teardown is in no phase; the domain is
-- dying then, and nothing else of it has changed. A claim that is not granted changes nothing.
claim_domain_destroy-Claim :
    (d : Domain)
    → ((d.ko.state ≡ active)
        × (d.phase ≡ none_phase)
        × (claim_domain_destroy d ≡ (ok tt, record d { ko = record d.ko { state = dying } })))
      ⊎ (¬ ((d.ko.state ≡ active) × (d.phase ≡ none_phase))
          × (claim_domain_destroy d ≡ (err (from_generic invalid_arg), d)))
unfolding claim_domain_destroy transition
claim_domain_destroy-Claim d = ground arith

-- The calls of `advance_domain_teardown_phase` in a teardown.
unfoldable pub driven : Domain → List (TeardownPhase × TeardownPhase) → Domain
driven d [] = d
driven d ((e, r) ∷ calls) = driven (advance_domain_teardown_phase d e r).1 calls

driven-ko : (d : Domain) (calls : List (TeardownPhase × TeardownPhase)) → (driven d calls).ko ≡ d.ko
unfolding driven advance_domain_teardown_phase
driven-ko d [] = refl
driven-ko d ((e, r) ∷ calls) = driven-ko (advance_domain_teardown_phase d e r).1 calls

-- Once a teardown has been claimed, every later claim is refused, at whatever point of the
-- teardown it comes, and changes nothing.
claim_domain_destroy_once :
    (d d' : Domain) (calls : List (TeardownPhase × TeardownPhase))
    → claim_domain_destroy d ≡ (ok tt, d')
    → claim_domain_destroy (driven d' calls) ≡ (err (from_generic invalid_arg), driven d' calls)
claim_domain_destroy_once d d' calls h = elim (claim_domain_destroy-Claim (driven d' calls)) [
  | inr (why, same) ↦ same
  | inl (on, p, a) ↦ elim (claim_domain_destroy-Claim d) [
    | inl (on', p', a') ↦ let k = driven-ko d' calls in absurd (ground arith)
    | inr (why, a') ↦ absurd (ground arith)
  ]
]
