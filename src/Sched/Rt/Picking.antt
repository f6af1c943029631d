-- ===== src/Sched/Rt/Picking.antt =====
-- The strand that is picked next.
use zxfoundation.Base.{
  ℕ, ◌≤◌, ◌<◌, ◌≡◌, ◌⊎◌, inl, inr, refl, ap, arith, Option, none, some, List, [], ◌∷◌, ◌++◌, ltb,
  Bool-cases,
}
use zxfoundation.Sched.Rt.{Strand}
use zxfoundation.Sched.Rt.Ops.{SchedState, RunQueue, priority, better, best_of, pick_next}

-- Every strand of the list has a priority below `k`, or at most `k`.
abbrev pub AllBelow : (ℕ → Strand) → ℕ → List ℕ → Type 0
AllBelow strands k [] = Unit {0}
AllBelow strands k (c ∷ cs) = (priority strands c < k) × AllBelow strands k cs

abbrev pub AllUpTo : (ℕ → Strand) → ℕ → List ℕ → Type 0
AllUpTo strands k [] = Unit {0}
AllUpTo strands k (c ∷ cs) = (priority strands c ≤ k) × AllUpTo strands k cs

-- `p` has the highest priority of the list, and is the first that has it.
pub record IsFirstBest (strands : ℕ → Strand) (p : ℕ) (cs : List ℕ) : Type 0 where
  pub before : List ℕ
  pub after : List ℕ
  pub split : cs ≡ before ++ p ∷ after
  pub lower_before : AllBelow strands (priority strands p) before
  pub none_higher : AllUpTo strands (priority strands p) after

-- What the search does with the best strand so far.
best_of-some :
    (strands : ℕ → Strand) (b : ℕ) (cs : List ℕ)
    → ((best_of strands (some b) cs ≡ some b) × AllUpTo strands (priority strands b) cs)
      ⊎ ((p : ℕ) × (best_of strands (some b) cs ≡ some p)
          × (priority strands b < priority strands p)
          × IsFirstBest strands p cs)
unfolding best_of better
best_of-some strands b [] = inl (refl, tt)
best_of-some strands b (c ∷ cs) =
    elim (Bool-cases (ltb (priority strands b) (priority strands c))) [
      | inl up ↦ elim (best_of-some strands c cs) [
        | inl (e, rest) ↦ inr (
          c,
          rw up e,
          ground arith,
          record { before = []; after = cs; split = refl; lower_before = tt; none_higher = rest },
        )
        | inr (p, e, more, first) ↦ inr (
          p,
          rw up e,
          ground arith,
          record {
            before = c ∷ first.before;
            after = first.after;
            split = ap (λ xs. c ∷ xs) first.split;
            lower_before = (more, first.lower_before);
            none_higher = first.none_higher;
          },
        )
      ]
      | inr stay ↦ elim (best_of-some strands b cs) [
        | inl (e, rest) ↦ inl (rw stay e, (ground arith, rest))
        | inr (p, e, more, first) ↦ inr (
          p,
          rw stay e,
          more,
          record {
            before = c ∷ first.before;
            after = first.after;
            split = ap (λ xs. c ∷ xs) first.split;
            lower_before = (ground arith, first.lower_before);
            none_higher = first.none_higher;
          },
        )
      ]
    ]

best_of-none :
    (strands : ℕ → Strand) (cs : List ℕ)
    → ((cs ≡ []) × (best_of strands none cs ≡ none))
      ⊎ ((p : ℕ) × (best_of strands none cs ≡ some p) × IsFirstBest strands p cs)
unfolding best_of better
best_of-none strands [] = inl (refl, refl)
best_of-none strands (c ∷ cs) = elim (best_of-some strands c cs) [
  | inl (e, rest) ↦ inr (
    c,
    e,
    record { before = []; after = cs; split = refl; lower_before = tt; none_higher = rest },
  )
  | inr (p, e, more, first) ↦ inr (
    p,
    e,
    record {
      before = c ∷ first.before;
      after = first.after;
      split = ap (λ xs. c ∷ xs) first.split;
      lower_before = (more, first.lower_before);
      none_higher = first.none_higher;
    },
  )
]

-- An empty queue gives no strand. Otherwise the strand picked next is queued, none that is queued has
-- a higher priority, and none before it has the same: equal priorities are served in their order.
pub pick_next-IsFirstBest :
    (w : SchedState) (rq : RunQueue)
    → ((rq.rt_queue ≡ []) × (pick_next w rq ≡ none))
      ⊎ ((p : ℕ) × (pick_next w rq ≡ some p) × IsFirstBest w.strands p rq.rt_queue)
unfolding pick_next
pick_next-IsFirstBest w rq = best_of-none w.strands rq.rt_queue

-- The search reads nothing but priorities.
pub best_of-priority :
    (s s' : ℕ → Strand) (best : Option ℕ) (cs : List ℕ)
    → ((c : ℕ) → priority s' c ≡ priority s c)
    → best_of s' best cs ≡ best_of s best cs
unfolding best_of better
best_of-priority s s' best [] same = refl
best_of-priority s s' none (c ∷ cs) same = best_of-priority s s' (some c) cs same
best_of-priority s s' (some b) (c ∷ cs) same =
    rw (same b, same c) (best_of-priority s s' (better s (some b) c) cs same)

pub best_of-snoc :
    (s : ℕ → Strand) (best : Option ℕ) (cs : List ℕ) (p : ℕ)
    → best_of s best (cs ++ p ∷ []) ≡ better s (best_of s best cs) p
unfolding best_of
best_of-snoc s best [] p = refl
best_of-snoc s best (c ∷ cs) p = best_of-snoc s (better s best c) cs p
