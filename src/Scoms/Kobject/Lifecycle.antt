-- ===== src/Scoms/Kobject/Lifecycle.antt =====
-- What `bobject::transition` accepts, against the state diagram that ref.cxxm names move by move.
use zxfoundation.Base.{
  ◌≡◌, refl, ◌↔◌, ◌⊎◌, true, List, [], ◌∷◌, arith, ◌≢◌, inl, inr, Bool-cases, if◌then◌else◌,
}
use zxfoundation.Scoms.Kobject.{
  LifecycleState, embryo, sealed, active, suspended, dying, destroyed, Bobject, may_enter,
  transition,
}

pub data Edge : LifecycleState → LifecycleState → Type 0 where
  activate : Edge embryo active
  seal : Edge embryo sealed
  activate_sealed : Edge sealed active
  suspend : Edge active suspended
  resume : Edge suspended active
  begin_destroy : Edge active dying
  begin_destroy_suspended : Edge suspended dying
  abort : Edge embryo dying
  finish : Edge dying destroyed
  reuse : Edge destroyed embryo

ruleset edges = (
  activate, seal, activate_sealed, suspend, resume, begin_destroy, begin_destroy_suspended, abort,
  finish, reuse,
)

may_enter_of_edge : {s t : LifecycleState} → Edge s t → may_enter s t ≡ true
unfolding may_enter
may_enter_of_edge activate = refl
may_enter_of_edge seal = refl
may_enter_of_edge activate_sealed = refl
may_enter_of_edge suspend = refl
may_enter_of_edge resume = refl
may_enter_of_edge begin_destroy = refl
may_enter_of_edge begin_destroy_suspended = refl
may_enter_of_edge abort = refl
may_enter_of_edge finish = refl
may_enter_of_edge reuse = refl

pub edge_of_may_enter : (s t : LifecycleState) → may_enter s t ≡ true → Edge s t
unfolding may_enter
edge_of_may_enter embryo embryo e = first_of (cc, search edges)
edge_of_may_enter embryo _ e = first_of (cc, search edges)
edge_of_may_enter sealed embryo e = first_of (cc, search edges)
edge_of_may_enter sealed _ e = first_of (cc, search edges)
edge_of_may_enter active embryo e = first_of (cc, search edges)
edge_of_may_enter active _ e = first_of (cc, search edges)
edge_of_may_enter suspended embryo e = first_of (cc, search edges)
edge_of_may_enter suspended _ e = first_of (cc, search edges)
edge_of_may_enter dying embryo e = first_of (cc, search edges)
edge_of_may_enter dying _ e = first_of (cc, search edges)
edge_of_may_enter destroyed embryo e = first_of (cc, search edges)
edge_of_may_enter destroyed _ e = first_of (cc, search edges)

-- `bobject::transition` succeeds exactly along an edge of the diagram; then it changes the state
-- to the target and nothing else, and otherwise it changes nothing.
pub transition-Edge :
    (o : Bobject) (t : LifecycleState)
    → (((transition o t).0 ≡ true) ↔ Edge o.state t)
      × ((transition o t).1 ≡ (if (transition o t).0 then record o { state = t } else o))
unfolding transition
transition-Edge o t = elim (Bool-cases (may_enter o.state t)) [
  | inl e ↦ rw e ((λ _. edge_of_may_enter o.state t e, λ _. refl), refl)
  | inr e ↦ rw e ((λ h. cc, λ g. cc (may_enter_of_edge g)), refl)
]

-- A sequence of transitions, each of which may be refused.
unfoldable pub transitions : Bobject → List LifecycleState → Bobject
transitions o [] = o
transitions o (t ∷ ts) = transitions (transition o t).1 ts

abbrev pub IsRetired : LifecycleState → Type 0
IsRetired s = (s ≡ dying) ⊎ (s ≡ destroyed)

abbrev pub NoReuse : List LifecycleState → Type 0
NoReuse [] = Unit {0}
NoReuse (t ∷ ts) = (t ≢ embryo) × NoReuse ts

IsRetired-step :
    (s t : LifecycleState) → IsRetired s → t ≢ embryo → may_enter s t ≡ true → IsRetired t
unfolding may_enter
IsRetired-step s embryo r h e = absurd (h refl)
IsRetired-step s destroyed r h e = inr refl
IsRetired-step s dying r h e = inl refl
IsRetired-step s t r h e = ground arith

transition-IsRetired :
    (o : Bobject) (t : LifecycleState)
    → IsRetired o.state
    → t ≢ embryo
    → IsRetired (transition o t).1.state
unfolding transition
transition-IsRetired o t r h = elim (Bool-cases (may_enter o.state t)) [
  | inl e ↦ rw e (IsRetired-step o.state t r h e)
  | inr e ↦ rw e r
]

-- An object that is dying or destroyed stays so under any transitions that do not ask for `embryo`:
-- teardown is not undone.
transitions-IsRetired :
    (o : Bobject) (ts : List LifecycleState)
    → IsRetired o.state
    → NoReuse ts
    → IsRetired (transitions o ts).state
unfolding transitions
transitions-IsRetired o [] r h = r
transitions-IsRetired o (t ∷ ts) r h =
    transitions-IsRetired (transition o t).1 ts (transition-IsRetired o t r h.0) h.1
