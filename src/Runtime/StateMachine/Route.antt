-- ===== src/Runtime/StateMachine/Route.antt =====
-- The routes of the state machine: which trace each reachable state has.
use pqtrust_agent_artifact.Prelude.{
  String, true, List, [], ◌∷◌, ◌++◌, map, ◌≡◌, ◌≢◌, ◌⊎◌, inl, inr, All, contains, Eq, arith, refl,
  sym, ap, ◌∙◌, Bool-cases, subst,
}
use pqtrust_agent_artifact.Runtime.StateMachine.{
  RuntimeState, created, discovery_complete, commitments_registered, reveals_verified,
  feasibility_evaluated, profile_selected, contract_created, contract_verified, tls_activated,
  task_executed, completed, conflict_certified, aborted, failed, state_eq, allowed_transitions,
  StateTransitionRecord, RuntimeStateMachine, new_machine, bad_reason, transition, after_calls,
}

abbrev up_to_evaluation : List RuntimeState
up_to_evaluation =
    discovery_complete ∷ commitments_registered ∷ reveals_verified ∷ feasibility_evaluated ∷ []

abbrev up_to_verification : List RuntimeState
up_to_verification =
    up_to_evaluation ++ (profile_selected ∷ contract_created ∷ contract_verified ∷ [])

-- The states entered on the way from the start, for every state but `FAILED`.
abbrev pub route : RuntimeState → List RuntimeState
route created = []
route discovery_complete = discovery_complete ∷ []
route commitments_registered = discovery_complete ∷ commitments_registered ∷ []
route reveals_verified = discovery_complete ∷ commitments_registered ∷ reveals_verified ∷ []
route feasibility_evaluated = up_to_evaluation
route profile_selected = up_to_evaluation ++ (profile_selected ∷ [])
route contract_created = up_to_evaluation ++ (profile_selected ∷ contract_created ∷ [])
route contract_verified = up_to_verification
route tls_activated = up_to_verification ++ (tls_activated ∷ [])
route task_executed = up_to_verification ++ (tls_activated ∷ task_executed ∷ [])
route completed = up_to_verification ++ (tls_activated ∷ task_executed ∷ completed ∷ [])
route conflict_certified = up_to_evaluation ++ (conflict_certified ∷ [])
route aborted = up_to_evaluation ++ (conflict_certified ∷ aborted ∷ [])
route failed = []

abbrev pub visited : RuntimeStateMachine → List RuntimeState
visited m = map (λ r. r.to_state) m.trace

-- A step to `t` from the state `s` continues the route of `s`, or fails.
abbrev Continues : RuntimeState → RuntimeState → Type 0
Continues s t = (t ≡ failed) ⊎ (route t ≡ route s ++ (t ∷ []))

All-continue : (s : RuntimeState) → All (Continues s) (allowed_transitions s)
All-continue created = (inr refl, (inl refl, tt))
All-continue discovery_complete = (inr refl, (inl refl, tt))
All-continue commitments_registered = (inr refl, (inl refl, tt))
All-continue reveals_verified = (inr refl, (inl refl, tt))
All-continue feasibility_evaluated = (inr refl, (inr refl, (inl refl, tt)))
All-continue profile_selected = (inr refl, (inl refl, tt))
All-continue contract_created = (inr refl, (inl refl, tt))
All-continue contract_verified = (inr refl, (inl refl, tt))
All-continue tls_activated = (inr refl, (inl refl, tt))
All-continue task_executed = (inr refl, (inl refl, tt))
All-continue completed = tt
All-continue conflict_certified = (inr refl, (inl refl, tt))
All-continue aborted = tt
All-continue failed = tt

module _ {A : Type 0} ⦃e : Eq A⦄ where
  member_of_All : (P : A → Type 0) (xs : List A) (a : A) → All P xs → contains a xs ≡ true → P a
  member_of_All P [] a h m = cc
  member_of_All P (x ∷ xs) a (p, ps) m = elim (Bool-cases (e.beq a x)) [
    | inl here ↦ subst P (sym ((e.beq_iff a x).0 here)) p
    | inr there ↦ member_of_All P xs a ps (ground arith)
  ]

map-++ : {A B : Type 0} (f : A → B) (xs ys : List A) → map f (xs ++ ys) ≡ map f xs ++ map f ys
map-++ f [] ys = refl
map-++ f (x ∷ xs) ys = ap (λ zs. f x ∷ zs) (map-++ f xs ys)

-- A machine that has failed, or whose trace is the route of its state.
abbrev OnRoute : RuntimeStateMachine → Type 0
OnRoute m = (m.state ≡ failed) ⊎ (visited m ≡ route m.state)

abbrev step : RuntimeState → String → RuntimeStateMachine → RuntimeStateMachine
step t reason m = record {
  state = t;
  trace = m.trace ++ (record { from_state = m.state; to_state = t; reason = reason } ∷ []);
}

-- A call of `transition` changes nothing, or takes an allowed step.
transition-cases :
    (t : RuntimeState) (reason : String) (m : RuntimeStateMachine)
    → ((transition t reason m).1 ≡ m)
      ⊎ ((contains t (allowed_transitions m.state) ≡ true)
          × ((transition t reason m).1 ≡ step t reason m))
unfolding transition
transition-cases t reason m = elim (Bool-cases (contains t (allowed_transitions m.state))) [
  | inl legal ↦ elim (Bool-cases (bad_reason reason)) [
    | inl bad ↦ inl (ground arith)
    | inr good ↦ inr (legal, ground arith)
  ]
  | inr illegal ↦ inl (ground arith)
]

step-OnRoute :
    (t : RuntimeState) (reason : String) (m : RuntimeStateMachine)
    → contains t (allowed_transitions m.state) ≡ true
    → OnRoute m
    → OnRoute (step t reason m)
step-OnRoute t reason m legal (inl gone) =
    let illegal = ap (λ (s : RuntimeState). contains t (allowed_transitions s)) gone in cc
step-OnRoute t reason m legal (inr on) =
    elim (member_of_All (Continues m.state) (allowed_transitions m.state) t (All-continue m.state)
      legal) [
        | inl fails ↦ inl fails
        | inr continues ↦
            let split =
              map-++ (λ (r : StateTransitionRecord). r.to_state) m.trace
                (record { from_state = m.state; to_state = t; reason = reason } ∷ []) in
            inr (split ∙ (ap (λ ss. ss ++ (t ∷ [])) on ∙ sym continues))
      ]

transition-OnRoute :
    (t : RuntimeState) (reason : String) (m : RuntimeStateMachine)
    → OnRoute m
    → OnRoute (transition t reason m).1
transition-OnRoute t reason m h = elim (transition-cases t reason m) [
  | inl same ↦ subst OnRoute (sym same) h
  | inr (legal, taken) ↦ subst OnRoute (sym taken) (step-OnRoute t reason m legal h)
]

after_calls-OnRoute :
    (calls : List (RuntimeState × String)) (m : RuntimeStateMachine)
    → OnRoute m
    → OnRoute (after_calls calls m)
unfolding after_calls
after_calls-OnRoute [] m h = h
after_calls-OnRoute ((t, reason) ∷ calls) m h =
    after_calls-OnRoute calls (transition t reason m).1 (transition-OnRoute t reason m h)

-- After any sequence of calls of `transition` on a new machine, raising calls included, a machine
-- that is not in `FAILED` has entered exactly the states of the route to its state, in order.
pub after_calls-route :
    (calls : List (RuntimeState × String))
    → (after_calls calls new_machine).state ≢ failed
    → visited (after_calls calls new_machine) ≡ route (after_calls calls new_machine).state
after_calls-route calls alive = elim (after_calls-OnRoute calls new_machine (inr refl)) [
  | inl gone ↦ elim (alive gone) [ ]
  | inr on ↦ on
]
