-- ===== src/Runtime/StateMachine.antt =====
-- src/pqtrust_agent/runtime/state_machine.py and the states of models/runtime.py.
pub mod Route
use pqtrust_agent_artifact.Prelude.{
  ℕ, String, Bool, true, false, not, List, [], ◌∷◌, ◌++◌, ◌≡◌, ◌↔◌, Eq, nat_beq, ltb, ◌||◌,
  contains, length, codes, arith, refl,
}
use pqtrust_agent_artifact.Prelude.Result.{Result, ok, err, runtime_state_error, value_error}
use pqtrust_agent_artifact.Prelude.Exec.{Exec, gets, modify, raise_when, ◌>>=◌, ◌>>◌}

pub data RuntimeState : Type 0 where
  created discovery_complete commitments_registered reveals_verified feasibility_evaluated
        profile_selected contract_created contract_verified tls_activated task_executed completed
        conflict_certified aborted failed :
      RuntimeState

abbrev state_code : RuntimeState → ℕ
state_code created = 0
state_code discovery_complete = 1
state_code commitments_registered = 2
state_code reveals_verified = 3
state_code feasibility_evaluated = 4
state_code profile_selected = 5
state_code contract_created = 6
state_code contract_verified = 7
state_code tls_activated = 8
state_code task_executed = 9
state_code completed = 10
state_code conflict_certified = 11
state_code aborted = 12
state_code failed = 13

pub state_beq_iff : (a b : RuntimeState) → (nat_beq (state_code a) (state_code b) ≡ true) ↔ (a ≡ b)
state_beq_iff a b = ground arith

instance abbrev pub state_eq : Eq RuntimeState
state_eq = record { beq = λ a b. nat_beq (state_code a) (state_code b); beq_iff = state_beq_iff }

-- `ALLOWED_TRANSITIONS`
abbrev pub allowed_transitions : RuntimeState → List RuntimeState
allowed_transitions created = discovery_complete ∷ failed ∷ []
allowed_transitions discovery_complete = commitments_registered ∷ failed ∷ []
allowed_transitions commitments_registered = reveals_verified ∷ failed ∷ []
allowed_transitions reveals_verified = feasibility_evaluated ∷ failed ∷ []
allowed_transitions feasibility_evaluated = profile_selected ∷ conflict_certified ∷ failed ∷ []
allowed_transitions profile_selected = contract_created ∷ failed ∷ []
allowed_transitions contract_created = contract_verified ∷ failed ∷ []
allowed_transitions contract_verified = tls_activated ∷ failed ∷ []
allowed_transitions tls_activated = task_executed ∷ failed ∷ []
allowed_transitions task_executed = completed ∷ failed ∷ []
allowed_transitions conflict_certified = aborted ∷ failed ∷ []
allowed_transitions completed = []
allowed_transitions aborted = []
allowed_transitions failed = []

pub record StateTransitionRecord : Type 0 where
  pub from_state : RuntimeState
  pub to_state : RuntimeState
  pub reason : String

pub record RuntimeStateMachine : Type 0 where
  pub state : RuntimeState
  pub trace : List StateTransitionRecord

abbrev pub new_machine : RuntimeStateMachine
new_machine = record { state = created; trace = [] }

-- The record's model refuses a reason that is empty or longer than 200 characters.
abbrev pub bad_reason : String → Bool
bad_reason reason = ltb (length (codes reason)) 1 || ltb 200 (length (codes reason))

unfoldable pub transition : RuntimeState → String → Exec RuntimeStateMachine (Unit {0})
transition to_state reason = do
  from_state ← gets (λ m. m.state)
  raise_when (not (contains to_state (allowed_transitions from_state)))
      (runtime_state_error "illegal transition")
  raise_when (bad_reason reason) (value_error "reason")
  modify (λ m. record m {
    state = to_state;
    trace =
        m.trace ++ (record { from_state = from_state; to_state = to_state; reason = reason } ∷ []);
  })

-- The machine after a sequence of calls of `transition`, whether each returned or raised.
unfoldable pub after_calls :
    List (RuntimeState × String) → RuntimeStateMachine → RuntimeStateMachine
after_calls [] m = m
after_calls ((to_state, reason) ∷ calls) m = after_calls calls (transition to_state reason m).1
