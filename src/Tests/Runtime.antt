-- ===== src/Tests/Runtime.antt =====
-- Witnesses of the theorems on the session's state machine and the order of frames.
use pqtrust_agent_artifact.Prelude.{ℕ, suc, ◌↔◌, ◌==◌, nat_eq, if◌then◌else◌}
use pqtrust_agent_artifact.Prelude.Result.{ok}
use pqtrust_agent_artifact.Transport.Sequence.{new_validator, observe, observed}
use pqtrust_agent_artifact.Transport.Sequence.Order.{observe_next}
use pqtrust_agent_artifact.Prelude.{String, List, [], ◌∷◌, ◌≡◌, ◌≢◌}
use pqtrust_agent_artifact.Runtime.StateMachine.{
  RuntimeState, discovery_complete, commitments_registered, tls_activated, failed, new_machine,
  transition, after_calls,
}
use pqtrust_agent_artifact.Runtime.StateMachine.Route.{visited, route, after_calls-route}

-- An illegal activation between two legal steps changes nothing.
abbrev calls : List (RuntimeState × String)
calls =
    (discovery_complete, "discovered")
    ∷ (tls_activated, "too early")
    ∷ (commitments_registered, "committed")
    ∷ []

alive : (after_calls calls new_machine).state ≢ failed
unfolding after_calls transition
alive h = cc

after_calls-route_example :
    visited (after_calls calls new_machine) ≡ route (after_calls calls new_machine).state
after_calls-route_example = after_calls-route calls alive

-- Frames 0, 2 and 1: the second is refused.
abbrev frames : List ℕ
frames = 0 ∷ 2 ∷ 1 ∷ []

observe_next_example :
    (((observe 2 (observed frames new_validator)).0 ≡ ok tt)
      ↔ (2 ≡ (observed frames new_validator).next))
    × ((observe 2 (observed frames new_validator)).1.next ≡ (
        if ◌==◌ {T = ℕ} 2 (observed frames new_validator).next
        then suc (observed frames new_validator).next
        else (observed frames new_validator).next))
observe_next_example = observe_next frames 2
