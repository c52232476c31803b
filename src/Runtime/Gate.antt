-- ===== src/Runtime/Gate.antt =====
-- src/pqtrust_agent/runtime/execution_gate.py and its result types in models/transport.py.
pub mod Authorized
use pqtrust_agent_artifact.Prelude.{
  String, Bool, true, false, not, ◌||◌, Option, none, some, List, contains, ◌==◌, string_eq, ℕ,
}
use pqtrust_agent_artifact.Prelude.Result.{Exn, Result, ok, err, value_error, raise_if, ◌>>=◌, ◌>>◌}
use pqtrust_agent_artifact.Assurance.{
  ContractEvidenceMode, EndpointAuthenticationMode, FallbackRule, ResumptionRule,
}
use pqtrust_agent_artifact.Protocol.Time.{DateTime, require_utc_aware}
use pqtrust_agent_artifact.Protocol.Replay.{ReplayRegistry}
use pqtrust_agent_artifact.Protocol.Models.{
  ProfileCatalog, get_profile, NegotiationTranscript, SelectionSummary, SignedTrustContract, Crypto,
  compute_signed_contract_hash,
}
use pqtrust_agent_artifact.Protocol.Transcript.{◌!=◌}
use pqtrust_agent_artifact.Protocol.Verification.{ExpectedKey, verify_signed_contract}
use pqtrust_agent_artifact.Runtime.StateMachine.{RuntimeState, contract_verified, state_eq}

pub record AuthorizedExecutionContext : Type 0 where
  pub session_id : String
  pub selected_profile_id : String
  pub tls_group : String
  pub endpoint_authentication_mode : EndpointAuthenticationMode
  pub contract_evidence_mode : ContractEvidenceMode
  pub fallback_rule : FallbackRule
  pub resumption_rule : ResumptionRule
  pub activation_time : ℕ
  pub contract_hash : String

-- A rejection carries the exception, whose class is `error_code` and whose text is `message`.
pub data GateResult : Type 0 where
  authorized : AuthorizedExecutionContext → GateResult
  rejected : Exn → GateResult

-- `Callable` in place of the contract verification.
abbrev pub Verifier : Type 0
Verifier =
    SignedTrustContract
    → NegotiationTranscript
    → SelectionSummary
    → ProfileCatalog
    → DateTime
    → Result (Unit {0})

pub record ExecutionGate : Type 0 where
  pub catalog : ProfileCatalog
  pub expected_keys : List ExpectedKey
  pub replay_registry : Option ReplayRegistry
  pub verifier : Option Verifier

module _ (c : Crypto) (session_id : String) (signed : SignedTrustContract)
    (t : NegotiationTranscript) (selection : SelectionSummary) (activation_time : DateTime) where
  -- The checks before the verification.
  unfoldable pub checks_before : RuntimeState → Result (Unit {0})
  checks_before runtime_state = do
    raise_if (runtime_state != contract_verified)
        (value_error "runtime is not in CONTRACT_VERIFIED state")
    raise_if (signed.unsigned_contract.session_id != session_id || t.session_id != session_id)
        (value_error "session IDs do not match")
    raise_if (signed.signed_contract_hash != compute_signed_contract_hash c signed)
        (value_error "modified signed-contract hash")

  -- The gate's own verifier, or `verify_signed_contract` with its registry.
  unfoldable pub verified : ExecutionGate → Result (Unit {0}) × Option ReplayRegistry
  verified gate = elim gate.verifier [
    | some verifier ↦
        (verifier signed t selection gate.catalog activation_time, gate.replay_registry)
    | none ↦
        verify_signed_contract c signed t selection gate.catalog gate.expected_keys activation_time
          gate.replay_registry
  ]

  -- The checks after the verification, and the context.
  unfoldable pub checks_after : ProfileCatalog → Result AuthorizedExecutionContext
  checks_after catalog =
      let unsigned = signed.unsigned_contract in
      do
        profile ← get_profile catalog unsigned.selected_profile_id
        raise_if (not (contains unsigned.selected_profile_id t.initiator_local_safe_set))
            (value_error "selected profile not in initiator safe set")
        raise_if (not (contains unsigned.selected_profile_id t.responder_local_safe_set))
            (value_error "selected profile not in responder safe set")
        raise_if (unsigned.tls_group != profile.tls_group)
            (value_error "profile properties do not match catalog")
        raise_if (unsigned.transcript_hash != t.transcript_hash)
            (value_error "transcript hash mismatch")
        raise_if (unsigned.selection_hash != selection.selection_hash)
            (value_error "selection hash mismatch")
        activation ← require_utc_aware activation_time
        ok (record {
          session_id = session_id;
          selected_profile_id = unsigned.selected_profile_id;
          tls_group = unsigned.tls_group;
          endpoint_authentication_mode = unsigned.endpoint_authentication_mode;
          contract_evidence_mode = unsigned.contract_evidence_mode;
          fallback_rule = unsigned.fallback_rule;
          resumption_rule = unsigned.resumption_rule;
          activation_time = activation;
          contract_hash = signed.signed_contract_hash;
        })

  abbrev pub gate_result : Result AuthorizedExecutionContext → GateResult
  gate_result (ok context) = authorized context
  gate_result (err e) = rejected e

  -- `authorize`: every exception becomes a rejection.
  unfoldable pub authorize : ExecutionGate → RuntimeState → GateResult × ExecutionGate
  authorize gate runtime_state = elim (checks_before runtime_state) [
    | err e ↦ (rejected e, gate)
    | ok _ ↦
        let (outcome, registry) = verified gate in
        (
          gate_result (outcome >>= λ _. checks_after gate.catalog),
          record gate { replay_registry = registry },
        )
  ]
