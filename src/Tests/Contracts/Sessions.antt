-- ===== src/Tests/Contracts/Sessions.antt =====
-- Witnesses of the theorems on the commit and reveal session, the transcript, the contract's
-- verification and the execution gate.
use pqtrust_agent_artifact.Prelude.{List, [], ◌∷◌, some, none, ◌≡◌, ◌≢◌, All, refl, arith}
use pqtrust_agent_artifact.Prelude.Result.{ok}
use pqtrust_agent_artifact.Protocol.Time.{aware, require_contract_active, require_proposal_active}
use pqtrust_agent_artifact.Protocol.Replay.{
  ReplayRegistry, empty, Call, session, commitment, after, register_contract, put, get,
  register_session, cleanup_expired_contracts,
}
use pqtrust_agent_artifact.Protocol.Models.{profile_ids, get_profile, find_profile}
use pqtrust_agent_artifact.Protocol.Commitment.{
  CommitRevealSession, open_session, accept_reveal, create_commitment, raw_commitment_hash,
  verify_commitment, validate_pair,
}
use pqtrust_agent_artifact.Protocol.Commitment.Invariant.{
  IsValid, SessionCall, commit, reveal, session_after, commit_before_reveal, PairAgrees,
  accept_reveal_agrees,
}
use pqtrust_agent_artifact.Negotiation.Selector.{common_safe_set}
use pqtrust_agent_artifact.Protocol.Transcript.{verify_transcript}
use pqtrust_agent_artifact.Protocol.Transcript.Checks.{IsChecked, verify_transcript-IsChecked}
use pqtrust_agent_artifact.Protocol.Verification.{
  verify_one, find_key, verify_bindings, verify_profile, verify_signatures, verify_checks,
  verify_signed_contract,
}
use pqtrust_agent_artifact.Protocol.Verification.Accepted.{
  IsAccepted, verify_signed_contract-IsAccepted,
}
use pqtrust_agent_artifact.Protocol.Verification.Once.{verify_signed_contract_once}
use pqtrust_agent_artifact.Protocol.Replay.Lease.{Before}
use pqtrust_agent_artifact.Runtime.StateMachine.{contract_verified}
use pqtrust_agent_artifact.Runtime.Gate.{
  ExecutionGate, authorized, AuthorizedExecutionContext, authorize, checks_before, checks_after,
  verified,
}
use pqtrust_agent_artifact.Runtime.Gate.Authorized.{IsAuthorized, authorize-IsAuthorized}
use pqtrust_agent_artifact.Tests.Contracts.{
  crypto, initiator_reveal, responder_reveal, selection, transcript, catalog, signed, keys,
}

abbrev opened : CommitRevealSession
opened = record {
  session_id = "session";
  activation_time = aware 15;
  replay_registry =
      some
        (record { sessions = "session" ∷ []; commitments = []; transcripts = []; contracts = [] });
  commitments = record { for_initiator = none; for_responder = none };
  reveals = record { for_initiator = none; for_responder = none };
}

opens : (open_session "session" (aware 15) (some empty)).0 ≡ ok opened
unfolding open_session register_session cleanup_expired_contracts
opens = refl

abbrev session_calls : List SessionCall
session_calls =
    commit "initiator" "1"
    ∷ reveal initiator_reveal (aware 20)
    ∷ commit "responder" "2"
    ∷ reveal initiator_reveal (aware 20)
    ∷ reveal responder_reveal (aware 21)
    ∷ []

commit_before_reveal_example : IsValid crypto (session_after crypto session_calls opened)
commit_before_reveal_example =
    commit_before_reveal crypto "session" (aware 15) (some empty) opened session_calls opens

abbrev half_revealed : CommitRevealSession
half_revealed = record opened {
  commitments = record { for_initiator = some "1"; for_responder = some "2" };
  reveals = record { for_initiator = some initiator_reveal; for_responder = none };
}

abbrev both_revealed : CommitRevealSession
both_revealed = record half_revealed {
  reveals = record { for_initiator = some initiator_reveal; for_responder = some responder_reveal };
}

accepts : accept_reveal crypto responder_reveal (aware 21) half_revealed ≡ (ok tt, both_revealed)
unfolding accept_reveal create_commitment raw_commitment_hash verify_commitment
    require_proposal_active validate_pair
accepts = refl

accept_reveal_agrees_example : PairAgrees initiator_reveal.proposal responder_reveal.proposal
accept_reveal_agrees_example =
    accept_reveal_agrees crypto half_revealed responder_reveal (aware 21) initiator_reveal
      responder_reveal (λ i. (accepts i).0) (λ i. (accepts i).1.reveals.for_initiator)
      (λ i. (accepts i).1.reveals.for_responder)

transcript_passes :
    verify_transcript crypto transcript selection (profile_ids catalog) (aware 30) ≡ ok tt
unfolding verify_transcript create_commitment raw_commitment_hash require_proposal_active
    common_safe_set
transcript_passes = refl

verify_transcript-IsChecked_example :
    IsChecked crypto transcript selection (profile_ids catalog) (aware 30)
verify_transcript-IsChecked_example =
    verify_transcript-IsChecked crypto transcript selection (profile_ids catalog) (aware 30)
      transcript_passes

abbrev with_contract : ReplayRegistry
with_contract = record empty {
  contracts =
      (
        "contract",
        record {
          contract_hash = "contract";
          session_id = "session";
          issued_at = 20;
          expires_at = 90;
          activation_time = 30;
        },
      )
      ∷ [];
}

contract_passes :
    verify_signed_contract crypto signed transcript selection catalog keys (aware 30) (some empty)
    ≡ (ok tt, some with_contract)
unfolding verify_signed_contract verify_checks verify_transcript create_commitment
    raw_commitment_hash require_proposal_active common_safe_set verify_bindings get_profile
    find_profile verify_profile require_contract_active verify_signatures verify_one find_key
    register_contract cleanup_expired_contracts get put
contract_passes = refl

verify_signed_contract-IsAccepted_example :
    IsAccepted crypto signed transcript selection catalog keys (aware 30)
verify_signed_contract-IsAccepted_example =
    verify_signed_contract-IsAccepted crypto signed transcript selection catalog keys (aware 30)
      (some empty) (λ i. (contract_passes i).0)

abbrev between : List Call
between = session "other" (aware 40) ∷ commitment "other" "3" (aware 41) ∷ []

between-Before : All (Before signed.unsigned_contract.expires_at) between
between-Before = (omega arith, (omega arith, tt))

verify_signed_contract_once_example :
    (verify_signed_contract crypto signed transcript selection catalog keys
      (aware 50)
      (some (after between with_contract))).0
    ≢ ok tt
verify_signed_contract_once_example =
    verify_signed_contract_once crypto signed signed transcript transcript selection selection
      catalog catalog keys keys (aware 30) 50 empty with_contract between contract_passes
      between-Before (omega arith) refl

abbrev gate : ExecutionGate
gate = record {
  catalog = catalog;
  expected_keys = keys;
  replay_registry = some empty;
  verifier = none;
}

abbrev context : AuthorizedExecutionContext
context = record {
  session_id = "session";
  selected_profile_id = "p2";
  tls_group = "X25519MLKEM768";
  endpoint_authentication_mode = signed.unsigned_contract.endpoint_authentication_mode;
  contract_evidence_mode = signed.unsigned_contract.contract_evidence_mode;
  fallback_rule = signed.unsigned_contract.fallback_rule;
  resumption_rule = signed.unsigned_contract.resumption_rule;
  activation_time = 30;
  contract_hash = "contract";
}

gate_passes :
    (authorize crypto "session" signed transcript selection (aware 30) gate contract_verified).0
    ≡ authorized context
unfolding authorize checks_before verified checks_after verify_signed_contract verify_checks
    verify_transcript create_commitment raw_commitment_hash require_proposal_active common_safe_set
    verify_bindings get_profile find_profile verify_profile require_contract_active
    verify_signatures verify_one find_key register_contract cleanup_expired_contracts get put
gate_passes = refl

authorize-IsAuthorized_example :
    IsAuthorized crypto "session" signed transcript selection
      (aware 30)
      gate
      contract_verified
      context
authorize-IsAuthorized_example =
    authorize-IsAuthorized crypto "session" signed transcript selection (aware 30) gate
      contract_verified context gate_passes
