-- ===== src/Tests/Abort.antt =====
-- The abort of a conflict, for the witnesses of the theorems on aborts.
use Prim.Native.String.{String, ◌∷◌}
use pqtrust_agent_artifact.Prelude.{true, false, [], Option, none, some, ◌≡◌, ◌≢◌, refl, string_eq}
use pqtrust_agent_artifact.Prelude.Result.{ok}
use pqtrust_agent_artifact.Protocol.Time.{aware}
use pqtrust_agent_artifact.Conflict.{hard_policy_conflict, no_common_profile}
use pqtrust_agent_artifact.Conflict.Abort.{
  NegotiationFailureTranscript, SafeAbortRecord, AbortDigests, abort_id_for, abort_chain,
  assert_no_infeasible_session_outputs,
}
use pqtrust_agent_artifact.Conflict.Checks.{
  validation_result, verify_failure_transcript, verify_safe_abort_record,
}
use pqtrust_agent_artifact.Conflict.Checks.Aborted.{
  IsSafeAbort, verify_safe_abort_record-IsSafeAbort, abort_chain-verified, abort_chain-stale_hash,
}
use pqtrust_agent_artifact.Tests.Conflict.{certificate}
use pqtrust_agent_artifact.Tests.Contracts.{crypto, initiator_reveal, responder_reveal}

-- Toy digests: of a transcript its abort hash behind a letter, of an abort its transcript hash.
abbrev tagged : Option String → String
tagged none = ""
tagged (some s) = "x" ∷ s

tagged-injective : (o p : Option String) → tagged o ≡ tagged p → o ≡ p
tagged-injective none none h = refl
tagged-injective none (some s) h = cc
tagged-injective (some s) none h = cc
tagged-injective (some s) (some t) h = cc

abbrev toy : AbortDigests
toy = record {
  failure_digest = λ t. tagged t.abort_record_hash;
  abort_digest = λ a. a.failure_transcript_hash;
}

abort_chain-verified_example :
    (t : NegotiationFailureTranscript) × (a : SafeAbortRecord) × (abort_chain crypto toy certificate
        certificate.session_id initiator_reveal responder_reveal [] []
        (aware 10)
      ≡ ok (t, a))
    × (verify_failure_transcript crypto toy t certificate ≡ validation_result [])
    × (verify_safe_abort_record crypto toy a certificate t ≡ validation_result [])
    × (assert_no_infeasible_session_outputs a none false false ≡ ok tt)
abort_chain-verified_example =
    abort_chain-verified crypto toy certificate initiator_reveal responder_reveal [] [] 10 refl refl

abort_chain-stale_hash_example :
    (t : NegotiationFailureTranscript) × (a : SafeAbortRecord) × (abort_chain crypto toy certificate
        certificate.session_id initiator_reveal responder_reveal [] []
        (aware 10)
      ≡ ok (t, a))
    × (t.abort_record_hash ≢ some a.abort_hash)
abort_chain-stale_hash_example =
    abort_chain-stale_hash crypto toy certificate initiator_reveal responder_reveal [] [] 10 refl
      refl (λ t u. tagged-injective t.abort_record_hash u.abort_record_hash) (λ a b same. same)

abbrev transcript : NegotiationFailureTranscript
transcript = record {
  session_id = "session";
  initiator_commitment = "1";
  responder_commitment = "2";
  initiator_reveal = initiator_reveal;
  responder_reveal = responder_reveal;
  initiator_proposal_hash = "agent-a";
  responder_proposal_hash = "agent-b";
  initiator_local_safe_set = [];
  responder_local_safe_set = [];
  common_safe_set = [];
  feasibility_result = hard_policy_conflict;
  conflict_certificate_hash = "hash";
  abort_record_hash = none;
  created_at = 10;
  transcript_hash = "t";
}

abbrev abort : SafeAbortRecord
abort = record {
  abort_id = abort_id_for crypto "session" "hash";
  session_id = "session";
  scenario_hash = "scenario";
  conflict_certificate_hash = "hash";
  failure_transcript_hash = "t";
  abort_reason_code = no_common_profile;
  fallback_attempted = false;
  selected_profile_id = none;
  contract_created = false;
  issued_at = 10;
  abort_hash = "t";
}

abort-valid : (verify_safe_abort_record crypto toy abort certificate transcript).valid ≡ true
unfolding verify_safe_abort_record abort_id_for
abort-valid = refl

verify_safe_abort_record-IsSafeAbort_example : IsSafeAbort crypto toy abort certificate transcript
verify_safe_abort_record-IsSafeAbort_example =
    verify_safe_abort_record-IsSafeAbort crypto toy abort certificate transcript abort-valid
