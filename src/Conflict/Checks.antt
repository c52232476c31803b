-- ===== src/Conflict/Checks.antt =====
-- src/pqtrust_agent/protocol/conflict_verification.py: the checks of a certificate, of a failure
-- transcript and of an abort, each a list of errors.
pub mod Certified
pub mod Aborted
use pqtrust_agent_artifact.Prelude.{
  String, Bool, true, false, not, List, [], ◌∷◌, ◌++◌, map, nonempty, Option, none, some, ◌==◌,
  string_eq, if◌then◌else◌,
}
use pqtrust_agent_artifact.Prelude.Result.{Result, ok, err, ◌>>=◌, ◌>>◌}
use pqtrust_agent_artifact.Protocol.Models.{Crypto}
use pqtrust_agent_artifact.Protocol.Commitment.{create_commitment}
use pqtrust_agent_artifact.Protocol.Transcript.{list_eq, ◌!=◌}
use pqtrust_agent_artifact.Solver.{Status, sat, unsat, unknown, Solver}
use pqtrust_agent_artifact.Conflict.{conflict_eq, NamedConstraint, MinimalConflictCertificate}
use pqtrust_agent_artifact.Conflict.Core.{constraint_ids, solve, verify_ius}
use pqtrust_agent_artifact.Conflict.Certificate.{
  classify_conflict, certificate_id_for, CertificateDigest, compute_verification_hash,
}
use pqtrust_agent_artifact.Conflict.Abort.{
  NegotiationFailureTranscript, SafeAbortRecord, AbortDigests, compute_transcript_hash,
  compute_abort_hash, abort_id_for, is_given,
}

pub record ValidationErrorDetail : Type 0 where
  pub code : String
  pub message : String

pub record ConflictValidationResult : Type 0 where
  pub valid : Bool
  pub errors : List ValidationErrorDetail

-- `if c: errors.append(_err(code, message))`
abbrev pub error_if : Bool → String → String → List ValidationErrorDetail
error_if c code message = if c then record { code = code; message = message } ∷ [] else []

abbrev pub validation_result : List ValidationErrorDetail → ConflictValidationResult
validation_result errors = record { valid = not (nonempty errors); errors = errors }

abbrev is_unsat : Status String → Bool
is_unsat (unsat core) = true
is_unsat (sat i) = false
is_unsat unknown = false

abbrev ius_invalid : String → ValidationErrorDetail
ius_invalid message = record { code = "IUS_INVALID"; message = message }

module _ {V : Type 0} where
  unfoldable pub verify_conflict_certificate :
      Crypto
      → CertificateDigest V
      → Solver String
      → MinimalConflictCertificate V
      → (all_constraints : Option (List (NamedConstraint V))) → Result ConflictValidationResult
  verify_conflict_certificate c digest check certificate all_constraints = do
    let constraints = certificate.conflict_constraints
    let model_constraints : List (NamedConstraint V) = elim all_constraints [
      | none ↦ constraints
      | some cs ↦ cs
    ]
    status ← solve check certificate.candidate_profile_universe false model_constraints
    messages ← verify_ius check certificate.candidate_profile_universe model_constraints constraints
    expected_id ← certificate_id_for c certificate.session_id (constraint_ids constraints)
    ok (
        validation_result (
          error_if (not (is_unsat status)) "MODEL_NOT_UNSAT"
            "rebuilt complete feasibility model is satisfiable"
          ++ (map ius_invalid messages
              ++ (error_if (certificate.conflict_category != classify_conflict constraints)
                    "CATEGORY_MISMATCH" "conflict category does not match final IUS"
                  ++ (error_if (certificate.certificate_id != expected_id) "CERTIFICATE_ID_MISMATCH"
                        "certificate ID does not match IUS"
                      ++ error_if
                          (certificate.verification_hash
                            != compute_verification_hash digest certificate)
                          "CERTIFICATE_HASH_MISMATCH" "certificate verification hash mismatch")))))

  unfoldable pub verify_failure_transcript :
      Crypto
      → AbortDigests
      → NegotiationFailureTranscript
      → MinimalConflictCertificate V
      → ConflictValidationResult
  verify_failure_transcript c d t certificate = validation_result (
      error_if (t.initiator_commitment != create_commitment c t.initiator_reveal)
        "COMMITMENT_MISMATCH" "initiator commitment does not recompute"
      ++ (error_if (t.responder_commitment != create_commitment c t.responder_reveal)
            "COMMITMENT_MISMATCH" "responder commitment does not recompute"
          ++ (error_if (t.initiator_proposal_hash != c.proposal_hash t.initiator_reveal.proposal)
                "PROPOSAL_HASH_MISMATCH" "initiator proposal hash mismatch"
              ++ (error_if
                    (t.responder_proposal_hash != c.proposal_hash t.responder_reveal.proposal)
                    "PROPOSAL_HASH_MISMATCH" "responder proposal hash mismatch"
                  ++ (error_if (t.conflict_certificate_hash != certificate.verification_hash)
                        "CERTIFICATE_HASH_MISMATCH" "failure transcript certificate hash mismatch"
                      ++ (error_if (t.session_id != certificate.session_id) "SESSION_MISMATCH"
                            "failure transcript session differs from certificate"
                          ++ (error_if (t.common_safe_set != certificate.common_safe_set)
                                "COMMON_SAFE_SET_MISMATCH" "common safe set was not recomputed"
                              ++ error_if (t.transcript_hash != compute_transcript_hash d t)
                                  "TRANSCRIPT_HASH_MISMATCH"
                                  "failure transcript hash mismatch")))))))

  unfoldable pub verify_safe_abort_record :
      Crypto
      → AbortDigests
      → SafeAbortRecord
      → MinimalConflictCertificate V
      → NegotiationFailureTranscript
      → ConflictValidationResult
  verify_safe_abort_record c d a certificate t = validation_result (
      error_if (is_given a.selected_profile_id) "SELECTED_PROFILE_AFTER_ABORT"
        "abort record selected a profile"
      ++ (error_if a.contract_created "CONTRACT_AFTER_ABORT" "abort record created a contract"
          ++ (error_if a.fallback_attempted "FALLBACK_AFTER_ABORT" "abort record attempted fallback"
              ++ (error_if (a.session_id != certificate.session_id) "SESSION_MISMATCH"
                    "abort record session differs from certificate"
                  ++ (error_if (a.conflict_certificate_hash != certificate.verification_hash)
                        "CERTIFICATE_HASH_MISMATCH" "abort record certificate hash mismatch"
                      ++ (error_if (a.failure_transcript_hash != t.transcript_hash)
                            "TRANSCRIPT_HASH_MISMATCH" "abort record transcript hash mismatch"
                          ++ (error_if
                                (a.abort_id
                                  != abort_id_for c certificate.session_id
                                      certificate.verification_hash)
                                "ABORT_ID_MISMATCH" "abort ID mismatch"
                              ++ error_if (a.abort_hash != compute_abort_hash d a)
                                  "ABORT_HASH_MISMATCH" "abort hash mismatch")))))))
