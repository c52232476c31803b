-- ===== src/Conflict/Abort.antt =====
-- src/pqtrust_agent/protocol/failure_transcript.py, models/abort.py and negotiation/safe_abort.py: the
-- failure transcript of an infeasible session and its abort. The digests of both are parameters.
use pqtrust_agent_artifact.Prelude.{
  ℕ, String, Bool, true, false, not, ◌||◌, List, ◌∷◌, ◌++◌, Option, none, some, ◌==◌, string_eq,
  codes,
}
use pqtrust_agent_artifact.Prelude.Result.{Result, ok, err, value_error, ◌>>=◌, ◌>>◌, raise_if}
use pqtrust_agent_artifact.Protocol.Models.{Crypto, NegotiationReveal}
use pqtrust_agent_artifact.Protocol.Commitment.{create_commitment}
use pqtrust_agent_artifact.Protocol.Time.{DateTime, naive, aware}
use pqtrust_agent_artifact.Conflict.{
  FeasibilityStatus, hard_policy_conflict, ConflictCategory, MinimalConflictCertificate,
}

pub record NegotiationFailureTranscript : Type 0 where
  pub session_id : String
  pub initiator_commitment : String
  pub responder_commitment : String
  pub initiator_reveal : NegotiationReveal
  pub responder_reveal : NegotiationReveal
  pub initiator_proposal_hash : String
  pub responder_proposal_hash : String
  pub initiator_local_safe_set : List String
  pub responder_local_safe_set : List String
  pub common_safe_set : List String
  pub feasibility_result : FeasibilityStatus
  pub conflict_certificate_hash : String
  pub abort_record_hash : Option String
  pub created_at : ℕ
  pub transcript_hash : String

-- The reason code of an abort is the value of the category, kept as the category.
pub record SafeAbortRecord : Type 0 where
  pub abort_id : String
  pub session_id : String
  pub scenario_hash : String
  pub conflict_certificate_hash : String
  pub failure_transcript_hash : String
  pub abort_reason_code : ConflictCategory
  pub fallback_attempted : Bool
  pub selected_profile_id : Option String
  pub contract_created : Bool
  pub issued_at : ℕ
  pub abort_hash : String

-- The digests of RFC 8785 documents, of a record's fields but the digest.
pub record AbortDigests : Type 0 where
  pub failure_digest : NegotiationFailureTranscript → String
  pub abort_digest : SafeAbortRecord → String

abbrev pub compute_transcript_hash : AbortDigests → NegotiationFailureTranscript → String
compute_transcript_hash d t = d.failure_digest (record t { transcript_hash = "" })

abbrev pub compute_abort_hash : AbortDigests → SafeAbortRecord → String
compute_abort_hash d a = d.abort_digest (record a { abort_hash = "" })

unfoldable pub abort_id_for : Crypto → String → String → String
abort_id_for c session_id conflict_certificate_hash = c.sha256_hex (
    codes "PQTrust.SafeAbortID.v1"
    ++ (0 ∷ (c.from_hex session_id ++ c.from_hex conflict_certificate_hash)))

-- The validators of a new `NegotiationFailureTranscript`; its time is normalized already.
unfoldable pub validated_transcript :
    NegotiationFailureTranscript → Result NegotiationFailureTranscript
validated_transcript t =
    raise_if (not (t.initiator_reveal.proposal.session_id == t.session_id))
      (value_error "initiator reveal session mismatch")
    >> raise_if (not (t.responder_reveal.proposal.session_id == t.session_id))
        (value_error "responder reveal session mismatch")
    >> ok t

abbrev pub with_transcript_hash :
    AbortDigests → NegotiationFailureTranscript → NegotiationFailureTranscript
with_transcript_hash d t = record t { transcript_hash = compute_transcript_hash d t }

module _ (c : Crypto) (d : AbortDigests) where
  unfoldable pub build_failure_transcript :
      (session_id : String) (initiator_reveal responder_reveal : NegotiationReveal)
      (initiator_safe responder_safe common : List String) (conflict_certificate_hash : String)
      (created_at : DateTime) (abort_record_hash : Option String)
      → Result NegotiationFailureTranscript
  build_failure_transcript session_id initiator_reveal responder_reveal initiator_safe
        responder_safe common certificate_hash (naive t) abort_record_hash =
      err (value_error "created_at must be timezone-aware")
  build_failure_transcript session_id initiator_reveal responder_reveal initiator_safe
        responder_safe common certificate_hash (aware created_at) abort_record_hash =
      do
        transcript ← validated_transcript (record {
          session_id = session_id;
          initiator_commitment = create_commitment c initiator_reveal;
          responder_commitment = create_commitment c responder_reveal;
          initiator_reveal = initiator_reveal;
          responder_reveal = responder_reveal;
          initiator_proposal_hash = c.proposal_hash initiator_reveal.proposal;
          responder_proposal_hash = c.proposal_hash responder_reveal.proposal;
          initiator_local_safe_set = initiator_safe;
          responder_local_safe_set = responder_safe;
          common_safe_set = common;
          feasibility_result = hard_policy_conflict;
          conflict_certificate_hash = certificate_hash;
          abort_record_hash = abort_record_hash;
          created_at = created_at;
          transcript_hash = "0";
        })
        ok (with_transcript_hash d transcript)

  unfoldable pub attach_abort_hash :
      NegotiationFailureTranscript → String → NegotiationFailureTranscript
  attach_abort_hash transcript abort_record_hash =
      with_transcript_hash d (record transcript { abort_record_hash = some abort_record_hash })

  -- A new `SafeAbortRecord` has no profile, contract or fallback, so its validators pass.
  unfoldable pub build_safe_abort_record :
      {V : Type 0}
      → MinimalConflictCertificate V
      → NegotiationFailureTranscript
      → DateTime
      → Result SafeAbortRecord
  build_safe_abort_record certificate failure_transcript (naive t) =
      err (value_error "issued_at must be timezone-aware")
  build_safe_abort_record certificate failure_transcript (aware issued_at) = do
    let abort : SafeAbortRecord = record {
      abort_id = abort_id_for c certificate.session_id certificate.verification_hash;
      session_id = certificate.session_id;
      scenario_hash = certificate.scenario_hash;
      conflict_certificate_hash = certificate.verification_hash;
      failure_transcript_hash = failure_transcript.transcript_hash;
      abort_reason_code = certificate.conflict_category;
      fallback_attempted = false;
      selected_profile_id = none;
      contract_created = false;
      issued_at = issued_at;
      abort_hash = "0";
    }
    ok (record abort { abort_hash = compute_abort_hash d abort })

abbrev pub is_given : Option String → Bool
is_given none = false
is_given (some s) = true

unfoldable pub assert_no_infeasible_session_outputs :
    SafeAbortRecord
    → (selected_profile_id : Option String) → (contract_created fallback_attempted : Bool)
    → Result (Unit {0})
assert_no_infeasible_session_outputs abort selected created attempted =
    raise_if (is_given abort.selected_profile_id || is_given selected)
      (value_error "infeasible session cannot attach a selected profile")
    >> raise_if (abort.contract_created || created)
        (value_error "infeasible session cannot attach a trust contract")
    >> raise_if (abort.fallback_attempted || attempted)
        (value_error "infeasible session cannot attempt fallback")

-- The abort of an infeasible session, as src/pqtrust_agent/campaigns/stage8_measurement.py builds it:
-- a transcript, a provisional abort whose hash is attached to it, and the abort.
module _ {V : Type 0} (c : Crypto) (d : AbortDigests) where
  unfoldable pub abort_chain :
      MinimalConflictCertificate V
      → (session_id : String) → (initiator_reveal responder_reveal : NegotiationReveal)
      → (initiator_safe responder_safe : List String) (created_at : DateTime)
      → Result (NegotiationFailureTranscript × SafeAbortRecord)
  abort_chain certificate session_id initiator_reveal responder_reveal initiator_safe responder_safe
        created_at =
      do
        transcript ←
            build_failure_transcript c d session_id initiator_reveal responder_reveal initiator_safe
              responder_safe certificate.common_safe_set certificate.verification_hash created_at
              none
        provisional ← build_safe_abort_record c d certificate transcript created_at
        let attached = attach_abort_hash c d transcript provisional.abort_hash
        abort ← build_safe_abort_record c d certificate attached created_at
        ok (attached, abort)
