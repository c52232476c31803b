-- ===== src/Conflict/Checks/Aborted.antt =====
-- What the checks of src/pqtrust_agent/protocol/conflict_verification.py say of failure transcripts
-- and aborts.
use pqtrust_agent_artifact.Prelude.{
  ℕ, String, Bool, true, false, not, List, [], ◌++◌, nonempty, Option, none, some, Eq, ◌==◌,
  string_eq, ◌≡◌, ◌≢◌, refl, sym, arith,
}
use pqtrust_agent_artifact.Prelude.Result.{ok}
use pqtrust_agent_artifact.Protocol.Models.{Crypto, NegotiationReveal}
use pqtrust_agent_artifact.Protocol.Commitment.{create_commitment}
use pqtrust_agent_artifact.Protocol.Time.{aware}
use pqtrust_agent_artifact.Protocol.Transcript.{list_eq, ◌!=◌}
use pqtrust_agent_artifact.Conflict.{hard_policy_conflict, MinimalConflictCertificate}
use pqtrust_agent_artifact.Conflict.Abort.{
  NegotiationFailureTranscript, SafeAbortRecord, AbortDigests, compute_abort_hash, abort_id_for,
  is_given, validated_transcript, build_failure_transcript, attach_abort_hash,
  build_safe_abort_record, assert_no_infeasible_session_outputs, abort_chain, with_transcript_hash,
}
use pqtrust_agent_artifact.Conflict.Checks.{
  error_if, validation_result, ValidationErrorDetail, verify_failure_transcript,
  verify_safe_abort_record,
}
use pqtrust_agent_artifact.Conflict.Checks.Certified.{not_different}

error_if-valid :
    (b : Bool) (code message : String) (rest : List ValidationErrorDetail)
    → not (nonempty (error_if b code message ++ rest)) ≡ true
    → (b ≡ false) × (not (nonempty rest) ≡ true)
error_if-valid true code message rest h = cc
error_if-valid false code message rest h = (refl, h)

error_if-last :
    (b : Bool) (code message : String) → not (nonempty (error_if b code message)) ≡ true → b ≡ false
error_if-last true code message h = cc
error_if-last false code message h = refl

same_of : {A : Type 0} → ⦃e : Eq A⦄ → (x y : A) → (x != y) ≡ false → x ≡ y
same_of ⦃e⦄ x y h = ground (arith, e.beq_iff x y)

none_of : (o : Option String) → is_given o ≡ false → o ≡ none
none_of none h = refl
none_of (some s) h = cc

module _ {V : Type 0} (c : Crypto) (d : AbortDigests) where
  -- An abort with nothing selected, created or attempted, of its certificate and transcript.
  pub record IsSafeAbort (a : SafeAbortRecord) (certificate : MinimalConflictCertificate V)
      (t : NegotiationFailureTranscript) : Type 0 where
    pub no_profile : a.selected_profile_id ≡ none
    pub no_contract : a.contract_created ≡ false
    pub no_fallback : a.fallback_attempted ≡ false
    pub session : a.session_id ≡ certificate.session_id
    pub certificate_hash : a.conflict_certificate_hash ≡ certificate.verification_hash
    pub transcript_hash : a.failure_transcript_hash ≡ t.transcript_hash
    pub abort_id : a.abort_id ≡ abort_id_for c certificate.session_id certificate.verification_hash
    pub abort_hash : a.abort_hash ≡ compute_abort_hash d a

  -- An abort that the check finds valid has no profile, contract or fallback, and the session,
  -- hashes and identifier of its certificate and transcript.
  pub verify_safe_abort_record-IsSafeAbort :
      (a : SafeAbortRecord) (certificate : MinimalConflictCertificate V)
      (t : NegotiationFailureTranscript)
      → (verify_safe_abort_record c d a certificate t).valid ≡ true
      → IsSafeAbort a certificate t
  unfolding verify_safe_abort_record
  verify_safe_abort_record-IsSafeAbort a certificate t h =
      let (profile, h1) = error_if-valid _ _ _ _ h in
      let (contract, h2) = error_if-valid _ _ _ _ h1 in
      let (fallback, h3) = error_if-valid _ _ _ _ h2 in
      let (session, h4) = error_if-valid _ _ _ _ h3 in
      let (certificate_hash, h5) = error_if-valid _ _ _ _ h4 in
      let (transcript_hash, h6) = error_if-valid _ _ _ _ h5 in
      let (abort_id, h7) = error_if-valid _ _ _ _ h6 in
      record {
        no_profile = none_of a.selected_profile_id profile;
        no_contract = contract;
        no_fallback = fallback;
        session = same_of _ _ session;
        certificate_hash = same_of _ _ certificate_hash;
        transcript_hash = same_of _ _ transcript_hash;
        abort_id = same_of _ _ abort_id;
        abort_hash = same_of _ _ (error_if-last _ _ _ h7);
      }

some_string : (s t : String) → ◌≡◌ {A = Option String} (some s) (some t) → s ≡ t
some_string s t h = cc

string_self : (s : String) → (s != s) ≡ false
string_self s = not_different s s refl

strings_self : (s : List String) → (s != s) ≡ false
strings_self s = not_different s s refl

equal_strings : (s t : String) → s ≡ t → not (s == t) ≡ false
equal_strings s t h = ground (arith, string_eq.beq_iff s t)

module _ {V : Type 0} (c : Crypto) (d : AbortDigests) (certificate : MinimalConflictCertificate V)
    (initiator_reveal responder_reveal : NegotiationReveal)
    (initiator_safe responder_safe : List String) (now : ℕ)
    (initiator_session : initiator_reveal.proposal.session_id ≡ certificate.session_id)
    (responder_session : responder_reveal.proposal.session_id ≡ certificate.session_id) where
  abbrev transcript : NegotiationFailureTranscript
  transcript = with_transcript_hash d (record {
    session_id = certificate.session_id;
    initiator_commitment = create_commitment c initiator_reveal;
    responder_commitment = create_commitment c responder_reveal;
    initiator_reveal = initiator_reveal;
    responder_reveal = responder_reveal;
    initiator_proposal_hash = c.proposal_hash initiator_reveal.proposal;
    responder_proposal_hash = c.proposal_hash responder_reveal.proposal;
    initiator_local_safe_set = initiator_safe;
    responder_local_safe_set = responder_safe;
    common_safe_set = certificate.common_safe_set;
    feasibility_result = hard_policy_conflict;
    conflict_certificate_hash = certificate.verification_hash;
    abort_record_hash = none;
    created_at = now;
    transcript_hash = "0";
  })

  abbrev abort_of : NegotiationFailureTranscript → SafeAbortRecord
  abort_of t =
      let abort : SafeAbortRecord = record {
        abort_id = abort_id_for c certificate.session_id certificate.verification_hash;
        session_id = certificate.session_id;
        scenario_hash = certificate.scenario_hash;
        conflict_certificate_hash = certificate.verification_hash;
        failure_transcript_hash = t.transcript_hash;
        abort_reason_code = certificate.conflict_category;
        fallback_attempted = false;
        selected_profile_id = none;
        contract_created = false;
        issued_at = now;
        abort_hash = "0";
      } in
      record abort { abort_hash = compute_abort_hash d abort }

  abbrev attached : NegotiationFailureTranscript
  attached =
      with_transcript_hash d
        (record transcript { abort_record_hash = some (abort_of transcript).abort_hash })

  abort_chain_lem :
      abort_chain c d certificate certificate.session_id initiator_reveal responder_reveal
        initiator_safe responder_safe
        (aware now)
      ≡ ok (attached, abort_of attached)
  unfolding abort_chain build_failure_transcript validated_transcript build_safe_abort_record
      attach_abort_hash
  abort_chain_lem =
      let i =
        equal_strings initiator_reveal.proposal.session_id certificate.session_id
          initiator_session in
      let r =
        equal_strings responder_reveal.proposal.session_id certificate.session_id
          responder_session in
      rw (i, r) refl

  attached_verified : verify_failure_transcript c d attached certificate ≡ validation_result []
  unfolding verify_failure_transcript
  attached_verified = simp (string_self, strings_self)

  abort_verified :
      verify_safe_abort_record c d (abort_of attached) certificate attached ≡ validation_result []
  unfolding verify_safe_abort_record
  abort_verified = simp string_self

  -- For reveals of the certificate's session, the chain returns a transcript and an abort that pass
  -- their verifications, and the abort passes with no output of the session.
  pub abort_chain-verified :
      (t : NegotiationFailureTranscript) × (a : SafeAbortRecord) × (abort_chain c d certificate
          certificate.session_id initiator_reveal responder_reveal initiator_safe responder_safe
          (aware now)
        ≡ ok (t, a))
      × (verify_failure_transcript c d t certificate ≡ validation_result [])
      × (verify_safe_abort_record c d a certificate t ≡ validation_result [])
      × (assert_no_infeasible_session_outputs a none false false ≡ ok tt)
  unfolding assert_no_infeasible_session_outputs
  abort_chain-verified =
      (attached, abort_of attached, abort_chain_lem, attached_verified, abort_verified, refl)

  given_none : (s : String) → ¬ (◌≡◌ {A = Option String} (some s) none)
  given_none s h = cc

  -- If the digest of a transcript determines its abort hash and the digest of an abort its transcript
  -- hash, then the abort hash that the chain's transcript holds is not the hash of its abort.
  pub abort_chain-stale_hash :
      ((t u : NegotiationFailureTranscript)
        → d.failure_digest t ≡ d.failure_digest u
        → t.abort_record_hash ≡ u.abort_record_hash)
      → ((a b : SafeAbortRecord)
          → d.abort_digest a ≡ d.abort_digest b
          → a.failure_transcript_hash ≡ b.failure_transcript_hash)
      → (t : NegotiationFailureTranscript) × (a : SafeAbortRecord) × (abort_chain c d certificate
            certificate.session_id initiator_reveal responder_reveal initiator_safe responder_safe
            (aware now)
          ≡ ok (t, a))
        × (t.abort_record_hash ≢ some a.abort_hash)
  abort_chain-stale_hash transcripts aborts = (
    attached,
    abort_of attached,
    abort_chain_lem,
    λ same. given_none _ (transcripts _ _ (aborts _ _ (sym (some_string _ _ same)))),
  )
