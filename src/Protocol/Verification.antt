-- ===== src/Protocol/Verification.antt =====
-- src/pqtrust_agent/protocol/verification.py: the signed contract's checks, fail-closed.
pub mod Accepted
pub mod Once
use pqtrust_agent_artifact.Prelude.{
  ℕ, ◌-◌, String, Bool, true, false, not, Option, none, some, List, [], ◌∷◌, contains, nonempty,
  ◌==◌, leb, ltb, ◌&&◌, string_eq, if◌then◌else◌,
}
use pqtrust_agent_artifact.Prelude.Result.{Result, ok, err, value_error, raise_if, or_raise}
use pqtrust_agent_artifact.Assurance.{
  EvidenceAlgorithm, algorithm_for_contract_evidence, ContractEvidenceMode,
  EndpointAuthenticationMode,
}
use pqtrust_agent_artifact.Protocol.Time.{DateTime, aware, require_contract_active}
use pqtrust_agent_artifact.Protocol.Replay.{ReplayRegistry, register_contract}
use pqtrust_agent_artifact.Protocol.Models.{
  Role, initiator, responder, role_eq, algorithm_eq, endpoint_eq, evidence_eq, TrustProfile,
  ProfileCatalog, get_profile, profile_ids, NegotiationTranscript, SelectionSummary,
  UnsignedTrustContract, AgentContractSignature, SignedTrustContract, Crypto,
  compute_signed_contract_hash,
}
use pqtrust_agent_artifact.Protocol.Commitment.{on_registry}
use pqtrust_agent_artifact.Protocol.Transcript.{verify_transcript, microseconds, ◌!=◌}
use pqtrust_agent_artifact.Prelude.Result.{◌>>=◌, ◌>>◌}

-- `expected_keys[KeyLocator(agent_id, algorithm)] = (key_id, public_hash, path)`
pub record ExpectedKey : Type 0 where
  pub agent_id : String
  pub algorithm : EvidenceAlgorithm
  pub key_id : String
  pub public_key_sha256 : String
  pub public_key_path : String

unfoldable pub find_key : String → EvidenceAlgorithm → List ExpectedKey → Option ExpectedKey
find_key agent_id algorithm [] = none
find_key agent_id algorithm (k ∷ ks) =
    if k.agent_id == agent_id && k.algorithm == algorithm
    then some k
    else find_key agent_id algorithm ks

module _ (c : Crypto) where
  -- `_verify_one`
  unfoldable pub verify_one :
      AgentContractSignature
      → (expected_agent : String) (expected_role : Role) (required_algorithm : EvidenceAlgorithm)
      → List ExpectedKey
      → (payload : List ℕ) → Result (Unit {0})
  verify_one signature expected_agent expected_role required_algorithm expected_keys payload = do
    raise_if (signature.agent_id != expected_agent) (value_error "wrong signing agent")
    raise_if (signature.role != expected_role) (value_error "wrong signing role")
    raise_if (signature.algorithm != required_algorithm) (value_error "wrong ML-DSA parameter set")
    expected ←
        or_raise (find_key signature.agent_id signature.algorithm expected_keys)
          (value_error "missing expected key")
    raise_if (signature.key_id != expected.key_id) (value_error "wrong key ID")
    raise_if (signature.public_key_sha256 != expected.public_key_sha256)
        (value_error "wrong public key fingerprint")
    signature_bytes ←
        or_raise (c.b64decode signature.signature_base64) (value_error "invalid signature encoding")
    raise_if (not (nonempty signature_bytes)) (value_error "missing signature")
    raise_if (not (c.verify_bytes payload signature_bytes expected.public_key_path))
        (value_error "invalid signature")

  module _ (signed_contract : SignedTrustContract) (t : NegotiationTranscript)
      (selection : SelectionSummary) (catalog : ProfileCatalog) (expected_keys : List ExpectedKey)
      (verification_time : DateTime) where
    -- The checks of the contract against the transcript, the selection and both safe sets.
    unfoldable pub verify_bindings : Result (Unit {0})
    verify_bindings =
        let unsigned = signed_contract.unsigned_contract in
        do
          raise_if
              (signed_contract.signed_contract_hash
                != compute_signed_contract_hash c signed_contract)
              (value_error "signed contract hash mismatch")
          raise_if (unsigned.transcript_hash != t.transcript_hash)
              (value_error "contract transcript hash mismatch")
          raise_if (unsigned.selection_hash != selection.selection_hash)
              (value_error "contract selection hash mismatch")
          raise_if (unsigned.selected_profile_id != selection.selected_profile_id)
              (value_error "contract selected profile mismatch")
          raise_if (not (contains unsigned.selected_profile_id t.initiator_local_safe_set))
              (value_error "selected profile not in initiator safe set")
          raise_if (not (contains unsigned.selected_profile_id t.responder_local_safe_set))
              (value_error "selected profile not in responder safe set")

    -- The checks of the contract against the catalog's profile, and of its lease.
    unfoldable pub verify_profile : TrustProfile → Result (Unit {0})
    verify_profile profile =
        let unsigned = signed_contract.unsigned_contract in
        do
          raise_if (unsigned.tls_group != profile.tls_group) (value_error "TLS group modified")
          raise_if (unsigned.endpoint_authentication_mode != profile.endpoint_authentication_mode)
              (value_error "endpoint authentication mode mismatch")
          raise_if (unsigned.contract_evidence_mode != profile.contract_evidence_mode)
              (value_error "contract evidence mode mismatch")
          raise_if (leb unsigned.expires_at unsigned.issued_at)
              (value_error "invalid contract lease interval")
          require_contract_active (aware unsigned.issued_at) (aware unsigned.expires_at)
              verification_time
          raise_if
              (ltb (microseconds profile.max_lease_seconds)
                (unsigned.expires_at - unsigned.issued_at))
              (value_error "contract lease exceeds selected profile maximum")

    -- Both signatures over the contract's canonical bytes.
    unfoldable pub verify_signatures : TrustProfile → Result (Unit {0})
    verify_signatures profile =
        let unsigned = signed_contract.unsigned_contract in
        let required_algorithm = algorithm_for_contract_evidence profile.contract_evidence_mode in
        do
          verify_one signed_contract.initiator_signature unsigned.initiator_agent_id initiator
              required_algorithm expected_keys (c.contract_bytes unsigned)
          verify_one signed_contract.responder_signature unsigned.responder_agent_id responder
              required_algorithm expected_keys (c.contract_bytes unsigned)

    -- Everything before the registration.
    unfoldable pub verify_checks : Result (Unit {0})
    verify_checks = do
      verify_transcript c t selection (profile_ids catalog) verification_time
      verify_bindings
      profile ← get_profile catalog signed_contract.unsigned_contract.selected_profile_id
      verify_profile profile
      verify_signatures profile

    -- The registration of the contract comes last, and only if every check passed.
    unfoldable pub verify_signed_contract :
        Option ReplayRegistry → Result (Unit {0}) × Option ReplayRegistry
    verify_signed_contract registry =
        let unsigned = signed_contract.unsigned_contract in
        elim verify_checks [
          | err e ↦ (err e, registry)
          | ok _ ↦
              on_registry
                (register_contract unsigned.contract_id signed_contract.signed_contract_hash
                  unsigned.session_id unsigned.issued_at unsigned.expires_at verification_time)
                registry
        ]
