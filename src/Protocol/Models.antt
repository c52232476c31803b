-- ===== src/Protocol/Models.antt =====
-- src/pqtrust_agent/models/protocol.py, models/contract.py, models/profile.py and models/catalog.py:
-- the records of the protocol, and what their digests are computed from. Instants are UTC
-- microseconds, as the validators leave them; the constant version fields are left out.
use pqtrust_agent_artifact.Prelude.{
  ℕ, String, Bool, true, ◌≡◌, ◌↔◌, Option, List, [], ◌∷◌, map, Eq, ◌==◌, if◌then◌else◌, nat_beq,
  arith, string_eq,
}
use pqtrust_agent_artifact.Prelude.Result.{Result, ok, err, key_error}
use pqtrust_agent_artifact.Assurance.{
  EndpointAuthenticationMode, classical_x509, dual_x509_mldsa, pq_mldsa, ContractEvidenceMode,
  mldsa65, mldsa87, EvidenceAlgorithm, ml_dsa_65, ml_dsa_87, FallbackRule, ResumptionRule,
  LeaseStrictness, AssuranceVector,
}

pub data Role : Type 0 where
  initiator responder : Role

abbrev role_code : Role → ℕ
role_code initiator = 0
role_code responder = 1

abbrev endpoint_code : EndpointAuthenticationMode → ℕ
endpoint_code classical_x509 = 0
endpoint_code dual_x509_mldsa = 1
endpoint_code pq_mldsa = 2

abbrev evidence_code : ContractEvidenceMode → ℕ
evidence_code mldsa65 = 0
evidence_code mldsa87 = 1

abbrev algorithm_code : EvidenceAlgorithm → ℕ
algorithm_code ml_dsa_65 = 0
algorithm_code ml_dsa_87 = 1

pub role_beq_iff : (a b : Role) → (nat_beq (role_code a) (role_code b) ≡ true) ↔ (a ≡ b)
role_beq_iff a b = ground arith

pub endpoint_beq_iff :
    (a b : EndpointAuthenticationMode)
    → (nat_beq (endpoint_code a) (endpoint_code b) ≡ true) ↔ (a ≡ b)
endpoint_beq_iff a b = ground arith

pub evidence_beq_iff :
    (a b : ContractEvidenceMode) → (nat_beq (evidence_code a) (evidence_code b) ≡ true) ↔ (a ≡ b)
evidence_beq_iff a b = ground arith

pub algorithm_beq_iff :
    (a b : EvidenceAlgorithm) → (nat_beq (algorithm_code a) (algorithm_code b) ≡ true) ↔ (a ≡ b)
algorithm_beq_iff a b = ground arith

instance abbrev pub role_eq : Eq Role
role_eq = record { beq = λ a b. nat_beq (role_code a) (role_code b); beq_iff = role_beq_iff }

instance abbrev pub endpoint_eq : Eq EndpointAuthenticationMode
endpoint_eq = record {
  beq = λ a b. nat_beq (endpoint_code a) (endpoint_code b);
  beq_iff = endpoint_beq_iff;
}

instance abbrev pub evidence_eq : Eq ContractEvidenceMode
evidence_eq = record {
  beq = λ a b. nat_beq (evidence_code a) (evidence_code b);
  beq_iff = evidence_beq_iff;
}

instance abbrev pub algorithm_eq : Eq EvidenceAlgorithm
algorithm_eq = record {
  beq = λ a b. nat_beq (algorithm_code a) (algorithm_code b);
  beq_iff = algorithm_beq_iff;
}

-- `resource_envelope` and `description` of the profile are not read by the protocol.
pub record TrustProfile : Type 0 where
  pub profile_id : String
  pub tls_group : String
  pub endpoint_authentication_mode : EndpointAuthenticationMode
  pub contract_evidence_mode : ContractEvidenceMode
  pub fallback_rule : FallbackRule
  pub resumption_rule : ResumptionRule
  pub lease_strictness : LeaseStrictness
  pub max_lease_seconds : ℕ
  pub assurance : AssuranceVector

pub record ProfileCatalog : Type 0 where
  pub catalog_version : String
  pub profiles : List TrustProfile

abbrev pub profile_ids : ProfileCatalog → List String
profile_ids c = map (λ p. p.profile_id) c.profiles

unfoldable pub find_profile : String → List TrustProfile → Result TrustProfile
find_profile profile_id [] = err (key_error profile_id)
find_profile profile_id (p ∷ ps) =
    if p.profile_id == profile_id then ok p else find_profile profile_id ps

unfoldable pub get_profile : ProfileCatalog → String → Result TrustProfile
get_profile c profile_id = find_profile profile_id c.profiles

pub record NegotiationProposal : Type 0 where
  pub session_id : String
  pub agent_id : String
  pub agent_role : Role
  pub scenario_hash : String
  pub task_hash : String
  pub catalog_hash : String
  pub manifest_hash : String
  pub policy_compilation_hash : String
  pub preference_hash : String
  pub cost_evidence_hash : String
  pub selector_implementation_version : String
  pub local_safe_profile_ids : List String
  pub evaluation_time : ℕ
  pub expires_at : ℕ

pub record NegotiationReveal : Type 0 where
  pub proposal : NegotiationProposal
  pub nonce_hex : String

pub record NegotiationTranscript : Type 0 where
  pub session_id : String
  pub initiator_commitment : String
  pub responder_commitment : String
  pub initiator_reveal : NegotiationReveal
  pub responder_reveal : NegotiationReveal
  pub initiator_local_safe_set : List String
  pub responder_local_safe_set : List String
  pub common_safe_set : List String
  pub pareto_frontier : List String
  pub selected_profile_id : String
  pub selection_hash : String
  pub transcript_created_at : ℕ
  pub transcript_hash : String

-- The fields of `BilateralSelectionResult` that the protocol reads.
pub record SelectionSummary : Type 0 where
  pub common_safe_set : List String
  pub pareto_frontier : List String
  pub selected_profile_id : String
  pub selection_hash : String

pub record UnsignedTrustContract : Type 0 where
  pub contract_id : String
  pub session_id : String
  pub initiator_agent_id : String
  pub responder_agent_id : String
  pub scenario_hash : String
  pub task_hash : String
  pub catalog_hash : String
  pub cost_evidence_hash : String
  pub initiator_manifest_hash : String
  pub responder_manifest_hash : String
  pub initiator_policy_compilation_hash : String
  pub responder_policy_compilation_hash : String
  pub initiator_preference_hash : String
  pub responder_preference_hash : String
  pub transcript_hash : String
  pub selection_hash : String
  pub common_safe_profile_ids : List String
  pub pareto_frontier_profile_ids : List String
  pub selected_profile_id : String
  pub tls_group : String
  pub endpoint_authentication_mode : EndpointAuthenticationMode
  pub contract_evidence_mode : ContractEvidenceMode
  pub fallback_rule : FallbackRule
  pub resumption_rule : ResumptionRule
  pub lease_strictness : LeaseStrictness
  pub issued_at : ℕ
  pub expires_at : ℕ

pub record AgentContractSignature : Type 0 where
  pub agent_id : String
  pub role : Role
  pub key_id : String
  pub algorithm : EvidenceAlgorithm
  pub public_key_sha256 : String
  pub signature_base64 : String

pub record SignedTrustContract : Type 0 where
  pub unsigned_contract : UnsignedTrustContract
  pub initiator_signature : AgentContractSignature
  pub responder_signature : AgentContractSignature
  pub signed_contract_hash : String

-- What the protocol takes from outside the repository: SHA-256, RFC 8785 canonical bytes, the
-- decoding of hexadecimal and base64 text, and the signature check of the OpenSSL provider (payload,
-- signature, path of the public key). Each digest of a record is of its fields but the digest.
pub record Crypto : Type 0 where
  pub sha256_hex : List ℕ → String
  -- `bytes.fromhex` raises a ValueError on the texts that `is_hex` refuses, and gives `from_hex`
  -- otherwise. The digests, nonces and session identifiers of the models are hexadecimal by their
  -- patterns; the test stands where free text is decoded, in `certificate_id_for`.
  pub is_hex : String → Bool
  pub from_hex : String → List ℕ
  pub b64decode : String → Option (List ℕ)
  pub proposal_bytes : NegotiationProposal → List ℕ
  pub proposal_hash : NegotiationProposal → String
  pub transcript_digest : NegotiationTranscript → String
  pub contract_bytes : UnsignedTrustContract → List ℕ
  pub signed_contract_digest :
      UnsignedTrustContract → AgentContractSignature → AgentContractSignature → String
  pub verify_bytes : List ℕ → List ℕ → String → Bool

-- `compute_transcript_hash`: the digest does not depend on the stored hash.
abbrev pub compute_transcript_hash : Crypto → NegotiationTranscript → String
compute_transcript_hash c t = c.transcript_digest (record t { transcript_hash = "" })

abbrev pub compute_signed_contract_hash : Crypto → SignedTrustContract → String
compute_signed_contract_hash c s =
    c.signed_contract_digest s.unsigned_contract s.initiator_signature s.responder_signature
