-- ===== src/Tests/Contracts.antt =====
-- A session from its commitments to an accepted contract, for the witnesses of the protocol.
pub mod Sessions
pub mod Hashes
use pqtrust_agent_artifact.Prelude.{
  ℕ, String, Bool, true, false, nat_beq, List, [], ◌∷◌, Option, some, none, codes, if◌then◌else◌,
  leb, ltb, ◌&&◌, ◌||◌,
}
use pqtrust_agent_artifact.Assurance.{
  AssuranceVector, all_threats, no_threats, FallbackRule, ResumptionRule, LeaseStrictness,
  classical_x509, mldsa65, ml_dsa_65,
}
use pqtrust_agent_artifact.Protocol.Models.{
  Role, initiator, responder, TrustProfile, ProfileCatalog, NegotiationProposal, NegotiationReveal,
  NegotiationTranscript, SelectionSummary, UnsignedTrustContract, AgentContractSignature,
  SignedTrustContract, Crypto,
}
use pqtrust_agent_artifact.Protocol.Verification.{ExpectedKey}

-- A toy digest: it tells two texts apart by their last byte.
abbrev digest : List ℕ → String
digest [] = "0"
digest (x ∷ []) = if nat_beq x 49 then "1" else "2"
digest (x ∷ y ∷ xs) = digest (y ∷ xs)

-- Pairs of digits or small letters up to `f`.
abbrev hex_digit : ℕ → Bool
hex_digit n = (leb 48 n && ltb n 58) || (leb 97 n && ltb n 103)

abbrev hex_pairs : List ℕ → Bool
hex_pairs [] = true
hex_pairs (x ∷ []) = false
hex_pairs (x ∷ y ∷ xs) = let rest = hex_pairs xs in hex_digit x && (hex_digit y && rest)

abbrev pub crypto : Crypto
crypto = record {
  sha256_hex = digest;
  is_hex = λ s. hex_pairs (codes s);
  from_hex = codes;
  b64decode = λ s. some (codes s);
  proposal_bytes = λ p. codes p.agent_id;
  proposal_hash = λ p. p.agent_id;
  transcript_digest = λ t. t.selected_profile_id;
  contract_bytes = λ u. codes u.contract_id;
  signed_contract_digest = λ u a b. u.contract_id;
  verify_bytes = λ payload signature path. true;
}

abbrev pub proposal_of : String → Role → List String → NegotiationProposal
proposal_of agent role safe = record {
  session_id = "session";
  agent_id = agent;
  agent_role = role;
  scenario_hash = "scenario";
  task_hash = "task";
  catalog_hash = "catalog";
  manifest_hash = "manifest";
  policy_compilation_hash = "compilation";
  preference_hash = "preference";
  cost_evidence_hash = "evidence";
  selector_implementation_version = "1.0";
  local_safe_profile_ids = safe;
  evaluation_time = 10;
  expires_at = 100;
}

abbrev pub initiator_reveal : NegotiationReveal
initiator_reveal = record {
  proposal = proposal_of "agent-a" initiator ("p1" ∷ "p2" ∷ []);
  nonce_hex = "1";
}

abbrev pub responder_reveal : NegotiationReveal
responder_reveal = record {
  proposal = proposal_of "agent-b" responder ("p2" ∷ "p3" ∷ []);
  nonce_hex = "2";
}

abbrev pub selection : SelectionSummary
selection = record {
  common_safe_set = "p2" ∷ [];
  pareto_frontier = "p2" ∷ [];
  selected_profile_id = "p2";
  selection_hash = "selection";
}

abbrev pub transcript : NegotiationTranscript
transcript = record {
  session_id = "session";
  initiator_commitment = "1";
  responder_commitment = "2";
  initiator_reveal = initiator_reveal;
  responder_reveal = responder_reveal;
  initiator_local_safe_set = "p1" ∷ "p2" ∷ [];
  responder_local_safe_set = "p2" ∷ "p3" ∷ [];
  common_safe_set = "p2" ∷ [];
  pareto_frontier = "p2" ∷ [];
  selected_profile_id = "p2";
  selection_hash = "selection";
  transcript_created_at = 20;
  transcript_hash = "p2";
}

abbrev pub profile_of : String → TrustProfile
profile_of name = record {
  profile_id = name;
  tls_group = "X25519MLKEM768";
  endpoint_authentication_mode = classical_x509;
  contract_evidence_mode = mldsa65;
  fallback_rule = FallbackRule.forbidden;
  resumption_rule = ResumptionRule.forbidden;
  lease_strictness = LeaseStrictness.short;
  max_lease_seconds = 60;
  assurance = record {
    key_establishment_threats = all_threats;
    endpoint_authentication_threats = no_threats;
    contract_evidence_threats = all_threats;
    fallback_rule = FallbackRule.forbidden;
    resumption_rule = ResumptionRule.forbidden;
    lease_strictness = LeaseStrictness.short;
  };
}

abbrev pub catalog : ProfileCatalog
catalog = record {
  catalog_version = "1.0";
  profiles = profile_of "p1" ∷ profile_of "p2" ∷ profile_of "p3" ∷ [];
}

abbrev pub unsigned : UnsignedTrustContract
unsigned = record {
  contract_id = "contract";
  session_id = "session";
  initiator_agent_id = "agent-a";
  responder_agent_id = "agent-b";
  scenario_hash = "scenario";
  task_hash = "task";
  catalog_hash = "catalog";
  cost_evidence_hash = "evidence";
  initiator_manifest_hash = "manifest";
  responder_manifest_hash = "manifest";
  initiator_policy_compilation_hash = "compilation";
  responder_policy_compilation_hash = "compilation";
  initiator_preference_hash = "preference";
  responder_preference_hash = "preference";
  transcript_hash = "p2";
  selection_hash = "selection";
  common_safe_profile_ids = "p2" ∷ [];
  pareto_frontier_profile_ids = "p2" ∷ [];
  selected_profile_id = "p2";
  tls_group = "X25519MLKEM768";
  endpoint_authentication_mode = classical_x509;
  contract_evidence_mode = mldsa65;
  fallback_rule = FallbackRule.forbidden;
  resumption_rule = ResumptionRule.forbidden;
  lease_strictness = LeaseStrictness.short;
  issued_at = 20;
  expires_at = 90;
}

abbrev signature_of : String → Role → AgentContractSignature
signature_of agent role = record {
  agent_id = agent;
  role = role;
  key_id = "key";
  algorithm = ml_dsa_65;
  public_key_sha256 = "fingerprint";
  signature_base64 = "signature";
}

abbrev pub signed : SignedTrustContract
signed = record {
  unsigned_contract = unsigned;
  initiator_signature = signature_of "agent-a" initiator;
  responder_signature = signature_of "agent-b" responder;
  signed_contract_hash = "contract";
}

abbrev key_of : String → ExpectedKey
key_of agent = record {
  agent_id = agent;
  algorithm = ml_dsa_65;
  key_id = "key";
  public_key_sha256 = "fingerprint";
  public_key_path = "path";
}

abbrev pub keys : List ExpectedKey
keys = key_of "agent-a" ∷ key_of "agent-b" ∷ []
