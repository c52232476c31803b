-- ===== src/Protocol/Transcript.antt =====
-- src/pqtrust_agent/protocol/transcript.py and protocol/contract_builder.py: building a transcript
-- and a contract, and the checks that a transcript must pass.
pub mod Checks
use pqtrust_agent_artifact.Prelude.{
  ℕ, ◌+◌, ◌*◌, String, Bool, true, false, not, ◌&&◌, ◌||◌, Option, none, some, List, [], ◌∷◌, ◌++◌,
  ◌==◌, Eq, nat_beq, ltb, leb, string_eq, ◌≡◌, ◌↔◌, eq_iff, arith, codes, if◌then◌else◌,
}
use pqtrust_agent_artifact.Prelude.Result.{Result, ok, err, value_error, ◌>>=◌, ◌>>◌, raise_if}
use pqtrust_agent_artifact.Protocol.Time.{
  DateTime, aware, require_utc_aware, require_proposal_active,
}
use pqtrust_agent_artifact.Protocol.Models.{
  Role, initiator, responder, role_eq, TrustProfile, ProfileCatalog, get_profile,
  NegotiationProposal, NegotiationReveal, NegotiationTranscript, SelectionSummary,
  UnsignedTrustContract, AgentContractSignature, SignedTrustContract, Crypto,
  compute_transcript_hash, compute_signed_contract_hash,
}
use pqtrust_agent_artifact.Protocol.Commitment.{create_commitment}
use pqtrust_agent_artifact.Negotiation.Selector.{common_safe_set}

-- Equality of two tuples of strings.
abbrev list_beq : List String → List String → Bool
list_beq [] [] = true
list_beq (x ∷ xs) (y ∷ ys) = x == y && list_beq xs ys
list_beq _ _ = false

pub list_beq_iff : (xs ys : List String) → (list_beq xs ys ≡ true) ↔ (xs ≡ ys)
list_beq_iff [] [] = ground arith
list_beq_iff [] (y ∷ ys) = ground arith
list_beq_iff (x ∷ xs) [] = ground arith
list_beq_iff (x ∷ xs) (y ∷ ys) = ground (arith, eq_iff x y, list_beq_iff xs ys)

instance abbrev pub list_eq : Eq (List String)
list_eq = record { beq = list_beq; beq_iff = list_beq_iff }

-- `a != b`
infix 50 ◌!=◌
abbrev pub ◌!=◌ {ℓ} : {A : Type ℓ} ⦃e : Eq A⦄ → A → A → Bool
a != b = not (a == b)

module _ (c : Crypto) where
  unfoldable pub build_transcript :
      NegotiationReveal
      → NegotiationReveal
      → SelectionSummary
      → List String
      → DateTime
      → Result NegotiationTranscript
  build_transcript initiator_reveal responder_reveal selection catalog_profile_ids created_at = do
    created ← require_utc_aware created_at
    let initiator_safe = initiator_reveal.proposal.local_safe_profile_ids
    let responder_safe = responder_reveal.proposal.local_safe_profile_ids
    let common = common_safe_set catalog_profile_ids initiator_safe responder_safe
    raise_if (common != selection.common_safe_set)
        (value_error "selection common-safe set does not match revealed proposals")
    let transcript : NegotiationTranscript = record {
      session_id = initiator_reveal.proposal.session_id;
      initiator_commitment = create_commitment c initiator_reveal;
      responder_commitment = create_commitment c responder_reveal;
      initiator_reveal = initiator_reveal;
      responder_reveal = responder_reveal;
      initiator_local_safe_set = initiator_safe;
      responder_local_safe_set = responder_safe;
      common_safe_set = selection.common_safe_set;
      pareto_frontier = selection.pareto_frontier;
      selected_profile_id = selection.selected_profile_id;
      selection_hash = selection.selection_hash;
      transcript_created_at = created;
      transcript_hash = "";
    }
    ok (record transcript { transcript_hash = compute_transcript_hash c transcript })

  -- `verify_transcript` with no replay registry, as the contract verification calls it.
  unfoldable pub verify_transcript :
      NegotiationTranscript → SelectionSummary → List String → DateTime → Result (Unit {0})
  verify_transcript t selection catalog_profile_ids verification_time =
      let i = t.initiator_reveal.proposal in
      let r = t.responder_reveal.proposal in
      do
        raise_if (t.initiator_commitment != create_commitment c t.initiator_reveal)
            (value_error "initiator commitment mismatch")
        raise_if (t.responder_commitment != create_commitment c t.responder_reveal)
            (value_error "responder commitment mismatch")
        require_proposal_active (aware i.evaluation_time) (aware i.expires_at) verification_time
        require_proposal_active (aware r.evaluation_time) (aware r.expires_at) verification_time
        raise_if (c.proposal_hash i == c.proposal_hash r && i.agent_id != r.agent_id)
            (value_error "proposal hash collision across distinct proposals")
        raise_if (i.session_id != r.session_id || i.session_id != t.session_id)
            (value_error "session mismatch")
        raise_if (i.agent_role != initiator || r.agent_role != responder)
            (value_error "proposal roles mismatch")
        raise_if (i.scenario_hash != r.scenario_hash) (value_error "scenario_hash mismatch")
        raise_if (i.task_hash != r.task_hash) (value_error "task_hash mismatch")
        raise_if (i.catalog_hash != r.catalog_hash) (value_error "catalog_hash mismatch")
        raise_if (i.cost_evidence_hash != r.cost_evidence_hash)
            (value_error "cost_evidence_hash mismatch")
        raise_if
            (common_safe_set catalog_profile_ids i.local_safe_profile_ids r.local_safe_profile_ids
              != t.common_safe_set)
            (value_error "common-safe set mismatch")
        raise_if (t.initiator_local_safe_set != i.local_safe_profile_ids)
            (value_error "initiator local safe set mismatch")
        raise_if (t.responder_local_safe_set != r.local_safe_profile_ids)
            (value_error "responder local safe set mismatch")
        raise_if (t.common_safe_set != selection.common_safe_set)
            (value_error "selection common-safe set mismatch")
        raise_if (t.pareto_frontier != selection.pareto_frontier)
            (value_error "Pareto frontier mismatch")
        raise_if (t.selected_profile_id != selection.selected_profile_id)
            (value_error "selected profile mismatch")
        raise_if (t.selection_hash != selection.selection_hash)
            (value_error "selection hash mismatch")
        raise_if (t.transcript_hash != compute_transcript_hash c t)
            (value_error "transcript hash mismatch")

-- `contract_builder.py`: the identifier is the digest of a tag and the transcript's hash.
abbrev pub contract_id_for_transcript : Crypto → String → String
contract_id_for_transcript c transcript_hash =
    c.sha256_hex (codes "PQTrust.ContractID.v1" ++ (0 ∷ c.from_hex transcript_hash))

abbrev pub microseconds : ℕ → ℕ
microseconds seconds = seconds * 1000000

-- A lease that the caller gives is a natural number here; a negative one is refused by the source
-- with the same error as zero.
unfoldable pub build_unsigned_contract :
    Crypto
    → NegotiationTranscript
    → SelectionSummary
    → ProfileCatalog
    → DateTime
    → Option ℕ
    → Result UnsignedTrustContract
build_unsigned_contract c t selection catalog issued_at lease_seconds = do
  profile ← get_profile catalog selection.selected_profile_id
  issued ← require_utc_aware issued_at
  let duration : ℕ = elim lease_seconds [ some s ↦ s | none ↦ profile.max_lease_seconds ]
  raise_if (leb duration 0 || ltb profile.max_lease_seconds duration)
      (value_error "contract lease exceeds selected profile maximum")
  raise_if (t.initiator_reveal.proposal.agent_id == t.responder_reveal.proposal.agent_id)
      (value_error "contract agents must be distinct")
  let i = t.initiator_reveal.proposal
  let r = t.responder_reveal.proposal
  ok (record {
    contract_id = contract_id_for_transcript c t.transcript_hash;
    session_id = t.session_id;
    initiator_agent_id = i.agent_id;
    responder_agent_id = r.agent_id;
    scenario_hash = i.scenario_hash;
    task_hash = i.task_hash;
    catalog_hash = i.catalog_hash;
    cost_evidence_hash = i.cost_evidence_hash;
    initiator_manifest_hash = i.manifest_hash;
    responder_manifest_hash = r.manifest_hash;
    initiator_policy_compilation_hash = i.policy_compilation_hash;
    responder_policy_compilation_hash = r.policy_compilation_hash;
    initiator_preference_hash = i.preference_hash;
    responder_preference_hash = r.preference_hash;
    transcript_hash = t.transcript_hash;
    selection_hash = selection.selection_hash;
    common_safe_profile_ids = selection.common_safe_set;
    pareto_frontier_profile_ids = selection.pareto_frontier;
    selected_profile_id = selection.selected_profile_id;
    tls_group = profile.tls_group;
    endpoint_authentication_mode = profile.endpoint_authentication_mode;
    contract_evidence_mode = profile.contract_evidence_mode;
    fallback_rule = profile.fallback_rule;
    resumption_rule = profile.resumption_rule;
    lease_strictness = profile.lease_strictness;
    issued_at = issued;
    expires_at = issued + microseconds duration;
  })

-- The checks of `SignedTrustContract` on its two signatures.
unfoldable pub validate_roles : AgentContractSignature → AgentContractSignature → Result (Unit {0})
validate_roles initiator_signature responder_signature = do
  raise_if (initiator_signature.role != initiator) (value_error "initiator signature role mismatch")
  raise_if (responder_signature.role != responder) (value_error "responder signature role mismatch")
  raise_if (initiator_signature.agent_id == responder_signature.agent_id)
      (value_error "signature agents must be distinct")

unfoldable pub build_signed_contract :
    Crypto
    → UnsignedTrustContract
    → AgentContractSignature
    → AgentContractSignature
    → Result SignedTrustContract
build_signed_contract c unsigned initiator_signature responder_signature = do
  validate_roles initiator_signature responder_signature
  let signed : SignedTrustContract = record {
    unsigned_contract = unsigned;
    initiator_signature = initiator_signature;
    responder_signature = responder_signature;
    signed_contract_hash = "";
  }
  ok (record signed { signed_contract_hash = compute_signed_contract_hash c signed })
