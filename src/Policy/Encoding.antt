-- ===== src/Policy/Encoding.antt =====
-- src/pqtrust_agent/policy/z3_encoding.py: the constraint of each category as a formula over the
-- selected index, and the direct test of one profile.
use pqtrust_agent_artifact.Prelude.{
  ℕ, suc, Bool, false, not, ◌||◌, List, [], ◌∷◌, length, contains, leb, ltb, string_eq,
  if◌then◌else◌,
}
use pqtrust_agent_artifact.Assurance.{
  is_superset, fallback_rule_rank, resumption_rule_rank, lease_strictness_rank,
}
use pqtrust_agent_artifact.Requirement.{AssuranceRequirement}
use pqtrust_agent_artifact.Policy.{TaskDescriptor, AgentPolicy, unless_none}
use pqtrust_agent_artifact.Policy.Compilation.{
  RejectionCategory, capability, organization_policy, kem_assurance, endpoint_authentication,
  contract_evidence, fallback, resumption, lease, CapabilityManifestPayload,
  sort_rejection_categories,
}
use pqtrust_agent_artifact.Protocol.Models.{TrustProfile, ProfileCatalog, endpoint_eq, evidence_eq}
use pqtrust_agent_artifact.Solver.{
  pos, Formula, index_eq, index_nonneg, index_below, constant, both, either,
}

-- `enumerate(profiles)` from a first index.
unfoldable pub indexed_from : ℕ → List TrustProfile → (TrustProfile → Bool) → Formula
indexed_from k [] predicate = constant false
indexed_from k (p ∷ ps) predicate =
    either (both (index_eq (pos k)) (constant (predicate p))) (indexed_from (suc k) ps predicate)

abbrev pub indexed_bool : List TrustProfile → (TrustProfile → Bool) → Formula
indexed_bool = indexed_from 0

-- The label of a category is the category.
abbrev pub ConstraintEncoding : Type 0
ConstraintEncoding = List (RejectionCategory × Formula)

abbrev when : Bool → RejectionCategory → List RejectionCategory → List RejectionCategory
when b c cs = if b then c ∷ cs else cs

module _ (manifest : CapabilityManifestPayload) (policy : AgentPolicy) (task : TaskDescriptor)
    (requirement : AssuranceRequirement) where
  unfoldable pub build_constraint_encoding : ProfileCatalog → ConstraintEncoding
  build_constraint_encoding catalog =
      let indexed = indexed_bool catalog.profiles in
      (
        capability,
        both index_nonneg (
            both (index_below (length catalog.profiles))
              (indexed (λ p. contains p.profile_id manifest.supported_profile_ids))),
      )
      ∷ (
        organization_policy,
        both (indexed (λ p. contains p.profile_id policy.allowed_profile_ids))
            (indexed (λ p. not (contains p.profile_id policy.denied_profile_ids))),
      )
      ∷ (
        kem_assurance,
        indexed (λ p.
            is_superset p.assurance.key_establishment_threats
              requirement.key_establishment_threats),
      )
      ∷ (
        endpoint_authentication,
        both
            (indexed (λ p.
              is_superset p.assurance.endpoint_authentication_threats
                requirement.endpoint_authentication_threats))
            (indexed (λ p.
              unless_none policy.permitted_endpoint_authentication_modes
                (λ modes. contains p.endpoint_authentication_mode modes))),
      )
      ∷ (
        contract_evidence,
        both
            (indexed (λ p.
              is_superset p.assurance.contract_evidence_threats
                requirement.contract_evidence_threats))
            (indexed (λ p.
              unless_none policy.permitted_contract_evidence_modes
                (λ modes. contains p.contract_evidence_mode modes))),
      )
      ∷ (
        fallback,
        indexed (λ p.
            leb (fallback_rule_rank requirement.fallback_rule)
              (fallback_rule_rank p.fallback_rule)),
      )
      ∷ (
        resumption,
        indexed (λ p.
            leb (resumption_rule_rank requirement.resumption_rule)
              (resumption_rule_rank p.resumption_rule)),
      )
      ∷ (
        lease,
        both
            (indexed (λ p.
              leb (lease_strictness_rank requirement.lease_strictness)
                (lease_strictness_rank p.lease_strictness)))
            (indexed (λ p. leb task.expected_session_seconds p.max_lease_seconds)),
      )
      ∷ []

  unfoldable pub profile_violated_categories : TrustProfile → List RejectionCategory
  profile_violated_categories p = sort_rejection_categories (
      when (not (contains p.profile_id manifest.supported_profile_ids)) capability (
        when
          (not (contains p.profile_id policy.allowed_profile_ids)
            || contains p.profile_id policy.denied_profile_ids)
          organization_policy
          (when
            (not (
              is_superset p.assurance.key_establishment_threats
                requirement.key_establishment_threats))
            kem_assurance
            (when
              (not (
                  is_superset p.assurance.endpoint_authentication_threats
                    requirement.endpoint_authentication_threats)
                || not (
                    unless_none policy.permitted_endpoint_authentication_modes
                      (λ modes. contains p.endpoint_authentication_mode modes)))
              endpoint_authentication
              (when
                (not (
                    is_superset p.assurance.contract_evidence_threats
                      requirement.contract_evidence_threats)
                  || not (
                      unless_none policy.permitted_contract_evidence_modes
                        (λ modes. contains p.contract_evidence_mode modes)))
                contract_evidence
                (when
                  (ltb (fallback_rule_rank p.fallback_rule)
                    (fallback_rule_rank requirement.fallback_rule))
                  fallback
                  (when
                    (ltb (resumption_rule_rank p.resumption_rule)
                      (resumption_rule_rank requirement.resumption_rule))
                    resumption
                    (when
                      (ltb (lease_strictness_rank p.lease_strictness)
                          (lease_strictness_rank requirement.lease_strictness)
                        || ltb p.max_lease_seconds task.expected_session_seconds)
                      lease []))))))))
