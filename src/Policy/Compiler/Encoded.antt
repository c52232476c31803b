-- ===== src/Policy/Compiler/Encoded.antt =====
-- What the encoding says at the index of a profile: each category's constraint holds exactly when
-- the profile fulfils the category.
use pqtrust_agent_artifact.Prelude.{
  ℕ, zero, suc, ◌+◌, ◌<◌, Bool, true, false, not, ◌&&◌, ◌||◌, List, [], ◌∷◌, length, all, contains,
  leb, ltb, Option, none, some, ◌≡◌, refl, arith, string_eq,
}
use pqtrust_agent_artifact.Assurance.{
  is_superset, fallback_rule_rank, resumption_rule_rank, lease_strictness_rank,
}
use pqtrust_agent_artifact.Requirement.{AssuranceRequirement}
use pqtrust_agent_artifact.Policy.{TaskDescriptor, AgentPolicy, unless_none}
use pqtrust_agent_artifact.Policy.Compilation.{
  RejectionCategory, capability, organization_policy, kem_assurance, endpoint_authentication,
  contract_evidence, fallback, resumption, lease, resource_bound, category_eq,
  CapabilityManifestPayload,
}
use pqtrust_agent_artifact.Policy.Encoding.{indexed_from, build_constraint_encoding}
use pqtrust_agent_artifact.Policy.Compiler.{assert_encoding}
use pqtrust_agent_artifact.Protocol.Models.{TrustProfile, ProfileCatalog, endpoint_eq, evidence_eq}
use pqtrust_agent_artifact.Solver.{pos, holds, satisfies}
use pqtrust_agent_artifact.Solver.Meaning.{meets}

-- `profiles[j]`
abbrev pub at_index : ℕ → List TrustProfile → Option TrustProfile
at_index j [] = none
at_index zero (p ∷ ps) = some p
at_index (suc j) (p ∷ ps) = at_index j ps

pub at_index-lt :
    (j : ℕ) (ps : List TrustProfile) (p : TrustProfile) → at_index j ps ≡ some p → j < length ps
at_index-lt j [] p h = cc
at_index-lt zero (q ∷ ps) p h = omega arith
at_index-lt (suc j) (q ∷ ps) p h = omega (arith, at_index-lt j ps p h)

indexed_above :
    (k n : ℕ) (ps : List TrustProfile) (predicate : TrustProfile → Bool)
    → n < k
    → holds (indexed_from k ps predicate) (pos n) ≡ false
unfolding indexed_from holds
indexed_above k n [] predicate h = refl
indexed_above k n (p ∷ ps) predicate h = ground (arith, indexed_above (suc k) n ps predicate)

holds_indexed :
    (k j n : ℕ) (ps : List TrustProfile) (p : TrustProfile) (predicate : TrustProfile → Bool)
    → n ≡ k + j
    → at_index j ps ≡ some p
    → holds (indexed_from k ps predicate) (pos n) ≡ predicate p
unfolding indexed_from holds
holds_indexed k j n [] p predicate e h = cc
holds_indexed k zero n (q ∷ ps) p predicate e h =
    ground (arith, indexed_above (suc k) n ps predicate)
holds_indexed k (suc j) n (q ∷ ps) p predicate e h =
    ground (arith, holds_indexed (suc k) j n ps p predicate)

here :
    (ps : List TrustProfile) (j : ℕ) (p : TrustProfile)
    → at_index j ps ≡ some p
    → (predicate : TrustProfile → Bool) → holds (indexed_from 0 ps predicate) (pos j) ≡ predicate p
here ps j p h predicate = holds_indexed 0 j j ps p predicate (omega arith) h

-- The categories of the encoding, in order.
abbrev pub hard_categories : List RejectionCategory
hard_categories =
    capability ∷ organization_policy ∷ kem_assurance ∷ endpoint_authentication ∷ contract_evidence
    ∷ fallback ∷ resumption ∷ lease ∷ []

module _ (manifest : CapabilityManifestPayload) (policy : AgentPolicy) (task : TaskDescriptor)
    (requirement : AssuranceRequirement) where
  -- What each category asks of a profile.
  abbrev pub fulfils : TrustProfile → RejectionCategory → Bool
  fulfils p capability = contains p.profile_id manifest.supported_profile_ids
  fulfils p organization_policy =
      contains p.profile_id policy.allowed_profile_ids
      && not (contains p.profile_id policy.denied_profile_ids)
  fulfils p kem_assurance =
      is_superset p.assurance.key_establishment_threats requirement.key_establishment_threats
  fulfils p endpoint_authentication =
      is_superset p.assurance.endpoint_authentication_threats
        requirement.endpoint_authentication_threats
      && unless_none policy.permitted_endpoint_authentication_modes
          (λ modes. contains p.endpoint_authentication_mode modes)
  fulfils p contract_evidence =
      is_superset p.assurance.contract_evidence_threats requirement.contract_evidence_threats
      && unless_none policy.permitted_contract_evidence_modes
          (λ modes. contains p.contract_evidence_mode modes)
  fulfils p fallback =
      leb (fallback_rule_rank requirement.fallback_rule) (fallback_rule_rank p.fallback_rule)
  fulfils p resumption =
      leb (resumption_rule_rank requirement.resumption_rule)
        (resumption_rule_rank p.resumption_rule)
  fulfils p lease =
      leb (lease_strictness_rank requirement.lease_strictness)
        (lease_strictness_rank p.lease_strictness)
      && leb task.expected_session_seconds p.max_lease_seconds
  fulfils p resource_bound = true

  -- Whether a profile fulfils every assumed category.
  abbrev pub fulfils_assumed : TrustProfile → List RejectionCategory → Bool
  fulfils_assumed p assumed = all (λ c. not (contains c assumed) || fulfils p c) hard_categories

  -- The encoding alone, at the index of a profile.
  pub meets_encoding :
      (catalog : ProfileCatalog) (j : ℕ) (p : TrustProfile) (assumed : List RejectionCategory)
      → at_index j catalog.profiles ≡ some p
      → meets
          (assert_encoding (build_constraint_encoding manifest policy task requirement catalog))
          assumed
          (pos j)
        ≡ fulfils_assumed p assumed
  unfolding assert_encoding build_constraint_encoding satisfies holds
  meets_encoding catalog j p assumed h =
      let inside = at_index-lt j catalog.profiles p h in
      let below : ltb j (length catalog.profiles) ≡ true = ground arith in
      simp (here catalog.profiles j p h, below)
