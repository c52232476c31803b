-- ===== src/Requirement.antt =====
-- src/pqtrust_agent/models/requirements.py: the minimum assurance that an agent requires.
pub mod Order
use pqtrust_agent_artifact.Prelude.{ℕ, Bool, ◌&&◌, leb, if◌then◌else◌}
use pqtrust_agent_artifact.Assurance.{
  ThreatSet, FallbackRule, ResumptionRule, LeaseStrictness, AssuranceVector, fallback_rule_rank,
  resumption_rule_rank, lease_strictness_rank, is_superset, union,
}

pub record AssuranceRequirement : Type 0 where
  pub key_establishment_threats : ThreatSet
  pub endpoint_authentication_threats : ThreatSet
  pub contract_evidence_threats : ThreatSet
  pub fallback_rule : FallbackRule
  pub resumption_rule : ResumptionRule
  pub lease_strictness : LeaseStrictness

abbrev pub as_assurance_vector : AssuranceRequirement → AssuranceVector
as_assurance_vector r = record {
  key_establishment_threats = r.key_establishment_threats;
  endpoint_authentication_threats = r.endpoint_authentication_threats;
  contract_evidence_threats = r.contract_evidence_threats;
  fallback_rule = r.fallback_rule;
  resumption_rule = r.resumption_rule;
  lease_strictness = r.lease_strictness;
}

unfoldable pub requirement_dominates : AssuranceRequirement → AssuranceRequirement → Bool
requirement_dominates left right =
    is_superset left.key_establishment_threats right.key_establishment_threats
    && is_superset left.endpoint_authentication_threats right.endpoint_authentication_threats
    && is_superset left.contract_evidence_threats right.contract_evidence_threats
    && leb (fallback_rule_rank right.fallback_rule) (fallback_rule_rank left.fallback_rule)
    && leb (resumption_rule_rank right.resumption_rule) (resumption_rule_rank left.resumption_rule)
    && leb (lease_strictness_rank right.lease_strictness)
        (lease_strictness_rank left.lease_strictness)

unfoldable pub requirement_join : AssuranceRequirement → AssuranceRequirement → AssuranceRequirement
requirement_join left right = record {
  key_establishment_threats = union left.key_establishment_threats right.key_establishment_threats;
  endpoint_authentication_threats =
      union left.endpoint_authentication_threats right.endpoint_authentication_threats;
  contract_evidence_threats = union left.contract_evidence_threats right.contract_evidence_threats;
  fallback_rule =
      if leb (fallback_rule_rank right.fallback_rule) (fallback_rule_rank left.fallback_rule)
      then left.fallback_rule
      else right.fallback_rule;
  resumption_rule =
      if leb (resumption_rule_rank right.resumption_rule)
        (resumption_rule_rank left.resumption_rule)
      then left.resumption_rule
      else right.resumption_rule;
  lease_strictness =
      if leb (lease_strictness_rank right.lease_strictness)
        (lease_strictness_rank left.lease_strictness)
      then left.lease_strictness
      else right.lease_strictness;
}
