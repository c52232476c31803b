-- ===== src/Tests/Assurance.antt =====
-- Witnesses of the theorems on assurance vectors and derived requirements.
use pqtrust_agent_artifact.Prelude.{true, not, ◌&&◌, none, some, [], ◌∷◌, all, ◌≡◌, refl, arith}
use pqtrust_agent_artifact.Assurance.{
  no_threats, all_threats, AssuranceVector, dominates, strictly_dominates, assurance_join,
  assurance_meet, FallbackRule, ResumptionRule, LeaseStrictness,
}
use pqtrust_agent_artifact.Assurance.Order.{
  dominates-assurance_join, dominates-assurance_meet, dominates_antisymm, strictly_dominates-eq,
}
use pqtrust_agent_artifact.Requirement.{AssuranceRequirement, requirement_dominates}
use pqtrust_agent_artifact.Policy.{
  TaskSensitivity, OperationalImpact, ConfidentialityHorizon, stable_cloud, TaskDescriptor,
  TaskRuleCondition, RequirementContribution, PolicyRule, AgentPolicy,
}
use pqtrust_agent_artifact.Policy.Mapper.{Digests, derive_requirement}
use pqtrust_agent_artifact.Policy.Mapper.Least.{covers, derive_requirement_least}
use pqtrust_agent_artifact.Policy.Mapper.Monotone.{TaskLe, derive_requirement_mono}

abbrev quantum_safe : AssuranceVector
quantum_safe = record {
  key_establishment_threats = all_threats;
  endpoint_authentication_threats = no_threats;
  contract_evidence_threats = all_threats;
  fallback_rule = FallbackRule.explicit_only;
  resumption_rule = ResumptionRule.context_bound;
  lease_strictness = LeaseStrictness.long;
}

abbrev short_lived : AssuranceVector
short_lived = record quantum_safe {
  key_establishment_threats = no_threats;
  lease_strictness = LeaseStrictness.short;
}

dominates-assurance_join_example :
    dominates quantum_safe (assurance_join quantum_safe short_lived)
    ≡ (dominates quantum_safe quantum_safe && dominates quantum_safe short_lived)
dominates-assurance_join_example = dominates-assurance_join quantum_safe short_lived quantum_safe

dominates-assurance_meet_example :
    dominates (assurance_meet quantum_safe short_lived) short_lived
    ≡ (dominates quantum_safe short_lived && dominates short_lived short_lived)
dominates-assurance_meet_example = dominates-assurance_meet quantum_safe short_lived short_lived

joined_above : dominates (assurance_join quantum_safe quantum_safe) quantum_safe ≡ true
unfolding dominates assurance_join
joined_above = refl

joined_below : dominates quantum_safe (assurance_join quantum_safe quantum_safe) ≡ true
unfolding dominates assurance_join
joined_below = refl

dominates_antisymm_example : assurance_join quantum_safe quantum_safe ≡ quantum_safe
dominates_antisymm_example =
    dominates_antisymm (assurance_join quantum_safe quantum_safe) quantum_safe joined_above
      joined_below

strictly_dominates-eq_example :
    strictly_dominates quantum_safe short_lived
    ≡ (dominates quantum_safe short_lived && not (dominates short_lived quantum_safe))
strictly_dominates-eq_example = strictly_dominates-eq quantum_safe short_lived

abbrev pub base : AssuranceRequirement
base = record {
  key_establishment_threats = no_threats;
  endpoint_authentication_threats = no_threats;
  contract_evidence_threats = all_threats;
  fallback_rule = FallbackRule.low_risk_only;
  resumption_rule = ResumptionRule.context_bound;
  lease_strictness = LeaseStrictness.long;
}

abbrev always : TaskRuleCondition
always = record {
  minimum_sensitivity = none;
  minimum_operational_impact = none;
  minimum_confidentiality_horizon = none;
  minimum_delegation_depth = none;
  minimum_expected_session_seconds = none;
  network_classes = none;
  organization_policy_classes = none;
}

abbrev nothing : RequirementContribution
nothing = record {
  key_establishment_threats = none;
  endpoint_authentication_threats = none;
  contract_evidence_threats = none;
  fallback_rule = none;
  resumption_rule = none;
  lease_strictness = none;
}

abbrev confidential_rule : PolicyRule
confidential_rule = record {
  rule_id = "R2";
  description = "quantum-safe keys";
  condition = record always { minimum_sensitivity = some TaskSensitivity.confidential };
  contribution = record nothing { key_establishment_threats = some all_threats };
}

abbrev delegation_rule : PolicyRule
delegation_rule = record {
  rule_id = "R1";
  description = "no fallback";
  condition = record always { minimum_delegation_depth = some 2 };
  contribution = record nothing { fallback_rule = some FallbackRule.forbidden };
}

abbrev pub policy : AgentPolicy
policy = record {
  policy_id = "P";
  policy_version = 1;
  agent_id = "agent-a";
  catalog_version = "1.0";
  base_requirement = base;
  allowed_profile_ids = "p1" ∷ "p2" ∷ [];
  denied_profile_ids = [];
  permitted_endpoint_authentication_modes = none;
  permitted_contract_evidence_modes = none;
  rules = confidential_rule ∷ delegation_rule ∷ [];
  solver_timeout_ms = 1000;
}

abbrev pub low_task : TaskDescriptor
low_task = record {
  sensitivity = TaskSensitivity.internal;
  operational_impact = OperationalImpact.observation;
  confidentiality_horizon = ConfidentialityHorizon.short;
  delegation_depth = 1;
  expected_session_seconds = 60;
  network_class = stable_cloud;
  organization_policy_class = "default";
}

abbrev pub high_task : TaskDescriptor
high_task = record low_task { sensitivity = TaskSensitivity.restricted; delegation_depth = 2 }

abbrev pub digests : Digests
digests = record {
  policy_hash = λ p. p.policy_id;
  context_hash = λ t. t.organization_policy_class;
  derivation_hash = λ r. r.agent_id;
}

derive_requirement_least_example :
    requirement_dominates base (derive_requirement digests policy high_task).final_requirement ≡ (
      requirement_dominates base policy.base_requirement
      && all (covers base high_task) policy.rules)
derive_requirement_least_example = derive_requirement_least digests policy high_task base

low_below_high : TaskLe low_task high_task
low_below_high = record {
  sensitivity = omega arith;
  impact = omega arith;
  horizon = omega arith;
  delegation = omega arith;
  session = omega arith;
  network = refl;
  organization = refl;
}

derive_requirement_mono_example :
    requirement_dominates
      (derive_requirement digests policy high_task).final_requirement
      (derive_requirement digests policy low_task).final_requirement
    ≡ true
derive_requirement_mono_example =
    derive_requirement_mono digests policy low_task high_task low_below_high
