-- ===== src/Policy.antt =====
-- src/pqtrust_agent/models/task.py and models/policy.py: the task descriptor, rule conditions,
-- contributions, rules and the agent policy.
pub mod Mapper
pub mod Compilation
pub mod Encoding
pub mod Compiler
use pqtrust_agent_artifact.Prelude.{
  ℕ, String, Bool, true, ◌&&◌, leb, Option, none, some, List, contains, if◌then◌else◌, ◌==◌, Eq,
  nat_beq, nat_beq_iff, arith, ◌↔◌, ◌≡◌, string_eq,
}
use pqtrust_agent_artifact.Assurance.{
  ThreatSet, no_threats, EndpointAuthenticationMode, ContractEvidenceMode, FallbackRule,
  ResumptionRule, LeaseStrictness,
}
use pqtrust_agent_artifact.Requirement.{AssuranceRequirement, requirement_join}

pub data TaskSensitivity : Type 0 where
  public internal confidential restricted : TaskSensitivity

pub data OperationalImpact : Type 0 where
  observation business_action physical_control : OperationalImpact

pub data ConfidentialityHorizon : Type 0 where
  short medium long : ConfidentialityHorizon

pub data NetworkClass : Type 0 where
  stable_cloud enterprise_wan constrained_edge : NetworkClass

-- `TASK_SENSITIVITY_RANK`
abbrev pub task_sensitivity_rank : TaskSensitivity → ℕ
task_sensitivity_rank public = 0
task_sensitivity_rank internal = 1
task_sensitivity_rank confidential = 2
task_sensitivity_rank restricted = 3

-- `OPERATIONAL_IMPACT_RANK`
abbrev pub operational_impact_rank : OperationalImpact → ℕ
operational_impact_rank observation = 0
operational_impact_rank business_action = 1
operational_impact_rank physical_control = 2

-- `CONFIDENTIALITY_HORIZON_RANK`
abbrev pub confidentiality_horizon_rank : ConfidentialityHorizon → ℕ
confidentiality_horizon_rank ConfidentialityHorizon.short = 0
confidentiality_horizon_rank ConfidentialityHorizon.medium = 1
confidentiality_horizon_rank ConfidentialityHorizon.long = 2

abbrev network_class_code : NetworkClass → ℕ
network_class_code stable_cloud = 0
network_class_code enterprise_wan = 1
network_class_code constrained_edge = 2

abbrev network_class_beq : NetworkClass → NetworkClass → Bool
network_class_beq a b = nat_beq (network_class_code a) (network_class_code b)

pub network_class_beq_iff : (a b : NetworkClass) → (network_class_beq a b ≡ true) ↔ (a ≡ b)
network_class_beq_iff a b = ground arith

instance abbrev pub network_class_eq : Eq NetworkClass
network_class_eq = record { beq = network_class_beq; beq_iff = network_class_beq_iff }

pub record TaskDescriptor : Type 0 where
  pub sensitivity : TaskSensitivity
  pub operational_impact : OperationalImpact
  pub confidentiality_horizon : ConfidentialityHorizon
  pub delegation_depth : ℕ
  pub expected_session_seconds : ℕ
  pub network_class : NetworkClass
  pub organization_policy_class : String

pub record TaskRuleCondition : Type 0 where
  pub minimum_sensitivity : Option TaskSensitivity
  pub minimum_operational_impact : Option OperationalImpact
  pub minimum_confidentiality_horizon : Option ConfidentialityHorizon
  pub minimum_delegation_depth : Option ℕ
  pub minimum_expected_session_seconds : Option ℕ
  pub network_classes : Option (List NetworkClass)
  pub organization_policy_classes : Option (List String)

-- `bound is None or test(bound)`
abbrev pub unless_none : {A : Type 0} → Option A → (A → Bool) → Bool
unless_none none test = true
unless_none (some a) test = test a

unfoldable pub matches : TaskRuleCondition → TaskDescriptor → Bool
matches c task =
    unless_none c.minimum_sensitivity
      (λ m. leb (task_sensitivity_rank m) (task_sensitivity_rank task.sensitivity))
    && unless_none c.minimum_operational_impact
        (λ m. leb (operational_impact_rank m) (operational_impact_rank task.operational_impact))
    && unless_none c.minimum_confidentiality_horizon (λ m.
      leb (confidentiality_horizon_rank m)
        (confidentiality_horizon_rank task.confidentiality_horizon))
    && unless_none c.minimum_delegation_depth (λ m. leb m task.delegation_depth)
    && unless_none c.minimum_expected_session_seconds (λ m. leb m task.expected_session_seconds)
    && unless_none c.network_classes (λ cs. contains task.network_class cs)
    && unless_none c.organization_policy_classes (λ cs. contains task.organization_policy_class cs)

pub record RequirementContribution : Type 0 where
  pub key_establishment_threats : Option ThreatSet
  pub endpoint_authentication_threats : Option ThreatSet
  pub contract_evidence_threats : Option ThreatSet
  pub fallback_rule : Option FallbackRule
  pub resumption_rule : Option ResumptionRule
  pub lease_strictness : Option LeaseStrictness

-- `x if x is not None else d`, and `x or d` on an enumeration, whose members are all true
abbrev pub or_default : {A : Type 0} → Option A → A → A
or_default none d = d
or_default (some a) d = a

unfoldable pub apply_to : RequirementContribution → AssuranceRequirement → AssuranceRequirement
unfolding requirement_join
apply_to c requirement = requirement_join requirement (record {
  key_establishment_threats = or_default c.key_establishment_threats no_threats;
  endpoint_authentication_threats = or_default c.endpoint_authentication_threats no_threats;
  contract_evidence_threats = or_default c.contract_evidence_threats no_threats;
  fallback_rule = or_default c.fallback_rule requirement.fallback_rule;
  resumption_rule = or_default c.resumption_rule requirement.resumption_rule;
  lease_strictness = or_default c.lease_strictness requirement.lease_strictness;
})

pub record PolicyRule : Type 0 where
  pub rule_id : String
  pub description : String
  pub condition : TaskRuleCondition
  pub contribution : RequirementContribution

pub record AgentPolicy : Type 0 where
  pub policy_id : String
  pub policy_version : ℕ
  pub agent_id : String
  pub catalog_version : String
  pub base_requirement : AssuranceRequirement
  pub allowed_profile_ids : List String
  pub denied_profile_ids : List String
  pub permitted_endpoint_authentication_modes : Option (List EndpointAuthenticationMode)
  pub permitted_contract_evidence_modes : Option (List ContractEvidenceMode)
  pub rules : List PolicyRule
  pub solver_timeout_ms : ℕ
