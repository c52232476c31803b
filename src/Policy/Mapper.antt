-- ===== src/Policy/Mapper.antt =====
-- src/pqtrust_agent/policy/mapper.py: the requirement that a policy derives for a task. The three
-- digests are functions of the hashed values, since RFC 8785 and SHA-256 are not the program's.
pub mod Least
pub mod Monotone
use pqtrust_agent_artifact.Prelude.{
  ℕ, String, Bool, List, [], ◌∷◌, ◌++◌, if◌then◌else◌, sort_by, string_leb,
}
use pqtrust_agent_artifact.Requirement.{AssuranceRequirement}
use pqtrust_agent_artifact.Policy.{
  TaskDescriptor, PolicyRule, AgentPolicy, matches, RequirementContribution, apply_to,
}

pub record RequirementDerivation : Type 0 where
  pub agent_id : String
  pub policy_id : String
  pub policy_version : ℕ
  pub policy_hash : String
  pub task_hash : String
  pub base_requirement : AssuranceRequirement
  pub matched_rule_ids : List String
  pub final_requirement : AssuranceRequirement
  pub derivation_hash : String

-- The digests of a policy, a task and a derivation record.
pub record Digests : Type 0 where
  pub policy_hash : AgentPolicy → String
  pub context_hash : TaskDescriptor → String
  pub derivation_hash : RequirementDerivation → String

abbrev rule_leb : PolicyRule → PolicyRule → Bool
rule_leb a b = string_leb a.rule_id b.rule_id

-- The loop over the sorted rules, with the matched rules so far and the requirement.
unfoldable pub derive_loop :
    TaskDescriptor
    → List PolicyRule
    → List String
    → AssuranceRequirement
    → List String × AssuranceRequirement
derive_loop task [] matched requirement = (matched, requirement)
derive_loop task (rule ∷ rules) matched requirement =
    derive_loop task rules
      (if matches rule.condition task then matched ++ rule.rule_id ∷ [] else matched)
      (if matches rule.condition task then apply_to rule.contribution requirement else requirement)

unfoldable pub derive_requirement : Digests → AgentPolicy → TaskDescriptor → RequirementDerivation
derive_requirement d policy task =
    let (matched, requirement) =
      derive_loop task (sort_by rule_leb policy.rules) [] policy.base_requirement in
    let payload : RequirementDerivation = record {
      agent_id = policy.agent_id;
      policy_id = policy.policy_id;
      policy_version = policy.policy_version;
      policy_hash = d.policy_hash policy;
      task_hash = d.context_hash task;
      base_requirement = policy.base_requirement;
      matched_rule_ids = matched;
      final_requirement = requirement;
      derivation_hash = "";
    } in
    record payload { derivation_hash = d.derivation_hash payload }
