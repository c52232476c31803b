-- ===== src/Policy/Mapper/Least.antt =====
-- The derived requirement is the least one above the base and every matching contribution.
use pqtrust_agent_artifact.Prelude.{
  ℕ, Option, ◌≡◌, Bool, ◌&&◌, not, ◌||◌, String, List, [], ◌∷◌, ◌++◌, leb, all, all-sort_by,
  sort_by, arith, if◌then◌else◌, none, some,
}
use pqtrust_agent_artifact.Assurance.{
  ThreatSet, is_superset, union, no_threats, fallback_rule_rank, resumption_rule_rank,
  lease_strictness_rank,
}
use pqtrust_agent_artifact.Requirement.{AssuranceRequirement, requirement_dominates}
use pqtrust_agent_artifact.Policy.{
  TaskDescriptor, RequirementContribution, PolicyRule, AgentPolicy, unless_none, or_default,
  matches, apply_to,
}
use pqtrust_agent_artifact.Policy.Mapper.{Digests, rule_leb, derive_loop, derive_requirement}

-- `q` covers every field that the contribution supplies.
pub satisfies : AssuranceRequirement → RequirementContribution → Bool
satisfies q c =
    unless_none c.key_establishment_threats (λ s. is_superset q.key_establishment_threats s)
    && unless_none c.endpoint_authentication_threats
        (λ s. is_superset q.endpoint_authentication_threats s)
    && unless_none c.contract_evidence_threats (λ s. is_superset q.contract_evidence_threats s)
    && unless_none c.fallback_rule
        (λ f. leb (fallback_rule_rank f) (fallback_rule_rank q.fallback_rule))
    && unless_none c.resumption_rule
        (λ f. leb (resumption_rule_rank f) (resumption_rule_rank q.resumption_rule))
    && unless_none c.lease_strictness
        (λ f. leb (lease_strictness_rank f) (lease_strictness_rank q.lease_strictness))

regroup₆ :
    (p₁ q₁ p₂ q₂ p₃ q₃ p₄ q₄ p₅ q₅ p₆ q₆ : Bool)
    → ((p₁ && q₁) && (p₂ && q₂) && (p₃ && q₃) && (p₄ && q₄) && (p₅ && q₅) && (p₆ && q₆))
      ≡ ((p₁ && p₂ && p₃ && p₄ && p₅ && p₆) && (q₁ && q₂ && q₃ && q₄ && q₅ && q₆))
regroup₆ p₁ q₁ p₂ q₂ p₃ q₃ p₄ q₄ p₅ q₅ p₆ q₆ = ground arith

join_threats :
    (q s : ThreatSet) (o : Option ThreatSet)
    → is_superset q (union s (or_default o no_threats))
      ≡ (is_superset q s && unless_none o (λ t. is_superset q t))
join_threats q s none = ground arith
join_threats q s (some t) = ground arith

join_rank :
    {A : Type 0} (ranks : A → ℕ) (q r : A) (o : Option A)
    → leb (ranks (if leb (ranks (or_default o r)) (ranks r) then r else or_default o r)) (ranks q)
      ≡ (leb (ranks r) (ranks q) && unless_none o (λ f. leb (ranks f) (ranks q)))
join_rank ranks q r none = ground arith
join_rank ranks q r (some t) = ground arith

module _ (c : RequirementContribution) (r q : AssuranceRequirement) where
  dominates-apply_to :
      requirement_dominates q (apply_to c r) ≡ (requirement_dominates q r && satisfies q c)
  unfolding requirement_dominates apply_to satisfies
  dominates-apply_to =
      rw
        (
          join_threats q.key_establishment_threats r.key_establishment_threats
              c.key_establishment_threats,
          join_threats q.endpoint_authentication_threats r.endpoint_authentication_threats
              c.endpoint_authentication_threats,
          join_threats q.contract_evidence_threats r.contract_evidence_threats
              c.contract_evidence_threats,
          join_rank fallback_rule_rank q.fallback_rule r.fallback_rule c.fallback_rule,
          join_rank resumption_rule_rank q.resumption_rule r.resumption_rule c.resumption_rule,
          join_rank lease_strictness_rank q.lease_strictness r.lease_strictness c.lease_strictness,
        )
        (search regroup₆)

-- What `q` must cover because of one rule.
abbrev pub covers : AssuranceRequirement → TaskDescriptor → PolicyRule → Bool
covers q task rule = not (matches rule.condition task) || satisfies q rule.contribution

dominates-derive_loop :
    (q : AssuranceRequirement) (task : TaskDescriptor) (rules : List PolicyRule)
    (matched : List String) (r : AssuranceRequirement)
    → requirement_dominates q (derive_loop task rules matched r).1
      ≡ (requirement_dominates q r && all (covers q task) rules)
unfolding derive_loop
dominates-derive_loop q task [] matched r = ground arith
dominates-derive_loop q task (rule ∷ rules) matched r = ground (
  arith,
  dominates-derive_loop q task rules
      (if matches rule.condition task then matched ++ rule.rule_id ∷ [] else matched)
      (if matches rule.condition task then apply_to rule.contribution r else r),
  dominates-apply_to rule.contribution r q,
)

-- A requirement dominates the derived one exactly when it dominates the policy's base requirement
-- and covers the contribution of every rule whose condition matches the task.
pub derive_requirement_least :
    (d : Digests) (policy : AgentPolicy) (task : TaskDescriptor) (q : AssuranceRequirement)
    → requirement_dominates q (derive_requirement d policy task).final_requirement
      ≡ (requirement_dominates q policy.base_requirement && all (covers q task) policy.rules)
unfolding derive_requirement
derive_requirement_least d policy task q = rw (
  dominates-derive_loop q task (sort_by rule_leb policy.rules) [] policy.base_requirement,
  all-sort_by rule_leb (covers q task) policy.rules,
)
