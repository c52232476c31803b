-- ===== src/Policy/Mapper/Monotone.antt =====
-- The mapper is monotone in the task: what `validate_mapper_monotonicity` samples holds throughout.
use pqtrust_agent_artifact.Prelude.{
  ℕ, Option, ◌≡◌, ◌≤◌, refl, Bool, true, ◌&&◌, List, [], ◌∷◌, leb, all, arith, none, some,
}
use pqtrust_agent_artifact.Requirement.{AssuranceRequirement, requirement_dominates}
use pqtrust_agent_artifact.Requirement.Order.{requirement_dominates_refl}
use pqtrust_agent_artifact.Policy.{
  task_sensitivity_rank, operational_impact_rank, confidentiality_horizon_rank, TaskDescriptor,
  TaskRuleCondition, PolicyRule, AgentPolicy, unless_none, matches,
}
use pqtrust_agent_artifact.Policy.Mapper.{Digests, derive_requirement}
use pqtrust_agent_artifact.Policy.Mapper.Least.{covers, derive_requirement_least}

-- `high` is at least as demanding as `low` in each ordered field, and agrees in the others.
pub record TaskLe (low high : TaskDescriptor) : Type 0 where
  pub sensitivity : task_sensitivity_rank low.sensitivity ≤ task_sensitivity_rank high.sensitivity
  pub impact :
      operational_impact_rank low.operational_impact
      ≤ operational_impact_rank high.operational_impact
  pub horizon :
      confidentiality_horizon_rank low.confidentiality_horizon
      ≤ confidentiality_horizon_rank high.confidentiality_horizon
  pub delegation : low.delegation_depth ≤ high.delegation_depth
  pub session : low.expected_session_seconds ≤ high.expected_session_seconds
  pub network : low.network_class ≡ high.network_class
  pub organization : low.organization_policy_class ≡ high.organization_policy_class

and_true₇ :
    (p q r s t u v : Bool)
    → (p && q && r && s && t && u && v) ≡ true
    → (p ≡ true) × (q ≡ true) × (r ≡ true) × (s ≡ true) × (t ≡ true) × (u ≡ true) × (v ≡ true)
and_true₇ p q r s t u v h = ground arith

unless_none_mono :
    {A : Type 0} (o : Option A) (f g : A → Bool)
    → ((a : A) → f a ≡ true → g a ≡ true)
    → unless_none o f ≡ true
    → unless_none o g ≡ true
unless_none_mono none f g k h = refl
unless_none_mono (some a) f g k h = k a h

-- A bound that the lower rank reaches is reached by the higher one.
unless_none-leb :
    {A : Type 0} (rank : A → ℕ) (o : Option A) (m n : ℕ)
    → m ≤ n
    → unless_none o (λ a. leb (rank a) m) ≡ true
    → unless_none o (λ a. leb (rank a) n) ≡ true
unless_none-leb rank o m n h = unless_none_mono o _ _ (λ a k. ground arith)

matches_mono :
    (c : TaskRuleCondition) (low high : TaskDescriptor)
    → TaskLe low high
    → matches c low ≡ true
    → matches c high ≡ true
unfolding matches
matches_mono c low high h m =
    let (a, b, d, e, f, g, i) = and_true₇ _ _ _ _ _ _ _ m in
    rw
      (
        unless_none-leb task_sensitivity_rank c.minimum_sensitivity _
            (task_sensitivity_rank high.sensitivity) h.sensitivity a,
        unless_none-leb operational_impact_rank c.minimum_operational_impact _
            (operational_impact_rank high.operational_impact) h.impact b,
        unless_none-leb confidentiality_horizon_rank c.minimum_confidentiality_horizon _
            (confidentiality_horizon_rank high.confidentiality_horizon) h.horizon d,
        unless_none-leb (λ n. n) c.minimum_delegation_depth _ high.delegation_depth h.delegation e,
        unless_none-leb (λ n. n) c.minimum_expected_session_seconds _ high.expected_session_seconds
            h.session f,
      )
      (rw (← h.network, ← h.organization, g, i))

all-covers_mono :
    (q : AssuranceRequirement) (low high : TaskDescriptor) (rules : List PolicyRule)
    → TaskLe low high
    → all (covers q high) rules ≡ true
    → all (covers q low) rules ≡ true
all-covers_mono q low high [] h a = refl
all-covers_mono q low high (r ∷ rs) h a =
    ground (arith, matches_mono r.condition low high h, all-covers_mono q low high rs h)

-- Of two tasks with the same network and organisation class, the one that is at least as demanding
-- in every ordered field gets a requirement that dominates the other's, under every policy.
pub derive_requirement_mono :
    (d : Digests) (policy : AgentPolicy) (low high : TaskDescriptor)
    → TaskLe low high
    → requirement_dominates
        (derive_requirement d policy high).final_requirement
        (derive_requirement d policy low).final_requirement
      ≡ true
derive_requirement_mono d policy low high h =
    let q = (derive_requirement d policy high).final_requirement in
    ground (
      arith,
      derive_requirement_least d policy low q,
      derive_requirement_least d policy high q,
      requirement_dominates_refl q,
      all-covers_mono q low high policy.rules h,
    )
