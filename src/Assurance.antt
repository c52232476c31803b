-- ===== src/Assurance.antt =====
-- src/pqtrust_agent/models/common.py: the enumerations of the assurance dimensions with their
-- ranks, and the assurance vector; src/pqtrust_agent/assurance/order.py: the order on vectors.
-- A frozenset of the two threat classes is its pair of membership bits.
pub mod Order
use pqtrust_agent_artifact.Prelude.{
  ℕ, Bool, true, false, not, ◌&&◌, ◌||◌, leb, nat_beq, if◌then◌else◌,
}

pub data ThreatClass : Type 0 where
  classical quantum : ThreatClass

pub data EndpointAuthenticationMode : Type 0 where
  classical_x509 dual_x509_mldsa pq_mldsa : EndpointAuthenticationMode

pub data ContractEvidenceMode : Type 0 where
  mldsa65 mldsa87 : ContractEvidenceMode

pub data EvidenceAlgorithm : Type 0 where
  ml_dsa_65 ml_dsa_87 : EvidenceAlgorithm

pub data FallbackRule : Type 0 where
  low_risk_only explicit_only forbidden : FallbackRule

pub data ResumptionRule : Type 0 where
  context_bound contract_bound forbidden : ResumptionRule

pub data LeaseStrictness : Type 0 where
  long medium short : LeaseStrictness

-- `FALLBACK_RULE_RANK`
abbrev pub fallback_rule_rank : FallbackRule → ℕ
fallback_rule_rank FallbackRule.low_risk_only = 0
fallback_rule_rank FallbackRule.explicit_only = 1
fallback_rule_rank FallbackRule.forbidden = 2

-- `RESUMPTION_RULE_RANK`
abbrev pub resumption_rule_rank : ResumptionRule → ℕ
resumption_rule_rank ResumptionRule.context_bound = 0
resumption_rule_rank ResumptionRule.contract_bound = 1
resumption_rule_rank ResumptionRule.forbidden = 2

-- `LEASE_STRICTNESS_RANK`
abbrev pub lease_strictness_rank : LeaseStrictness → ℕ
lease_strictness_rank LeaseStrictness.long = 0
lease_strictness_rank LeaseStrictness.medium = 1
lease_strictness_rank LeaseStrictness.short = 2

abbrev pub algorithm_for_contract_evidence : ContractEvidenceMode → EvidenceAlgorithm
algorithm_for_contract_evidence mldsa65 = ml_dsa_65
algorithm_for_contract_evidence mldsa87 = ml_dsa_87

pub record ThreatSet : Type 0 where
  pub has_classical : Bool
  pub has_quantum : Bool

abbrev pub no_threats : ThreatSet
no_threats = record { has_classical = false; has_quantum = false }

abbrev pub all_threats : ThreatSet
all_threats = record { has_classical = true; has_quantum = true }

-- `t in s`
abbrev pub threat_mem : ThreatClass → ThreatSet → Bool
threat_mem classical s = s.has_classical
threat_mem quantum s = s.has_quantum

abbrev pub implies : Bool → Bool → Bool
implies a b = not a || b

abbrev pub is_superset : ThreatSet → ThreatSet → Bool
is_superset s t = implies t.has_classical s.has_classical && implies t.has_quantum s.has_quantum

abbrev pub union : ThreatSet → ThreatSet → ThreatSet
union s t = record {
  has_classical = s.has_classical || t.has_classical;
  has_quantum = s.has_quantum || t.has_quantum;
}

abbrev pub intersection : ThreatSet → ThreatSet → ThreatSet
intersection s t = record {
  has_classical = s.has_classical && t.has_classical;
  has_quantum = s.has_quantum && t.has_quantum;
}

pub record AssuranceVector : Type 0 where
  pub key_establishment_threats : ThreatSet
  pub endpoint_authentication_threats : ThreatSet
  pub contract_evidence_threats : ThreatSet
  pub fallback_rule : FallbackRule
  pub resumption_rule : ResumptionRule
  pub lease_strictness : LeaseStrictness

module _ {A : Type 0} (ranks : A → ℕ) where
  abbrev pub rank_dominates : A → A → Bool
  rank_dominates left right = leb (ranks right) (ranks left)

  abbrev pub rank_join : A → A → A
  rank_join left right = if leb (ranks right) (ranks left) then left else right

  abbrev pub rank_meet : A → A → A
  rank_meet left right = if leb (ranks left) (ranks right) then left else right

unfoldable pub dominates : AssuranceVector → AssuranceVector → Bool
dominates left right =
    is_superset left.key_establishment_threats right.key_establishment_threats
    && is_superset left.endpoint_authentication_threats right.endpoint_authentication_threats
    && is_superset left.contract_evidence_threats right.contract_evidence_threats
    && rank_dominates fallback_rule_rank left.fallback_rule right.fallback_rule
    && rank_dominates resumption_rule_rank left.resumption_rule right.resumption_rule
    && rank_dominates lease_strictness_rank left.lease_strictness right.lease_strictness

abbrev pub bool_beq : Bool → Bool → Bool
bool_beq true b = b
bool_beq false b = not b

abbrev pub threats_beq : ThreatSet → ThreatSet → Bool
threats_beq s t = bool_beq s.has_classical t.has_classical && bool_beq s.has_quantum t.has_quantum

abbrev pub rank_beq : {A : Type 0} → (A → ℕ) → A → A → Bool
rank_beq ranks a b = nat_beq (ranks a) (ranks b)

-- The generated `__eq__` of the frozen dataclass: field by field.
unfoldable pub vector_beq : AssuranceVector → AssuranceVector → Bool
vector_beq left right =
    threats_beq left.key_establishment_threats right.key_establishment_threats
    && threats_beq left.endpoint_authentication_threats right.endpoint_authentication_threats
    && threats_beq left.contract_evidence_threats right.contract_evidence_threats
    && rank_beq fallback_rule_rank left.fallback_rule right.fallback_rule
    && rank_beq resumption_rule_rank left.resumption_rule right.resumption_rule
    && rank_beq lease_strictness_rank left.lease_strictness right.lease_strictness

pub strictly_dominates : AssuranceVector → AssuranceVector → Bool
strictly_dominates left right = not (vector_beq left right) && dominates left right

pub comparable : AssuranceVector → AssuranceVector → Bool
comparable left right = dominates left right || dominates right left

unfoldable pub assurance_join : AssuranceVector → AssuranceVector → AssuranceVector
assurance_join left right = record {
  key_establishment_threats = union left.key_establishment_threats right.key_establishment_threats;
  endpoint_authentication_threats =
      union left.endpoint_authentication_threats right.endpoint_authentication_threats;
  contract_evidence_threats = union left.contract_evidence_threats right.contract_evidence_threats;
  fallback_rule = rank_join fallback_rule_rank left.fallback_rule right.fallback_rule;
  resumption_rule = rank_join resumption_rule_rank left.resumption_rule right.resumption_rule;
  lease_strictness = rank_join lease_strictness_rank left.lease_strictness right.lease_strictness;
}

pub assurance_meet : AssuranceVector → AssuranceVector → AssuranceVector
assurance_meet left right = record {
  key_establishment_threats =
      intersection left.key_establishment_threats right.key_establishment_threats;
  endpoint_authentication_threats =
      intersection left.endpoint_authentication_threats right.endpoint_authentication_threats;
  contract_evidence_threats =
      intersection left.contract_evidence_threats right.contract_evidence_threats;
  fallback_rule = rank_meet fallback_rule_rank left.fallback_rule right.fallback_rule;
  resumption_rule = rank_meet resumption_rule_rank left.resumption_rule right.resumption_rule;
  lease_strictness = rank_meet lease_strictness_rank left.lease_strictness right.lease_strictness;
}
