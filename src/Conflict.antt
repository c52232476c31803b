-- ===== src/Conflict.antt =====
-- src/pqtrust_agent/models/conflict.py: the constraints of an infeasible negotiation and its
-- certificate. Digests are parameters. `V` is the type of a constraint's expected value, which the
-- program only hashes.
pub mod Constraints
pub mod Core
pub mod Possible
pub mod Certificate
pub mod Remediation
pub mod Abort
pub mod Checks
pub mod SafeSets
use pqtrust_agent_artifact.Prelude.{
  ℕ, zero, suc, ◌+◌, ◌*◌, ◌-◌, String, Bool, true, false, not, ◌&&◌, ◌||◌, List, [], ◌∷◌, map, all,
  contains, distinct, nonempty, ltb, leb, nat_beq, Option, none, some, Eq, ◌==◌, string_eq,
  string_leb, codes, sort_by, ◌≡◌, ◌↔◌, arith, if◌then◌else◌,
}
use pqtrust_agent_artifact.Prelude.Result.{Result, ok, err, value_error, ◌>>=◌, ◌>>◌, raise_if}

pub data ConstraintSourceType : Type 0 where
  manifest private_policy task trust_profile protocol : ConstraintSourceType

pub data FeasibilityStatus : Type 0 where
  feasible empty_bilateral_profile_intersection hard_policy_conflict expired_or_invalid_evidence
        malformed_negotiation_input protocol_integrity_failure :
      FeasibilityStatus

pub data ConflictCategory : Type 0 where
  no_common_profile assurance_floor_conflict capability_mismatch endpoint_authentication_conflict
        tls_group_conflict contract_evidence_conflict fallback_policy_conflict
        resumption_policy_conflict lease_conflict resource_limit_conflict multi_cause_conflict :
      ConflictCategory

abbrev category_code : ConflictCategory → ℕ
category_code no_common_profile = 0
category_code assurance_floor_conflict = 1
category_code capability_mismatch = 2
category_code endpoint_authentication_conflict = 3
category_code tls_group_conflict = 4
category_code contract_evidence_conflict = 5
category_code fallback_policy_conflict = 6
category_code resumption_policy_conflict = 7
category_code lease_conflict = 8
category_code resource_limit_conflict = 9
category_code multi_cause_conflict = 10

pub conflict_beq_iff :
    (a b : ConflictCategory) → (nat_beq (category_code a) (category_code b) ≡ true) ↔ (a ≡ b)
conflict_beq_iff a b = ground arith

abbrev pub conflict_beq : ConflictCategory → ConflictCategory → Bool
conflict_beq a b = nat_beq (category_code a) (category_code b)

instance abbrev pub conflict_eq : Eq ConflictCategory
conflict_eq = record { beq = conflict_beq; beq_iff = conflict_beq_iff }

pub record NamedConstraint (V : Type 0) : Type 0 where
  pub constraint_id : String
  pub source_agent_id : String
  pub source_type : ConstraintSourceType
  pub category : String
  pub attribute : String
  pub operator : String
  pub expected_value : V
  pub profile_scope : List String
  pub hard : Bool
  pub negotiable : Bool
  pub source_hash : String
  pub human_explanation : String

-- `int(suffix)` of decimal digits, or nothing where `suffix.isdigit()` fails; a profile identifier
-- has ASCII characters alone.
abbrev digits_from : ℕ → List ℕ → Option ℕ
digits_from n [] = some n
digits_from n (c ∷ cs) =
    let more = digits_from (n * 10 + (c - 48)) cs in if leb 48 c && leb c 57 then more else none

abbrev suffix_number : List ℕ → Option ℕ
suffix_number [] = none
suffix_number (first ∷ []) = none
suffix_number (first ∷ c ∷ cs) = digits_from 0 (c ∷ cs)

abbrev pub profile_sort_key : String → ℕ × String
profile_sort_key profile_id = elim (suffix_number (codes profile_id)) [
  | some n ↦ (n, profile_id)
  | none ↦ (1000000000, profile_id)
]

abbrev pub profile_leb : String → String → Bool
profile_leb p q =
    let (m, s) = profile_sort_key p in
    let (n, t) = profile_sort_key q in ltb m n || nat_beq m n && string_leb s t

-- The validator of a field of profile identifiers.
unfoldable pub coerce_profiles : List String → Result (List String)
coerce_profiles items =
    raise_if (not (distinct items)) (value_error "duplicate profile IDs")
    >> ok (sort_by profile_leb items)

-- The validators of a new `NamedConstraint`.
unfoldable pub validated_constraint : {V : Type 0} → NamedConstraint V → Result (NamedConstraint V)
validated_constraint c = do
  scope ← coerce_profiles c.profile_scope
  raise_if (not c.hard) (value_error "Stage 6 conflict constraints must be hard constraints")
  ok (record c { profile_scope = scope })

pub record MinimalConflictCertificate (V : Type 0) : Type 0 where
  pub certificate_id : String
  pub session_id : String
  pub initiator_agent_id : String
  pub responder_agent_id : String
  pub scenario_hash : String
  pub task_hash : String
  pub catalog_hash : String
  pub initiator_manifest_hash : String
  pub responder_manifest_hash : String
  pub initiator_policy_compilation_hash : String
  pub responder_policy_compilation_hash : String
  pub commit_reveal_transcript_hash : String
  pub candidate_profile_universe : List String
  pub initiator_local_safe_set : List String
  pub responder_local_safe_set : List String
  pub common_safe_set : List String
  pub feasibility_status : FeasibilityStatus
  pub conflict_category : ConflictCategory
  pub conflict_constraints : List (NamedConstraint V)
  pub original_constraint_count : ℕ
  pub z3_unsat_core_size : ℕ
  pub ius_size : ℕ
  pub solver_call_count : ℕ
  pub issued_at : ℕ
  pub verification_hash : String
