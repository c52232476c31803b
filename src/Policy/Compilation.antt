-- ===== src/Policy/Compilation.antt =====
-- src/pqtrust_agent/models/compilation.py, models/manifest.py and `validate_compilation_inputs` of
-- policy/validation.py: what a compilation reads and returns.
use pqtrust_agent_artifact.Prelude.{
  ℕ, String, Bool, true, ◌||◌, nonempty, not, ◌&&◌, List, [], ◌∷◌, any, contains, ltb, leb, nat_beq,
  Option, Eq, ◌==◌, string_eq, ◌≡◌, ◌↔◌, arith, sort_by, if◌then◌else◌,
}
use pqtrust_agent_artifact.Prelude.Result.{
  Result, ok, err, value_error, policy_compilation_error, ◌>>◌, raise_if,
}
use pqtrust_agent_artifact.Protocol.Time.{DateTime, naive, aware}
use pqtrust_agent_artifact.Protocol.Models.{ProfileCatalog, profile_ids}
use pqtrust_agent_artifact.Policy.{AgentPolicy}
use pqtrust_agent_artifact.Policy.Mapper.{RequirementDerivation}

pub data RejectionCategory : Type 0 where
  capability organization_policy kem_assurance endpoint_authentication contract_evidence fallback
        resumption lease resource_bound :
      RejectionCategory

-- `REJECTION_CATEGORY_ORDER`
abbrev pub rejection_category_order : RejectionCategory → ℕ
rejection_category_order capability = 0
rejection_category_order organization_policy = 1
rejection_category_order kem_assurance = 2
rejection_category_order endpoint_authentication = 3
rejection_category_order contract_evidence = 4
rejection_category_order fallback = 5
rejection_category_order resumption = 6
rejection_category_order lease = 7
rejection_category_order resource_bound = 8

pub category_beq_iff :
    (a b : RejectionCategory)
    → (nat_beq (rejection_category_order a) (rejection_category_order b) ≡ true) ↔ (a ≡ b)
category_beq_iff a b = ground arith

instance abbrev pub category_eq : Eq RejectionCategory
category_eq = record {
  beq = λ a b. nat_beq (rejection_category_order a) (rejection_category_order b);
  beq_iff = category_beq_iff;
}

-- `set(xs)`, an element at its last place.
abbrev pub to_set {ℓ} : {A : Type ℓ} ⦃e : Eq A⦄ → List A → List A
to_set [] = []
to_set (x ∷ xs) = let rest = to_set xs in if contains x xs then rest else x ∷ rest

abbrev pub category_leb : RejectionCategory → RejectionCategory → Bool
category_leb a b = leb (rejection_category_order a) (rejection_category_order b)

unfoldable pub sort_rejection_categories : List RejectionCategory → List RejectionCategory
sort_rejection_categories categories = sort_by category_leb (to_set categories)

pub data ResourceClass : Type 0 where
  cloud enterprise edge_constrained : ResourceClass

pub record CapabilityManifestPayload : Type 0 where
  pub agent_id : String
  pub key_id : String
  pub supported_profile_ids : List String
  pub resource_class : ResourceClass
  pub max_handshake_bytes : Option ℕ
  pub monotonic_version : ℕ
  pub issued_at : ℕ
  pub expires_at : ℕ

pub record ProfileCompilationDecision : Type 0 where
  pub profile_id : String
  pub accepted : Bool
  pub violated_categories : List RejectionCategory
  pub irreducible_unsat_core : List RejectionCategory
  pub solver_status : String

-- The validators of a new `ProfileCompilationDecision`.
unfoldable pub validated_decision : ProfileCompilationDecision → Result ProfileCompilationDecision
validated_decision d =
    let violated = sort_rejection_categories d.violated_categories in
    let core = sort_rejection_categories d.irreducible_unsat_core in
    (if d.accepted
      then raise_if (nonempty violated || nonempty core)
          (value_error "accepted profiles must not carry rejection explanations")
        >> raise_if (not (d.solver_status == "sat"))
            (value_error "accepted profiles must have sat solver status")
      else raise_if (not (d.solver_status == "unsat"))
          (value_error "rejected profiles must have unsat solver status"))
    >> ok (record d { violated_categories = violated; irreducible_unsat_core = core })

pub record PolicyCompilationResult : Type 0 where
  pub z3_version : String
  pub agent_id : String
  pub policy_id : String
  pub policy_version : ℕ
  pub policy_hash : String
  pub manifest_hash : String
  pub task_hash : String
  pub catalog_hash : String
  pub evaluation_time : ℕ
  pub requirement_derivation : RequirementDerivation
  pub safe_profile_ids : List String
  pub profile_decisions : List ProfileCompilationDecision
  pub solver_timeout_ms : ℕ
  pub compilation_hash : String

-- Whether a list of profile identifiers names one that the catalog does not have.
abbrev pub has_unknown : List String → List String → Bool
has_unknown known ids = any (λ p. not (contains p known)) ids

unfoldable pub validate_compilation_inputs :
    ProfileCatalog → CapabilityManifestPayload → AgentPolicy → DateTime → Result ℕ
validate_compilation_inputs catalog manifest policy (naive t) =
    err (policy_compilation_error "evaluation_time must be timezone-aware")
validate_compilation_inputs catalog manifest policy (aware normalized) = do
  raise_if (not (catalog.catalog_version == policy.catalog_version))
      (policy_compilation_error "catalog and policy catalog versions differ")
  raise_if (not (manifest.agent_id == policy.agent_id))
      (policy_compilation_error "manifest and policy agent IDs differ")
  raise_if (leb manifest.monotonic_version 0)
      (policy_compilation_error "manifest monotonic version must be positive")
  raise_if (not (leb manifest.issued_at normalized && ltb normalized manifest.expires_at))
      (policy_compilation_error "manifest is not valid at evaluation_time")
  raise_if (has_unknown (profile_ids catalog) manifest.supported_profile_ids)
      (policy_compilation_error "manifest profile IDs are unknown")
  raise_if (has_unknown (profile_ids catalog) policy.allowed_profile_ids)
      (policy_compilation_error "policy allowed profile IDs are unknown")
  raise_if (has_unknown (profile_ids catalog) policy.denied_profile_ids)
      (policy_compilation_error "policy denied profile IDs are unknown")
  ok normalized
