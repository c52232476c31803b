-- ===== src/Policy/Compiler.antt =====
-- src/pqtrust_agent/policy/compiler.py: the local safe set of one agent. Z3's check is the parameter
-- `check`; the digests and the solver's version are parameters too. A status that is sat carries
-- the model's value of the index, which is an integer numeral under model completion.
pub mod Encoded
pub mod Core
pub mod Minimal
pub mod Decisions
pub mod Returned
pub mod Enumeration
pub mod Enumerated
pub mod Accepted
pub mod Rows
pub mod Indexes
pub mod Total
use pqtrust_agent_artifact.Prelude.{
  ℕ, zero, suc, String, Bool, true, false, not, ◌&&◌, List, [], ◌∷◌, ◌++◌, map, keep, length,
  nonempty, contains, leb, Option, none, some, ◌==◌, sort_by, if◌then◌else◌,
}
use pqtrust_agent_artifact.Prelude.Result.{
  Result, ok, err, policy_compilation_error, ◌>>=◌, ◌>>◌, raise_if,
}
use pqtrust_agent_artifact.Protocol.Time.{DateTime}
use pqtrust_agent_artifact.Protocol.Models.{TrustProfile, ProfileCatalog}
use pqtrust_agent_artifact.Requirement.{AssuranceRequirement}
use pqtrust_agent_artifact.Policy.{TaskDescriptor, AgentPolicy}
use pqtrust_agent_artifact.Policy.Mapper.{Digests, RequirementDerivation, derive_requirement}
use pqtrust_agent_artifact.Policy.Compilation.{
  RejectionCategory, capability, organization_policy, kem_assurance, endpoint_authentication,
  contract_evidence, fallback, resumption, lease, resource_bound, category_eq, category_leb,
  sort_rejection_categories, CapabilityManifestPayload, ProfileCompilationDecision,
  validated_decision, PolicyCompilationResult, validate_compilation_inputs,
}
use pqtrust_agent_artifact.Policy.Encoding.{
  ConstraintEncoding, build_constraint_encoding, profile_violated_categories,
}
use pqtrust_agent_artifact.Solver.{
  ℤ, pos, negsuc, int_beq, index_eq, index_ne, Assertion, plain, under, Status, sat, unsat, unknown,
  Solver,
}

abbrev pub all_categories : List RejectionCategory
all_categories =
    capability ∷ organization_policy ∷ kem_assurance ∷ endpoint_authentication ∷ contract_evidence
    ∷ fallback ∷ resumption ∷ lease ∷ resource_bound ∷ []

unfoldable pub canonical_categories : List RejectionCategory
canonical_categories = keep (λ c. not (c == resource_bound)) (sort_by category_leb all_categories)

unfoldable pub assert_encoding : ConstraintEncoding → List (Assertion RejectionCategory)
assert_encoding encoding = map (λ e. under e.0 e.1) encoding

-- `selected_profile_index == profile_index`, added to the encoding.
abbrev pub pinned : ConstraintEncoding → ℕ → List (Assertion RejectionCategory)
pinned encoding profile_index =
    assert_encoding encoding ++ (plain (index_eq (pos profile_index)) ∷ [])

abbrev pub accepted_decision : String → ProfileCompilationDecision
accepted_decision profile_id = record {
  profile_id = profile_id;
  accepted = true;
  violated_categories = [];
  irreducible_unsat_core = [];
  solver_status = "sat";
}

abbrev pub rejected_decision :
    String → (violated core : List RejectionCategory) → ProfileCompilationDecision
rejected_decision profile_id violated core = record {
  profile_id = profile_id;
  accepted = false;
  violated_categories = violated;
  irreducible_unsat_core = core;
  solver_status = "unsat";
}

-- `independently_accepted`, as the rows of the accepted profiles.
abbrev pub accepted_rows :
    List (ℕ × ProfileCompilationDecision) → List (ℕ × ProfileCompilationDecision)
accepted_rows = keep (λ row. row.1.accepted)

abbrev int_leb : ℤ → ℤ → Bool
int_leb (pos m) (pos n) = leb m n
int_leb (negsuc m) (negsuc n) = leb n m
int_leb (negsuc m) (pos n) = true
int_leb (pos m) (negsuc n) = false

abbrev int_list_beq : List ℤ → List ℤ → Bool
int_list_beq [] [] = true
int_list_beq (x ∷ xs) (y ∷ ys) = int_beq x y && int_list_beq xs ys
int_list_beq _ _ = false

module _ (check : Solver RejectionCategory) where
  -- `_check_status`: `some` with the model's index for "sat", `none` for "unsat".
  unfoldable pub check_status :
      List (Assertion RejectionCategory) → List RejectionCategory → Result (Option ℤ)
  check_status assertions assumptions = elim (check assertions assumptions) [
    | sat i ↦ ok (some i)
    | unsat core ↦ ok none
    | unknown ↦ err (policy_compilation_error "Z3 returned unknown")
  ]

  -- The loop of `_minimize_core` over the categories.
  unfoldable pub minimize_loop :
      ConstraintEncoding
      → ℕ
      → List RejectionCategory
      → List RejectionCategory
      → Result (List RejectionCategory)
  minimize_loop encoding profile_index [] remaining = ok remaining
  minimize_loop encoding profile_index (category ∷ categories) remaining =
      let trial = keep (λ item. not (item == category)) remaining in
      let unchanged = minimize_loop encoding profile_index categories remaining in
      let tried = check_status (pinned encoding profile_index) trial >>= λ status.
      minimize_loop encoding profile_index categories
        (elim status [ none ↦ trial | some i ↦ remaining ]) in
      if contains category remaining then tried else unchanged

  unfoldable pub minimize_core :
      ConstraintEncoding → ℕ → List RejectionCategory → Result (List RejectionCategory)
  minimize_core encoding profile_index categories =
      minimize_loop encoding profile_index canonical_categories categories >>= λ remaining.
      ok (sort_rejection_categories remaining)

  unfoldable pub candidate_status : ConstraintEncoding → ℕ → Result (Option ℤ)
  candidate_status encoding profile_index =
      check_status (pinned encoding profile_index) canonical_categories

  -- The enumeration, on fuel: each round adds `selected_profile_index != profile_index`.
  unfoldable pub enumerate_indexes :
      ℕ → List (Assertion RejectionCategory) → List ℤ → Option (Result (List ℤ))
  enumerate_indexes zero assertions found = none
  enumerate_indexes (suc fuel) assertions found =
      elim (check_status assertions canonical_categories) [
        | err e ↦ some (err e)
        | ok none ↦ some (ok found)
        | ok (some i) ↦
            enumerate_indexes fuel (assertions ++ (plain (index_ne i) ∷ [])) (found ++ (i ∷ []))
      ]

  module _ (manifest : CapabilityManifestPayload) (policy : AgentPolicy) (task : TaskDescriptor)
      (requirement : AssuranceRequirement) (encoding : ConstraintEncoding) where
    -- The branch of a profile whose constraints are unsatisfiable.
    unfoldable pub reject_profile : ℕ → TrustProfile → Result ProfileCompilationDecision
    reject_profile index profile =
        let violated =
          sort_rejection_categories
            (profile_violated_categories manifest policy task requirement profile) in
        raise_if (not (nonempty violated))
          (policy_compilation_error "candidate is unsat without public violations")
        >> (minimize_core encoding index violated >>= λ core.
            validated_decision (rejected_decision profile.profile_id violated core))

    -- The body of the loop over the catalog's profiles.
    unfoldable pub decide_profile : ℕ → TrustProfile → Result ProfileCompilationDecision
    decide_profile index profile = do
      status ← candidate_status encoding index
      elim status [
        | some i ↦ validated_decision (accepted_decision profile.profile_id)
        | none ↦ reject_profile index profile
      ]

    unfoldable pub decide_from :
        ℕ → List TrustProfile → Result (List (ℕ × ProfileCompilationDecision))
    decide_from index [] = ok []
    decide_from index (profile ∷ profiles) = do
      decision ← decide_profile index profile
      rest ← decide_from (suc index) profiles
      ok ((index, decision) ∷ rest)

  module _ (d : Digests) (manifest_hash : CapabilityManifestPayload → String)
      (catalog_hash : ProfileCatalog → String) (compilation_hash : PolicyCompilationResult → String)
      (z3_version : String) where
    -- The result of the rows, with its digest.
    abbrev pub result_of :
        ProfileCatalog
        → CapabilityManifestPayload
        → AgentPolicy
        → TaskDescriptor
        → (normalized_time : ℕ) → List (ℕ × ProfileCompilationDecision)
        → PolicyCompilationResult
    result_of catalog manifest policy task normalized_time rows =
        let result : PolicyCompilationResult = record {
          z3_version = z3_version;
          agent_id = policy.agent_id;
          policy_id = policy.policy_id;
          policy_version = policy.policy_version;
          policy_hash = d.policy_hash policy;
          manifest_hash = manifest_hash manifest;
          task_hash = d.context_hash task;
          catalog_hash = catalog_hash catalog;
          evaluation_time = normalized_time;
          requirement_derivation = derive_requirement d policy task;
          safe_profile_ids = map (λ row. row.1.profile_id) (accepted_rows rows);
          profile_decisions = map (λ row. row.1) rows;
          solver_timeout_ms = policy.solver_timeout_ms;
          compilation_hash = "";
        } in
        record result { compilation_hash = compilation_hash result }

    -- Everything after the enumeration.
    unfoldable pub compile_enumerated :
        ProfileCatalog
        → CapabilityManifestPayload
        → AgentPolicy
        → TaskDescriptor
        → (normalized_time : ℕ) (enumerated : List ℤ) → Result PolicyCompilationResult
    compile_enumerated catalog manifest policy task normalized_time enumerated = do
      let derivation = derive_requirement d policy task
      let requirement = derivation.final_requirement
      let encoding = build_constraint_encoding manifest policy task requirement catalog
      rows ← decide_from manifest policy task requirement encoding 0 catalog.profiles
      raise_if
          (not (
            int_list_beq (sort_by int_leb enumerated)
              (map (λ row. pos row.0) (accepted_rows rows))))
          (policy_compilation_error "Z3 enumeration and independent candidate checks differ")
      ok (result_of catalog manifest policy task normalized_time rows)

    -- One round for each profile and one for the last answer.
    unfoldable pub compile_local_policy :
        ProfileCatalog
        → CapabilityManifestPayload
        → AgentPolicy
        → TaskDescriptor
        → DateTime
        → Option (Result PolicyCompilationResult)
    compile_local_policy catalog manifest policy task evaluation_time =
        elim (validate_compilation_inputs catalog manifest policy evaluation_time) [
          | err e ↦ some (err e)
          | ok normalized ↦
              let derivation = derive_requirement d policy task in
              let encoding =
                build_constraint_encoding manifest policy task derivation.final_requirement
                  catalog in
              elim (enumerate_indexes (suc (length catalog.profiles)) (assert_encoding encoding)
                []) [
                  | none ↦ none
                  | some (err e) ↦ some (err e)
                  | some (ok enumerated) ↦
                      some (compile_enumerated catalog manifest policy task normalized enumerated)
                ]
        ]
