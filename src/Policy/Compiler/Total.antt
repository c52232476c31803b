-- ===== src/Policy/Compiler/Total.antt =====
-- `compile_local_policy` of src/pqtrust_agent/policy/compiler.py on a solver that always answers: valid
-- inputs have a result.
use pqtrust_agent_artifact.Prelude.{
  ℕ, suc, ◌+◌, String, true, List, [], length, Option, none, some, ◌≡◌, refl, ap, ◌∙◌, arith,
  sort_by,
}
use pqtrust_agent_artifact.Prelude.Result.{Result, ok, err}
use pqtrust_agent_artifact.Requirement.{AssuranceRequirement}
use pqtrust_agent_artifact.Policy.{TaskDescriptor, AgentPolicy}
use pqtrust_agent_artifact.Policy.Mapper.{Digests, derive_requirement}
use pqtrust_agent_artifact.Policy.Compilation.{
  RejectionCategory, category_eq, CapabilityManifestPayload, ProfileCompilationDecision,
  PolicyCompilationResult, validate_compilation_inputs,
}
use pqtrust_agent_artifact.Policy.Encoding.{build_constraint_encoding}
use pqtrust_agent_artifact.Policy.Compiler.{
  assert_encoding, enumerate_indexes, compile_enumerated, compile_local_policy, int_leb,
  int_list_beq, result_of,
}
use pqtrust_agent_artifact.Policy.Compiler.Encoded.{at_index}
use pqtrust_agent_artifact.Policy.Compiler.Enumerated.{int_eq, int_list_beq_self}
use pqtrust_agent_artifact.Policy.Compiler.Rows.{rows_of, decide_from-rows_of}
use pqtrust_agent_artifact.Policy.Compiler.Returned.{Sound, compile_local_policy-Sound}
use pqtrust_agent_artifact.Protocol.Time.{DateTime}
use pqtrust_agent_artifact.Protocol.Models.{ProfileCatalog}
use pqtrust_agent_artifact.Solver.{ℤ, Solver, Laws}
use pqtrust_agent_artifact.Solver.Meaning.{Decides}
use pqtrust_agent_artifact.Policy.Compiler.Indexes.{enumerated, accepted, enumerated-sorted}

from_zero : (i : ℕ) → 0 + i ≡ i
from_zero i = omega arith

time_value : (m n : ℕ) → ◌≡◌ {A = Result ℕ} (ok m) (ok n) → m ≡ n
time_value m n h = cc

indexes_value :
    (xs ys : List ℤ) → ◌≡◌ {A = Option (Result (List ℤ))} (some (ok xs)) (some (ok ys)) → xs ≡ ys
indexes_value xs ys h = cc

module _ (check : Solver RejectionCategory) (laws : Laws check) (decides : Decides check)
    (d : Digests) (manifest_hash : CapabilityManifestPayload → String)
    (catalog_hash : ProfileCatalog → String) (compilation_hash : PolicyCompilationResult → String)
    (z3_version : String) (catalog : ProfileCatalog) (manifest : CapabilityManifestPayload)
    (policy : AgentPolicy) (task : TaskDescriptor) where
  abbrev derived : AssuranceRequirement
  derived = (derive_requirement d policy task).final_requirement

  abbrev all_rows : List (ℕ × ProfileCompilationDecision)
  all_rows = rows_of check laws decides manifest policy task derived catalog 0 catalog.profiles

  guard_passes :
      (found : List ℤ)
      → sort_by int_leb found ≡ accepted check laws decides manifest policy task derived catalog
      → int_list_beq
          (sort_by int_leb found)
          (accepted check laws decides manifest policy task derived catalog)
        ≡ true
  guard_passes found same =
      ap
        (λ (xs : List ℤ).
          int_list_beq xs (accepted check laws decides manifest policy task derived catalog))
        same
      ∙ int_list_beq_self (accepted check laws decides manifest policy task derived catalog)

  compile_enumerated-returns :
      (normalized : ℕ) (found : List ℤ)
      → sort_by int_leb found ≡ accepted check laws decides manifest policy task derived catalog
      → compile_enumerated check d manifest_hash catalog_hash compilation_hash z3_version catalog
          manifest policy task normalized found
        ≡ ok (
            result_of check d manifest_hash catalog_hash compilation_hash z3_version catalog
              manifest policy task normalized all_rows)
  unfolding compile_enumerated
  compile_enumerated-returns normalized found same =
      let rows =
        decide_from-rows_of check laws decides manifest policy task derived catalog 0
          catalog.profiles
          (λ i q e. ap (λ (n : ℕ). at_index n catalog.profiles) (from_zero i) ∙ e) in
      rw (rows, guard_passes found same) refl

  compile_local_policy-ok :
      (evaluation_time : DateTime) (normalized : ℕ) (found : List ℤ)
      (result : PolicyCompilationResult)
      → validate_compilation_inputs catalog manifest policy evaluation_time ≡ ok normalized
      → enumerate_indexes check
          (suc (length catalog.profiles))
          (assert_encoding (build_constraint_encoding manifest policy task derived catalog))
          []
        ≡ some (ok found)
      → compile_enumerated check d manifest_hash catalog_hash compilation_hash z3_version catalog
          manifest policy task normalized found
        ≡ ok result
      → compile_local_policy check d manifest_hash catalog_hash compilation_hash z3_version catalog
          manifest policy task evaluation_time
        ≡ some (ok result)
  unfolding compile_local_policy
  compile_local_policy-ok evaluation_time normalized found result valid listed compiled =
      go (validate_compilation_inputs catalog manifest policy evaluation_time) _ valid listed
    where
      compile_at : ℕ → List ℤ → Result PolicyCompilationResult
      compile_at =
          compile_enumerated check d manifest_hash catalog_hash compilation_hash z3_version catalog
            manifest policy task

      go :
          (validated : Result ℕ) (enumeration : Option (Result (List ℤ)))
          → validated ≡ ok normalized
          → enumeration ≡ some (ok found)
          → elim validated as (λ v. Option (Result PolicyCompilationResult)) [
            | err e ↦ some (err e)
            | ok n ↦ elim enumeration as (λ e. Option (Result PolicyCompilationResult)) [
              | none ↦ none
              | some (err e) ↦ some (err e)
              | some (ok f) ↦ some (
                  compile_enumerated check d manifest_hash catalog_hash compilation_hash z3_version
                    catalog manifest policy task n f)
            ]
          ]
            ≡ some (ok result)
      go (err e) enumeration v l = absurd (ground arith)
      go (ok n) none v l = absurd (ground arith)
      go (ok n) (some (err e)) v l = absurd (ground arith)
      go (ok n) (some (ok f)) v l = ap some (
          ap (λ (m : ℕ). compile_at m f) (time_value n normalized v)
          ∙ (ap (λ (xs : List ℤ). compile_at normalized xs) (indexes_value f found l) ∙ compiled))

  -- On a solver that always answers, inputs that pass their validation have a result, with the
  -- decisions and the safe profiles that the catalog's profiles deserve.
  pub compile_local_policy-total :
      (evaluation_time : DateTime) (normalized : ℕ)
      → validate_compilation_inputs catalog manifest policy evaluation_time ≡ ok normalized
      → (result : PolicyCompilationResult) × (compile_local_policy check d manifest_hash
            catalog_hash compilation_hash z3_version catalog manifest policy task evaluation_time
          ≡ some (ok result))
        × Sound check laws d manifest_hash catalog_hash compilation_hash z3_version catalog manifest
            policy task result
  compile_local_policy-total evaluation_time normalized valid =
      let (found, listed, is_enumeration) =
        enumerated check laws decides manifest policy task derived catalog in
      let same =
        enumerated-sorted check laws decides manifest policy task derived catalog found
          is_enumeration.once is_enumeration.members in
      let result =
        result_of check d manifest_hash catalog_hash compilation_hash z3_version catalog manifest
          policy task normalized all_rows in
      let returned =
        compile_local_policy-ok evaluation_time normalized found result valid listed
          (compile_enumerated-returns normalized found same) in
      (
        result,
        returned,
        compile_local_policy-Sound check laws d manifest_hash catalog_hash compilation_hash
            z3_version catalog manifest policy task evaluation_time result returned,
      )
