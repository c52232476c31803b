-- ===== src/Policy/Compiler/Returned.antt =====
-- The result of `compile_local_policy` in src/pqtrust_agent/policy/compiler.py, when it returns one.
use pqtrust_agent_artifact.Prelude.{
  ℕ, suc, ◌+◌, String, Bool, List, [], ◌∷◌, map, keep, length, Option, none, some, ◌≡◌, inl, inr,
  refl, ap, sym, ◌∙◌, arith, Bool-cases,
}
use pqtrust_agent_artifact.Prelude.Result.{Result, ok, err, >>=-eq-ok, raise_if-eq-ok}
use pqtrust_agent_artifact.Requirement.{AssuranceRequirement}
use pqtrust_agent_artifact.Policy.{TaskDescriptor, AgentPolicy}
use pqtrust_agent_artifact.Policy.Mapper.{Digests, derive_requirement}
use pqtrust_agent_artifact.Policy.Compilation.{
  RejectionCategory, category_eq, CapabilityManifestPayload, ProfileCompilationDecision,
  PolicyCompilationResult, validate_compilation_inputs,
}
use pqtrust_agent_artifact.Policy.Encoding.{build_constraint_encoding}
use pqtrust_agent_artifact.Policy.Compiler.{
  accepted_rows, compile_enumerated, compile_local_policy, enumerate_indexes, assert_encoding,
}
use pqtrust_agent_artifact.Policy.Compiler.Encoded.{at_index}
use pqtrust_agent_artifact.Policy.Compiler.Decisions.{
  is_safe, decision_of, decide_from_lem, if_false,
}
use pqtrust_agent_artifact.Policy.Compiler.Minimal.{if_true}
use pqtrust_agent_artifact.Protocol.Time.{DateTime}
use pqtrust_agent_artifact.Protocol.Models.{TrustProfile, ProfileCatalog}
use pqtrust_agent_artifact.Solver.{ℤ, Solver, Laws}

result_value :
    (r s : PolicyCompilationResult) → ◌≡◌ {A = Result PolicyCompilationResult} (ok r) (ok s) → r ≡ s
result_value r s h = cc

returned_value :
    (r s : Result PolicyCompilationResult)
    → ◌≡◌ {A = Option (Result PolicyCompilationResult)} (some r) (some s)
    → r ≡ s
returned_value r s h = cc

from_zero : (i : ℕ) → 0 + i ≡ i
from_zero i = omega arith

-- The accepted rows name the accepted decisions.
accepted_ids :
    (rows : List (ℕ × ProfileCompilationDecision))
    → map (λ row. row.1.profile_id) (accepted_rows rows)
      ≡ map
          (λ (e : ProfileCompilationDecision). e.profile_id)
          (keep (λ e. e.accepted) (map (λ row. row.1) rows))
accepted_ids [] = refl
accepted_ids (row ∷ rows) = ground (arith, accepted_ids rows)

map-keep-map :
    {A B : Type 0} (f : A → B) (accepted : B → Bool) (name : B → String) (safe : A → Bool)
    (named : A → String)
    → ((x : A) → accepted (f x) ≡ safe x)
    → ((x : A) → name (f x) ≡ named x)
    → (xs : List A) → map name (keep accepted (map f xs)) ≡ map named (keep safe xs)
map-keep-map f accepted name safe named same_test same_name [] = refl
map-keep-map f accepted name safe named same_test same_name (x ∷ xs) = ground (
  arith,
  same_test x,
  same_name x,
  map-keep-map f accepted name safe named same_test same_name xs,
)

module _ (manifest : CapabilityManifestPayload) (policy : AgentPolicy) (task : TaskDescriptor)
    (requirement : AssuranceRequirement) where
  pub decision-accepted :
      (p : TrustProfile)
      → (decision_of manifest policy task requirement p).accepted
        ≡ is_safe manifest policy task requirement p
  decision-accepted p = elim (Bool-cases (is_safe manifest policy task requirement p)) [
    | inl safe ↦ ap (λ (e : ProfileCompilationDecision). e.accepted) (if_true _ _ _ safe) ∙ sym safe
    | inr unsafe ↦
        ap (λ (e : ProfileCompilationDecision). e.accepted) (if_false _ _ _ unsafe) ∙ sym unsafe
  ]

  decision-profile_id :
      (p : TrustProfile)
      → (decision_of manifest policy task requirement p).profile_id ≡ p.profile_id
  decision-profile_id p = elim (Bool-cases (is_safe manifest policy task requirement p)) [
    | inl safe ↦ ap (λ (e : ProfileCompilationDecision). e.profile_id) (if_true _ _ _ safe)
    | inr unsafe ↦ ap (λ (e : ProfileCompilationDecision). e.profile_id) (if_false _ _ _ unsafe)
  ]

  decisions-safe :
      (ps : List TrustProfile)
      → map
          (λ (e : ProfileCompilationDecision). e.profile_id)
          (keep (λ e. e.accepted) (map (decision_of manifest policy task requirement) ps))
        ≡ map (λ p. p.profile_id) (keep (is_safe manifest policy task requirement) ps)
  decisions-safe ps =
      map-keep-map (decision_of manifest policy task requirement) (λ e. e.accepted)
        (λ e. e.profile_id) (is_safe manifest policy task requirement) (λ p. p.profile_id)
        decision-accepted decision-profile_id ps

module _ (check : Solver RejectionCategory) (laws : Laws check) (d : Digests)
    (manifest_hash : CapabilityManifestPayload → String) (catalog_hash : ProfileCatalog → String)
    (compilation_hash : PolicyCompilationResult → String) (z3_version : String)
    (catalog : ProfileCatalog) (manifest : CapabilityManifestPayload) (policy : AgentPolicy)
    (task : TaskDescriptor) where
  abbrev requirement : AssuranceRequirement
  requirement = (derive_requirement d policy task).final_requirement

  abbrev pub Sound : PolicyCompilationResult → Type 0
  Sound result =
      (result.profile_decisions
        ≡ map (decision_of manifest policy task requirement) catalog.profiles)
      × (result.safe_profile_ids
          ≡ map (λ p. p.profile_id)
              (keep (is_safe manifest policy task requirement) catalog.profiles))

  compile_enumerated-Sound :
      (normalized : ℕ) (enumerated : List ℤ) (result : PolicyCompilationResult)
      → compile_enumerated check d manifest_hash catalog_hash compilation_hash z3_version catalog
          manifest policy task normalized enumerated
        ≡ ok result
      → Sound result
  unfolding compile_enumerated
  compile_enumerated-Sound normalized enumerated result h =
      let (rows, decided, checked) = >>=-eq-ok _ _ h in
      let (_, made) = raise_if-eq-ok _ _ _ checked in
      let decisions =
        decide_from_lem manifest policy task requirement check laws catalog 0 catalog.profiles rows
          (λ i q e. ap (λ (n : ℕ). at_index n catalog.profiles) (from_zero i) ∙ e) decided in
      let same = result_value _ result made in
      let ids =
        accepted_ids rows
        ∙ (ap
              (λ (es : List ProfileCompilationDecision).
                map (λ (e : ProfileCompilationDecision). e.profile_id) (keep (λ e. e.accepted) es))
              decisions
            ∙ decisions-safe manifest policy task requirement catalog.profiles) in
      (
        sym (ap (λ (r : PolicyCompilationResult). r.profile_decisions) same) ∙ decisions,
        sym (ap (λ (r : PolicyCompilationResult). r.safe_profile_ids) same) ∙ ids,
      )

  outcome :
      (enumerated : Option (Result (List ℤ))) (normalized : ℕ) (result : PolicyCompilationResult)
      → elim enumerated as (λ e. Option (Result PolicyCompilationResult)) [
        | none ↦ none
        | some (err e) ↦ some (err e)
        | some (ok found) ↦ some (
            compile_enumerated check d manifest_hash catalog_hash compilation_hash z3_version
              catalog manifest policy task normalized found)
      ]
        ≡ some (ok result)
      → Sound result
  outcome none normalized result h = cc
  outcome (some (err e)) normalized result h = absurd (ground arith)
  outcome (some (ok found)) normalized result h =
      compile_enumerated-Sound normalized found result (returned_value _ _ h)

  -- If the compilation returns a result, then its decisions are the ones that the catalog's
  -- profiles deserve under the derived requirement, in the catalog's order, and its safe profiles
  -- are the ones that fulfil every hard category.
  pub compile_local_policy-Sound :
      (evaluation_time : DateTime) (result : PolicyCompilationResult)
      → compile_local_policy check d manifest_hash catalog_hash compilation_hash z3_version catalog
          manifest policy task evaluation_time
        ≡ some (ok result)
      → Sound result
  unfolding compile_local_policy
  compile_local_policy-Sound evaluation_time result h =
      go (validate_compilation_inputs catalog manifest policy evaluation_time) h
    where
      go :
          (validated : Result ℕ)
          → elim validated as (λ v. Option (Result PolicyCompilationResult)) [
            | err e ↦ some (err e)
            | ok normalized ↦
                elim (enumerate_indexes check
                    (suc (length catalog.profiles))
                    (assert_encoding
                      (build_constraint_encoding manifest policy task requirement catalog))
                    [])
                  as (λ e. Option (Result PolicyCompilationResult)) [
                    | none ↦ none
                    | some (err e) ↦ some (err e)
                    | some (ok found) ↦ some (
                        compile_enumerated check d manifest_hash catalog_hash compilation_hash
                          z3_version catalog manifest policy task normalized found)
                  ]
          ]
            ≡ some (ok result)
          → Sound result
      go (err e) k = absurd (ground arith)
      go (ok normalized) k = outcome _ normalized result k
