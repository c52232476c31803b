-- ===== src/Policy/Compiler/Accepted.antt =====
-- The decisions of src/pqtrust_agent/policy/compiler.py on a solver that always answers: none raises,
-- and the accepted indexes are those of the safe profiles, in order.
use pqtrust_agent_artifact.Prelude.{
  ℕ, Bool, true, false, not, List, [], ◌∷◌, keep, contains, nonempty, Option, none, some, ◌==◌, ◌≡◌,
  ◌⊎◌, inl, inr, refl, ap, ◌∙◌, Bool-cases,
}
use pqtrust_agent_artifact.Prelude.Result.{Result, ok, ◌>>=◌}
use pqtrust_agent_artifact.Requirement.{AssuranceRequirement}
use pqtrust_agent_artifact.Policy.{TaskDescriptor, AgentPolicy}
use pqtrust_agent_artifact.Policy.Compilation.{
  RejectionCategory, category_eq, CapabilityManifestPayload, ProfileCompilationDecision,
  sort_rejection_categories,
}
use pqtrust_agent_artifact.Policy.Encoding.{
  ConstraintEncoding, build_constraint_encoding, profile_violated_categories,
}
use pqtrust_agent_artifact.Policy.Compiler.{
  pinned, canonical_categories, candidate_status, minimize_core, minimize_loop, decide_profile,
  reject_profile, accepted_decision, rejected_decision,
}
use pqtrust_agent_artifact.Policy.Compiler.Encoded.{at_index, hard_categories}
use pqtrust_agent_artifact.Policy.Compiler.Core.{
  last, violates, violated_none, profile_violated_categories-keep, sort_rejection_categories-keep,
}
use pqtrust_agent_artifact.Policy.Compiler.Minimal.{if_true, minimize_core-last}
use pqtrust_agent_artifact.Policy.Compiler.Decisions.{
  is_safe, decision_of, if_false, decide_profile_lem, unsafe_of_status, validated_accepted,
  validated_rejected,
}
use pqtrust_agent_artifact.Policy.Compiler.Enumerated.{check_status-cases, int_eq}
use pqtrust_agent_artifact.Protocol.Models.{TrustProfile, ProfileCatalog}
use pqtrust_agent_artifact.Solver.{ℤ, Solver, Laws}
use pqtrust_agent_artifact.Solver.Meaning.{Decides}

module _ (check : Solver RejectionCategory) (laws : Laws check) (decides : Decides check) where
  minimize_loop-returns :
      (encoding : ConstraintEncoding) (j : ℕ) (cs remaining : List RejectionCategory)
      → (r : List RejectionCategory) × (minimize_loop check encoding j cs remaining ≡ ok r)
  unfolding minimize_loop
  minimize_loop-returns encoding j [] remaining = (remaining, refl)
  minimize_loop-returns encoding j (c ∷ cs) remaining =
      let trial = keep (λ item. not (item == c)) remaining in
      elim (Bool-cases (contains c remaining)) [
        | inl present ↦ elim (check_status-cases check laws decides (pinned encoding j) trial) [
          | inl (i, answer, met) ↦
              let (r, returned) = minimize_loop-returns encoding j cs remaining in
              (
                r,
                if_true (contains c remaining) _ _ present
                    ∙ (ap
                          (λ (s : Result (Option ℤ)). s >>= λ status.
                            minimize_loop check encoding j cs
                              (elim status [ none ↦ trial | some i ↦ remaining ]))
                          answer
                        ∙ returned),
              )
          | inr (answer, unmet) ↦
              let (r, returned) = minimize_loop-returns encoding j cs trial in
              (
                r,
                if_true (contains c remaining) _ _ present
                    ∙ (ap
                          (λ (s : Result (Option ℤ)). s >>= λ status.
                            minimize_loop check encoding j cs
                              (elim status [ none ↦ trial | some i ↦ remaining ]))
                          answer
                        ∙ returned),
              )
        ]
        | inr absent ↦
            let (r, returned) = minimize_loop-returns encoding j cs remaining in
            (r, if_false (contains c remaining) _ _ absent ∙ returned)
      ]

  minimize_core-returns :
      (encoding : ConstraintEncoding) (j : ℕ) (cs : List RejectionCategory)
      → (r : List RejectionCategory) × (minimize_core check encoding j cs ≡ ok r)
  unfolding minimize_core
  minimize_core-returns encoding j cs =
      let (r, returned) = minimize_loop-returns encoding j canonical_categories cs in
      (
        sort_rejection_categories r,
        ap (λ (s : Result (List RejectionCategory)). s >>= λ m. ok (sort_rejection_categories m))
            returned,
      )

  module _ (manifest : CapabilityManifestPayload) (policy : AgentPolicy) (task : TaskDescriptor)
      (requirement : AssuranceRequirement) (catalog : ProfileCatalog) where
    abbrev pub enc : ConstraintEncoding
    enc = build_constraint_encoding manifest policy task requirement catalog

    abbrev pub safe : TrustProfile → Bool
    safe = is_safe manifest policy task requirement

    -- An unsafe profile has a violated category.
    unsafe-nonempty :
        (p : TrustProfile)
        → safe p ≡ false
        → nonempty (
            sort_rejection_categories
              (profile_violated_categories manifest policy task requirement p))
          ≡ true
    unsafe-nonempty p unsafe =
        let v = violates manifest policy task requirement p in
        let sorted =
          ap sort_rejection_categories
            (profile_violated_categories-keep manifest policy task requirement p)
          ∙ sort_rejection_categories-keep v in
        ap nonempty sorted
        ∙ (violated_none manifest policy task requirement p hard_categories ∙ ap not unsafe)

    reject_profile-returns :
        (j : ℕ) (p : TrustProfile)
        → safe p ≡ false
        → (d : ProfileCompilationDecision) × (reject_profile check manifest policy task requirement
              enc j p
            ≡ ok d)
    unfolding reject_profile
    reject_profile-returns j p unsafe =
        let violated =
          sort_rejection_categories
            (profile_violated_categories manifest policy task requirement p) in
        let some_violated = unsafe-nonempty p unsafe in
        let (core, returned) = minimize_core-returns enc j violated in
        let validated = validated_rejected p.profile_id violated core in
        (
          rejected_decision p.profile_id (sort_rejection_categories violated)
              (sort_rejection_categories core),
          rw (some_violated, returned) validated,
        )

    -- On a solver that always answers, the minimization of a profile's violated categories returns
    -- the last of them alone.
    pub minimize_core-last_returned :
        (j : ℕ) (p : TrustProfile)
        → at_index j catalog.profiles ≡ some p
        → minimize_core check enc j (profile_violated_categories manifest policy task requirement p)
          ≡ ok (last (profile_violated_categories manifest policy task requirement p))
    minimize_core-last_returned j p at_j =
        let (r, returned) =
          minimize_core-returns enc j
            (profile_violated_categories manifest policy task requirement p) in
        returned
        ∙ ap ok (
            minimize_core-last manifest policy task requirement check laws catalog j p at_j r
              returned)

    candidate_status-cases :
        (j : ℕ) (p : TrustProfile)
        → at_index j catalog.profiles ≡ some p
        → ((i : ℤ) × (candidate_status check enc j ≡ ok (some i)))
          ⊎ ((candidate_status check enc j ≡ ok none) × (safe p ≡ false))
    unfolding candidate_status
    candidate_status-cases j p at_j =
        elim (check_status-cases check laws decides (pinned enc j) canonical_categories) [
          | inl (i, answer, met) ↦ inl (i, answer)
          | inr (answer, unmet) ↦ inr (
            answer,
            unsafe_of_status manifest policy task requirement check laws catalog j p at_j answer,
          )
        ]

    decide_profile_ok :
        (j : ℕ) (p : TrustProfile)
        → at_index j catalog.profiles ≡ some p
        → (d : ProfileCompilationDecision) × (decide_profile check manifest policy task requirement
              enc j p
            ≡ ok d)
    unfolding decide_profile
    decide_profile_ok j p at_j = elim (candidate_status-cases j p at_j) [
      | inl (i, answer) ↦
          (accepted_decision p.profile_id, rw answer (validated_accepted p.profile_id))
      | inr (answer, unsafe) ↦
          let (d, rejected) = reject_profile-returns j p unsafe in (d, rw answer rejected)
    ]

    pub decide_profile-returns :
        (j : ℕ) (p : TrustProfile)
        → at_index j catalog.profiles ≡ some p
        → decide_profile check manifest policy task requirement enc j p
          ≡ ok (decision_of manifest policy task requirement p)
    decide_profile-returns j p at_j =
        let (d, returned) = decide_profile_ok j p at_j in
        returned
        ∙ ap ok (
            decide_profile_lem manifest policy task requirement check laws catalog j p d at_j
              returned)
