-- ===== src/Policy/Compiler/Decisions.antt =====
-- What a compilation that returns says of each profile of the catalog.
use pqtrust_agent_artifact.Prelude.Sort.{sort_by}
use pqtrust_agent_artifact.Prelude.{
  String, ℕ, suc, ◌+◌, Bool, true, false, List, [], ◌∷◌, map, all, keep, Option, none, some, ◌≡◌,
  refl, ap, sym, ◌∙◌, arith, if◌then◌else◌,
}
use pqtrust_agent_artifact.Prelude.Result.{Result, ok, >>=-eq-ok, raise_if-eq-ok}
use pqtrust_agent_artifact.Requirement.{AssuranceRequirement}
use pqtrust_agent_artifact.Policy.{TaskDescriptor, AgentPolicy}
use pqtrust_agent_artifact.Policy.Compilation.{
  RejectionCategory, category_eq, CapabilityManifestPayload, ProfileCompilationDecision,
  validated_decision, sort_rejection_categories,
}
use pqtrust_agent_artifact.Policy.Encoding.{ConstraintEncoding, build_constraint_encoding}
use pqtrust_agent_artifact.Policy.Compiler.{
  minimize_core, pinned, check_status, candidate_status, decide_profile, decide_from,
  reject_profile, accepted_decision, rejected_decision,
}
use pqtrust_agent_artifact.Policy.Compiler.Encoded.{at_index, hard_categories, fulfils}
use pqtrust_agent_artifact.Policy.Compiler.Core.{
  last, violates, profile_violated_categories-keep, check_status-sat, check_status-unsat,
  canonical-hard, sort_rejection_categories-keep,
}
use pqtrust_agent_artifact.Policy.Compiler.Minimal.{minimize_core-last, if_true, sort-last}
use pqtrust_agent_artifact.Protocol.Models.{TrustProfile, ProfileCatalog}
use pqtrust_agent_artifact.Solver.{ℤ, Solver, Laws}

decision_value :
    (d e : ProfileCompilationDecision)
    → ◌≡◌ {A = Result ProfileCompilationDecision} (ok d) (ok e)
    → d ≡ e
decision_value d e h = cc

pub validated_accepted :
    (profile_id : String)
    → validated_decision (accepted_decision profile_id) ≡ ok (accepted_decision profile_id)
unfolding validated_decision sort_rejection_categories sort_by
validated_accepted profile_id = refl

pub validated_rejected :
    (profile_id : String) (violated core : List RejectionCategory)
    → validated_decision (rejected_decision profile_id violated core)
      ≡ ok (
          rejected_decision profile_id
            (sort_rejection_categories violated)
            (sort_rejection_categories core))
unfolding validated_decision
validated_rejected profile_id violated core = refl

rows_value :
    (rows others : List (ℕ × ProfileCompilationDecision))
    → ◌≡◌ {A = Result (List (ℕ × ProfileCompilationDecision))} (ok rows) (ok others)
    → rows ≡ others
rows_value rows others h = cc

pub plus_zero : (k : ℕ) → k ≡ k + 0
plus_zero k = omega arith

pub plus_suc : (k i : ℕ) → suc k + i ≡ k + suc i
plus_suc k i = omega arith

pub if_false {ℓ} : {A : Type ℓ} (b : Bool) (x y : A) → b ≡ false → (if b then x else y) ≡ y
if_false true x y h = cc
if_false false x y h = refl

module _ (manifest : CapabilityManifestPayload) (policy : AgentPolicy) (task : TaskDescriptor)
    (requirement : AssuranceRequirement) where
  -- A profile is safe when it fulfils every hard category.
  abbrev pub is_safe : TrustProfile → Bool
  is_safe p = all (fulfils manifest policy task requirement p) hard_categories

  -- The decision that a profile deserves: a safe one is accepted; another is rejected with the
  -- categories that it violates, the last of which is the core.
  abbrev pub decision_of : TrustProfile → ProfileCompilationDecision
  decision_of p =
      let violated = keep (violates manifest policy task requirement p) hard_categories in
      if is_safe p
      then accepted_decision p.profile_id
      else rejected_decision p.profile_id violated (last violated)

  module _ (check : Solver RejectionCategory) (laws : Laws check) (catalog : ProfileCatalog) where
    abbrev enc : ConstraintEncoding
    enc = build_constraint_encoding manifest policy task requirement catalog

    safe_of_status :
        (j : ℕ) (p : TrustProfile) (i : ℤ)
        → at_index j catalog.profiles ≡ some p
        → candidate_status check enc j ≡ ok (some i)
        → is_safe p ≡ true
    unfolding candidate_status
    safe_of_status j p i at_j h =
        check_status-sat manifest policy task requirement check laws catalog j p at_j
          hard_categories i (ap (check_status check (pinned enc j)) (sym canonical-hard) ∙ h)

    pub unsafe_of_status :
        (j : ℕ) (p : TrustProfile)
        → at_index j catalog.profiles ≡ some p
        → candidate_status check enc j ≡ ok none
        → is_safe p ≡ false
    unfolding candidate_status
    unsafe_of_status j p at_j h =
        check_status-unsat manifest policy task requirement check laws catalog j p at_j
          hard_categories (ap (check_status check (pinned enc j)) (sym canonical-hard) ∙ h)

    reject_profile_lem :
        (j : ℕ) (p : TrustProfile) (d : ProfileCompilationDecision)
        → at_index j catalog.profiles ≡ some p
        → reject_profile check manifest policy task requirement enc j p ≡ ok d
        → d
          ≡ rejected_decision p.profile_id
              (keep (violates manifest policy task requirement p) hard_categories)
              (last (keep (violates manifest policy task requirement p) hard_categories))
    unfolding reject_profile
    reject_profile_lem j p d at_j h =
        let (_, minimized) = raise_if-eq-ok _ _ _ h in
        let (core, cored, made) = >>=-eq-ok _ _ minimized in
        let v = violates manifest policy task requirement p in
        let names = profile_violated_categories-keep manifest policy task requirement p in
        let again = sort_rejection_categories-keep v in
        let sorted = ap sort_rejection_categories names ∙ again in
        let core_last =
          minimize_core-last manifest policy task requirement check laws catalog j p at_j core
            (ap (minimize_core check enc j) (names ∙ sym sorted) ∙ cored) in
        let core_sorted =
          ap sort_rejection_categories (core_last ∙ ap last names)
          ∙ sort-last (keep v hard_categories) in
        decision_value d _ (sym made ∙ validated_rejected p.profile_id _ core)
        ∙ (ap
              (λ (vs : List RejectionCategory).
                rejected_decision p.profile_id vs (sort_rejection_categories core))
              (ap sort_rejection_categories sorted ∙ again)
            ∙ ap (rejected_decision p.profile_id (keep v hard_categories)) core_sorted)

    pub decide_profile_lem :
        (j : ℕ) (p : TrustProfile) (d : ProfileCompilationDecision)
        → at_index j catalog.profiles ≡ some p
        → decide_profile check manifest policy task requirement enc j p ≡ ok d
        → d ≡ decision_of p
    unfolding decide_profile
    decide_profile_lem j p d at_j h =
        let (status, checked, decided) = >>=-eq-ok _ _ h in go status checked decided
      where
        go :
            (status : Option ℤ)
            → candidate_status check enc j ≡ ok status
            → elim status as (λ s. Result ProfileCompilationDecision) [
              | some i ↦ validated_decision (accepted_decision p.profile_id)
              | none ↦ reject_profile check manifest policy task requirement enc j p
            ]
              ≡ ok d
            → d ≡ decision_of p
        go (some i) checked decided =
            decision_value d _ (sym decided ∙ validated_accepted p.profile_id)
            ∙ sym (if_true (is_safe p) _ _ (safe_of_status j p i at_j checked))
        go none checked decided =
            reject_profile_lem j p d at_j decided
            ∙ sym (if_false (is_safe p) _ _ (unsafe_of_status j p at_j checked))

    pub decide_from_lem :
        (k : ℕ) (ps : List TrustProfile) (rows : List (ℕ × ProfileCompilationDecision))
        → ((i : ℕ) (q : TrustProfile)
            → at_index i ps ≡ some q
            → at_index (k + i) catalog.profiles ≡ some q)
        → decide_from check manifest policy task requirement enc k ps ≡ ok rows
        → map (λ row. row.1) rows ≡ map decision_of ps
    unfolding decide_from
    decide_from_lem k [] rows at_k h = ap (map (λ row. row.1)) (sym (rows_value [] rows h))
    decide_from_lem k (p ∷ ps) rows at_k h =
        let (d, decided, rest) = >>=-eq-ok _ _ h in
        let (tail, tails, made) = >>=-eq-ok _ _ rest in
        let at_p : at_index k catalog.profiles ≡ some p =
          ap (λ (i : ℕ). at_index i catalog.profiles) (plus_zero k) ∙ at_k 0 p refl in
        let first = decide_profile_lem k p d at_p decided in
        let others =
          decide_from_lem (suc k) ps tail
            (λ i q e. ap (λ (n : ℕ). at_index n catalog.profiles) (plus_suc k i) ∙ at_k (suc i) q e)
            tails in
        ap (map (λ row. row.1)) (sym (rows_value ((k, d) ∷ tail) rows made))
        ∙ (ap (λ (e : ProfileCompilationDecision). e ∷ map (λ row. row.1) tail) first
            ∙ ap (λ (es : List ProfileCompilationDecision). decision_of p ∷ es) others)
