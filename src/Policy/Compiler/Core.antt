-- ===== src/Policy/Compiler/Core.antt =====
-- The violated categories of a profile and the core that `_minimize_core` leaves of them.
use pqtrust_agent_artifact.Prelude.{
  ℕ, Bool, true, false, not, ◌&&◌, ◌||◌, List, [], ◌∷◌, all, keep, contains, distinct,
  distinct-keep, nonempty, leb, none, some, ◌≡◌, refl, ap, sym, ◌∙◌, arith, ltb, sort_by-is_sorted,
  is_sorted-keep, string_eq,
}
use pqtrust_agent_artifact.Prelude.Sort.{sort_by}
use pqtrust_agent_artifact.Prelude.Result.{ok}
use pqtrust_agent_artifact.Requirement.{AssuranceRequirement}
use pqtrust_agent_artifact.Policy.{TaskDescriptor, AgentPolicy}
use pqtrust_agent_artifact.Policy.Compilation.{
  RejectionCategory, category_eq, category_leb, to_set, sort_rejection_categories,
  CapabilityManifestPayload,
}
use pqtrust_agent_artifact.Policy.Encoding.{
  ConstraintEncoding, build_constraint_encoding, profile_violated_categories,
}
use pqtrust_agent_artifact.Policy.Compiler.{
  assert_encoding, pinned, check_status, canonical_categories,
}
use pqtrust_agent_artifact.Policy.Compiler.Encoded.{
  at_index, hard_categories, fulfils, fulfils_assumed, meets_encoding,
}
use pqtrust_agent_artifact.Protocol.Models.{TrustProfile, ProfileCatalog, endpoint_eq, evidence_eq}
use pqtrust_agent_artifact.Solver.{
  ℤ, pos, int_beq, index_eq, Assertion, plain, holds, satisfies, Status, sat, unsat, unknown,
  Solver, Laws,
}
use pqtrust_agent_artifact.Solver.Meaning.{meets, all-append, sat-meets, unsat-meets}

to_set_lem : (xs : List RejectionCategory) → distinct xs ≡ true → to_set xs ≡ xs
to_set_lem [] h = refl
to_set_lem (x ∷ xs) h = ground (arith, to_set_lem xs)

pub canonical-hard : canonical_categories ≡ hard_categories
unfolding canonical_categories sort_by
canonical-hard = refl

pub sort_rejection_categories-keep :
    (v : RejectionCategory → Bool)
    → sort_rejection_categories (keep v hard_categories) ≡ keep v hard_categories
unfolding sort_rejection_categories
sort_rejection_categories-keep v =
    ap (sort_by category_leb)
      (to_set_lem (keep v hard_categories) (distinct-keep v hard_categories refl))
    ∙ sort_by-is_sorted category_leb (keep v hard_categories)
        (is_sorted-keep category_leb v hard_categories refl)

not_and : (a b : Bool) → (not a || not b) ≡ not (a && b)
not_and a b = ground arith

not_and_not : (a b : Bool) → (not a || b) ≡ not (a && not b)
not_and_not a b = ground arith

ltb_of_leb : (m n : ℕ) → ltb m n ≡ not (leb n m)
ltb_of_leb m n = ground arith

int_beq_eq : (a b : ℤ) → int_beq a b ≡ true → a ≡ b
int_beq_eq a b h = ground arith

pub and_true : (a b : Bool) → (a && b) ≡ true → (a ≡ true) × (b ≡ true)
and_true a b h = (ground arith, ground arith)

and_self : (a : Bool) (j : ℕ) → (a && int_beq (pos j) (pos j)) ≡ false → a ≡ false
and_self a j h = ground arith

-- What a status says of the check behind it.
pub check_status-eq-some :
    (check : Solver RejectionCategory) (assertions : List (Assertion RejectionCategory))
    (ls : List RejectionCategory) (i : ℤ)
    → check_status check assertions ls ≡ ok (some i)
    → check assertions ls ≡ sat i
unfolding check_status
check_status-eq-some check assertions ls i h = ground arith

pub check_status-eq-none :
    (check : Solver RejectionCategory) (assertions : List (Assertion RejectionCategory))
    (ls : List RejectionCategory)
    → check_status check assertions ls ≡ ok none
    → (core : List RejectionCategory) × (check assertions ls ≡ unsat core)
unfolding check_status
check_status-eq-none check assertions ls h = go (check assertions ls) refl
  where
    go :
        (s : Status RejectionCategory)
        → check assertions ls ≡ s
        → (core : List RejectionCategory) × (check assertions ls ≡ unsat core)
    go (sat i) e = absurd (ground arith)
    go (unsat core) e = (core, e)
    go unknown e = absurd (ground arith)

-- The last element of a list, as a list of at most one.
abbrev pub last {ℓ} : {A : Type ℓ} → List A → List A
last [] = []
last (x ∷ []) = x ∷ []
last (x ∷ y ∷ ys) = last (y ∷ ys)

module _ (manifest : CapabilityManifestPayload) (policy : AgentPolicy) (task : TaskDescriptor)
    (requirement : AssuranceRequirement) where
  abbrev pub violates : TrustProfile → RejectionCategory → Bool
  violates p c = not (fulfils manifest policy task requirement p c)

  pub profile_violated_categories-keep :
      (p : TrustProfile)
      → profile_violated_categories manifest policy task requirement p
        ≡ keep (violates p) hard_categories
  unfolding profile_violated_categories
  profile_violated_categories-keep p =
      ap sort_rejection_categories (simp (not_and, not_and_not, ltb_of_leb))
      ∙ sort_rejection_categories-keep (violates p)

  -- No violated category is left exactly when every category is fulfilled.
  pub violated_none :
      (p : TrustProfile) (cs : List RejectionCategory)
      → nonempty (keep (violates p) cs) ≡ not (all (fulfils manifest policy task requirement p) cs)
  violated_none p [] = refl
  violated_none p (c ∷ cs) = ground (arith, violated_none p cs)

  module _ (check : Solver RejectionCategory) (laws : Laws check) (catalog : ProfileCatalog) (j : ℕ)
      (p : TrustProfile) (at_j : at_index j catalog.profiles ≡ some p) where
    abbrev pub encoding : ConstraintEncoding
    encoding = build_constraint_encoding manifest policy task requirement catalog

    meets-pinned :
        (assumed : List RejectionCategory) (i : ℤ)
        → meets (pinned encoding j) assumed i
          ≡ (meets (assert_encoding encoding) assumed i && int_beq i (pos j))
    unfolding satisfies holds
    meets-pinned assumed i = ground (
      arith,
      all-append (satisfies (λ l. contains l assumed) i) (assert_encoding encoding)
          (plain (index_eq (pos j)) ∷ []),
    )

    pub check_status-sat :
        (assumed : List RejectionCategory) (i : ℤ)
        → check_status check (pinned encoding j) assumed ≡ ok (some i)
        → fulfils_assumed manifest policy task requirement p assumed ≡ true
    check_status-sat assumed i h =
        let found =
          sat-meets check laws (pinned encoding j) assumed i
            (check_status-eq-some check (pinned encoding j) assumed i h) in
        let (met, here) = and_true _ _ (sym (meets-pinned assumed i) ∙ found) in
        sym (meets_encoding manifest policy task requirement catalog j p assumed at_j)
        ∙ (ap (meets (assert_encoding encoding) assumed) (sym (int_beq_eq i (pos j) here)) ∙ met)

    pub check_status-unsat :
        (assumed : List RejectionCategory)
        → check_status check (pinned encoding j) assumed ≡ ok none
        → fulfils_assumed manifest policy task requirement p assumed ≡ false
    check_status-unsat assumed h =
        let (core, refuted) = check_status-eq-none check (pinned encoding j) assumed h in
        let unmet = unsat-meets check laws (pinned encoding j) assumed core (pos j) refuted in
        sym (meets_encoding manifest policy task requirement catalog j p assumed at_j)
        ∙ and_self _ j (sym (meets-pinned assumed (pos j)) ∙ unmet)
