-- ===== src/Policy/Compiler/Rows.antt =====
-- The rows that src/pqtrust_agent/policy/compiler.py makes of the profiles, and the indexes of the
-- accepted ones.
use pqtrust_agent_artifact.Prelude.{
  ℕ, suc, ◌+◌, ◌<◌, ◌≤◌, Bool, true, false, ◌&&◌, ◌||◌, List, [], ◌∷◌, map, all, contains, distinct,
  some, ◌≡◌, inl, inr, refl, ap, ◌∙◌, arith, if◌then◌else◌, Bool-cases, is_sorted,
}
use pqtrust_agent_artifact.Prelude.Result.{ok}
use pqtrust_agent_artifact.Requirement.{AssuranceRequirement}
use pqtrust_agent_artifact.Policy.{TaskDescriptor, AgentPolicy}
use pqtrust_agent_artifact.Policy.Compilation.{
  RejectionCategory, category_eq, CapabilityManifestPayload, ProfileCompilationDecision,
}
use pqtrust_agent_artifact.Policy.Encoding.{build_constraint_encoding}
use pqtrust_agent_artifact.Policy.Compiler.{decide_from, accepted_rows, int_leb}
use pqtrust_agent_artifact.Policy.Compiler.Encoded.{at_index}
use pqtrust_agent_artifact.Policy.Compiler.Decisions.{is_safe, decision_of, plus_zero, plus_suc}
use pqtrust_agent_artifact.Policy.Compiler.Returned.{decision-accepted}
use pqtrust_agent_artifact.Policy.Compiler.Enumerated.{int_eq}
use pqtrust_agent_artifact.Protocol.Models.{TrustProfile, ProfileCatalog}
use pqtrust_agent_artifact.Solver.{ℤ, pos, int_beq, Solver, Laws}
use pqtrust_agent_artifact.Solver.Meaning.{Decides}
use pqtrust_agent_artifact.Policy.Compiler.Accepted.{decide_profile-returns}

contains_if :
    (i j : ℤ) (b : Bool) (xs : List ℤ) {rest : Bool}
    → contains i xs ≡ rest
    → contains i (if b then j ∷ xs else xs) ≡ (int_beq i j && b || rest)
contains_if i j true xs h = ground arith
contains_if i j false xs h = ground arith

all_if :
    (j k : ℕ) (b : Bool) (xs : List ℤ)
    → j ≤ k
    → all (int_leb (pos j)) xs ≡ true
    → all (int_leb (pos j)) (if b then pos k ∷ xs else xs) ≡ true
all_if j k true xs h rest = ground arith
all_if j k false xs h rest = rest

sorted_if :
    (k : ℕ) (b : Bool) (xs : List ℤ)
    → all (int_leb (pos k)) xs ≡ true
    → is_sorted int_leb xs ≡ true
    → is_sorted int_leb (if b then pos k ∷ xs else xs) ≡ true
sorted_if k true xs h rest = ground arith
sorted_if k false xs h rest = rest

distinct_if :
    (k : ℕ) (b : Bool) (xs : List ℤ)
    → contains (pos k) xs ≡ false
    → distinct xs ≡ true
    → distinct (if b then pos k ∷ xs else xs) ≡ true
distinct_if k true xs h rest = ground arith
distinct_if k false xs h rest = rest

module _ (check : Solver RejectionCategory) (laws : Laws check) (decides : Decides check)
    (manifest : CapabilityManifestPayload) (policy : AgentPolicy) (task : TaskDescriptor)
    (requirement : AssuranceRequirement) (catalog : ProfileCatalog) where
  abbrev safe : TrustProfile → Bool
  safe = is_safe manifest policy task requirement

  -- The rows of the loop over the profiles, from an index.
  abbrev pub rows_of : ℕ → List TrustProfile → List (ℕ × ProfileCompilationDecision)
  rows_of k [] = []
  rows_of k (p ∷ ps) = (k, decision_of manifest policy task requirement p) ∷ rows_of (suc k) ps

  pub decide_from-rows_of :
      (k : ℕ) (ps : List TrustProfile)
      → ((i : ℕ) (q : TrustProfile)
          → at_index i ps ≡ some q
          → at_index (k + i) catalog.profiles ≡ some q)
      → decide_from check manifest policy task requirement
          (build_constraint_encoding manifest policy task requirement catalog)
          k
          ps
        ≡ ok (rows_of k ps)
  unfolding decide_from
  decide_from-rows_of k [] at_k = refl
  decide_from-rows_of k (p ∷ ps) at_k =
      let here =
        decide_profile-returns check laws decides manifest policy task requirement catalog k p
          (ap (λ (i : ℕ). at_index i catalog.profiles) (plus_zero k) ∙ at_k 0 p refl) in
      let rest =
        decide_from-rows_of (suc k) ps (λ i q e.
          ap (λ (n : ℕ). at_index n catalog.profiles) (plus_suc k i) ∙ at_k (suc i) q e) in
      rw (here, rest) refl

  abbrev pub accepted_indexes : ℕ → List TrustProfile → List ℤ
  accepted_indexes k ps = map (λ row. pos row.0) (accepted_rows (rows_of k ps))

  -- Whether an index is the index of a safe profile, from a first index.
  abbrev pub safe_from : ℕ → List TrustProfile → ℤ → Bool
  safe_from k [] i = false
  safe_from k (p ∷ ps) i = let rest = safe_from (suc k) ps i in int_beq i (pos k) && safe p || rest

  accepted_indexes-cons :
      (k : ℕ) (p : TrustProfile) (ps : List TrustProfile)
      → accepted_indexes k (p ∷ ps)
        ≡ (if safe p then pos k ∷ accepted_indexes (suc k) ps else accepted_indexes (suc k) ps)
  accepted_indexes-cons k p ps =
      let accepted = decision-accepted manifest policy task requirement p in
      elim (Bool-cases (safe p)) [
        | inl yes_safe ↦ rw (accepted, yes_safe) refl
        | inr unsafe ↦ rw (accepted, unsafe) refl
      ]

  pub contains-accepted_indexes :
      (i : ℤ) (k : ℕ) (ps : List TrustProfile)
      → contains i (accepted_indexes k ps) ≡ safe_from k ps i
  contains-accepted_indexes i k [] = refl
  contains-accepted_indexes i k (p ∷ ps) =
      ap (contains i) (accepted_indexes-cons k p ps)
      ∙ contains_if i (pos k) (safe p) (accepted_indexes (suc k) ps)
          (contains-accepted_indexes i (suc k) ps)

  all-accepted_indexes :
      (j k : ℕ) (ps : List TrustProfile)
      → j ≤ k
      → all (int_leb (pos j)) (accepted_indexes k ps) ≡ true
  all-accepted_indexes j k [] h = refl
  all-accepted_indexes j k (p ∷ ps) h =
      ap (all (int_leb (pos j))) (accepted_indexes-cons k p ps)
      ∙ all_if j k (safe p) (accepted_indexes (suc k) ps) h
          (all-accepted_indexes j (suc k) ps (omega arith))

  pub safe_from-below : (k n : ℕ) (ps : List TrustProfile) → n < k → safe_from k ps (pos n) ≡ false
  safe_from-below k n [] h = refl
  safe_from-below k n (p ∷ ps) h =
      let rest = safe_from-below (suc k) n ps (omega arith) in ground arith

  pub accepted_indexes-sorted :
      (k : ℕ) (ps : List TrustProfile) → is_sorted int_leb (accepted_indexes k ps) ≡ true
  accepted_indexes-sorted k [] = refl
  accepted_indexes-sorted k (p ∷ ps) =
      ap (is_sorted int_leb) (accepted_indexes-cons k p ps)
      ∙ sorted_if k (safe p) (accepted_indexes (suc k) ps)
          (all-accepted_indexes k (suc k) ps (omega arith)) (accepted_indexes-sorted (suc k) ps)

  pub accepted_indexes-distinct :
      (k : ℕ) (ps : List TrustProfile) → distinct (accepted_indexes k ps) ≡ true
  accepted_indexes-distinct k [] = refl
  accepted_indexes-distinct k (p ∷ ps) =
      ap distinct (accepted_indexes-cons k p ps)
      ∙ distinct_if k (safe p) (accepted_indexes (suc k) ps)
          (contains-accepted_indexes (pos k) (suc k) ps
            ∙ safe_from-below (suc k) k ps (omega arith))
          (accepted_indexes-distinct (suc k) ps)
