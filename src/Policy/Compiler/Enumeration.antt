-- ===== src/Policy/Compiler/Enumeration.antt =====
-- The enumeration of src/pqtrust_agent/policy/compiler.py ends: each round excludes one more index
-- of the catalog.
use pqtrust_agent_artifact.Prelude.{
  ℕ, zero, suc, ◌<◌, ◌≤◌, String, Bool, true, false, not, ◌&&◌, List, [], ◌∷◌, ◌++◌, length,
  nat_beq, contains, Option, none, some, ◌≡◌, refl, ap, sym, ◌∙◌, arith, if◌then◌else◌, Bool-cases,
  inl, inr,
}
use pqtrust_agent_artifact.Prelude.Sort.{sort_by}
use pqtrust_agent_artifact.Prelude.Result.{Result, ok, err}
use pqtrust_agent_artifact.Requirement.{AssuranceRequirement}
use pqtrust_agent_artifact.Policy.{TaskDescriptor, AgentPolicy}
use pqtrust_agent_artifact.Policy.Mapper.{Digests, derive_requirement}
use pqtrust_agent_artifact.Policy.Compilation.{
  RejectionCategory, category_eq, CapabilityManifestPayload, PolicyCompilationResult,
  validate_compilation_inputs,
}
use pqtrust_agent_artifact.Policy.Encoding.{build_constraint_encoding}
use pqtrust_agent_artifact.Policy.Compiler.{
  canonical_categories, check_status, enumerate_indexes, assert_encoding, compile_local_policy,
  compile_enumerated,
}
use pqtrust_agent_artifact.Policy.Compiler.Core.{check_status-eq-some}
use pqtrust_agent_artifact.Protocol.Time.{DateTime}
use pqtrust_agent_artifact.Protocol.Models.{ProfileCatalog}
use pqtrust_agent_artifact.Solver.{
  ℤ, pos, negsuc, int_beq, index_ne, holds, Assertion, plain, satisfies, Solver, Laws,
}
use pqtrust_agent_artifact.Solver.Meaning.{meets, all-append, sat-meets}

-- How many of the first `n` indexes pass a test.
abbrev pub count : (ℤ → Bool) → ℕ → ℕ
count p zero = 0
count p (suc n) = let rest = count p n in if p (pos n) then suc rest else rest

count-le : (p : ℤ → Bool) (n : ℕ) → count p n ≤ n
count-le p zero = omega arith
count-le p (suc n) = ground (arith, count-le p n)

count-same :
    (p q : ℤ → Bool) (n : ℕ) → ((k : ℕ) → k < n → q (pos k) ≡ p (pos k)) → count q n ≡ count p n
count-same p q zero same = refl
count-same p q (suc n) same =
    ground (arith, same n (omega arith), count-same p q n (λ k h. same k (omega arith)))

and_not : (b : Bool) (m j : ℕ) → m < j → (b && not (nat_beq m j)) ≡ b
and_not b m j h = ground arith

below_last : (m n j : ℕ) → nat_beq n j ≡ true → m < n → m < j
below_last m n j h k = ground arith

not_last : (n j : ℕ) → nat_beq n j ≡ false → j < suc n → j < n
not_last n j h k = ground arith

-- Excluding an index that passes lowers the count.
pub count-exclude :
    (p q : ℤ → Bool) (j n : ℕ)
    → ((i : ℤ) → q i ≡ (p i && not (int_beq i (pos j))))
    → j < n
    → p (pos j) ≡ true
    → count q n < count p n
count-exclude p q j zero excluded h k = omega arith
count-exclude p q j (suc n) excluded h k = elim (Bool-cases (nat_beq n j)) [
  | inl last ↦ ground (
    arith,
    excluded (pos n),
    count-same p q n
        (λ m below. excluded (pos m) ∙ and_not (p (pos m)) m j (below_last m n j last below)),
  )
  | inr earlier ↦
      ground (arith, excluded (pos n), count-exclude p q j n excluded (not_last n j earlier h) k)
]

-- Whether every index that passes is one of the first `n`.
abbrev pub Within : ℕ → (ℤ → Bool) → Type 0
Within n p = (i : ℤ) → p i ≡ true → (j : ℕ) × (i ≡ pos j) × (j < n)

pub meets-exclude :
    (assertions : List (Assertion RejectionCategory)) (ls : List RejectionCategory) (i k : ℤ)
    → meets (assertions ++ (plain (index_ne k) ∷ [])) ls i
      ≡ (meets assertions ls i && not (int_beq i k))
unfolding satisfies holds
meets-exclude assertions ls i k =
    ground
      (arith, all-append (satisfies (λ l. contains l ls) i) assertions (plain (index_ne k) ∷ []))

module _ (check : Solver RejectionCategory) (laws : Laws check) (n : ℕ) where
  abbrev pub meets_all : List (Assertion RejectionCategory) → ℤ → Bool
  meets_all assertions = meets assertions canonical_categories

  -- With more fuel than indexes that satisfy the assertions, the enumeration returns.
  enumerate_indexes-returns :
      (fuel : ℕ) (assertions : List (Assertion RejectionCategory)) (found : List ℤ)
      → Within n (meets_all assertions)
      → count (meets_all assertions) n < fuel
      → (r : Result (List ℤ)) × (enumerate_indexes check fuel assertions found ≡ some r)
  unfolding enumerate_indexes
  enumerate_indexes-returns zero assertions found within h = absurd (omega arith)
  enumerate_indexes-returns (suc fuel) assertions found within h =
      go (check_status check assertions canonical_categories) refl (λ i.
        enumerate_indexes-returns fuel (assertions ++ (plain (index_ne i) ∷ []))
          (found ++ (i ∷ [])))
    where
      go :
          (status : Result (Option ℤ))
          → check_status check assertions canonical_categories ≡ status
          → ((i : ℤ)
              → Within n (meets_all (assertions ++ (plain (index_ne i) ∷ [])))
              → count (meets_all (assertions ++ (plain (index_ne i) ∷ []))) n < fuel
              → (r : Result (List ℤ)) × (enumerate_indexes check fuel
                    (assertions ++ (plain (index_ne i) ∷ []))
                    (found ++ (i ∷ []))
                  ≡ some r))
          → (r : Result (List ℤ)) × (elim status as (λ s. Option (Result (List ℤ))) [
            | err e ↦ some (err e)
            | ok none ↦ some (ok found)
            | ok (some i) ↦
                enumerate_indexes check fuel
                  (assertions ++ (plain (index_ne i) ∷ []))
                  (found ++ (i ∷ []))
          ]
              ≡ some r)
      go (err e) checked next = (err e, refl)
      go (ok none) checked next = (ok found, refl)
      go (ok (some i)) checked next =
          let met =
            sat-meets check laws assertions canonical_categories i
              (check_status-eq-some check assertions canonical_categories i checked) in
          let (j, here, inside) = within i met in
          next i
            (λ k satisfied.
              within k (ground (arith, meets-exclude assertions canonical_categories k i)))
            (smaller i j here inside met)
        where
          smaller :
              (i : ℤ) (j : ℕ)
              → i ≡ pos j
              → j < n
              → meets_all assertions i ≡ true
              → count (meets_all (assertions ++ (plain (index_ne i) ∷ []))) n < fuel
          smaller i j here inside met = omega (
            arith,
            h,
            count-exclude (meets_all assertions)
                (meets_all (assertions ++ (plain (index_ne i) ∷ []))) j n
                (λ k.
                  meets-exclude assertions canonical_categories k i
                  ∙ ap (λ (x : ℤ). meets_all assertions k && not (int_beq k x)) here)
                inside (ap (meets_all assertions) (sym here) ∙ met),
          )

module _ (manifest : CapabilityManifestPayload) (policy : AgentPolicy) (task : TaskDescriptor)
    (requirement : AssuranceRequirement) (catalog : ProfileCatalog) where
  -- The capability constraint keeps the index inside the catalog.
  pub encoding-Within : Within (length catalog.profiles) (
      meets
        (assert_encoding (build_constraint_encoding manifest policy task requirement catalog))
        canonical_categories)
  unfolding assert_encoding build_constraint_encoding satisfies holds canonical_categories sort_by
  encoding-Within (pos j) met = (j, refl, ground arith)
  encoding-Within (negsuc j) met = absurd (ground arith)

pub enough : (p : ℤ → Bool) (n : ℕ) → count p n < suc n
enough p n = omega (arith, count-le p n)

module _ (check : Solver RejectionCategory) (laws : Laws check) (d : Digests)
    (manifest_hash : CapabilityManifestPayload → String) (catalog_hash : ProfileCatalog → String)
    (compilation_hash : PolicyCompilationResult → String) (z3_version : String) where
  -- The compilation always returns or raises: its fuel is enough.
  pub compile_local_policy-returns :
      (catalog : ProfileCatalog) (manifest : CapabilityManifestPayload) (policy : AgentPolicy)
      (task : TaskDescriptor) (evaluation_time : DateTime)
      → (r : Result PolicyCompilationResult) × (compile_local_policy check d manifest_hash
            catalog_hash compilation_hash z3_version catalog manifest policy task evaluation_time
          ≡ some r)
  unfolding compile_local_policy
  compile_local_policy-returns catalog manifest policy task evaluation_time =
      let requirement = (derive_requirement d policy task).final_requirement in
      let start =
        assert_encoding (build_constraint_encoding manifest policy task requirement catalog) in
      let (r, ended) =
        enumerate_indexes-returns check laws (length catalog.profiles)
          (suc (length catalog.profiles)) start []
          (encoding-Within manifest policy task requirement catalog)
          (enough (meets start canonical_categories) (length catalog.profiles)) in
      go (validate_compilation_inputs catalog manifest policy evaluation_time) _ r ended
    where
      go :
          (validated : Result ℕ) (enumerated : Option (Result (List ℤ))) (r : Result (List ℤ))
          → enumerated ≡ some r
          → (r : Result PolicyCompilationResult) × (elim validated
                as (λ v. Option (Result PolicyCompilationResult)) [
                  | err e ↦ some (err e)
                  | ok normalized ↦
                      elim enumerated as (λ e. Option (Result PolicyCompilationResult)) [
                        | none ↦ none
                        | some (err e) ↦ some (err e)
                        | some (ok found) ↦ some (
                            compile_enumerated check d manifest_hash catalog_hash compilation_hash
                              z3_version catalog manifest policy task normalized found)
                      ]
                ]
              ≡ some r)
      go (err e) enumerated r ended = (err e, refl)
      go (ok normalized) none r ended = absurd (ground arith)
      go (ok normalized) (some (err e)) r ended = (err e, refl)
      go (ok normalized) (some (ok found)) r ended = (_, refl)
