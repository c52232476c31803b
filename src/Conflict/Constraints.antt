-- ===== src/Conflict/Constraints.antt =====
-- src/pqtrust_agent/negotiation/conflict_constraints.py: named constraints, and the solver's
-- assertions for them. The label of a constraint is its identifier, behind a fixed prefix.
use pqtrust_agent_artifact.Prelude.{
  ℕ, suc, String, Bool, true, false, List, [], ◌∷◌, ◌++◌, map, contains, length, Option, none, some,
  string_eq, if◌then◌else◌,
}
use pqtrust_agent_artifact.Prelude.Result.{Result, ok, value_error, ◌>>=◌, ◌>>◌, raise_if}
use pqtrust_agent_artifact.Negotiation.Selector.{get_item}
use pqtrust_agent_artifact.Solver.{
  pos, Formula, index_eq, index_nonneg, index_below, constant, either, Assertion, plain, under, sat,
  unsat, unknown, Solver,
}
use pqtrust_agent_artifact.Conflict.{
  ConstraintSourceType, private_policy, NamedConstraint, validated_constraint,
}

-- What `stable_constraint_id` hashes.
abbrev pub ConstraintId : Type 0 → Type 0
ConstraintId V =
    (source_agent_id : String) (source_type : ConstraintSourceType)
    (category attribute operator : String) (expected_value : V) (profile_scope : List String)
    (source_hash : String)
    → String

module _ {V : Type 0} (stable_constraint_id : ConstraintId V) where
  unfoldable pub make_named_constraint :
      (source_agent_id : String) (source_type : ConstraintSourceType)
      (category attribute operator : String) (expected_value : V) (profile_scope : List String)
      (source_hash human_explanation : String) (negotiable : Bool)
      → Result (NamedConstraint V)
  make_named_constraint source_agent_id source_type category attribute operator expected_value scope
        source_hash human_explanation negotiable =
      validated_constraint (record {
        constraint_id =
            stable_constraint_id source_agent_id source_type category attribute operator
              expected_value scope source_hash;
        source_agent_id = source_agent_id;
        source_type = source_type;
        category = category;
        attribute = attribute;
        operator = operator;
        expected_value = expected_value;
        profile_scope = scope;
        hard = true;
        negotiable = negotiable;
        source_hash = source_hash;
        human_explanation = human_explanation;
      })

-- The expected value of these is the safe set.
unfoldable pub local_safe_set_constraints :
    ConstraintId (List String)
    → (initiator_agent_id responder_agent_id : String)
    → (initiator_safe_set responder_safe_set : List String)
    → (initiator_compilation_hash responder_compilation_hash : String)
    → Result (NamedConstraint (List String) × NamedConstraint (List String))
local_safe_set_constraints stable_id initiator responder initiator_safe responder_safe
      initiator_hash responder_hash =
    do
      first ←
          make_named_constraint stable_id initiator private_policy "profile_support"
            "selected_profile_id" "in" initiator_safe initiator_safe initiator_hash
            "Initiator hard policy permits only the disclosed safe profiles." false
      second ←
          make_named_constraint stable_id responder private_policy "profile_support"
            "selected_profile_id" "in" responder_safe responder_safe responder_hash
            "Responder hard policy permits only the disclosed safe profiles." false
      ok (first, second)

pub record ConflictFeasibilityModel (V : Type 0) : Type 0 where
  pub profile_ids : List String
  pub constraints : List (NamedConstraint V)
  pub expressions : List (String × Formula)

-- The indexes, from a first one, of the profiles in a scope.
unfoldable pub allowed_from : ℕ → List String → List String → List ℕ
allowed_from k [] scope = []
allowed_from k (p ∷ ps) scope =
    let rest = allowed_from (suc k) ps scope in if contains p scope then k ∷ rest else rest

unfoldable pub scope_expression : List ℕ → Formula
scope_expression [] = constant false
scope_expression (index ∷ []) = index_eq (pos index)
scope_expression (index ∷ next ∷ indexes) =
    either (index_eq (pos index)) (scope_expression (next ∷ indexes))

module _ {V : Type 0} where
  -- The loop of `build_feasibility_model`: the expressions in order, unless an identifier recurs.
  unfoldable pub build_loop :
      List String
      → (seen : List String) → List (NamedConstraint V)
      → Result (List (String × Formula))
  build_loop profile_ids seen [] = ok []
  build_loop profile_ids seen (c ∷ cs) = do
    raise_if (contains c.constraint_id seen) (value_error "duplicate constraint")
    rest ← build_loop profile_ids (c.constraint_id ∷ seen) cs
    ok ((c.constraint_id, scope_expression (allowed_from 0 profile_ids c.profile_scope)) ∷ rest)

  unfoldable pub build_feasibility_model :
      List String → List (NamedConstraint V) → Result (ConflictFeasibilityModel V)
  build_feasibility_model profile_ids constraints = do
    expressions ← build_loop profile_ids [] constraints
    ok (record { profile_ids = profile_ids; constraints = constraints; expressions = expressions })

  -- The assertions of the active constraints.
  unfoldable pub assert_constraints :
      List (String × Formula)
      → (tracked : Bool) → List (NamedConstraint V)
      → Result (List (Assertion String))
  assert_constraints expressions tracked [] = ok []
  assert_constraints expressions tracked (c ∷ cs) = do
    expression ← get_item c.constraint_id expressions
    rest ← assert_constraints expressions tracked cs
    ok ((if tracked then under c.constraint_id expression else plain expression) ∷ rest)

  -- The solver's assertions, and the labels that a check assumes.
  unfoldable pub solver_for_constraints :
      ConflictFeasibilityModel V
      → (constraints : Option (List (NamedConstraint V))) → (tracked : Bool)
      → Result (List (Assertion String) × List String)
  solver_for_constraints model constraints tracked = do
    let active : List (NamedConstraint V) = elim constraints [
      | some cs ↦ cs
      | none ↦ model.constraints
    ]
    assertions ← assert_constraints model.expressions tracked active
    ok (
      plain index_nonneg ∷ plain (index_below (length model.profile_ids)) ∷ assertions,
      if tracked then map (λ c. c.constraint_id) active else [],
    )

  module _ (check : Solver String) where
    -- The loop of `satisfiable_profile_ids` over the profiles, from an index.
    unfoldable pub possible_from :
        ConflictFeasibilityModel V → ℕ → List String → Result (List String)
    possible_from model index [] = ok []
    possible_from model index (profile_id ∷ profile_ids) = do
      (assertions, labels) ← solver_for_constraints model none false
      rest ← possible_from model (suc index) profile_ids
      ok (elim (check (assertions ++ (plain (index_eq (pos index)) ∷ [])) labels) [
        | sat i ↦ profile_id ∷ rest
        | unsat core ↦ rest
        | unknown ↦ rest
      ])

    unfoldable pub satisfiable_profile_ids :
        List String → List (NamedConstraint V) → Result (List String)
    satisfiable_profile_ids profile_ids constraints =
        build_feasibility_model profile_ids constraints >>= λ model.
        possible_from model 0 profile_ids
