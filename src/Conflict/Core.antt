-- ===== src/Conflict/Core.antt =====
-- src/pqtrust_agent/negotiation/unsat_core.py: the core of a conflict, shrunk by deletion, and its
-- check. Z3's check is the parameter `check`.
pub mod Scopes
pub mod Dicts
pub mod Solved
pub mod Shrunk
pub mod Irreducible
pub mod Computed
pub mod Membership
pub mod Verified
pub mod Passed
use pqtrust_agent_artifact.Prelude.{
  ℕ, zero, suc, String, Bool, true, false, not, List, [], ◌∷◌, ◌++◌, map, keep, length, any,
  contains, distinct, nonempty, Option, none, some, ◌==◌, string_eq, string_leb, sort_by,
  if◌then◌else◌,
}
use pqtrust_agent_artifact.Prelude.Result.{Result, ok, err, value_error, ◌>>=◌, ◌>>◌, raise_if}
use pqtrust_agent_artifact.Negotiation.Selector.{get_item}
use pqtrust_agent_artifact.Negotiation.Normalization.{traverse}
use pqtrust_agent_artifact.Solver.{Status, sat, unsat, unknown, Solver}
use pqtrust_agent_artifact.Conflict.{NamedConstraint}
use pqtrust_agent_artifact.Conflict.Constraints.{build_feasibility_model, solver_for_constraints}

pub record IusResult (V : Type 0) : Type 0 where
  pub original_constraint_count : ℕ
  pub z3_unsat_core : List (NamedConstraint V)
  pub ius : List (NamedConstraint V)
  pub solver_call_count : ℕ

module _ {V : Type 0} where
  abbrev pub constraint_leb : NamedConstraint V → NamedConstraint V → Bool
  constraint_leb c d = string_leb c.constraint_id d.constraint_id

  abbrev pub constraint_ids : List (NamedConstraint V) → List String
  constraint_ids = map (λ c. c.constraint_id)

  -- `tuple(item for item in constraints if item.constraint_id != constraint.constraint_id)`
  abbrev pub without : NamedConstraint V → List (NamedConstraint V) → List (NamedConstraint V)
  without c = keep (λ item. not (item.constraint_id == c.constraint_id))

  -- `label_to_constraint[label]`
  abbrev pub of_label : List (NamedConstraint V) → String → Result (NamedConstraint V)
  of_label ordered label = get_item label (map (λ c. (c.constraint_id, c)) ordered)

  -- The errors of `verify_ius` before it calls the solver.
  unfoldable pub membership_errors : (all_constraints ius : List (NamedConstraint V)) → List String
  membership_errors all_constraints ius =
      let ids = constraint_ids ius in
      let outside : List String =
        if any (λ i. not (contains i (constraint_ids all_constraints))) ids
        then "IUS contains constraints outside model" ∷ []
        else [] in
      if distinct ids then outside else "duplicate constraint in IUS" ∷ outside

  module _ (check : Solver String) (profile_ids : List String) where
    -- The model of the constraints, solved.
    unfoldable pub solve : (tracked : Bool) → List (NamedConstraint V) → Result (Status String)
    solve tracked constraints = do
      model ← build_feasibility_model profile_ids constraints
      (assertions, labels) ← solver_for_constraints model none tracked
      ok (check assertions labels)

    -- The loop over `tuple(remaining)`: the first trial that is unsat, and the calls so far.
    unfoldable pub find_redundant :
        (remaining todo : List (NamedConstraint V)) (calls : ℕ)
        → Result (Option (List (NamedConstraint V)) × ℕ)
    find_redundant remaining [] calls = ok (none, calls)
    find_redundant remaining (c ∷ todo) calls = do
      let trial = without c remaining
      let next = find_redundant remaining todo (suc calls)
      status ← solve false trial
      elim status [ unsat core ↦ ok (some trial, suc calls) | sat i ↦ next | unknown ↦ next ]

    -- The loop `while changed`, on fuel.
    unfoldable pub shrink :
        ℕ → List (NamedConstraint V) → (calls : ℕ) → Option (Result (List (NamedConstraint V) × ℕ))
    shrink zero remaining calls = none
    shrink (suc fuel) remaining calls = elim (find_redundant remaining remaining calls) [
      | err e ↦ some (err e)
      | ok found ↦ elim found.0 [
        | none ↦ some (ok (remaining, found.1))
        | some trial ↦ shrink fuel trial found.1
      ]
    ]

    -- The core of the tracked solver, by identifier, if it answers unsat.
    unfoldable pub unsat_core : List (NamedConstraint V) → Result (List (NamedConstraint V))
    unsat_core ordered = do
      status ← solve true ordered
      labels ← elim status [
        | unsat core ↦ ok core
        | sat i ↦ err (value_error "cannot compute conflict certificate for satisfiable model")
        | unknown ↦ err (value_error "cannot compute conflict certificate for satisfiable model")
      ]
      core ← traverse (of_label ordered) labels
      ok (sort_by constraint_leb core)

    -- The result of `compute_ius`, after the loop.
    abbrev pub with_ius :
        (ordered core : List (NamedConstraint V))
        → Option (Result (List (NamedConstraint V) × ℕ))
        → Option (Result (IusResult V))
    with_ius ordered core none = none
    with_ius ordered core (some (err e)) = some (err e)
    with_ius ordered core (some (ok (remaining, calls))) = some (
        ok (record {
          original_constraint_count = length ordered;
          z3_unsat_core = core;
          ius = sort_by constraint_leb remaining;
          solver_call_count = calls;
        }))

    -- Each round of the loop drops a constraint of the core.
    abbrev pub from_core :
        (ordered : List (NamedConstraint V))
        → Result (List (NamedConstraint V))
        → Option (Result (IusResult V))
    from_core ordered (err e) = some (err e)
    from_core ordered (ok core) = with_ius ordered core (shrink (suc (length core)) core 1)

    unfoldable pub compute_ius : List (NamedConstraint V) → Option (Result (IusResult V))
    compute_ius constraints =
        let ordered = sort_by constraint_leb constraints in from_core ordered (unsat_core ordered)

    -- The last loop of `verify_ius`.
    unfoldable pub irreducible_errors : (ius todo : List (NamedConstraint V)) → Result (List String)
    irreducible_errors ius [] = ok []
    irreducible_errors ius (c ∷ todo) = do
      status ← solve false (without c ius)
      rest ← irreducible_errors ius todo
      ok (elim status [
        | sat i ↦ rest
        | unsat core ↦ "IUS is not irreducible" ∷ rest
        | unknown ↦ "IUS is not irreducible" ∷ rest
      ])

    unfoldable pub verify_ius :
        (all_constraints ius : List (NamedConstraint V)) → Result (List String)
    verify_ius all_constraints ius = do
      let errors = membership_errors all_constraints ius
      status ← solve false ius
      elim status [
        | unsat core ↦ irreducible_errors ius ius >>= λ more. ok (errors ++ more)
        | sat i ↦ ok (errors ++ ("IUS constraint set is satisfiable" ∷ []))
        | unknown ↦ ok (errors ++ ("IUS constraint set is satisfiable" ∷ []))
      ]
