-- ===== src/Conflict/Core/Passed.antt =====
-- What passes `verify_ius` of src/pqtrust_agent/negotiation/unsat_core.py, on a solver that always
-- answers.
use pqtrust_agent_artifact.Prelude.{
  String, true, false, List, [], ◌∷◌, all, contains, distinct, some, string_eq, ◌≡◌, inl, inr, refl,
  ◌∙◌, arith,
}
use pqtrust_agent_artifact.Prelude.Result.{ok}
use pqtrust_agent_artifact.Solver.{Solver, Laws}
use pqtrust_agent_artifact.Solver.Meaning.{Decides}
use pqtrust_agent_artifact.Conflict.{NamedConstraint}
use pqtrust_agent_artifact.Conflict.Core.{
  constraint_ids, without, compute_ius, IusResult, irreducible_errors, membership_errors,
  verify_ius,
}
use pqtrust_agent_artifact.Conflict.Core.Dicts.{is_feasible, all-constraint_ids}
use pqtrust_agent_artifact.Conflict.Core.Shrunk.{
  IsIrreducible, IsShrunk, solve-cases, distinct-constraint_ids-keep,
}
use pqtrust_agent_artifact.Conflict.Core.Computed.{compute_ius-IsShrunk}
use pqtrust_agent_artifact.Conflict.Core.Membership.{outside_none}
use pqtrust_agent_artifact.Conflict.Core.Verified.{after_unsat}

module _ {V : Type 0} where
  membership_errors-none :
      (cs ius : List (NamedConstraint V))
      → distinct (constraint_ids ius) ≡ true
      → all (λ c. contains c.constraint_id (constraint_ids cs)) ius ≡ true
      → membership_errors cs ius ≡ []
  unfolding membership_errors
  membership_errors-none cs ius d h = ground (arith, outside_none (constraint_ids cs) ius)

module _ {V : Type 0} (check : Solver String) (laws : Laws check) (decides : Decides check)
    (profile_ids : List String) where
  irreducible_errors-none :
      (ius todo : List (NamedConstraint V))
      → distinct (constraint_ids ius) ≡ true
      → IsIrreducible profile_ids ius todo
      → irreducible_errors check profile_ids ius todo ≡ ok []
  unfolding irreducible_errors
  irreducible_errors-none ius [] d h = refl
  irreducible_errors-none ius (c ∷ todo) d h =
      let rest = irreducible_errors-none ius todo d h.1 in
      let feasible = h.0 in
      elim (solve-cases check laws decides profile_ids (without c ius)
        (distinct-constraint_ids-keep _ ius d)) [
          | inl (core, solved, infeasible) ↦ absurd (ground arith)
          | inr (i, solved, _) ↦ rw (solved, rest) refl
        ]

  pub verify_ius-IsShrunk :
      (cs ius : List (NamedConstraint V))
      → IsShrunk profile_ids cs ius
      → verify_ius check profile_ids cs ius ≡ ok []
  verify_ius-IsShrunk cs ius is_shrunk =
      let once = is_shrunk.distinct_ids in
      let infeasible = is_shrunk.infeasible in
      let inside =
        is_shrunk.part (λ c. contains c.constraint_id (constraint_ids cs))
          (all-constraint_ids cs) in
      let errors = irreducible_errors-none ius ius once is_shrunk.irreducible in
      let none_before = membership_errors-none cs ius once inside in
      elim (solve-cases check laws decides profile_ids ius once) [
        | inl (core, solved, _) ↦
            after_unsat check laws profile_ids cs ius core solved ∙ rw (errors, none_before) refl
        | inr (i, solved, feasible) ↦ absurd (ground arith)
      ]

  -- On a solver that always answers, the result of `compute_ius` on constraints, each once, that no profile fulfils together passes
  -- `verify_ius`.
  pub verify_ius-compute_ius :
      (cs : List (NamedConstraint V))
      → distinct (constraint_ids cs) ≡ true
      → is_feasible profile_ids cs ≡ false
      → (r : IusResult V) × (compute_ius check profile_ids cs ≡ some (ok r))
        × (verify_ius check profile_ids cs r.ius ≡ ok [])
  verify_ius-compute_ius cs d h =
      let (r, computed, is_shrunk) = compute_ius-IsShrunk check laws decides profile_ids cs d h in
      (r, computed, verify_ius-IsShrunk cs r.ius is_shrunk)
