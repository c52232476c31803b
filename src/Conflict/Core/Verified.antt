-- ===== src/Conflict/Core/Verified.antt =====
-- What `verify_ius` of src/pqtrust_agent/negotiation/unsat_core.py accepts.
use pqtrust_agent_artifact.Prelude.{
  String, true, false, List, [], ◌∷◌, ◌++◌, all, contains, distinct, string_eq, ◌≡◌, refl, ap, sym,
  ◌∙◌, arith,
}
use pqtrust_agent_artifact.Prelude.Result.{Result, ok, ◌>>=◌, >>=-eq-ok}
use pqtrust_agent_artifact.Solver.{ℤ, Status, sat, unsat, unknown, Solver, Laws}
use pqtrust_agent_artifact.Conflict.{NamedConstraint}
use pqtrust_agent_artifact.Conflict.Core.{
  constraint_ids, without, solve, irreducible_errors, membership_errors, verify_ius,
}
use pqtrust_agent_artifact.Conflict.Core.Dicts.{is_feasible}
use pqtrust_agent_artifact.Conflict.Core.Solved.{solve_lem, sat-is_feasible, unsat-is_feasible}
use pqtrust_agent_artifact.Conflict.Core.Shrunk.{IsIrreducible, distinct-constraint_ids-keep}
use pqtrust_agent_artifact.Conflict.Core.Membership.{
  list_value, append_nil, membership_errors-distinct, membership_errors-inside,
}

not_empty :
    (x : String) (xs : List String) → ¬ (◌≡◌ {A = Result (List String)} (ok (x ∷ xs)) (ok []))
not_empty x xs h = cc

same_answer : (s t : Status String) → ◌≡◌ {A = Result (Status String)} (ok s) (ok t) → s ≡ t
same_answer s t h = cc

module _ {V : Type 0} (check : Solver String) (laws : Laws check) (profile_ids : List String) where
  errors_unsat :
      (c : NamedConstraint V) (ius todo : List (NamedConstraint V)) (core : List String)
      → solve check profile_ids false (without c ius) ≡ ok (unsat core)
      → irreducible_errors check profile_ids ius (c ∷ todo) ≡ (
          irreducible_errors check profile_ids ius todo >>= λ rest.
          ok ("IUS is not irreducible" ∷ rest))
  unfolding irreducible_errors
  errors_unsat c ius todo core h = rw h refl

  errors_sat :
      (c : NamedConstraint V) (ius todo : List (NamedConstraint V)) (i : ℤ)
      → solve check profile_ids false (without c ius) ≡ ok (sat i)
      → irreducible_errors check profile_ids ius (c ∷ todo)
        ≡ (irreducible_errors check profile_ids ius todo >>= λ rest. ok rest)
  unfolding irreducible_errors
  errors_sat c ius todo i h = rw h refl

  errors_unknown :
      (c : NamedConstraint V) (ius todo : List (NamedConstraint V))
      → solve check profile_ids false (without c ius) ≡ ok unknown
      → irreducible_errors check profile_ids ius (c ∷ todo) ≡ (
          irreducible_errors check profile_ids ius todo >>= λ rest.
          ok ("IUS is not irreducible" ∷ rest))
  unfolding irreducible_errors
  errors_unknown c ius todo h = rw h refl

  pub after_unsat :
      (cs ius : List (NamedConstraint V)) (core : List String)
      → solve check profile_ids false ius ≡ ok (unsat core)
      → verify_ius check profile_ids cs ius ≡ (
          irreducible_errors check profile_ids ius ius >>= λ more.
          ok (membership_errors cs ius ++ more))
  unfolding verify_ius
  after_unsat cs ius core h = rw h refl

  after_sat :
      (cs ius : List (NamedConstraint V)) (i : ℤ)
      → solve check profile_ids false ius ≡ ok (sat i)
      → verify_ius check profile_ids cs ius
        ≡ ok (membership_errors cs ius ++ ("IUS constraint set is satisfiable" ∷ []))
  unfolding verify_ius
  after_sat cs ius i h = rw h refl

  after_unknown :
      (cs ius : List (NamedConstraint V))
      → solve check profile_ids false ius ≡ ok unknown
      → verify_ius check profile_ids cs ius
        ≡ ok (membership_errors cs ius ++ ("IUS constraint set is satisfiable" ∷ []))
  unfolding verify_ius
  after_unknown cs ius h = rw h refl

  solved_sat :
      (cs : List (NamedConstraint V)) (i : ℤ)
      → distinct (constraint_ids cs) ≡ true
      → solve check profile_ids false cs ≡ ok (sat i)
      → is_feasible profile_ids cs ≡ true
  solved_sat cs i d h =
      sat-is_feasible profile_ids check laws cs i
        (same_answer _ _ (sym (solve_lem profile_ids check false cs d) ∙ h))

  solved_unsat :
      (cs : List (NamedConstraint V)) (core : List String)
      → distinct (constraint_ids cs) ≡ true
      → solve check profile_ids false cs ≡ ok (unsat core)
      → is_feasible profile_ids cs ≡ false
  solved_unsat cs core d h =
      unsat-is_feasible profile_ids check laws cs core
        (same_answer _ _ (sym (solve_lem profile_ids check false cs d) ∙ h))

  no_error_rest :
      (ius todo : List (NamedConstraint V))
      → ¬ (
          (irreducible_errors check profile_ids ius todo >>= λ rest.
          ok ("IUS is not irreducible" ∷ rest))
          ≡ ok [])
  no_error_rest ius todo h =
      let (rest, _, made) =
        >>=-eq-ok (irreducible_errors check profile_ids ius todo)
          (λ rest. ok ("IUS is not irreducible" ∷ rest)) h in
      not_empty "IUS is not irreducible" rest made

  -- Without an error, the first constraint's removal was answered sat.
  irreducible_errors-first :
      (c : NamedConstraint V) (ius todo : List (NamedConstraint V))
      → irreducible_errors check profile_ids ius (c ∷ todo) ≡ ok []
      → (i : ℤ) × (solve check profile_ids false (without c ius) ≡ ok (sat i))
        × (irreducible_errors check profile_ids ius todo ≡ ok [])
  unfolding irreducible_errors
  irreducible_errors-first c ius todo h =
      let (status, solved, _) = >>=-eq-ok (solve check profile_ids false (without c ius)) _ h in
      go status solved
    where
      go :
          (status : Status String)
          → solve check profile_ids false (without c ius) ≡ ok status
          → (i : ℤ) × (solve check profile_ids false (without c ius) ≡ ok (sat i))
            × (irreducible_errors check profile_ids ius todo ≡ ok [])
      go (unsat core) solved =
          absurd (no_error_rest ius todo (sym (errors_unsat c ius todo core solved) ∙ h))
      go unknown solved =
          absurd (no_error_rest ius todo (sym (errors_unknown c ius todo solved) ∙ h))
      go (sat i) solved =
          let (rest, rests, made) =
            >>=-eq-ok (irreducible_errors check profile_ids ius todo) (λ rest. ok rest)
              (sym (errors_sat c ius todo i solved) ∙ h) in
          (i, solved, rests ∙ made)

  irreducible_errors-IsIrreducible :
      (ius todo : List (NamedConstraint V))
      → distinct (constraint_ids ius) ≡ true
      → irreducible_errors check profile_ids ius todo ≡ ok []
      → IsIrreducible profile_ids ius todo
  irreducible_errors-IsIrreducible ius [] d h = tt
  irreducible_errors-IsIrreducible ius (c ∷ todo) d h =
      let (i, solved, rest) = irreducible_errors-first c ius todo h in
      (
        solved_sat (without c ius) i (distinct-constraint_ids-keep _ ius d) solved,
        irreducible_errors-IsIrreducible ius todo d rest,
      )

  no_message_rest :
      (cs ius : List (NamedConstraint V))
      → ¬ (
          ◌≡◌ {A = Result (List String)}
            (ok (membership_errors cs ius ++ ("IUS constraint set is satisfiable" ∷ [])))
            (ok []))
  no_message_rest cs ius h =
      let (_, after) = append_nil (membership_errors cs ius) _ (list_value _ _ h) in
      absurd (ground arith)

  -- An accepted set was answered unsat, and neither part of the check found an error.
  verify_ius_accepted :
      (cs ius : List (NamedConstraint V))
      → verify_ius check profile_ids cs ius ≡ ok []
      → (core : List String) × (solve check profile_ids false ius ≡ ok (unsat core))
        × (membership_errors cs ius ≡ [])
        × (irreducible_errors check profile_ids ius ius ≡ ok [])
  unfolding verify_ius
  verify_ius_accepted cs ius h =
      let (status, solved, _) = >>=-eq-ok (solve check profile_ids false ius) _ h in
      go status solved
    where
      go :
          (status : Status String)
          → solve check profile_ids false ius ≡ ok status
          → (core : List String) × (solve check profile_ids false ius ≡ ok (unsat core))
            × (membership_errors cs ius ≡ [])
            × (irreducible_errors check profile_ids ius ius ≡ ok [])
      go (sat i) solved = absurd (no_message_rest cs ius (sym (after_sat cs ius i solved) ∙ h))
      go unknown solved = absurd (no_message_rest cs ius (sym (after_unknown cs ius solved) ∙ h))
      go (unsat core) solved =
          let (more, found, made) =
            >>=-eq-ok (irreducible_errors check profile_ids ius ius)
              (λ more. ok (membership_errors cs ius ++ more))
              (sym (after_unsat cs ius core solved) ∙ h) in
          let (before, after) = append_nil (membership_errors cs ius) more (list_value _ _ made) in
          (core, solved, before, found ∙ ap ok after)

  -- What `verify_ius` accepts, whether or not the solver always answers, is a set of known
  -- identifiers, each once, that no profile fulfils together and that some profile fulfils without
  -- any one of its constraints.
  pub verify_ius-IsIrreducible :
      (cs ius : List (NamedConstraint V))
      → verify_ius check profile_ids cs ius ≡ ok []
      → (is_feasible profile_ids ius ≡ false)
        × IsIrreducible profile_ids ius ius
        × (distinct (constraint_ids ius) ≡ true)
        × (all (λ c. contains c.constraint_id (constraint_ids cs)) ius ≡ true)
  verify_ius-IsIrreducible cs ius h =
      let (core, solved, before, after) = verify_ius_accepted cs ius h in
      let once = membership_errors-distinct cs ius before in
      (
        solved_unsat ius core once solved,
        irreducible_errors-IsIrreducible ius ius once after,
        once,
        membership_errors-inside cs ius before,
      )
