-- ===== src/Conflict/Core/Computed.antt =====
-- The result of `compute_ius` in src/pqtrust_agent/negotiation/unsat_core.py.
use pqtrust_agent_artifact.Prelude.{
  subst, ℕ, suc, String, Bool, true, false, List, [], ◌∷◌, all, contains, distinct, length, some,
  string_eq, ◌≡◌, inl, inr, refl, ap, sym, ◌∙◌, arith, is_sorted, sort_by, all-sort_by,
  distinct-map-sort_by, sort_by-is_sorted,
}
use pqtrust_agent_artifact.Prelude.Result.{Exn, ok, err, value_error}
use pqtrust_agent_artifact.Solver.{Status, sat, unsat, unknown, Solver, Laws}
use pqtrust_agent_artifact.Solver.Meaning.{Decides, Decides-cases}
use pqtrust_agent_artifact.Conflict.{NamedConstraint}
use pqtrust_agent_artifact.Conflict.Core.{
  constraint_leb, constraint_ids, shrink, unsat_core, from_core, with_ius, compute_ius, IusResult,
}
use pqtrust_agent_artifact.Conflict.Core.Dicts.{is_feasible, All-own, allows}
use pqtrust_agent_artifact.Conflict.Core.Solved.{
  assertions_of, solve_lem, core-allows, tracked-is_feasible,
}
use pqtrust_agent_artifact.Conflict.Core.Shrunk.{IsShrunk, shrink_lem}
use pqtrust_agent_artifact.Conflict.Core.Irreducible.{
  any-false, is_feasible-sort, sorted-sort, traverse-of_label, all-allows,
}

module _ {V : Type 0} (check : Solver String) (laws : Laws check) (decides : Decides check)
    (profile_ids : List String) where
  -- The sorted constraints of a core: infeasible, each once, in order, and of the given ones.
  record IsCore (cs core : List (NamedConstraint V)) : Type 0 where
    infeasible : is_feasible profile_ids core ≡ false
    distinct_ids : distinct (constraint_ids core) ≡ true
    sorted : is_sorted constraint_leb core ≡ true
    part : (q : NamedConstraint V → Bool) → all q cs ≡ true → all q core ≡ true

  unsat_core_lem :
      (cs : List (NamedConstraint V))
      → distinct (constraint_ids cs) ≡ true
      → is_feasible profile_ids cs ≡ false
      → (core : List (NamedConstraint V)) × (unsat_core check profile_ids cs ≡ ok core)
        × IsCore cs core
  unfolding unsat_core
  unsat_core_lem cs d h =
      let solved = solve_lem profile_ids check true cs d in
      elim (Decides-cases check decides (assertions_of profile_ids true cs) (constraint_ids cs)) [
        | inl (i, answer) ↦
            let feasible = tracked-is_feasible profile_ids check laws cs i answer in
            absurd (ground arith)
        | inr (labels, answer) ↦
            let assumed =
              laws.core_assumed (assertions_of profile_ids true cs) (constraint_ids cs) labels
                answer in
            let once =
              laws.core_distinct (assertions_of profile_ids true cs) (constraint_ids cs) labels
                answer d in
            let (found, traversed, labelled) = traverse-of_label cs labels assumed in
            let refuted = core-allows profile_ids check laws cs (constraint_ids cs) labels answer in
            let infeasible =
              any-false (λ p. all (λ c. contains p c.profile_scope) found)
                (λ p. all (allows true labels p) cs) profile_ids
                (λ p k. all-allows cs labels found labelled p k cs (All-own (λ c. c) cs d))
                refuted in
            (
              sort_by constraint_leb found,
              rw (solved, answer, traversed) refl,
              record {
                infeasible = is_feasible-sort profile_ids constraint_leb found ∙ infeasible;
                distinct_ids =
                    distinct-map-sort_by constraint_leb (λ c. c.constraint_id) found
                    ∙ (ap distinct labelled.ids ∙ once);
                sorted = sorted-sort found;
                part = λ q k. all-sort_by constraint_leb q found ∙ labelled.inside q k;
              },
            )
      ]

  abbrev ordered : List (NamedConstraint V) → List (NamedConstraint V)
  ordered = sort_by constraint_leb

  compute_ius-eq :
      (cs core remaining : List (NamedConstraint V)) (done : ℕ)
      → unsat_core check profile_ids (ordered cs) ≡ ok core
      → shrink check profile_ids (suc (length core)) core 1 ≡ some (ok (remaining, done))
      → compute_ius check profile_ids cs
        ≡ some (
            ok (record {
              original_constraint_count = length (ordered cs);
              z3_unsat_core = core;
              ius = ordered remaining;
              solver_call_count = done;
            }))
  unfolding compute_ius
  compute_ius-eq cs core remaining done h k =
      ap (from_core check profile_ids (ordered cs)) h
      ∙ ap (with_ius check profile_ids (ordered cs) core) k

  -- On a solver that always answers, constraints, each once, that no profile fulfils together have
  -- a result: a part of them, in order, that no profile fulfils together, while some profile fulfils
  -- it without any one of its constraints.
  pub compute_ius-IsShrunk :
      (cs : List (NamedConstraint V))
      → distinct (constraint_ids cs) ≡ true
      → is_feasible profile_ids cs ≡ false
      → (r : IusResult V) × (compute_ius check profile_ids cs ≡ some (ok r))
        × IsShrunk profile_ids cs r.ius
  compute_ius-IsShrunk cs d h =
      let (core, cored, is_core) =
        unsat_core_lem (ordered cs)
          (distinct-map-sort_by constraint_leb (λ c. c.constraint_id) cs ∙ d)
          (is_feasible-sort profile_ids constraint_leb cs ∙ h) in
      let (remaining, done, shrunk, is_shrunk) =
        shrink_lem check laws decides profile_ids (suc (length core)) core 1 (omega arith)
          is_core.infeasible is_core.distinct_ids is_core.sorted in
      (
        _,
        compute_ius-eq cs core remaining done cored shrunk,
        subst (IsShrunk profile_ids cs)
            (sym (sort_by-is_sorted constraint_leb remaining is_shrunk.sorted))
            (record {
              infeasible = is_shrunk.infeasible;
              irreducible = is_shrunk.irreducible;
              distinct_ids = is_shrunk.distinct_ids;
              sorted = is_shrunk.sorted;
              part = λ q k. is_shrunk.part q (is_core.part q (all-sort_by constraint_leb q cs ∙ k));
            }),
      )

-- What the solver answers needs no assumption here: an answer that is not unsat raises.
module _ {V : Type 0} (check : Solver String) (laws : Laws check) (profile_ids : List String) where
  compute_ius-eq-err :
      (cs : List (NamedConstraint V)) (e : Exn)
      → unsat_core check profile_ids (sort_by constraint_leb cs) ≡ err e
      → compute_ius check profile_ids cs ≡ some (err e)
  unfolding compute_ius
  compute_ius-eq-err cs e h = ap (from_core check profile_ids (sort_by constraint_leb cs)) h

  feasible_allows :
      (labels : List String) (p : String) (cs : List (NamedConstraint V))
      → all (λ c. contains p c.profile_scope) cs ≡ true
      → all (allows true labels p) cs ≡ true
  feasible_allows labels p [] h = refl
  feasible_allows labels p (c ∷ cs) h = ground (arith, feasible_allows labels p cs)

  unsat_core_feasible :
      (cs : List (NamedConstraint V))
      → distinct (constraint_ids cs) ≡ true
      → is_feasible profile_ids cs ≡ true
      → unsat_core check profile_ids cs
        ≡ err (value_error "cannot compute conflict certificate for satisfiable model")
  unfolding unsat_core
  unsat_core_feasible cs d h = go _ refl
    where
      go :
          (answer : Status String)
          → check (assertions_of profile_ids true cs) (constraint_ids cs) ≡ answer
          → unsat_core check profile_ids cs
            ≡ err (value_error "cannot compute conflict certificate for satisfiable model")
      go (sat i) answer = rw (solve_lem profile_ids check true cs d, answer) refl
      go unknown answer = rw (solve_lem profile_ids check true cs d, answer) refl
      go (unsat labels) answer =
          let infeasible =
            any-false (λ p. all (λ c. contains p c.profile_scope) cs)
              (λ p. all (allows true labels p) cs) profile_ids
              (λ p k. feasible_allows labels p cs k)
              (core-allows profile_ids check laws cs (constraint_ids cs) labels answer) in
          absurd (ground arith)

  -- Constraints, each once, that some profile fulfils together raise a ValueError, whether or not
  -- the solver always answers.
  pub compute_ius_feasible :
      (cs : List (NamedConstraint V))
      → distinct (constraint_ids cs) ≡ true
      → is_feasible profile_ids cs ≡ true
      → compute_ius check profile_ids cs
        ≡ some (err (value_error "cannot compute conflict certificate for satisfiable model"))
  compute_ius_feasible cs d h = compute_ius-eq-err cs _ (
      unsat_core_feasible (sort_by constraint_leb cs)
        (distinct-map-sort_by constraint_leb (λ c. c.constraint_id) cs ∙ d)
        (is_feasible-sort profile_ids constraint_leb cs ∙ h))
