-- ===== src/Conflict/Core/Solved.antt =====
-- What the solver's answers say of a set of constraints: whether some profile is in all the scopes.
use pqtrust_agent_artifact.Prelude.{
  ℕ, ◌<◌, String, Bool, true, false, not, ◌||◌, List, [], ◌∷◌, map, all, All, any, contains,
  distinct, length, ltb, none, some, string_eq, ◌≡◌, refl, ap, sym, ◌∙◌, arith, if◌then◌else◌,
}
use pqtrust_agent_artifact.Prelude.Result.{ok}
use pqtrust_agent_artifact.Negotiation.Selector.{lookup}
use pqtrust_agent_artifact.Solver.{
  ℤ, pos, negsuc, Formula, index_nonneg, index_below, holds, Assertion, plain, under, satisfies,
  sat, unsat, Solver, Laws,
}
use pqtrust_agent_artifact.Solver.Meaning.{meets, sat-meets, unsat-meets, core-meets}
use pqtrust_agent_artifact.Conflict.{NamedConstraint}
use pqtrust_agent_artifact.Conflict.Constraints.{
  ConflictFeasibilityModel, build_loop, build_feasibility_model, assert_constraints,
  solver_for_constraints,
}
use pqtrust_agent_artifact.Conflict.Core.{constraint_ids, solve}
use pqtrust_agent_artifact.Conflict.Core.Scopes.{
  nth, ltb_of_lt, nth-some, nth-lt, any-nth, none_of_nth, expression, expression-holds,
}
use pqtrust_agent_artifact.Conflict.Core.Dicts.{
  is_feasible, All-own, all_fresh, all-constraint_ids, allows, all_of_allows,
}

module _ {V : Type 0} where
  module _ (profile_ids : List String) where
    abbrev pub entry : NamedConstraint V → String × Formula
    entry c = (c.constraint_id, expression profile_ids c.profile_scope)

    fresh_more :
        (i : String) (seen : List String) (cs : List (NamedConstraint V))
        → contains i (constraint_ids cs) ≡ false
        → all (λ c. not (contains c.constraint_id seen)) cs ≡ true
        → all (λ c. not (contains c.constraint_id (i ∷ seen))) cs ≡ true
    fresh_more i seen [] h k = refl
    fresh_more i seen (c ∷ cs) h k = ground (
      arith,
      string_eq.beq_iff i c.constraint_id,
      string_eq.beq_iff c.constraint_id i,
      fresh_more i seen cs,
    )

    build_loop_lem :
        (seen : List String) (cs : List (NamedConstraint V))
        → distinct (constraint_ids cs) ≡ true
        → all (λ c. not (contains c.constraint_id seen)) cs ≡ true
        → build_loop profile_ids seen cs ≡ ok (map entry cs)
    unfolding build_loop
    build_loop_lem seen [] h k = refl
    build_loop_lem seen (c ∷ cs) h k =
        let rest =
          build_loop_lem (c.constraint_id ∷ seen) cs (ground arith)
            (fresh_more c.constraint_id seen cs (ground arith) (ground arith)) in
        let new : contains c.constraint_id seen ≡ false = ground arith in rw (new, rest) refl

    abbrev pub assertion : Bool → NamedConstraint V → Assertion String
    assertion tracked c =
        let e = expression profile_ids c.profile_scope in
        if tracked then under c.constraint_id e else plain e

    assert_constraints_lem :
        (dict : List (String × Formula)) (tracked : Bool) (cs : List (NamedConstraint V))
        → All (λ c. lookup c.constraint_id dict ≡ some (expression profile_ids c.profile_scope)) cs
        → assert_constraints dict tracked cs ≡ ok (map (assertion tracked) cs)
    unfolding assert_constraints
    assert_constraints_lem dict tracked [] h = refl
    assert_constraints_lem dict tracked (c ∷ cs) h =
        let found = h.0 in
        let rest = assert_constraints_lem dict tracked cs h.1 in rw (found, rest) refl

    abbrev pub assertions_of : Bool → List (NamedConstraint V) → List (Assertion String)
    assertions_of tracked cs =
        plain index_nonneg ∷ plain (index_below (length profile_ids)) ∷ map (assertion tracked) cs

    abbrev pub model_of : List (NamedConstraint V) → ConflictFeasibilityModel V
    model_of cs = record { profile_ids = profile_ids; constraints = cs; expressions = map entry cs }

    pub build_lem :
        (cs : List (NamedConstraint V))
        → distinct (constraint_ids cs) ≡ true
        → build_feasibility_model profile_ids cs ≡ ok (model_of cs)
    unfolding build_feasibility_model
    build_lem cs h = rw (build_loop_lem [] cs h (all_fresh cs)) refl

    pub solver_lem :
        (tracked : Bool) (cs : List (NamedConstraint V))
        → distinct (constraint_ids cs) ≡ true
        → solver_for_constraints (model_of cs) none tracked
          ≡ ok (assertions_of tracked cs, if tracked then constraint_ids cs else [])
    unfolding solver_for_constraints
    solver_lem tracked cs h =
        let asserted =
          assert_constraints_lem (map entry cs) tracked cs
            (All-own (λ c. expression profile_ids c.profile_scope) cs h) in
        rw asserted refl

    pub solve_lem :
        (check : Solver String) (tracked : Bool) (cs : List (NamedConstraint V))
        → distinct (constraint_ids cs) ≡ true
        → solve check profile_ids tracked cs
          ≡ ok (check (assertions_of tracked cs) (if tracked then constraint_ids cs else []))
    unfolding solve
    solve_lem check tracked cs h = rw (build_lem cs h, solver_lem tracked cs h) refl

    satisfies-assertion :
        (tracked : Bool) (labels : List String) (c : NamedConstraint V) (j : ℕ) (p : String)
        → nth j profile_ids ≡ some p
        → satisfies (λ l. contains l labels) (pos j) (assertion tracked c)
          ≡ allows tracked labels p c
    unfolding satisfies
    satisfies-assertion true labels c j p h =
        ap (λ (b : Bool). not (contains c.constraint_id labels) || b)
          (expression-holds profile_ids c.profile_scope j p h)
    satisfies-assertion false labels c j p h = expression-holds profile_ids c.profile_scope j p h

    all-assertions :
        (tracked : Bool) (labels : List String) (j : ℕ) (p : String)
        → nth j profile_ids ≡ some p
        → (cs : List (NamedConstraint V))
        → all (satisfies (λ l. contains l labels) (pos j)) (map (assertion tracked) cs)
          ≡ all (allows tracked labels p) cs
    all-assertions tracked labels j p h [] = refl
    all-assertions tracked labels j p h (c ∷ cs) =
        let here = satisfies-assertion tracked labels c j p h in
        let rest = all-assertions tracked labels j p h cs in rw (here, rest) refl

    -- The constraints that the labels activate, at the index of a profile.
    pub meets-assertions :
        (tracked : Bool) (labels : List String) (cs : List (NamedConstraint V)) (j : ℕ) (p : String)
        → nth j profile_ids ≡ some p
        → meets (assertions_of tracked cs) labels (pos j) ≡ all (allows tracked labels p) cs
    unfolding satisfies holds
    meets-assertions tracked labels cs j p h =
        let below : ltb j (length profile_ids) ≡ true =
          ltb_of_lt j (length profile_ids) (nth-lt j profile_ids p h) in
        rw below (all-assertions tracked labels j p h cs)

    -- A model's index is the index of a profile.
    meets-inside :
        (tracked : Bool) (labels : List String) (cs : List (NamedConstraint V)) (i : ℤ)
        → meets (assertions_of tracked cs) labels i ≡ true
        → (j : ℕ) × (i ≡ pos j) × (j < length profile_ids)
    unfolding satisfies holds
    meets-inside tracked labels cs (pos j) h = (j, refl, ground arith)
    meets-inside tracked labels cs (negsuc j) h = absurd (ground arith)

    module _ (check : Solver String) (laws : Laws check) where
      pub sat-is_feasible :
          (cs : List (NamedConstraint V)) (i : ℤ)
          → check (assertions_of false cs) [] ≡ sat i
          → is_feasible profile_ids cs ≡ true
      sat-is_feasible cs i h =
          let met = sat-meets check laws (assertions_of false cs) [] i h in
          let (j, here, inside) = meets-inside false [] cs i met in
          let (p, at_j) = nth-some j profile_ids inside in
          any-nth (λ q. all (λ c. contains q c.profile_scope) cs) j profile_ids p at_j
            (sym (meets-assertions false [] cs j p at_j)
              ∙ (ap (meets (assertions_of false cs) []) (sym here) ∙ met))

      pub unsat-is_feasible :
          (cs : List (NamedConstraint V)) (core : List String)
          → check (assertions_of false cs) [] ≡ unsat core
          → is_feasible profile_ids cs ≡ false
      unsat-is_feasible cs core h =
          none_of_nth (λ q. all (λ c. contains q c.profile_scope) cs) profile_ids
            (λ j p at_j.
              sym (meets-assertions false [] cs j p at_j)
              ∙ unsat-meets check laws (assertions_of false cs) [] core (pos j) h)

      -- The labels of a core activate constraints that no profile fulfils.
      pub core-allows :
          (cs : List (NamedConstraint V)) (labels core : List String)
          → check (assertions_of true cs) labels ≡ unsat core
          → any (λ p. all (allows true core p) cs) profile_ids ≡ false
      core-allows cs labels core h =
          none_of_nth (λ q. all (allows true core q) cs) profile_ids
            (λ j p at_j.
              sym (meets-assertions true core cs j p at_j)
              ∙ core-meets check laws (assertions_of true cs) labels core (pos j) h)

      -- A feasible set has a model, so a tracked check that answers sat means a feasible set.
      pub tracked-is_feasible :
          (cs : List (NamedConstraint V)) (i : ℤ)
          → check (assertions_of true cs) (constraint_ids cs) ≡ sat i
          → is_feasible profile_ids cs ≡ true
      tracked-is_feasible cs i h =
          let met = sat-meets check laws (assertions_of true cs) (constraint_ids cs) i h in
          let (j, here, inside) = meets-inside true (constraint_ids cs) cs i met in
          let (p, at_j) = nth-some j profile_ids inside in
          any-nth (λ q. all (λ c. contains q c.profile_scope) cs) j profile_ids p at_j
            (all_of_allows (constraint_ids cs) p cs (all-constraint_ids cs) (
              sym (meets-assertions true (constraint_ids cs) cs j p at_j)
              ∙ (ap (meets (assertions_of true cs) (constraint_ids cs)) (sym here) ∙ met)))
