-- ===== src/Conflict/Possible.antt =====
-- `satisfiable_profile_ids` of src/pqtrust_agent/negotiation/conflict_constraints.py returns the
-- profiles in the scope of every constraint.
use pqtrust_agent_artifact.Prelude.{
  ℕ, suc, ◌+◌, String, Bool, true, false, ◌&&◌, List, [], ◌∷◌, ◌++◌, keep, all, contains, distinct,
  some, string_eq, ◌≡◌, ◌⊎◌, inl, inr, refl, ap, sym, ◌∙◌, arith,
}
use pqtrust_agent_artifact.Prelude.Result.{ok}
use pqtrust_agent_artifact.Solver.{
  ℤ, pos, int_beq, index_eq, plain, holds, satisfies, Assertion, sat, unsat, Solver, Laws,
}
use pqtrust_agent_artifact.Solver.Meaning.{
  meets, all-append, sat-meets, unsat-meets, Decides, Decides-cases,
}
use pqtrust_agent_artifact.Conflict.{NamedConstraint}
use pqtrust_agent_artifact.Conflict.Constraints.{possible_from, satisfiable_profile_ids}
use pqtrust_agent_artifact.Conflict.Core.{constraint_ids}
use pqtrust_agent_artifact.Conflict.Core.Scopes.{nth}
use pqtrust_agent_artifact.Conflict.Core.Solved.{
  assertions_of, model_of, build_lem, solver_lem, meets-assertions,
}

int_beq_eq : (a b : ℤ) → int_beq a b ≡ true → a ≡ b
int_beq_eq a b h = ground arith

and_true : (a b : Bool) → (a && b) ≡ true → (a ≡ true) × (b ≡ true)
and_true a b h = (ground arith, ground arith)

and_self : (a : Bool) (j : ℕ) → (a && int_beq (pos j) (pos j)) ≡ false → a ≡ false
and_self a j h = ground arith

meets-pin :
    (assertions : List (Assertion String)) (ls : List String) (j : ℕ) (i : ℤ)
    → meets (assertions ++ (plain (index_eq (pos j)) ∷ [])) ls i
      ≡ (meets assertions ls i && int_beq i (pos j))
unfolding satisfies holds
meets-pin assertions ls j i = ground (
  arith,
  all-append (satisfies (λ l. contains l ls) i) assertions (plain (index_eq (pos j)) ∷ []),
)

module _ {V : Type 0} (check : Solver String) (laws : Laws check) (decides : Decides check)
    (profile_ids : List String) (cs : List (NamedConstraint V))
    (once : distinct (constraint_ids cs) ≡ true) where
  abbrev in_scopes : String → Bool
  in_scopes p = all (λ c. contains p c.profile_scope) cs

  abbrev at_profile : ℕ → List (Assertion String)
  at_profile j = assertions_of profile_ids false cs ++ (plain (index_eq (pos j)) ∷ [])

  pinned-cases :
      (j : ℕ) (p : String)
      → nth j profile_ids ≡ some p
      → ((i : ℤ) × (check (at_profile j) [] ≡ sat i) × (in_scopes p ≡ true))
        ⊎ ((core : List String) × (check (at_profile j) [] ≡ unsat core) × (in_scopes p ≡ false))
  pinned-cases j p at_j =
      let meaning = meets-assertions profile_ids false [] cs j p at_j in
      elim (Decides-cases check decides (at_profile j) []) [
        | inl (i, answer) ↦
            let met =
              sym (meets-pin (assertions_of profile_ids false cs) [] j i)
              ∙ sat-meets check laws (at_profile j) [] i answer in
            let (inside, here) = and_true _ _ met in
            inl (
              i,
              answer,
              sym meaning
                  ∙ (ap (meets (assertions_of profile_ids false cs) [])
                        (sym (int_beq_eq i (pos j) here))
                      ∙ inside),
            )
        | inr (core, answer) ↦
            let unmet =
              sym (meets-pin (assertions_of profile_ids false cs) [] j (pos j))
              ∙ unsat-meets check laws (at_profile j) [] core (pos j) answer in
            inr (core, answer, sym meaning ∙ and_self _ j unmet)
      ]

  plus_zero : (k : ℕ) → k ≡ k + 0
  plus_zero k = omega arith

  plus_suc : (k i : ℕ) → suc k + i ≡ k + suc i
  plus_suc k i = omega arith

  possible_from_lem :
      (k : ℕ) (ps : List String)
      → ((i : ℕ) (q : String) → nth i ps ≡ some q → nth (k + i) profile_ids ≡ some q)
      → possible_from check (model_of profile_ids cs) k ps ≡ ok (keep in_scopes ps)
  unfolding possible_from
  possible_from_lem k [] at_k = refl
  possible_from_lem k (p ∷ ps) at_k =
      let solver = solver_lem profile_ids false cs once in
      let rest =
        possible_from_lem (suc k) ps
          (λ i q e. ap (λ (n : ℕ). nth n profile_ids) (plus_suc k i) ∙ at_k (suc i) q e) in
      elim (pinned-cases k p (ap (λ (n : ℕ). nth n profile_ids) (plus_zero k) ∙ at_k 0 p refl)) [
        | inl (i, answer, inside) ↦ rw (solver, rest, answer, inside) refl
        | inr (core, answer, outside) ↦ rw (solver, rest, answer, outside) refl
      ]

  from_zero : (i : ℕ) → 0 + i ≡ i
  from_zero i = omega arith

  -- On a solver that always answers, for constraints, each once, the result is the profiles in the
  -- scope of every constraint, in order.
  pub satisfiable_profile_ids-keep :
      satisfiable_profile_ids check profile_ids cs ≡ ok (keep in_scopes profile_ids)
  unfolding satisfiable_profile_ids
  satisfiable_profile_ids-keep = rw (build_lem profile_ids cs once) (
      possible_from_lem 0 profile_ids
        (λ i q e. ap (λ (n : ℕ). nth n profile_ids) (from_zero i) ∙ e))
