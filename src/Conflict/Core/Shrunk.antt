-- ===== src/Conflict/Core/Shrunk.antt =====
-- The deletion loop of src/pqtrust_agent/negotiation/unsat_core.py: it ends with constraints that are
-- infeasible together and feasible without any one of them.
use pqtrust_agent_artifact.Prelude.{
  ℕ, zero, suc, ◌<◌, String, Bool, true, false, not, List, [], ◌∷◌, keep, all, All, contains,
  distinct, length, length-keep-le, all-keep, Option, none, some, ◌==◌, string_eq, ◌≡◌, ◌⊎◌, inl,
  inr, refl, ap, sym, ◌∙◌, arith, is_sorted, is_sorted-keep,
}
use pqtrust_agent_artifact.Prelude.Result.{Result, ok, err}
use pqtrust_agent_artifact.Solver.{ℤ, sat, unsat, Solver, Laws}
use pqtrust_agent_artifact.Solver.Meaning.{Decides, Decides-cases}
use pqtrust_agent_artifact.Conflict.{NamedConstraint}
use pqtrust_agent_artifact.Conflict.Core.{
  constraint_leb, constraint_ids, without, solve, find_redundant, shrink,
}
use pqtrust_agent_artifact.Conflict.Core.Dicts.{is_feasible}
use pqtrust_agent_artifact.Conflict.Core.Solved.{
  assertions_of, solve_lem, sat-is_feasible, unsat-is_feasible,
}

module _ {V : Type 0} where
  length-without :
      (c : NamedConstraint V) (cs : List (NamedConstraint V))
      → contains c.constraint_id (constraint_ids cs) ≡ true
      → length (without c cs) < length cs
  length-without c [] h = cc
  length-without c (d ∷ ds) h = ground (
    arith,
    string_eq.beq_iff c.constraint_id d.constraint_id,
    string_eq.beq_iff d.constraint_id c.constraint_id,
    length-keep-le (λ (item : NamedConstraint V). not (item.constraint_id == c.constraint_id)) ds,
    length-without c ds,
  )

  contains-constraint_ids-keep :
      (p : NamedConstraint V → Bool) (i : String) (cs : List (NamedConstraint V))
      → contains i (constraint_ids cs) ≡ false
      → contains i (constraint_ids (keep p cs)) ≡ false
  contains-constraint_ids-keep p i [] h = refl
  contains-constraint_ids-keep p i (c ∷ cs) h = ground (arith, contains-constraint_ids-keep p i cs)

  pub distinct-constraint_ids-keep :
      (p : NamedConstraint V → Bool) (cs : List (NamedConstraint V))
      → distinct (constraint_ids cs) ≡ true
      → distinct (constraint_ids (keep p cs)) ≡ true
  distinct-constraint_ids-keep p [] h = refl
  distinct-constraint_ids-keep p (c ∷ cs) h =
      ground (
        arith,
        contains-constraint_ids-keep p c.constraint_id cs,
        distinct-constraint_ids-keep p cs,
      )

  module _ (profile_ids : List String) where
    -- No single constraint of `todo` can be dropped.
    abbrev pub IsIrreducible : (cs todo : List (NamedConstraint V)) → Type 0
    IsIrreducible cs todo = All (λ c. is_feasible profile_ids (without c cs) ≡ true) todo

    -- A shrunk set: infeasible, with no constraint to drop, in order, each once, and part of the
    -- first set.
    pub record IsShrunk (first cs : List (NamedConstraint V)) : Type 0 where
      pub infeasible : is_feasible profile_ids cs ≡ false
      pub irreducible : IsIrreducible cs cs
      pub distinct_ids : distinct (constraint_ids cs) ≡ true
      pub sorted : is_sorted constraint_leb cs ≡ true
      pub part : (q : NamedConstraint V → Bool) → all q first ≡ true → all q cs ≡ true

  module _ (check : Solver String) (laws : Laws check) (decides : Decides check)
      (profile_ids : List String) where
    -- The answer to a set of constraints, with what it says of them.
    pub solve-cases :
        (cs : List (NamedConstraint V))
        → distinct (constraint_ids cs) ≡ true
        → ((core : List String) × (solve check profile_ids false cs ≡ ok (unsat core))
            × (is_feasible profile_ids cs ≡ false))
          ⊎ ((i : ℤ) × (solve check profile_ids false cs ≡ ok (sat i))
              × (is_feasible profile_ids cs ≡ true))
    solve-cases cs h =
        let solved = solve_lem profile_ids check false cs h in
        elim (Decides-cases check decides (assertions_of profile_ids false cs) []) [
          | inl (i, answer) ↦
              inr (i, solved ∙ ap ok answer, sat-is_feasible profile_ids check laws cs i answer)
          | inr (core, answer) ↦
              inl (
                core,
                solved ∙ ap ok answer,
                unsat-is_feasible profile_ids check laws cs core answer,
              )
        ]

    abbrev Found : (remaining todo : List (NamedConstraint V)) (calls : ℕ) → Type 0
    Found remaining todo calls =
        ((done : ℕ) × (find_redundant check profile_ids remaining todo calls ≡ ok (none, done))
          × IsIrreducible profile_ids remaining todo)
        ⊎ ((c : NamedConstraint V) × (done : ℕ) × (find_redundant check profile_ids remaining todo
                calls
              ≡ ok (some (without c remaining), done))
            × (contains c.constraint_id (constraint_ids todo) ≡ true)
            × (is_feasible profile_ids (without c remaining) ≡ false))

    find_redundant_lem :
        (remaining todo : List (NamedConstraint V)) (calls : ℕ)
        → distinct (constraint_ids remaining) ≡ true
        → Found remaining todo calls
    unfolding find_redundant
    find_redundant_lem remaining [] calls h = inl (calls, refl, tt)
    find_redundant_lem remaining (c ∷ todo) calls h =
        elim (solve-cases (without c remaining) (distinct-constraint_ids-keep _ remaining h)) [
          | inl (core, solved, infeasible) ↦ inr (
            c,
            suc calls,
            rw solved refl,
            ground (arith, string_eq.beq_iff c.constraint_id c.constraint_id),
            infeasible,
          )
          | inr (i, solved, feasible) ↦ elim (find_redundant_lem remaining todo (suc calls) h) [
            | inl (done, none_found, irreducible) ↦
                inl (done, rw solved none_found, (feasible, irreducible))
            | inr (d, done, one, member, infeasible) ↦
                inr (d, done, rw solved one, ground arith, infeasible)
          ]
        ]

    -- The loop after one pass over the constraints.
    abbrev after_pass :
        ℕ
        → List (NamedConstraint V)
        → Result (Option (List (NamedConstraint V)) × ℕ)
        → Option (Result (List (NamedConstraint V) × ℕ))
    after_pass fuel cs (err e) = some (err e)
    after_pass fuel cs (ok (none, done)) = some (ok (cs, done))
    after_pass fuel cs (ok (some trial, done)) = shrink check profile_ids fuel trial done

    shrink-suc :
        (fuel : ℕ) (cs : List (NamedConstraint V)) (calls : ℕ)
        (pass : Result (Option (List (NamedConstraint V)) × ℕ))
        → find_redundant check profile_ids cs cs calls ≡ pass
        → shrink check profile_ids (suc fuel) cs calls ≡ after_pass fuel cs pass
    unfolding shrink
    shrink-suc fuel cs calls pass h =
        sym (go (find_redundant check profile_ids cs cs calls)) ∙ ap (after_pass fuel cs) h
      where
        go :
            (found : Result (Option (List (NamedConstraint V)) × ℕ))
            → after_pass fuel cs found
              ≡ elim found as (λ f. Option (Result (List (NamedConstraint V) × ℕ))) [
                | err e ↦ some (err e)
                | ok f ↦ elim f.0 as (λ o. Option (Result (List (NamedConstraint V) × ℕ))) [
                  | none ↦ some (ok (cs, f.1))
                  | some trial ↦ shrink check profile_ids fuel trial f.1
                ]
              ]
        go (err e) = refl
        go (ok (none, done)) = refl
        go (ok (some trial, done)) = refl

    shrink_done :
        (fuel : ℕ) (cs : List (NamedConstraint V)) (calls done : ℕ)
        → find_redundant check profile_ids cs cs calls ≡ ok (none, done)
        → shrink check profile_ids (suc fuel) cs calls ≡ some (ok (cs, done))
    shrink_done fuel cs calls done h = shrink-suc fuel cs calls (ok (none, done)) h

    shrink_again :
        (fuel : ℕ) (cs trial : List (NamedConstraint V)) (calls done : ℕ)
        → find_redundant check profile_ids cs cs calls ≡ ok (some trial, done)
        → shrink check profile_ids (suc fuel) cs calls ≡ shrink check profile_ids fuel trial done
    shrink_again fuel cs trial calls done h = shrink-suc fuel cs calls (ok (some trial, done)) h

    pub shrink_lem :
        (fuel : ℕ) (cs : List (NamedConstraint V)) (calls : ℕ)
        → length cs < fuel
        → is_feasible profile_ids cs ≡ false
        → distinct (constraint_ids cs) ≡ true
        → is_sorted constraint_leb cs ≡ true
        → (r : List (NamedConstraint V)) × (done : ℕ) × (shrink check profile_ids fuel cs calls
            ≡ some (ok (r, done)))
          × IsShrunk profile_ids cs r
    shrink_lem zero cs calls enough h d s = absurd (omega arith)
    shrink_lem (suc fuel) cs calls enough h d s = elim (find_redundant_lem cs cs calls d) [
      | inl (done, none_found, irreducible) ↦ (
        cs,
        done,
        shrink_done fuel cs calls done none_found,
        record {
          infeasible = h;
          irreducible = irreducible;
          distinct_ids = d;
          sorted = s;
          part = λ q k. k;
        },
      )
      | inr (c, done, one, member, infeasible) ↦
          let smaller = length-without c cs member in
          let (r, end, shrunk, is_shrunk) =
            shrink_lem fuel (without c cs) done (omega arith) infeasible
              (distinct-constraint_ids-keep _ cs d) (is_sorted-keep constraint_leb _ cs s) in
          (
            r,
            end,
            shrink_again fuel cs (without c cs) calls done one ∙ shrunk,
            record {
              infeasible = is_shrunk.infeasible;
              irreducible = is_shrunk.irreducible;
              distinct_ids = is_shrunk.distinct_ids;
              sorted = is_shrunk.sorted;
              part = λ q k. is_shrunk.part q (all-keep q _ cs k);
            },
          )
    ]
