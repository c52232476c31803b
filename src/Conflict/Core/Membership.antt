-- ===== src/Conflict/Core/Membership.antt =====
-- The errors of `verify_ius` in src/pqtrust_agent/negotiation/unsat_core.py that need no solver: what
-- follows when there are none.
use pqtrust_agent_artifact.Prelude.{
  String, true, not, List, [], ◌∷◌, ◌++◌, all, any, contains, distinct, string_eq, ◌≡◌, refl, arith,
}
use pqtrust_agent_artifact.Prelude.Result.{Result, ok}
use pqtrust_agent_artifact.Conflict.{NamedConstraint}
use pqtrust_agent_artifact.Conflict.Core.{constraint_ids, membership_errors}

pub list_value : (xs ys : List String) → ◌≡◌ {A = Result (List String)} (ok xs) (ok ys) → xs ≡ ys
list_value xs ys h = cc

pub append_nil : (xs ys : List String) → xs ++ ys ≡ [] → (xs ≡ []) × (ys ≡ [])
append_nil [] ys h = (refl, h)
append_nil (x ∷ xs) ys h = cc

module _ {V : Type 0} where
  pub outside_none :
      (known : List String) (cs : List (NamedConstraint V))
      → all (λ c. contains c.constraint_id known) cs
        ≡ not (any (λ i. not (contains i known)) (constraint_ids cs))
  outside_none known [] = refl
  outside_none known (c ∷ cs) = ground (arith, outside_none known cs)

  pub membership_errors-distinct :
      (cs ius : List (NamedConstraint V))
      → membership_errors cs ius ≡ []
      → distinct (constraint_ids ius) ≡ true
  unfolding membership_errors
  membership_errors-distinct cs ius h = ground arith

  pub membership_errors-inside :
      (cs ius : List (NamedConstraint V))
      → membership_errors cs ius ≡ []
      → all (λ c. contains c.constraint_id (constraint_ids cs)) ius ≡ true
  unfolding membership_errors
  membership_errors-inside cs ius h = ground (arith, outside_none (constraint_ids cs) ius)
