-- ===== src/Conflict/SafeSets.antt =====
-- The constraints of two safe sets, `local_safe_set_constraints` of
-- src/pqtrust_agent/negotiation/conflict_constraints.py, against the common safe set.
use pqtrust_agent_artifact.Prelude.{
  String, Bool, true, false, ◌&&◌, List, [], ◌∷◌, keep, contains, distinct, ◌==◌, string_eq, ◌≡◌,
  refl, ap, ◌∙◌, arith, sort_by, contains-sort_by,
}
use pqtrust_agent_artifact.Prelude.Result.{ok}
use pqtrust_agent_artifact.Solver.{Solver, Laws}
use pqtrust_agent_artifact.Solver.Meaning.{Decides}
use pqtrust_agent_artifact.Conflict.{
  private_policy, NamedConstraint, validated_constraint, coerce_profiles, profile_leb,
}
use pqtrust_agent_artifact.Conflict.Constraints.{
  ConstraintId, make_named_constraint, local_safe_set_constraints, satisfiable_profile_ids,
}
use pqtrust_agent_artifact.Conflict.Possible.{satisfiable_profile_ids-keep}
use pqtrust_agent_artifact.Conflict.Certificate.{common_safe_set}

coerce_distinct :
    (items : List String)
    → distinct items ≡ true
    → coerce_profiles items ≡ ok (sort_by profile_leb items)
unfolding coerce_profiles
coerce_distinct items h = rw h refl

keep_same :
    (p q : String → Bool) (xs : List String) → ((x : String) → p x ≡ q x) → keep p xs ≡ keep q xs
keep_same p q [] same = refl
keep_same p q (x ∷ xs) same = ground (arith, same x, keep_same p q xs same)

two_scopes :
    (x : String) (i r : List String)
    → (contains x (sort_by profile_leb i) && (contains x (sort_by profile_leb r) && true))
      ≡ (contains x i && contains x r)
two_scopes x i r =
    ground (arith, contains-sort_by profile_leb x i, contains-sort_by profile_leb x r)

module _ (stable_id : ConstraintId (List String)) (check : Solver String) (laws : Laws check)
    (decides : Decides check) where
  abbrev safe_set_constraint :
      (agent : String) (safe : List String) (hash explanation : String)
      → NamedConstraint (List String)
  safe_set_constraint agent safe hash explanation = record {
    constraint_id =
        stable_id agent private_policy "profile_support" "selected_profile_id" "in" safe safe hash;
    source_agent_id = agent;
    source_type = private_policy;
    category = "profile_support";
    attribute = "selected_profile_id";
    operator = "in";
    expected_value = safe;
    profile_scope = sort_by profile_leb safe;
    hard = true;
    negotiable = false;
    source_hash = hash;
    human_explanation = explanation;
  }

  make_named_constraint_lem :
      (agent : String) (safe : List String) (hash explanation : String)
      → distinct safe ≡ true
      → make_named_constraint stable_id agent private_policy "profile_support" "selected_profile_id"
          "in" safe safe hash explanation false
        ≡ ok (safe_set_constraint agent safe hash explanation)
  unfolding make_named_constraint validated_constraint
  make_named_constraint_lem agent safe hash explanation h = rw (coerce_distinct safe h) refl

  -- On a solver that always answers, for safe sets without duplicates whose constraints have
  -- different identifiers, the profiles that satisfy both constraints are the common safe set.
  pub satisfiable_profile_ids-local_safe_set_constraints :
      (profile_ids : List String) (initiator responder : String) (i r : List String)
      (initiator_hash responder_hash : String)
      → distinct i ≡ true
      → distinct r ≡ true
      → (stable_id initiator private_policy "profile_support" "selected_profile_id" "in" i i
            initiator_hash
          == stable_id responder private_policy "profile_support" "selected_profile_id" "in" r r
              responder_hash)
        ≡ false
      → (first : NamedConstraint (List String)) × (second : NamedConstraint (List String))
        × (local_safe_set_constraints stable_id initiator responder i r initiator_hash
              responder_hash
            ≡ ok (first, second))
        × (satisfiable_profile_ids check profile_ids (first ∷ second ∷ [])
            ≡ ok (common_safe_set profile_ids i r))
  unfolding local_safe_set_constraints common_safe_set
  satisfiable_profile_ids-local_safe_set_constraints profile_ids initiator responder i r
        initiator_hash responder_hash di dr differ =
      let first =
        safe_set_constraint initiator i initiator_hash
          "Initiator hard policy permits only the disclosed safe profiles." in
      let second =
        safe_set_constraint responder r responder_hash
          "Responder hard policy permits only the disclosed safe profiles." in
      let made =
        make_named_constraint_lem initiator i initiator_hash
          "Initiator hard policy permits only the disclosed safe profiles." di in
      let made_second =
        make_named_constraint_lem responder r responder_hash
          "Responder hard policy permits only the disclosed safe profiles." dr in
      (
        first,
        second,
        rw (made, made_second) refl,
        satisfiable_profile_ids-keep check laws decides profile_ids (first ∷ second ∷ [])
              (ground arith)
            ∙ ap ok (keep_same _ _ profile_ids (λ x. two_scopes x i r)),
      )
