-- ===== src/Requirement/Order.antt =====
-- The two orders and the two joins of the source, on requirements and on assurance vectors, agree.
use pqtrust_agent_artifact.Prelude.{◌≡◌, refl, sym, ◌∙◌, true}
use pqtrust_agent_artifact.Assurance.{dominates, assurance_join}
use pqtrust_agent_artifact.Assurance.Order.{dominates_refl, dominates_trans}
use pqtrust_agent_artifact.Requirement.{
  AssuranceRequirement, as_assurance_vector, requirement_dominates, requirement_join,
}

pub requirement_dominates-eq :
    (a b : AssuranceRequirement)
    → requirement_dominates a b ≡ dominates (as_assurance_vector a) (as_assurance_vector b)
unfolding requirement_dominates dominates
requirement_dominates-eq a b = refl

pub requirement_join-eq :
    (a b : AssuranceRequirement)
    → as_assurance_vector (requirement_join a b)
      ≡ assurance_join (as_assurance_vector a) (as_assurance_vector b)
unfolding requirement_join assurance_join
requirement_join-eq a b = refl

pub requirement_dominates_refl : (a : AssuranceRequirement) → requirement_dominates a a ≡ true
requirement_dominates_refl a = requirement_dominates-eq a a ∙ dominates_refl (as_assurance_vector a)

pub requirement_dominates_trans :
    (a b c : AssuranceRequirement)
    → requirement_dominates a b ≡ true
    → requirement_dominates b c ≡ true
    → requirement_dominates a c ≡ true
requirement_dominates_trans a b c h k =
    requirement_dominates-eq a c
    ∙ dominates_trans _ (as_assurance_vector b) _ (sym (requirement_dominates-eq a b) ∙ h)
        (sym (requirement_dominates-eq b c) ∙ k)
