-- ===== src/Conflict/Remediation/Sufficient.antt =====
-- The relaxations that `build_remediation_report` of src/pqtrust_agent/negotiation/remediation.py
-- finds sufficient, for an irreducible certificate.
use pqtrust_agent_artifact.Prelude.{
  String, Bool, true, false, not, List, [], ◌∷◌, map, keep, all, any, contains, distinct, nonempty,
  string_eq, ◌≡◌, inl, inr, refl, ap, ◌∙◌, arith, if◌then◌else◌, Bool-cases,
}
use pqtrust_agent_artifact.Prelude.Result.{ok}
use pqtrust_agent_artifact.Negotiation.Normalization.{traverse}
use pqtrust_agent_artifact.Solver.{Solver, Laws}
use pqtrust_agent_artifact.Solver.Meaning.{Decides}
use pqtrust_agent_artifact.Conflict.{NamedConstraint, MinimalConflictCertificate}
use pqtrust_agent_artifact.Conflict.Core.{constraint_ids, without}
use pqtrust_agent_artifact.Conflict.Core.Dicts.{is_feasible}
use pqtrust_agent_artifact.Conflict.Core.Shrunk.{IsIrreducible, distinct-constraint_ids-keep}
use pqtrust_agent_artifact.Conflict.Possible.{satisfiable_profile_ids-keep}
use pqtrust_agent_artifact.Conflict.Remediation.{
  EvaluatedRelaxation, RemediationReport, allowed_to_test, security_consequence_of,
  evaluate_relaxation, build_remediation_report,
}

nonempty-keep : (p : String → Bool) (xs : List String) → nonempty (keep p xs) ≡ any p xs
nonempty-keep p [] = refl
nonempty-keep p (x ∷ xs) = ground (arith, nonempty-keep p xs)

module _ {V : Type 0} (check : Solver String) (laws : Laws check) (decides : Decides check)
    (certificate : MinimalConflictCertificate V)
    (once : distinct (constraint_ids certificate.conflict_constraints) ≡ true) where
  -- The profiles in every scope but that of a constraint, if it may be relaxed.
  abbrev relaxed : NamedConstraint V → List String
  relaxed c =
      if allowed_to_test check c
      then keep
          (λ p. all (λ d. contains p d.profile_scope) (without c certificate.conflict_constraints))
          certificate.candidate_profile_universe
      else []

  abbrev evaluation : NamedConstraint V → EvaluatedRelaxation
  evaluation c = record {
    constraint_id = c.constraint_id;
    agent_id = c.source_agent_id;
    negotiable = c.negotiable;
    feasible_if_removed = nonempty (relaxed c);
    newly_feasible_profiles = relaxed c;
    security_consequence = security_consequence_of check c;
    configuration_change_required_by = c.source_agent_id;
  }

  evaluate_relaxation_lem :
      (c : NamedConstraint V) → evaluate_relaxation check certificate c ≡ ok (evaluation c)
  unfolding evaluate_relaxation
  evaluate_relaxation_lem c =
      let tested =
        satisfiable_profile_ids-keep check laws decides certificate.candidate_profile_universe
          (without c certificate.conflict_constraints)
          (distinct-constraint_ids-keep _ certificate.conflict_constraints once) in
      elim (Bool-cases (allowed_to_test check c)) [
        | inl allowed ↦ rw (allowed, tested) refl
        | inr refused ↦ rw refused refl
      ]

  traverse-evaluate_relaxation :
      (cs : List (NamedConstraint V))
      → traverse (evaluate_relaxation check certificate) cs ≡ ok (map evaluation cs)
  traverse-evaluate_relaxation [] = refl
  traverse-evaluate_relaxation (c ∷ cs) =
      let here = evaluate_relaxation_lem c in
      let rest = traverse-evaluate_relaxation cs in rw (here, rest) refl

  evaluation-feasible :
      (c : NamedConstraint V)
      → is_feasible certificate.candidate_profile_universe
          (without c certificate.conflict_constraints)
        ≡ true
      → (evaluation c).feasible_if_removed ≡ allowed_to_test check c
  evaluation-feasible c h = elim (Bool-cases (allowed_to_test check c)) [
    | inl allowed ↦ rw allowed (
        nonempty-keep
          (λ p. all (λ d. contains p d.profile_scope) (without c certificate.conflict_constraints))
          certificate.candidate_profile_universe
        ∙ h)
    | inr refused ↦ rw refused refl
  ]

  sufficient :
      (cs : List (NamedConstraint V))
      → IsIrreducible certificate.candidate_profile_universe certificate.conflict_constraints cs
      → map (λ e. e.constraint_id) (keep (λ e. e.feasible_if_removed) (map evaluation cs))
        ≡ map (λ c. c.constraint_id) (keep (allowed_to_test check) cs)
  sufficient [] h = refl
  sufficient (c ∷ cs) h =
      let here = evaluation-feasible c h.0 in
      let rest = sufficient cs h.1 in
      elim (Bool-cases (allowed_to_test check c)) [
        | inl allowed ↦ rw (here, allowed) (ap (λ (is : List String). c.constraint_id ∷ is) rest)
        | inr refused ↦ rw (here, refused) rest
      ]

  abbrev report_of : RemediationReport
  report_of =
      let sufficient_ids : List String =
        map (λ e. e.constraint_id)
          (keep (λ e. e.feasible_if_removed) (map evaluation certificate.conflict_constraints)) in
      record {
        certificate_id = certificate.certificate_id;
        evaluated_relaxations = map evaluation certificate.conflict_constraints;
        individually_sufficient_relaxations = sufficient_ids;
        no_safe_remediation_available = not (nonempty sufficient_ids);
        informational_only = true;
        automatically_applied = false;
      }

  built : build_remediation_report check certificate ≡ ok report_of
  unfolding build_remediation_report
  built = rw (traverse-evaluate_relaxation certificate.conflict_constraints) refl

  -- On a solver that always answers, for a certificate whose constraints, each once, are
  -- irreducible, the report is returned, and the sufficient relaxations are the negotiable
  -- constraints of a relaxable category; there is no safe remediation exactly if there are none.
  pub build_remediation_report_sufficient :
      IsIrreducible certificate.candidate_profile_universe certificate.conflict_constraints
        certificate.conflict_constraints
      → (report : RemediationReport) × (build_remediation_report check certificate ≡ ok report)
        × (report.individually_sufficient_relaxations
            ≡ constraint_ids (keep (allowed_to_test check) certificate.conflict_constraints))
        × (report.no_safe_remediation_available
            ≡ not (
                nonempty
                  (constraint_ids (keep (allowed_to_test check) certificate.conflict_constraints))))
  build_remediation_report_sufficient h =
      let found = sufficient certificate.conflict_constraints h in
      (report_of, built, found, ap (λ (is : List String). not (nonempty is)) found)
