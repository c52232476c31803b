-- ===== src/Conflict/Remediation.antt =====
-- src/pqtrust_agent/negotiation/remediation.py: which constraints of a certificate would end the
-- conflict if they were relaxed.
pub mod Sufficient
use Prim.Native.String.{◌++◌}
use pqtrust_agent_artifact.Prelude.{
  String, Bool, true, false, not, ◌&&◌, List, [], ◌∷◌, map, keep, contains, nonempty, ◌==◌,
  string_eq, if◌then◌else◌,
}
use pqtrust_agent_artifact.Prelude.Result.{Result, ok, err, ◌>>=◌, ◌>>◌}
use pqtrust_agent_artifact.Negotiation.Normalization.{traverse}
use pqtrust_agent_artifact.Solver.{Solver}
use pqtrust_agent_artifact.Conflict.{NamedConstraint, MinimalConflictCertificate}
use pqtrust_agent_artifact.Conflict.Constraints.{satisfiable_profile_ids}
use pqtrust_agent_artifact.Conflict.Core.{without}

abbrev pub non_relaxable_categories : List String
non_relaxable_categories =
    "minimum_assurance" ∷ "endpoint_authentication" ∷ "explicit_profile_denial" ∷ "fallback_policy"
    ∷ []

pub record EvaluatedRelaxation : Type 0 where
  pub constraint_id : String
  pub agent_id : String
  pub negotiable : Bool
  pub feasible_if_removed : Bool
  pub newly_feasible_profiles : List String
  pub security_consequence : String
  pub configuration_change_required_by : String

pub record RemediationReport : Type 0 where
  pub certificate_id : String
  pub evaluated_relaxations : List EvaluatedRelaxation
  pub individually_sufficient_relaxations : List String
  pub no_safe_remediation_available : Bool
  pub informational_only : Bool
  pub automatically_applied : Bool

module _ {V : Type 0} (check : Solver String) where
  abbrev pub allowed_to_test : NamedConstraint V → Bool
  allowed_to_test c = c.negotiable && not (contains c.category non_relaxable_categories)

  abbrev pub security_consequence_of : NamedConstraint V → String
  security_consequence_of c =
      if not (allowed_to_test c)
      then "No relaxation tested for this hard non-negotiable security constraint."
      else "Would remove hard " ++ (c.category ++ " for this session only.")

  -- The body of the loop over the constraints.
  unfoldable pub evaluate_relaxation :
      MinimalConflictCertificate V → NamedConstraint V → Result EvaluatedRelaxation
  evaluate_relaxation certificate c = do
    let tested =
        satisfiable_profile_ids check certificate.candidate_profile_universe
          (without c certificate.conflict_constraints)
    profiles ← if allowed_to_test c then tested else ok []
    ok (record {
      constraint_id = c.constraint_id;
      agent_id = c.source_agent_id;
      negotiable = c.negotiable;
      feasible_if_removed = nonempty profiles;
      newly_feasible_profiles = profiles;
      security_consequence = security_consequence_of c;
      configuration_change_required_by = c.source_agent_id;
    })

  unfoldable pub build_remediation_report : MinimalConflictCertificate V → Result RemediationReport
  build_remediation_report certificate = do
    evaluations ← traverse (evaluate_relaxation certificate) certificate.conflict_constraints
    let sufficient : List String =
        map (λ e. e.constraint_id) (keep (λ e. e.feasible_if_removed) evaluations)
    ok (record {
      certificate_id = certificate.certificate_id;
      evaluated_relaxations = evaluations;
      individually_sufficient_relaxations = sufficient;
      no_safe_remediation_available = not (nonempty sufficient);
      informational_only = true;
      automatically_applied = false;
    })
