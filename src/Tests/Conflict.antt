-- ===== src/Tests/Conflict.antt =====
-- A conflict of two safe sets and its abort, for the witnesses of the theorems on conflicts.
use pqtrust_agent_artifact.Prelude.{
  Bool, true, false, not, all, keep, contains, distinct, nonempty, some, ◌≡◌, refl, string_eq, List,
  [], ◌∷◌, String,
}
use pqtrust_agent_artifact.Prelude.Result.{ok, err, value_error}
use pqtrust_agent_artifact.Negotiation.Selector.{lookup}
use pqtrust_agent_artifact.Solver.{holds, satisfies}
use pqtrust_agent_artifact.Protocol.Time.{aware}
use pqtrust_agent_artifact.Conflict.{
  private_policy, hard_policy_conflict, no_common_profile, NamedConstraint,
  MinimalConflictCertificate,
}
use pqtrust_agent_artifact.Conflict.Constraints.{
  build_feasibility_model, build_loop, solver_for_constraints, assert_constraints, allowed_from,
  scope_expression, ConstraintId, local_safe_set_constraints, satisfiable_profile_ids,
}
use pqtrust_agent_artifact.Conflict.Core.{
  membership_errors, solve, irreducible_errors, constraint_ids, IusResult, compute_ius, verify_ius,
}
use pqtrust_agent_artifact.Conflict.Core.Dicts.{is_feasible}
use pqtrust_agent_artifact.Conflict.Core.Shrunk.{IsIrreducible, IsShrunk}
use pqtrust_agent_artifact.Conflict.Core.Computed.{compute_ius-IsShrunk, compute_ius_feasible}
use pqtrust_agent_artifact.Conflict.Core.Verified.{verify_ius-IsIrreducible}
use pqtrust_agent_artifact.Conflict.SafeSets.{satisfiable_profile_ids-local_safe_set_constraints}
use pqtrust_agent_artifact.Conflict.Certificate.{
  common_safe_set, CertificateContext, build_minimal_conflict_certificate,
}
use pqtrust_agent_artifact.Conflict.Remediation.{
  RemediationReport, allowed_to_test, build_remediation_report,
}
use pqtrust_agent_artifact.Conflict.Remediation.Sufficient.{build_remediation_report_sufficient}
use pqtrust_agent_artifact.Conflict.Checks.{validation_result, verify_conflict_certificate}
use pqtrust_agent_artifact.Conflict.Checks.Certified.{
  verify_conflict_certificate-build_minimal_conflict_certificate,
}
use pqtrust_agent_artifact.Tests.Contracts.{crypto}
use pqtrust_agent_artifact.Tests.Solver.{scan, scan-Laws, scan-Decides}

abbrev named : String → String → List String → Bool → NamedConstraint (List String)
named constraint_id category scope negotiable = record {
  constraint_id = constraint_id;
  source_agent_id = "agent";
  source_type = private_policy;
  category = category;
  attribute = "selected_profile_id";
  operator = "in";
  expected_value = scope;
  profile_scope = scope;
  hard = true;
  negotiable = negotiable;
  source_hash = "hash";
  human_explanation = "why";
}

abbrev universe : List String
universe = "P1" ∷ "P2" ∷ "P3" ∷ []

-- The first two conflict; the third adds nothing.
abbrev constraints : List (NamedConstraint (List String))
constraints =
    named "0c" "profile_support" universe true
    ∷ named "0b" "lease_limit" ("P2" ∷ "P3" ∷ []) true
    ∷ named "0a" "profile_support" ("P1" ∷ []) false
    ∷ []

compute_ius-IsShrunk_example :
    (r : IusResult (List String)) × (compute_ius scan universe constraints ≡ some (ok r))
    × IsShrunk universe constraints r.ius
compute_ius-IsShrunk_example =
    compute_ius-IsShrunk scan scan-Laws scan-Decides universe constraints refl refl

abbrev compatible : List (NamedConstraint (List String))
compatible =
    named "0b" "lease_limit" ("P1" ∷ "P2" ∷ []) true
    ∷ named "0a" "profile_support" ("P1" ∷ []) false
    ∷ []

compute_ius_feasible_example :
    compute_ius scan universe compatible
    ≡ some (err (value_error "cannot compute conflict certificate for satisfiable model"))
compute_ius_feasible_example = compute_ius_feasible scan scan-Laws universe compatible refl refl

abbrev two : List (NamedConstraint (List String))
two =
    named "0a" "profile_support" ("P1" ∷ []) false
    ∷ named "0b" "lease_limit" ("P2" ∷ "P3" ∷ []) true
    ∷ []

two-verified : verify_ius scan universe constraints two ≡ ok []
unfolding verify_ius membership_errors solve irreducible_errors build_feasibility_model build_loop
    solver_for_constraints assert_constraints allowed_from scope_expression lookup satisfies holds
two-verified = refl

verify_ius-IsIrreducible_example :
    (is_feasible universe two ≡ false)
    × IsIrreducible universe two two
    × (distinct (constraint_ids two) ≡ true)
    × (all (λ c. contains c.constraint_id (constraint_ids constraints)) two ≡ true)
verify_ius-IsIrreducible_example =
    verify_ius-IsIrreducible scan scan-Laws universe constraints two two-verified

-- A toy identifier: the agent's name.
abbrev agent_name : ConstraintId (List String)
agent_name agent source category attribute operator value scope hash = agent

satisfiable_profile_ids-local_safe_set_constraints_example :
    (first : NamedConstraint (List String)) × (second : NamedConstraint (List String))
    × (local_safe_set_constraints agent_name "alice" "bob"
          ("P1" ∷ "P2" ∷ [])
          ("P2" ∷ "P3" ∷ [])
          "h"
          "k"
        ≡ ok (first, second))
    × (satisfiable_profile_ids scan universe (first ∷ second ∷ [])
        ≡ ok (common_safe_set universe ("P1" ∷ "P2" ∷ []) ("P2" ∷ "P3" ∷ [])))
satisfiable_profile_ids-local_safe_set_constraints_example =
    satisfiable_profile_ids-local_safe_set_constraints agent_name scan scan-Laws scan-Decides
      universe "alice" "bob" ("P1" ∷ "P2" ∷ []) ("P2" ∷ "P3" ∷ []) "h" "k" refl refl refl

abbrev context : CertificateContext
context = record {
  session_id = "5e55";
  initiator_agent_id = "agent-a";
  responder_agent_id = "agent-b";
  scenario_hash = "scenario";
  task_hash = "task";
  catalog_hash = "catalog";
  initiator_manifest_hash = "manifest";
  responder_manifest_hash = "manifest";
  initiator_policy_compilation_hash = "compilation";
  responder_policy_compilation_hash = "compilation";
  commit_reveal_transcript_hash = "reveals";
  candidate_profile_universe = universe;
  initiator_local_safe_set = "P1" ∷ [];
  responder_local_safe_set = "P2" ∷ "P3" ∷ [];
}

abbrev certificate_digest : MinimalConflictCertificate (List String) → String
certificate_digest c = c.certificate_id

verify_conflict_certificate-build_minimal_conflict_certificate_example :
    (certificate : MinimalConflictCertificate (List String)) × (r : IusResult (List String))
    × (build_minimal_conflict_certificate crypto certificate_digest scan context constraints
          (aware 10)
        ≡ some (ok (certificate, r)))
    × (verify_conflict_certificate crypto certificate_digest scan certificate (some constraints)
        ≡ ok (validation_result []))
verify_conflict_certificate-build_minimal_conflict_certificate_example =
    verify_conflict_certificate-build_minimal_conflict_certificate crypto certificate_digest scan
      scan-Laws scan-Decides context constraints 10
      (record { universe = refl; initiator = refl; responder = refl }) refl refl refl refl

abbrev pub certificate : MinimalConflictCertificate (List String)
certificate = record {
  certificate_id = "id";
  session_id = "session";
  initiator_agent_id = "agent-a";
  responder_agent_id = "agent-b";
  scenario_hash = "scenario";
  task_hash = "task";
  catalog_hash = "catalog";
  initiator_manifest_hash = "manifest";
  responder_manifest_hash = "manifest";
  initiator_policy_compilation_hash = "compilation";
  responder_policy_compilation_hash = "compilation";
  commit_reveal_transcript_hash = "reveals";
  candidate_profile_universe = universe;
  initiator_local_safe_set = "P1" ∷ [];
  responder_local_safe_set = "P2" ∷ "P3" ∷ [];
  common_safe_set = [];
  feasibility_status = hard_policy_conflict;
  conflict_category = no_common_profile;
  conflict_constraints = two;
  original_constraint_count = 3;
  z3_unsat_core_size = 3;
  ius_size = 2;
  solver_call_count = 4;
  issued_at = 10;
  verification_hash = "hash";
}

build_remediation_report_sufficient_example :
    (report : RemediationReport) × (build_remediation_report scan certificate ≡ ok report)
    × (report.individually_sufficient_relaxations
        ≡ constraint_ids (keep (allowed_to_test scan) two))
    × (report.no_safe_remediation_available
        ≡ not (nonempty (constraint_ids (keep (allowed_to_test scan) two))))
build_remediation_report_sufficient_example =
    build_remediation_report_sufficient scan scan-Laws scan-Decides certificate refl
      (refl, (refl, tt))
