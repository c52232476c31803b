-- ===== src/Tests/Compiler.antt =====
-- A compilation over the catalog of three profiles, for the witnesses of the policy compiler.
use pqtrust_agent_artifact.Prelude.{[], ◌∷◌, Option, none, some, ◌≡◌, refl}
use pqtrust_agent_artifact.Prelude.Sort.{sort_by}
use pqtrust_agent_artifact.Prelude.Result.{Result, ok}
use pqtrust_agent_artifact.Policy.{AgentPolicy, matches, apply_to}
use pqtrust_agent_artifact.Policy.Mapper.{derive_requirement, derive_loop}
use pqtrust_agent_artifact.Policy.Compilation.{
  organization_policy, capability, category_eq, cloud, CapabilityManifestPayload,
  PolicyCompilationResult, validate_compilation_inputs, validated_decision,
  sort_rejection_categories,
}
use pqtrust_agent_artifact.Policy.Encoding.{
  build_constraint_encoding, indexed_from, profile_violated_categories,
}
use pqtrust_agent_artifact.Policy.Compiler.{
  accepted_decision, rejected_decision, compile_local_policy, compile_enumerated, decide_from,
  decide_profile, reject_profile, candidate_status, check_status, minimize_core, minimize_loop,
  canonical_categories, enumerate_indexes, assert_encoding,
}
use pqtrust_agent_artifact.Policy.Compiler.Returned.{Sound, compile_local_policy-Sound}
use pqtrust_agent_artifact.Policy.Compiler.Total.{compile_local_policy-total}
use pqtrust_agent_artifact.Policy.Compiler.Accepted.{minimize_core-last_returned}
use pqtrust_agent_artifact.Policy.Compiler.Core.{last}
use pqtrust_agent_artifact.Protocol.Time.{aware}
use pqtrust_agent_artifact.Solver.{holds, satisfies}
use pqtrust_agent_artifact.Tests.Assurance.{policy, high_task, digests, base}
use pqtrust_agent_artifact.Tests.Contracts.{catalog, profile_of}
use pqtrust_agent_artifact.Tests.Solver.{scan, scan-Laws, scan-Decides}

abbrev manifest : CapabilityManifestPayload
manifest = record {
  agent_id = "agent-a";
  key_id = "key";
  supported_profile_ids = "p1" ∷ "p2" ∷ [];
  resource_class = cloud;
  max_handshake_bytes = none;
  monotonic_version = 1;
  issued_at = 5;
  expires_at = 100;
}

abbrev denying : AgentPolicy
denying = record policy { denied_profile_ids = "p2" ∷ [] }

abbrev compiled : Option (Result PolicyCompilationResult)
compiled =
    compile_local_policy scan digests (λ m. m.agent_id) (λ c. c.catalog_version) (λ r. r.agent_id)
      "4.13" catalog manifest denying high_task (aware 10)

abbrev result : PolicyCompilationResult
result = record {
  z3_version = "4.13";
  agent_id = "agent-a";
  policy_id = "P";
  policy_version = 1;
  policy_hash = "P";
  manifest_hash = "agent-a";
  task_hash = "default";
  catalog_hash = "1.0";
  evaluation_time = 10;
  requirement_derivation = derive_requirement digests denying high_task;
  safe_profile_ids = "p1" ∷ [];
  profile_decisions =
      accepted_decision "p1"
      ∷ rejected_decision "p2" (organization_policy ∷ []) (organization_policy ∷ [])
      ∷ rejected_decision "p3" (capability ∷ organization_policy ∷ []) (organization_policy ∷ [])
      ∷ [];
  solver_timeout_ms = 1000;
  compilation_hash = "agent-a";
}

compiled-result : compiled ≡ some (ok result)
unfolding compile_local_policy compile_enumerated decide_from decide_profile reject_profile
    candidate_status check_status minimize_core minimize_loop canonical_categories enumerate_indexes
    assert_encoding build_constraint_encoding indexed_from profile_violated_categories
    sort_rejection_categories sort_by validate_compilation_inputs holds satisfies derive_requirement
    derive_loop matches apply_to validated_decision
compiled-result = refl

compile_local_policy-Sound_example :
    Sound scan scan-Laws digests
      (λ m. m.agent_id)
      (λ c. c.catalog_version)
      (λ r. r.agent_id)
      "4.13"
      catalog
      manifest
      denying
      high_task
      result
compile_local_policy-Sound_example =
    compile_local_policy-Sound scan scan-Laws digests (λ m. m.agent_id) (λ c. c.catalog_version)
      (λ r. r.agent_id) "4.13" catalog manifest denying high_task (aware 10) result compiled-result

valid : validate_compilation_inputs catalog manifest denying (aware 10) ≡ ok 10
unfolding validate_compilation_inputs
valid = refl

compile_local_policy-total_example :
    (r : PolicyCompilationResult) × (compiled ≡ some (ok r))
    × Sound scan scan-Laws digests
        (λ m. m.agent_id)
        (λ c. c.catalog_version)
        (λ r. r.agent_id)
        "4.13"
        catalog
        manifest
        denying
        high_task
        r
compile_local_policy-total_example =
    compile_local_policy-total scan scan-Laws scan-Decides digests (λ m. m.agent_id)
      (λ c. c.catalog_version) (λ r. r.agent_id) "4.13" catalog manifest denying high_task
      (aware 10) 10 valid

minimize_core-last_returned_example :
    minimize_core scan
      (build_constraint_encoding manifest denying high_task base catalog)
      2
      (profile_violated_categories manifest denying high_task base (profile_of "p3"))
    ≡ ok (last (profile_violated_categories manifest denying high_task base (profile_of "p3")))
minimize_core-last_returned_example =
    minimize_core-last_returned scan scan-Laws scan-Decides manifest denying high_task base catalog
      2 (profile_of "p3") refl
