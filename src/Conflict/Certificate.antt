-- ===== src/Conflict/Certificate.antt =====
-- src/pqtrust_agent/negotiation/conflict_certificate.py, with the identifier of a certificate and its
-- validators from models/conflict.py.
use pqtrust_agent_artifact.Prelude.{
  ℕ, String, Bool, true, false, not, ◌&&◌, List, [], ◌∷◌, ◌++◌, map, keep, contains, distinct, all,
  length, nat_beq, Option, none, some, string_eq, string_leb, codes, sort_by,
}
use pqtrust_agent_artifact.Prelude.Result.{
  Result, ok, err, value_error, ◌>>=◌, ◌>>◌, raise_if, require,
}
use pqtrust_agent_artifact.Negotiation.Selector.{lookup}
use pqtrust_agent_artifact.Policy.Compilation.{to_set}
use pqtrust_agent_artifact.Protocol.Models.{Crypto}
use pqtrust_agent_artifact.Protocol.Time.{DateTime, naive, aware}
use pqtrust_agent_artifact.Protocol.Transcript.{list_eq, ◌!=◌}
use pqtrust_agent_artifact.Solver.{Solver}
use pqtrust_agent_artifact.Conflict.{
  FeasibilityStatus, hard_policy_conflict, ConflictCategory, no_common_profile,
  assurance_floor_conflict, capability_mismatch, endpoint_authentication_conflict,
  tls_group_conflict, contract_evidence_conflict, fallback_policy_conflict,
  resumption_policy_conflict, lease_conflict, resource_limit_conflict, multi_cause_conflict,
  conflict_eq, NamedConstraint, coerce_profiles, MinimalConflictCertificate,
}
use pqtrust_agent_artifact.Conflict.Core.{IusResult, constraint_ids, compute_ius}

-- `CATEGORY_MAP`
abbrev pub category_map : List (String × ConflictCategory)
category_map =
    ("profile_support", no_common_profile)
    ∷ ("minimum_assurance", assurance_floor_conflict)
    ∷ ("endpoint_authentication", endpoint_authentication_conflict)
    ∷ ("TLS_group_support", tls_group_conflict)
    ∷ ("contract_evidence_algorithm", contract_evidence_conflict)
    ∷ ("fallback_policy", fallback_policy_conflict)
    ∷ ("resumption_policy", resumption_policy_conflict)
    ∷ ("lease_limit", lease_conflict)
    ∷ ("handshake_byte_limit", resource_limit_conflict)
    ∷ ("explicit_profile_denial", capability_mismatch)
    ∷ []

abbrev single_category : List ConflictCategory → ConflictCategory
single_category (category ∷ []) = category
single_category _ = multi_cause_conflict

module _ {V : Type 0} where
  -- The categories that the map has for the constraints.
  unfoldable pub mapped_categories : List (NamedConstraint V) → List ConflictCategory
  mapped_categories [] = []
  mapped_categories (c ∷ cs) =
      let rest = mapped_categories cs in
      elim (lookup c.category category_map) [ some category ↦ category ∷ rest | none ↦ rest ]

  unfoldable pub classify_conflict : List (NamedConstraint V) → ConflictCategory
  classify_conflict ius = single_category (to_set (mapped_categories ius))

unfoldable pub common_safe_set : List String → List String → List String → List String
common_safe_set profile_ids initiator_safe_set responder_safe_set =
    keep (λ p. contains p initiator_safe_set && contains p responder_safe_set) profile_ids

abbrev concat_bytes : List (List ℕ) → List ℕ
concat_bytes [] = []
concat_bytes (bytes ∷ rest) = bytes ++ concat_bytes rest

abbrev pub id_digest : Crypto → String → List String → String
id_digest c session_id constraint_ids = c.sha256_hex (
    codes "PQTrust.MinimalConflictCertificateID.v1"
    ++ (0 ∷ (c.from_hex session_id ++ concat_bytes (map (λ i. c.from_hex i) constraint_ids))))

-- The digest of the identifiers' bytes, if every one of them is hexadecimal.
unfoldable pub certificate_id_for : Crypto → String → List String → Result String
certificate_id_for c session_id constraint_ids =
    require (c.is_hex session_id && all c.is_hex constraint_ids)
      (value_error "non-hexadecimal number found in fromhex() arg")
    >> ok (id_digest c session_id constraint_ids)

-- The keyword arguments of `build_minimal_conflict_certificate` that it copies.
pub record CertificateContext : Type 0 where
  pub session_id : String
  pub initiator_agent_id : String
  pub responder_agent_id : String
  pub scenario_hash : String
  pub task_hash : String
  pub catalog_hash : String
  pub initiator_manifest_hash : String
  pub responder_manifest_hash : String
  pub initiator_policy_compilation_hash : String
  pub responder_policy_compilation_hash : String
  pub commit_reveal_transcript_hash : String
  pub candidate_profile_universe : List String
  pub initiator_local_safe_set : List String
  pub responder_local_safe_set : List String

abbrev is_hard_conflict : FeasibilityStatus → Bool
is_hard_conflict hard_policy_conflict = true
is_hard_conflict _ = false

-- The digest of a certificate is of its fields but the digest.
abbrev pub CertificateDigest : Type 0 → Type 0
CertificateDigest V = MinimalConflictCertificate V → String

module _ {V : Type 0} where
  abbrev pub compute_verification_hash : CertificateDigest V → MinimalConflictCertificate V → String
  compute_verification_hash digest certificate =
      digest (record certificate { verification_hash = "" })

  -- The validators of a new `MinimalConflictCertificate`; its time is normalized already.
  unfoldable pub validated_certificate :
      MinimalConflictCertificate V → Result (MinimalConflictCertificate V)
  validated_certificate certificate = do
    universe ← coerce_profiles certificate.candidate_profile_universe
    initiator ← coerce_profiles certificate.initiator_local_safe_set
    responder ← coerce_profiles certificate.responder_local_safe_set
    common ← coerce_profiles certificate.common_safe_set
    let ids = constraint_ids certificate.conflict_constraints
    raise_if (not (distinct ids)) (value_error "duplicate conflict constraint")
    raise_if (ids != sort_by string_leb ids)
        (value_error "conflict constraints must be sorted by constraint_id")
    raise_if (not (nat_beq certificate.ius_size (length certificate.conflict_constraints)))
        (value_error "IUS_size must equal conflict constraint count")
    raise_if (not (is_hard_conflict certificate.feasibility_status))
        (value_error "only genuine hard-constraint infeasibility may be certified")
    ok (record certificate {
      candidate_profile_universe = universe;
      initiator_local_safe_set = initiator;
      responder_local_safe_set = responder;
      common_safe_set = common;
    })

  module _ (c : Crypto) (digest : CertificateDigest V) where
    -- The certificate of a computed IUS, before its validators.
    abbrev pub certificate_of :
        CertificateContext
        → IusResult V
        → (certificate_id : String) (issued_at : ℕ) → MinimalConflictCertificate V
    certificate_of x r certificate_id issued_at = record {
      certificate_id = certificate_id;
      session_id = x.session_id;
      initiator_agent_id = x.initiator_agent_id;
      responder_agent_id = x.responder_agent_id;
      scenario_hash = x.scenario_hash;
      task_hash = x.task_hash;
      catalog_hash = x.catalog_hash;
      initiator_manifest_hash = x.initiator_manifest_hash;
      responder_manifest_hash = x.responder_manifest_hash;
      initiator_policy_compilation_hash = x.initiator_policy_compilation_hash;
      responder_policy_compilation_hash = x.responder_policy_compilation_hash;
      commit_reveal_transcript_hash = x.commit_reveal_transcript_hash;
      candidate_profile_universe = x.candidate_profile_universe;
      initiator_local_safe_set = x.initiator_local_safe_set;
      responder_local_safe_set = x.responder_local_safe_set;
      common_safe_set =
          common_safe_set x.candidate_profile_universe x.initiator_local_safe_set
            x.responder_local_safe_set;
      feasibility_status = hard_policy_conflict;
      conflict_category = classify_conflict r.ius;
      conflict_constraints = r.ius;
      original_constraint_count = r.original_constraint_count;
      z3_unsat_core_size = length r.z3_unsat_core;
      ius_size = length r.ius;
      solver_call_count = r.solver_call_count;
      issued_at = issued_at;
      verification_hash = "0";
    }

    -- The construction of the certificate, whose validator normalizes its time.
    unfoldable pub issue :
        CertificateContext
        → IusResult V
        → String
        → DateTime
        → Result (MinimalConflictCertificate V × IusResult V)
    issue x r certificate_id (naive t) = err (value_error "issued_at must be timezone-aware")
    issue x r certificate_id (aware issued_at) = do
      certificate ← validated_certificate (certificate_of x r certificate_id issued_at)
      ok (
        record certificate { verification_hash = compute_verification_hash digest certificate },
        r,
      )

    -- What follows the computation of the IUS.
    unfoldable pub certify :
        CertificateContext
        → DateTime
        → IusResult V
        → Result (MinimalConflictCertificate V × IusResult V)
    certify x issued_at r = do
      certificate_id ← certificate_id_for c x.session_id (constraint_ids r.ius)
      issue x r certificate_id issued_at

    abbrev pub from_ius :
        CertificateContext
        → DateTime
        → Option (Result (IusResult V))
        → Option (Result (MinimalConflictCertificate V × IusResult V))
    from_ius x issued_at none = none
    from_ius x issued_at (some (err e)) = some (err e)
    from_ius x issued_at (some (ok r)) = some (certify x issued_at r)

    unfoldable pub build_minimal_conflict_certificate :
        Solver String
        → CertificateContext
        → List (NamedConstraint V)
        → DateTime
        → Option (Result (MinimalConflictCertificate V × IusResult V))
    build_minimal_conflict_certificate check x constraints issued_at =
        from_ius x issued_at (compute_ius check x.candidate_profile_universe constraints)
