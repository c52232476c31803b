-- ===== src/Conflict/Checks/Certified.antt =====
-- A certificate that `build_minimal_conflict_certificate` of
-- src/pqtrust_agent/negotiation/conflict_certificate.py builds passes its verification.
use pqtrust_agent_artifact.Prelude.{
  ℕ, String, Bool, true, false, List, [], ◌∷◌, all, contains, distinct, distinct-keep, length,
  nat_beq, some, Eq, string_eq, string_leb, ◌≡◌, inl, inr, refl, ap, sym, ◌∙◌, arith, is_sorted,
  sort_by, sort_by-is_sorted, any-sort_by,
}
use pqtrust_agent_artifact.Prelude.Result.{ok}
use pqtrust_agent_artifact.Protocol.Models.{Crypto}
use pqtrust_agent_artifact.Protocol.Time.{aware}
use pqtrust_agent_artifact.Protocol.Transcript.{list_eq, ◌!=◌}
use pqtrust_agent_artifact.Solver.{Solver, Laws}
use pqtrust_agent_artifact.Solver.Meaning.{Decides}
use pqtrust_agent_artifact.Conflict.{
  conflict_eq, NamedConstraint, MinimalConflictCertificate, coerce_profiles, profile_leb,
}
use pqtrust_agent_artifact.Conflict.Core.{constraint_leb, constraint_ids, without, IusResult}
use pqtrust_agent_artifact.Conflict.Core.Dicts.{is_feasible, All-weaken}
use pqtrust_agent_artifact.Conflict.Core.Shrunk.{IsShrunk, solve-cases}
use pqtrust_agent_artifact.Conflict.Core.Computed.{compute_ius-IsShrunk}
use pqtrust_agent_artifact.Conflict.Core.Passed.{verify_ius-IsShrunk}
use pqtrust_agent_artifact.Conflict.Certificate.{
  common_safe_set, classify_conflict, certificate_id_for, CertificateContext, CertificateDigest,
  compute_verification_hash, validated_certificate, certificate_of, issue, id_digest, certify,
  from_ius, build_minimal_conflict_certificate,
}
use pqtrust_agent_artifact.Conflict.Checks.{verify_conflict_certificate, validation_result}

pub not_different : {A : Type 0} → ⦃e : Eq A⦄ → (x y : A) → x ≡ y → (x != y) ≡ false
not_different ⦃e⦄ x y h = ground (arith, e.beq_iff x y)

coerce_profiles_lem :
    (items : List String)
    → distinct items ≡ true
    → coerce_profiles items ≡ ok (sort_by profile_leb items)
unfolding coerce_profiles
coerce_profiles_lem items h = rw h refl

common_safe_set-distinct :
    (ps i r : List String) → distinct ps ≡ true → distinct (common_safe_set ps i r) ≡ true
unfolding common_safe_set
common_safe_set-distinct ps i r h = distinct-keep _ ps h

nat_beq_self : (n : ℕ) → nat_beq n n ≡ true
nat_beq_self n = ground arith

-- The sets of a context without duplicates.
pub record IsDistinct (x : CertificateContext) : Type 0 where
  pub universe : distinct x.candidate_profile_universe ≡ true
  pub initiator : distinct x.initiator_local_safe_set ≡ true
  pub responder : distinct x.responder_local_safe_set ≡ true

module _ {V : Type 0} where
  all-constraint_leb :
      (c : NamedConstraint V) (cs : List (NamedConstraint V))
      → all (string_leb c.constraint_id) (constraint_ids cs) ≡ all (constraint_leb c) cs
  all-constraint_leb c [] = refl
  all-constraint_leb c (d ∷ ds) = ground (arith, all-constraint_leb c ds)

  is_sorted-constraint_ids :
      (cs : List (NamedConstraint V))
      → is_sorted constraint_leb cs ≡ true
      → is_sorted string_leb (constraint_ids cs) ≡ true
  is_sorted-constraint_ids [] h = refl
  is_sorted-constraint_ids (c ∷ cs) h =
      ground (arith, all-constraint_leb c cs, is_sorted-constraint_ids cs)

  all-constraint_ids :
      (p : String → Bool) (cs : List (NamedConstraint V))
      → all (λ d. p d.constraint_id) cs ≡ true
      → all p (constraint_ids cs) ≡ true
  all-constraint_ids p [] h = refl
  all-constraint_ids p (d ∷ ds) h = ground (arith, all-constraint_ids p ds)

  certificate_id_for_lem :
      (c : Crypto) (session_id : String) (ius : List (NamedConstraint V))
      → c.is_hex session_id ≡ true
      → all (λ d. c.is_hex d.constraint_id) ius ≡ true
      → (i : String) × (certificate_id_for c session_id (constraint_ids ius) ≡ ok i)
  unfolding certificate_id_for
  certificate_id_for_lem c session_id ius session ids = (
    id_digest c session_id (constraint_ids ius),
    rw (session, all-constraint_ids c.is_hex ius ids) refl,
  )

  -- The order of the profiles does not matter.
  IsShrunk-sort :
      (profile_ids : List String) (cs r : List (NamedConstraint V))
      → IsShrunk profile_ids cs r
      → IsShrunk (sort_by profile_leb profile_ids) cs r
  IsShrunk-sort profile_ids cs r is_shrunk = record {
    infeasible = any-sort_by profile_leb _ profile_ids ∙ is_shrunk.infeasible;
    irreducible =
        All-weaken (λ c. is_feasible profile_ids (without c r) ≡ true)
          (λ c. is_feasible (sort_by profile_leb profile_ids) (without c r) ≡ true) r
          (λ c feasible. any-sort_by profile_leb _ profile_ids ∙ feasible) is_shrunk.irreducible;
    distinct_ids = is_shrunk.distinct_ids;
    sorted = is_shrunk.sorted;
    part = is_shrunk.part;
  }

  module _ (c : Crypto) (digest : CertificateDigest V) where
    -- The certificate after its validators.
    abbrev coerced : CertificateContext → IusResult V → String → ℕ → MinimalConflictCertificate V
    coerced x r i issued_at = record (certificate_of c digest x r i issued_at) {
      candidate_profile_universe = sort_by profile_leb x.candidate_profile_universe;
      initiator_local_safe_set = sort_by profile_leb x.initiator_local_safe_set;
      responder_local_safe_set = sort_by profile_leb x.responder_local_safe_set;
      common_safe_set = sort_by profile_leb (
          common_safe_set x.candidate_profile_universe x.initiator_local_safe_set
            x.responder_local_safe_set);
    }

    validated_certificate_lem :
        (x : CertificateContext) (r : IusResult V) (i : String) (issued_at : ℕ)
        → IsDistinct x
        → distinct (constraint_ids r.ius) ≡ true
        → is_sorted constraint_leb r.ius ≡ true
        → validated_certificate (certificate_of c digest x r i issued_at)
          ≡ ok (coerced x r i issued_at)
    unfolding validated_certificate
    validated_certificate_lem x r i issued_at sets once sorted =
        let common =
          common_safe_set-distinct x.candidate_profile_universe x.initiator_local_safe_set
            x.responder_local_safe_set sets.universe in
        let in_order =
          sort_by-is_sorted string_leb (constraint_ids r.ius)
            (is_sorted-constraint_ids r.ius sorted) in
        let ordered = not_different (constraint_ids r.ius) _ (sym in_order) in
        let u = coerce_profiles_lem x.candidate_profile_universe sets.universe in
        let j = coerce_profiles_lem x.initiator_local_safe_set sets.initiator in
        let s = coerce_profiles_lem x.responder_local_safe_set sets.responder in
        let k =
          coerce_profiles_lem
            (common_safe_set x.candidate_profile_universe x.initiator_local_safe_set
              x.responder_local_safe_set)
            common in
        rw (u, j, s, k, once, ordered, nat_beq_self (length r.ius)) refl

    abbrev certified : CertificateContext → IusResult V → String → ℕ → MinimalConflictCertificate V
    certified x r i issued_at = record (coerced x r i issued_at) {
      verification_hash = compute_verification_hash digest (coerced x r i issued_at);
    }

    certify_lem :
        (x : CertificateContext) (r : IusResult V) (i : String) (issued_at : ℕ)
        → IsDistinct x
        → distinct (constraint_ids r.ius) ≡ true
        → is_sorted constraint_leb r.ius ≡ true
        → certificate_id_for c x.session_id (constraint_ids r.ius) ≡ ok i
        → certify c digest x (aware issued_at) r ≡ ok (certified x r i issued_at, r)
    unfolding certify issue
    certify_lem x r i issued_at sets once sorted named =
        rw (named, validated_certificate_lem x r i issued_at sets once sorted) refl

    module _ (check : Solver String) (laws : Laws check) (decides : Decides check) where
      verify_certified :
          (x : CertificateContext) (cs : List (NamedConstraint V)) (r : IusResult V) (i : String)
          (issued_at : ℕ)
          → distinct (constraint_ids cs) ≡ true
          → certificate_id_for c x.session_id (constraint_ids r.ius) ≡ ok i
          → is_feasible x.candidate_profile_universe cs ≡ false
          → IsShrunk x.candidate_profile_universe cs r.ius
          → verify_conflict_certificate c digest check (certified x r i issued_at) (some cs)
            ≡ ok (validation_result [])
      unfolding verify_conflict_certificate
      verify_certified x cs r i issued_at once named infeasible is_shrunk =
          let universe = sort_by profile_leb x.candidate_profile_universe in
          let conflict : is_feasible universe cs ≡ false =
            any-sort_by profile_leb (λ p. all (λ d. contains p d.profile_scope) cs)
              x.candidate_profile_universe
            ∙ infeasible in
          let verified =
            verify_ius-IsShrunk check laws decides universe cs r.ius
              (IsShrunk-sort x.candidate_profile_universe cs r.ius is_shrunk) in
          let category = not_different (classify_conflict r.ius) (classify_conflict r.ius) refl in
          let identifier = not_different i i refl in
          let hash =
            not_different (compute_verification_hash digest (coerced x r i issued_at)) _ refl in
          elim (solve-cases check laws decides universe cs once) [
            | inl (core, solved, _) ↦ rw (solved, verified, named, category, identifier, hash) refl
            | inr (_, solved, feasible) ↦ absurd (ground arith)
          ]

      -- On a solver that always answers: for constraints, each once, that no profile of the universe
      -- fulfils together, sets without duplicates, and a session and constraints of hexadecimal
      -- identifiers, the certificate is built and passes its verification against the constraints.
      pub verify_conflict_certificate-build_minimal_conflict_certificate :
          (x : CertificateContext) (cs : List (NamedConstraint V)) (issued_at : ℕ)
          → IsDistinct x
          → distinct (constraint_ids cs) ≡ true
          → is_feasible x.candidate_profile_universe cs ≡ false
          → c.is_hex x.session_id ≡ true
          → all (λ d. c.is_hex d.constraint_id) cs ≡ true
          → (certificate : MinimalConflictCertificate V) × (r : IusResult V)
            × (build_minimal_conflict_certificate c digest check x cs (aware issued_at)
                ≡ some (ok (certificate, r)))
            × (verify_conflict_certificate c digest check certificate (some cs)
                ≡ ok (validation_result []))
      unfolding build_minimal_conflict_certificate
      verify_conflict_certificate-build_minimal_conflict_certificate x cs issued_at sets once
            infeasible session ids =
          let (r, computed, is_shrunk) =
            compute_ius-IsShrunk check laws decides x.candidate_profile_universe cs once
              infeasible in
          let (i, named) =
            certificate_id_for_lem c x.session_id r.ius session (is_shrunk.part _ ids) in
          (
            certified x r i issued_at,
            r,
            ap (from_ius c digest x (aware issued_at)) computed
                ∙ ap some (
                    certify_lem x r i issued_at sets is_shrunk.distinct_ids is_shrunk.sorted named),
            verify_certified x cs r i issued_at once named infeasible is_shrunk,
          )
