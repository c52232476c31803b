-- ===== src/Protocol/Verification/Accepted.antt =====
-- What `verify_signed_contract` establishes about the contract that it accepts.
use pqtrust_agent_artifact.Prelude.{
  ℕ, ◌-◌, ◌≤◌, String, Bool, true, false, not, List, Option, none, some, contains, nonempty, leb,
  ◌≡◌, string_eq, arith, refl,
}
use pqtrust_agent_artifact.Prelude.Result.{
  Result, ok, Exn, ◌>>◌, raise_if, or_raise, >>=-eq-ok, raise_if-eq-ok,
}
use pqtrust_agent_artifact.Assurance.{EvidenceAlgorithm, algorithm_for_contract_evidence}
use pqtrust_agent_artifact.Protocol.Time.{DateTime, aware, require_contract_active}
use pqtrust_agent_artifact.Protocol.Models.{
  Role, initiator, responder, role_eq, algorithm_eq, endpoint_eq, evidence_eq, TrustProfile,
  ProfileCatalog, get_profile, profile_ids, NegotiationTranscript, SelectionSummary,
  AgentContractSignature, SignedTrustContract, Crypto, compute_signed_contract_hash,
}
use pqtrust_agent_artifact.Protocol.Replay.{ReplayRegistry}
use pqtrust_agent_artifact.Protocol.Transcript.{verify_transcript, microseconds}
use pqtrust_agent_artifact.Protocol.Transcript.Checks.{
  raise_ne-eq-ok, IsChecked, verify_transcript-IsChecked,
}
use pqtrust_agent_artifact.Protocol.Verification.{
  ExpectedKey, find_key, verify_one, verify_bindings, verify_profile, verify_signatures,
  verify_checks, verify_signed_contract,
}

-- A guard on a negated test that passed.
pub raise_unless-eq-ok {ℓ} :
    {A : Type ℓ} (b : Bool) (e : Exn) (m : Result A) {a : A}
    → (raise_if (not b) e >> m) ≡ ok a
    → (b ≡ true) × (m ≡ ok a)
raise_unless-eq-ok true e m h = (refl, h)
raise_unless-eq-ok false e m h = cc

raise_unless-last : (b : Bool) (e : Exn) → raise_if (not b) e ≡ ok tt → b ≡ true
raise_unless-last true e h = refl
raise_unless-last false e h = cc

or_raise-eq-ok {ℓ} :
    {A : Type ℓ} (m : Option A) (e : Exn) {a : A} → or_raise m e ≡ ok a → m ≡ some a
or_raise-eq-ok none e h = cc
or_raise-eq-ok (some a) e h = cc

-- A signature of the right agent, role and algorithm that verifies under a pinned key.
pub record SignedBy (c : Crypto) (signature : AgentContractSignature) (agent_id : String)
    (role : Role) (algorithm : EvidenceAlgorithm) (keys : List ExpectedKey) (payload : List ℕ)
    : Type 0 where
  pub agent : signature.agent_id ≡ agent_id
  pub role_eq : signature.role ≡ role
  pub algorithm_eq : signature.algorithm ≡ algorithm
  pub key : ExpectedKey
  pub pinned : find_key agent_id algorithm keys ≡ some key
  pub key_id : signature.key_id ≡ key.key_id
  pub fingerprint : signature.public_key_sha256 ≡ key.public_key_sha256
  pub bytes : List ℕ
  pub decoded : c.b64decode signature.signature_base64 ≡ some bytes
  pub verified : c.verify_bytes payload bytes key.public_key_path ≡ true

verify_one-SignedBy :
    (c : Crypto) (signature : AgentContractSignature) (agent_id : String) (role : Role)
    (algorithm : EvidenceAlgorithm) (keys : List ExpectedKey) (payload : List ℕ)
    → verify_one c signature agent_id role algorithm keys payload ≡ ok tt
    → SignedBy c signature agent_id role algorithm keys payload
unfolding verify_one
verify_one-SignedBy c s agent_id role algorithm keys payload h0 =
    let (a1, h1) = raise_ne-eq-ok s.agent_id agent_id _ _ h0 in
    let (a2, h2) = raise_ne-eq-ok s.role role _ _ h1 in
    let (a3, h3) = raise_ne-eq-ok s.algorithm algorithm _ _ h2 in
    let (key, a4, h4) = >>=-eq-ok (or_raise (find_key s.agent_id s.algorithm keys) _) _ h3 in
    let found = or_raise-eq-ok (find_key s.agent_id s.algorithm keys) _ a4 in
    let (a5, h5) = raise_ne-eq-ok s.key_id key.key_id _ _ h4 in
    let (a6, h6) = raise_ne-eq-ok s.public_key_sha256 key.public_key_sha256 _ _ h5 in
    let (bytes, a7, h7) = >>=-eq-ok (or_raise (c.b64decode s.signature_base64) _) _ h6 in
    let decoded = or_raise-eq-ok (c.b64decode s.signature_base64) _ a7 in
    let (a8, h8) = raise_unless-eq-ok (nonempty bytes) _ _ h7 in
    record {
      agent = a1;
      role_eq = a2;
      algorithm_eq = a3;
      key = key;
      pinned = cc;
      key_id = a5;
      fingerprint = a6;
      bytes = bytes;
      decoded = decoded;
      verified = raise_unless-last (c.verify_bytes payload bytes key.public_key_path) _ h8;
    }

module _ (c : Crypto) (signed : SignedTrustContract) (t : NegotiationTranscript)
    (selection : SelectionSummary) (catalog : ProfileCatalog) (keys : List ExpectedKey)
    (now : DateTime) where
  -- What an accepted contract satisfies.
  pub record IsAccepted : Type 0 where
    pub transcript : IsChecked c t selection (profile_ids catalog) now
    pub contract_hash : signed.signed_contract_hash ≡ compute_signed_contract_hash c signed
    pub transcript_hash : signed.unsigned_contract.transcript_hash ≡ t.transcript_hash
    pub selection_hash : signed.unsigned_contract.selection_hash ≡ selection.selection_hash
    pub selected : signed.unsigned_contract.selected_profile_id ≡ selection.selected_profile_id
    pub initiator_safe :
        contains signed.unsigned_contract.selected_profile_id t.initiator_local_safe_set ≡ true
    pub responder_safe :
        contains signed.unsigned_contract.selected_profile_id t.responder_local_safe_set ≡ true
    pub profile : TrustProfile
    pub profile_found :
        get_profile catalog signed.unsigned_contract.selected_profile_id ≡ ok profile
    pub tls_group : signed.unsigned_contract.tls_group ≡ profile.tls_group
    pub endpoint_mode :
        signed.unsigned_contract.endpoint_authentication_mode ≡ profile.endpoint_authentication_mode
    pub evidence_mode :
        signed.unsigned_contract.contract_evidence_mode ≡ profile.contract_evidence_mode
    pub active :
        (a : ℕ) × (require_contract_active
            (aware signed.unsigned_contract.issued_at)
            (aware signed.unsigned_contract.expires_at)
            now
          ≡ ok a)
    pub lease_bound :
        signed.unsigned_contract.expires_at - signed.unsigned_contract.issued_at
        ≤ microseconds profile.max_lease_seconds
    pub initiator_signed :
        SignedBy c signed.initiator_signature signed.unsigned_contract.initiator_agent_id initiator
          (algorithm_for_contract_evidence profile.contract_evidence_mode)
          keys
          (c.contract_bytes signed.unsigned_contract)
    pub responder_signed :
        SignedBy c signed.responder_signature signed.unsigned_contract.responder_agent_id responder
          (algorithm_for_contract_evidence profile.contract_evidence_mode)
          keys
          (c.contract_bytes signed.unsigned_contract)

  verify_checks-IsAccepted :
      verify_checks c signed t selection catalog keys now ≡ ok tt → IsAccepted
  unfolding verify_checks verify_bindings verify_profile verify_signatures
  verify_checks-IsAccepted h0 =
      let u = signed.unsigned_contract in
      let (x1, a1, h1) =
        >>=-eq-ok (verify_transcript c t selection (profile_ids catalog) now) _ h0 in
      let (x2, b0, h2) = >>=-eq-ok (verify_bindings c signed t selection catalog keys now) _ h1 in
      let (b1, g1) =
        raise_ne-eq-ok signed.signed_contract_hash (compute_signed_contract_hash c signed) _ _ b0 in
      let (b2, g2) = raise_ne-eq-ok u.transcript_hash t.transcript_hash _ _ g1 in
      let (b3, g3) = raise_ne-eq-ok u.selection_hash selection.selection_hash _ _ g2 in
      let (b4, g4) = raise_ne-eq-ok u.selected_profile_id selection.selected_profile_id _ _ g3 in
      let (b5, g5) =
        raise_unless-eq-ok (contains u.selected_profile_id t.initiator_local_safe_set) _ _ g4 in
      let b6 = raise_unless-last (contains u.selected_profile_id t.responder_local_safe_set) _ g5 in
      let (profile, found, h3) = >>=-eq-ok (get_profile catalog u.selected_profile_id) _ h2 in
      let (x4, p0, h4) =
        >>=-eq-ok (verify_profile c signed t selection catalog keys now profile) _ h3 in
      let (p1, q1) = raise_ne-eq-ok u.tls_group profile.tls_group _ _ p0 in
      let (p2, q2) =
        raise_ne-eq-ok u.endpoint_authentication_mode profile.endpoint_authentication_mode _ _ q1 in
      let (p3, q3) =
        raise_ne-eq-ok u.contract_evidence_mode profile.contract_evidence_mode _ _ q2 in
      let (p4, q4) = raise_if-eq-ok (leb u.expires_at u.issued_at) _ _ q3 in
      let (a5, p5, q5) =
        >>=-eq-ok (require_contract_active (aware u.issued_at) (aware u.expires_at) now) _ q4 in
      let algorithm = algorithm_for_contract_evidence profile.contract_evidence_mode in
      let (x6, s1, h6) =
        >>=-eq-ok
          (verify_one c signed.initiator_signature u.initiator_agent_id initiator algorithm keys
            (c.contract_bytes u))
          _ h4 in
      record {
        transcript = verify_transcript-IsChecked c t selection (profile_ids catalog) now a1;
        contract_hash = b1;
        transcript_hash = b2;
        selection_hash = b3;
        selected = b4;
        initiator_safe = b5;
        responder_safe = b6;
        profile = profile;
        profile_found = found;
        tls_group = p1;
        endpoint_mode = p2;
        evidence_mode = p3;
        active = (a5, p5);
        lease_bound = ground arith;
        initiator_signed = verify_one-SignedBy c _ _ _ _ _ _ s1;
        responder_signed = verify_one-SignedBy c _ _ _ _ _ _ h6;
      }

  -- A contract that `verify_signed_contract` accepts, with or without a registry, has a checked
  -- transcript and its own recomputed hash; it names the transcript, the selection and the
  -- selected profile, which is in both safe sets and in the catalog; its TLS group and modes are
  -- that profile's; its lease is active and no longer than the profile's maximum; and both agents'
  -- signatures, in the profile's algorithm and under pinned keys, verify over its bytes.
  pub verify_signed_contract-IsAccepted :
      (registry : Option ReplayRegistry)
      → (verify_signed_contract c signed t selection catalog keys now registry).0 ≡ ok tt
      → IsAccepted
  unfolding verify_signed_contract
  verify_signed_contract-IsAccepted registry h = verify_checks-IsAccepted (ground arith)
