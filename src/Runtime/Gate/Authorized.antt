-- ===== src/Runtime/Gate/Authorized.antt =====
-- What an authorization by the execution gate establishes.
use pqtrust_agent_artifact.Prelude.{
  ℕ, String, true, ◌||◌, contains, ◌≡◌, ap, string_eq, arith, refl, subst,
}
use pqtrust_agent_artifact.Prelude.Result.{Result, ok, err, >>=-eq-ok, raise_if-eq-ok}
use pqtrust_agent_artifact.Protocol.Time.{DateTime, aware, require_utc_aware}
use pqtrust_agent_artifact.Protocol.Models.{
  TrustProfile, ProfileCatalog, get_profile, NegotiationTranscript, SelectionSummary,
  SignedTrustContract, Crypto, compute_signed_contract_hash,
}
use pqtrust_agent_artifact.Protocol.Transcript.{◌!=◌}
use pqtrust_agent_artifact.Protocol.Transcript.Checks.{
  eq_of_not_ne, raise_ne-eq-ok, raise_ne-last, or_false,
}
use pqtrust_agent_artifact.Protocol.Verification.Accepted.{raise_unless-eq-ok}
use pqtrust_agent_artifact.Runtime.StateMachine.{RuntimeState, contract_verified, state_eq}
use pqtrust_agent_artifact.Runtime.Gate.{
  AuthorizedExecutionContext, authorized, ExecutionGate, checks_before, verified, checks_after,
  authorize,
}

module _ (c : Crypto) (session_id : String) (signed : SignedTrustContract)
    (t : NegotiationTranscript) (selection : SelectionSummary) (activation_time : DateTime) where
  pub record PassedBefore (state : RuntimeState) : Type 0 where
    pub in_state : state ≡ contract_verified
    pub contract_session : signed.unsigned_contract.session_id ≡ session_id
    pub transcript_session : t.session_id ≡ session_id
    pub contract_hash : signed.signed_contract_hash ≡ compute_signed_contract_hash c signed

  checks_before_passed :
      (state : RuntimeState)
      → checks_before c session_id signed t selection activation_time state ≡ ok tt
      → PassedBefore state
  unfolding checks_before
  checks_before_passed state h0 =
      let u = signed.unsigned_contract in
      let (a1, h1) = raise_ne-eq-ok state contract_verified _ _ h0 in
      let (a2, h2) =
        raise_if-eq-ok (u.session_id != session_id || t.session_id != session_id) _ _ h1 in
      let (s1, s2) = or_false (u.session_id != session_id) (t.session_id != session_id) a2 in
      record {
        in_state = a1;
        contract_session = eq_of_not_ne u.session_id session_id s1;
        transcript_session = eq_of_not_ne t.session_id session_id s2;
        contract_hash =
            raise_ne-last signed.signed_contract_hash (compute_signed_contract_hash c signed) _ h2;
      }

  -- The profile that the gate authorizes, and the context's values.
  pub record IsSafeProfile (catalog : ProfileCatalog) (context : AuthorizedExecutionContext)
      : Type 0 where
    pub profile : TrustProfile
    pub found : get_profile catalog context.selected_profile_id ≡ ok profile
    pub initiator_safe : contains context.selected_profile_id t.initiator_local_safe_set ≡ true
    pub responder_safe : contains context.selected_profile_id t.responder_local_safe_set ≡ true
    pub tls_group : context.tls_group ≡ profile.tls_group
    pub transcript_hash : signed.unsigned_contract.transcript_hash ≡ t.transcript_hash
    pub selection_hash : signed.unsigned_contract.selection_hash ≡ selection.selection_hash
    pub session : context.session_id ≡ session_id
    pub contract : context.contract_hash ≡ signed.signed_contract_hash
    pub activation : aware context.activation_time ≡ activation_time

  abbrev value_or :
      AuthorizedExecutionContext → Result AuthorizedExecutionContext → AuthorizedExecutionContext
  value_or default (ok context) = context
  value_or default (err e) = default

  aware_of : (d : DateTime) (a : ℕ) → require_utc_aware d ≡ ok a → aware a ≡ d
  unfolding require_utc_aware
  aware_of d a h = ground arith

  checks_after_passed :
      (catalog : ProfileCatalog) (context : AuthorizedExecutionContext)
      → checks_after c session_id signed t selection activation_time catalog ≡ ok context
      → IsSafeProfile catalog context
  unfolding checks_after
  checks_after_passed catalog context h0 =
      let u = signed.unsigned_contract in
      let (profile, found, h1) = >>=-eq-ok (get_profile catalog u.selected_profile_id) _ h0 in
      let (a2, h2) =
        raise_unless-eq-ok (contains u.selected_profile_id t.initiator_local_safe_set) _ _ h1 in
      let (a3, h3) =
        raise_unless-eq-ok (contains u.selected_profile_id t.responder_local_safe_set) _ _ h2 in
      let (a4, h4) = raise_ne-eq-ok u.tls_group profile.tls_group _ _ h3 in
      let (a5, h5) = raise_ne-eq-ok u.transcript_hash t.transcript_hash _ _ h4 in
      let (a6, h6) = raise_ne-eq-ok u.selection_hash selection.selection_hash _ _ h5 in
      let (a, a7, h7) = >>=-eq-ok (require_utc_aware activation_time) _ h6 in
      let now = aware_of activation_time a a7 in
      subst (IsSafeProfile catalog) (ap (value_or context) h7) (record {
        profile = profile;
        found = found;
        initiator_safe = a2;
        responder_safe = a3;
        tls_group = a4;
        transcript_hash = a5;
        selection_hash = a6;
        session = refl;
        contract = refl;
        activation = now;
      })

  -- What an authorization establishes.
  pub record IsAuthorized (gate : ExecutionGate) (state : RuntimeState)
      (context : AuthorizedExecutionContext) : Type 0 where
    pub before : PassedBefore state
    pub verification : (verified c session_id signed t selection activation_time gate).0 ≡ ok tt
    pub after : IsSafeProfile gate.catalog context

  -- If the gate authorizes a contract, whatever its verifier, then the runtime is in
  -- `CONTRACT_VERIFIED`; the contract and the transcript are of the session; the contract has its
  -- recomputed hash; its verification passed; the authorized profile is in the catalog and in both
  -- safe sets, with the TLS group of the catalog; the transcript's and the selection's hashes are
  -- those in the contract; and the activation time is an aware time.
  pub authorize-IsAuthorized :
      (gate : ExecutionGate) (state : RuntimeState) (context : AuthorizedExecutionContext)
      → (authorize c session_id signed t selection activation_time gate state).0
        ≡ authorized context
      → IsAuthorized gate state context
  unfolding authorize
  authorize-IsAuthorized gate state context h = record {
    before = checks_before_passed state (ground arith);
    verification = ground arith;
    after = checks_after_passed gate.catalog context (ground arith);
  }

  gate_registry :
      (gate : ExecutionGate) (state : RuntimeState) (context : AuthorizedExecutionContext)
      → (authorize c session_id signed t selection activation_time gate state).0
        ≡ authorized context
      → (authorize c session_id signed t selection activation_time gate state).1.replay_registry
        ≡ (verified c session_id signed t selection activation_time gate).1
  unfolding authorize
  gate_registry gate state context h = ground arith
