-- ===== src/Protocol/Transcript/Checks.antt =====
-- What a transcript that passes `verify_transcript` satisfies.
use pqtrust_agent_artifact.Prelude.{
  ℕ, String, Bool, false, List, ◌&&◌, ◌||◌, ◌≡◌, ◌==◌, Eq, string_eq, arith,
}
use pqtrust_agent_artifact.Prelude.Result.{
  Result, ok, Exn, ◌>>◌, raise_if, >>=-eq-ok, raise_if-eq-ok,
}
use pqtrust_agent_artifact.Protocol.Time.{DateTime, aware, require_proposal_active}
use pqtrust_agent_artifact.Protocol.Models.{
  initiator, responder, role_eq, NegotiationTranscript, SelectionSummary, Crypto,
  compute_transcript_hash,
}
use pqtrust_agent_artifact.Protocol.Commitment.{create_commitment}
use pqtrust_agent_artifact.Negotiation.Selector.{common_safe_set}
use pqtrust_agent_artifact.Protocol.Transcript.{verify_transcript, ◌!=◌, list_eq}

-- Two values that the test `!=` does not tell apart.
pub eq_of_not_ne {ℓ} : {A : Type ℓ} ⦃e : Eq A⦄ (a b : A) → (a != b) ≡ false → a ≡ b
eq_of_not_ne ⦃e⦄ a b h = ground (arith, e.beq_iff a b)

-- A guard `if a != b: raise` that passed.
pub raise_ne-eq-ok {ℓ κ} :
    {A : Type ℓ} {B : Type κ} ⦃e : Eq A⦄ (a b : A) (x : Exn) (m : Result B) {y : B}
    → (raise_if (a != b) x >> m) ≡ ok y
    → (a ≡ b) × (m ≡ ok y)
raise_ne-eq-ok a b x m h = let (p, q) = raise_if-eq-ok (a != b) x m h in (eq_of_not_ne a b p, q)

-- The same guard in last place.
pub raise_ne-last {ℓ} :
    {A : Type ℓ} ⦃e : Eq A⦄ (a b : A) (x : Exn) → raise_if (a != b) x ≡ ok tt → a ≡ b
raise_ne-last ⦃e⦄ a b x h = ground (arith, e.beq_iff a b)

pub or_false : (a b : Bool) → (a || b) ≡ false → (a ≡ false) × (b ≡ false)
or_false a b h = (ground arith, ground arith)

-- What the checks of a transcript establish.
pub record IsChecked (c : Crypto) (t : NegotiationTranscript) (selection : SelectionSummary)
    (catalog_profile_ids : List String) (now : DateTime) : Type 0 where
  pub initiator_commitment : t.initiator_commitment ≡ create_commitment c t.initiator_reveal
  pub responder_commitment : t.responder_commitment ≡ create_commitment c t.responder_reveal
  pub initiator_active :
      (a : ℕ) × (require_proposal_active
          (aware t.initiator_reveal.proposal.evaluation_time)
          (aware t.initiator_reveal.proposal.expires_at)
          now
        ≡ ok a)
  pub responder_active :
      (a : ℕ) × (require_proposal_active
          (aware t.responder_reveal.proposal.evaluation_time)
          (aware t.responder_reveal.proposal.expires_at)
          now
        ≡ ok a)
  pub initiator_session : t.initiator_reveal.proposal.session_id ≡ t.session_id
  pub responder_session : t.responder_reveal.proposal.session_id ≡ t.session_id
  pub initiator_role : t.initiator_reveal.proposal.agent_role ≡ initiator
  pub responder_role : t.responder_reveal.proposal.agent_role ≡ responder
  pub scenario_hash :
      t.initiator_reveal.proposal.scenario_hash ≡ t.responder_reveal.proposal.scenario_hash
  pub task_hash : t.initiator_reveal.proposal.task_hash ≡ t.responder_reveal.proposal.task_hash
  pub catalog_hash :
      t.initiator_reveal.proposal.catalog_hash ≡ t.responder_reveal.proposal.catalog_hash
  pub cost_evidence_hash :
      t.initiator_reveal.proposal.cost_evidence_hash
      ≡ t.responder_reveal.proposal.cost_evidence_hash
  pub common_set :
      t.common_safe_set
      ≡ common_safe_set catalog_profile_ids t.initiator_local_safe_set t.responder_local_safe_set
  pub initiator_set :
      t.initiator_local_safe_set ≡ t.initiator_reveal.proposal.local_safe_profile_ids
  pub responder_set :
      t.responder_local_safe_set ≡ t.responder_reveal.proposal.local_safe_profile_ids
  pub selection_set : t.common_safe_set ≡ selection.common_safe_set
  pub frontier : t.pareto_frontier ≡ selection.pareto_frontier
  pub selected : t.selected_profile_id ≡ selection.selected_profile_id
  pub selection_hash : t.selection_hash ≡ selection.selection_hash
  pub transcript_hash : t.transcript_hash ≡ compute_transcript_hash c t

-- A transcript that passes `verify_transcript` carries the commitments of its own reveals; both
-- proposals are within their lifetimes, belong to the transcript's session, have the roles of
-- their positions and agree on the scenario, task, catalog and cost evidence; the safe sets are
-- those revealed, the common set is recomputed from them in the catalog's order, and the common
-- set, frontier, selected profile and hash are those of the selection; the transcript's own hash
-- is the recomputed one.
pub verify_transcript-IsChecked :
    (c : Crypto) (t : NegotiationTranscript) (selection : SelectionSummary)
    (catalog_profile_ids : List String) (now : DateTime)
    → verify_transcript c t selection catalog_profile_ids now ≡ ok tt
    → IsChecked c t selection catalog_profile_ids now
unfolding verify_transcript
verify_transcript-IsChecked c t selection ids now h0 =
    let i = t.initiator_reveal.proposal in
    let r = t.responder_reveal.proposal in
    let (a1, h1) =
      raise_ne-eq-ok t.initiator_commitment (create_commitment c t.initiator_reveal) _ _ h0 in
    let (a2, h2) =
      raise_ne-eq-ok t.responder_commitment (create_commitment c t.responder_reveal) _ _ h1 in
    let (x3, a3, h3) =
      >>=-eq-ok (require_proposal_active (aware i.evaluation_time) (aware i.expires_at) now) _ h2 in
    let (x4, a4, h4) =
      >>=-eq-ok (require_proposal_active (aware r.evaluation_time) (aware r.expires_at) now) _ h3 in
    let (a5, h5) =
      raise_if-eq-ok (c.proposal_hash i == c.proposal_hash r && i.agent_id != r.agent_id) _ _ h4 in
    let (a6, h6) =
      raise_if-eq-ok (i.session_id != r.session_id || i.session_id != t.session_id) _ _ h5 in
    let (s1, s2) = or_false (i.session_id != r.session_id) (i.session_id != t.session_id) a6 in
    let p1 = eq_of_not_ne i.session_id r.session_id s1 in
    let p2 = eq_of_not_ne i.session_id t.session_id s2 in
    let (a7, h7) = raise_if-eq-ok (i.agent_role != initiator || r.agent_role != responder) _ _ h6 in
    let (r1, r2) = or_false (i.agent_role != initiator) (r.agent_role != responder) a7 in
    let (a8, h8) = raise_ne-eq-ok i.scenario_hash r.scenario_hash _ _ h7 in
    let (a9, h9) = raise_ne-eq-ok i.task_hash r.task_hash _ _ h8 in
    let (a10, h10) = raise_ne-eq-ok i.catalog_hash r.catalog_hash _ _ h9 in
    let (a11, h11) = raise_ne-eq-ok i.cost_evidence_hash r.cost_evidence_hash _ _ h10 in
    let (a12, h12) =
      raise_ne-eq-ok (common_safe_set ids i.local_safe_profile_ids r.local_safe_profile_ids)
        t.common_safe_set _ _ h11 in
    let (a13, h13) = raise_ne-eq-ok t.initiator_local_safe_set i.local_safe_profile_ids _ _ h12 in
    let (a14, h14) = raise_ne-eq-ok t.responder_local_safe_set r.local_safe_profile_ids _ _ h13 in
    let (a15, h15) = raise_ne-eq-ok t.common_safe_set selection.common_safe_set _ _ h14 in
    let (a16, h16) = raise_ne-eq-ok t.pareto_frontier selection.pareto_frontier _ _ h15 in
    let (a17, h17) = raise_ne-eq-ok t.selected_profile_id selection.selected_profile_id _ _ h16 in
    let (a18, h18) = raise_ne-eq-ok t.selection_hash selection.selection_hash _ _ h17 in
    record {
      initiator_commitment = a1;
      responder_commitment = a2;
      initiator_active = (x3, a3);
      responder_active = (x4, a4);
      initiator_session = p2;
      responder_session = cc;
      initiator_role = eq_of_not_ne i.agent_role initiator r1;
      responder_role = eq_of_not_ne r.agent_role responder r2;
      scenario_hash = a8;
      task_hash = a9;
      catalog_hash = a10;
      cost_evidence_hash = a11;
      common_set = cc;
      initiator_set = a13;
      responder_set = a14;
      selection_set = a15;
      frontier = a16;
      selected = a17;
      selection_hash = a18;
      transcript_hash = raise_ne-last t.transcript_hash (compute_transcript_hash c t) _ h18;
    }
