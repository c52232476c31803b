-- ===== src/Protocol/Commitment/Invariant.antt =====
-- What holds of a commit-reveal session after any sequence of calls.
use pqtrust_agent_artifact.Prelude.{
  ◌≡◌, ◌≢◌, ◌⊎◌, sym, ap, String, true, Option, none, some, List, [], ◌∷◌, eq_iff, arith, string_eq,
}
use pqtrust_agent_artifact.Prelude.Result.{ok}
use pqtrust_agent_artifact.Protocol.Time.{DateTime}
use pqtrust_agent_artifact.Protocol.Replay.{ReplayRegistry}
use pqtrust_agent_artifact.Protocol.Models.{
  Role, initiator, responder, role_eq, NegotiationProposal, NegotiationReveal, Crypto,
}
use pqtrust_agent_artifact.Protocol.Commitment.{
  create_commitment, verify_commitment, matches_commitment, is_some, both, CommitRevealSession,
  open_session, register_commitment_in, accept_reveal, validate_pair,
}

-- A stored reveal has its role and session, and its commitment is the one of that role.
abbrev pub IsBound : Crypto → String → Role → Option String → Option NegotiationReveal → Type 0
IsBound c session_id role commitment none = Unit
IsBound c session_id role commitment (some reveal) =
    (commitment ≡ some (create_commitment c reveal))
    × (reveal.proposal.agent_role ≡ role)
    × (reveal.proposal.session_id ≡ session_id)

pub record IsValid (c : Crypto) (s : CommitRevealSession) : Type 0 where
  pub initiator_bound :
      IsBound c s.session_id initiator s.commitments.for_initiator s.reveals.for_initiator
  pub responder_bound :
      IsBound c s.session_id responder s.commitments.for_responder s.reveals.for_responder
  pub committed_first :
      (is_some s.reveals.for_initiator ≡ true) ⊎ (is_some s.reveals.for_responder ≡ true)
      → both s.commitments ≡ true

matched :
    (c : Crypto) (o : Option String) (reveal : NegotiationReveal)
    → matches_commitment c o reveal ≡ true
    → o ≡ some (create_commitment c reveal)
unfolding verify_commitment
matched c none reveal h = cc
matched c (some x) reveal h = ap some (sym ((eq_iff (create_commitment c reveal) x).0 h))

register_commitment_in-IsValid :
    (c : Crypto) (s : CommitRevealSession) (role commitment : String)
    → IsValid c s
    → IsValid c (register_commitment_in role commitment s).1
unfolding register_commitment_in
register_commitment_in-IsValid c s role commitment v = ground arith

accept_reveal-IsValid :
    (c : Crypto) (s : CommitRevealSession) (reveal : NegotiationReveal) (t : DateTime)
    → IsValid c s
    → IsValid c (accept_reveal c reveal t s).1
unfolding accept_reveal
accept_reveal-IsValid c s reveal t v = ground (
  arith,
  eq_iff reveal.proposal.session_id s.session_id,
  matched c s.commitments.for_initiator reveal,
  matched c s.commitments.for_responder reveal,
)

-- The calls that a session offers.
pub data SessionCall : Type 0 where
  commit : (role commitment : String) → SessionCall
  reveal : NegotiationReveal → DateTime → SessionCall

abbrev pub session_step : Crypto → SessionCall → CommitRevealSession → CommitRevealSession
session_step c (commit role commitment) s = (register_commitment_in role commitment s).1
session_step c (reveal r t) s = (accept_reveal c r t s).1

-- The session after a sequence of calls, whether each returned or raised.
pub session_after : Crypto → List SessionCall → CommitRevealSession → CommitRevealSession
session_after c [] s = s
session_after c (x ∷ xs) s = session_after c xs (session_step c x s)

session_step-IsValid :
    (c : Crypto) (x : SessionCall) (s : CommitRevealSession)
    → IsValid c s
    → IsValid c (session_step c x s)
session_step-IsValid c (commit role commitment) s v =
    register_commitment_in-IsValid c s role commitment v
session_step-IsValid c (reveal r t) s v = accept_reveal-IsValid c s r t v

session_after-IsValid :
    (c : Crypto) (xs : List SessionCall) (s : CommitRevealSession)
    → IsValid c s
    → IsValid c (session_after c xs s)
unfolding session_after
session_after-IsValid c [] s v = v
session_after-IsValid c (x ∷ xs) s v =
    session_after-IsValid c xs (session_step c x s) (session_step-IsValid c x s v)

open_session-IsValid :
    (c : Crypto) (session_id : String) (t : DateTime) (registry : Option ReplayRegistry)
    (s : CommitRevealSession)
    → (open_session session_id t registry).0 ≡ ok s
    → IsValid c s
unfolding open_session
open_session-IsValid c session_id t registry s h = ground arith

-- In every state that a new session reaches by any sequence of calls, raising calls included, each
-- stored reveal has its own role and the session's identifier, the commitment stored for that role
-- is the commitment of that reveal, and a reveal is stored only if both commitments are.
pub commit_before_reveal :
    (c : Crypto) (session_id : String) (t : DateTime) (registry : Option ReplayRegistry)
    (s : CommitRevealSession) (xs : List SessionCall)
    → (open_session session_id t registry).0 ≡ ok s
    → IsValid c (session_after c xs s)
commit_before_reveal c session_id t registry s xs h =
    session_after-IsValid c xs s (open_session-IsValid c session_id t registry s h)

-- What the validation of a pair of proposals establishes.
pub record PairAgrees (i r : NegotiationProposal) : Type 0 where
  pub roles : i.agent_role ≢ r.agent_role
  pub agents : i.agent_id ≢ r.agent_id
  pub session_id : i.session_id ≡ r.session_id
  pub scenario_hash : i.scenario_hash ≡ r.scenario_hash
  pub task_hash : i.task_hash ≡ r.task_hash
  pub catalog_hash : i.catalog_hash ≡ r.catalog_hash
  pub cost_evidence_hash : i.cost_evidence_hash ≡ r.cost_evidence_hash

validate_pair_agrees : (i r : NegotiationProposal) → validate_pair i r ≡ ok tt → PairAgrees i r
unfolding validate_pair
validate_pair_agrees i r h = ground (
  arith,
  role_eq.beq_iff i.agent_role r.agent_role,
  eq_iff i.agent_id r.agent_id,
  eq_iff i.session_id r.session_id,
  eq_iff i.scenario_hash r.scenario_hash,
  eq_iff i.task_hash r.task_hash,
  eq_iff i.catalog_hash r.catalog_hash,
  eq_iff i.cost_evidence_hash r.cost_evidence_hash,
)

-- When a call of `accept_reveal` returns and leaves both reveals stored, their proposals have
-- distinct roles and agents and agree on the session, scenario, task, catalog and cost evidence.
pub accept_reveal_agrees :
    (c : Crypto) (s : CommitRevealSession) (r : NegotiationReveal) (t : DateTime)
    (i p : NegotiationReveal)
    → (accept_reveal c r t s).0 ≡ ok tt
    → (accept_reveal c r t s).1.reveals.for_initiator ≡ some i
    → (accept_reveal c r t s).1.reveals.for_responder ≡ some p
    → PairAgrees i.proposal p.proposal
unfolding accept_reveal
accept_reveal_agrees c s r t i p h hi hp = validate_pair_agrees i.proposal p.proposal (ground arith)
