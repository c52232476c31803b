-- ===== src/Protocol/Commitment.antt =====
-- src/pqtrust_agent/protocol/commitment.py and `raw_commitment_hash` of models/protocol.py. The two
-- dicts of a session have the keys "initiator" and "responder" alone, so each is a pair of
-- optional entries. The registry, which other sessions may share, is carried in the state.
pub mod Binding
pub mod Invariant
use pqtrust_agent_artifact.Prelude.{
  ℕ, String, Bool, true, false, not, ◌&&◌, ◌||◌, ◌≡◌, Option, none, some, List, [], ◌∷◌, ◌++◌,
  if◌then◌else◌, ◌==◌, string_eq, codes,
}
use pqtrust_agent_artifact.Prelude.Result.{Result, ok, err, value_error, raise_if}
use pqtrust_agent_artifact.Prelude.Exec.{Exec, lift, gets, modify, raise_when, ◌>>=◌, ◌>>◌}
use pqtrust_agent_artifact.Protocol.Time.{DateTime, aware, require_proposal_active}
use pqtrust_agent_artifact.Protocol.Replay.{ReplayRegistry, register_session, register_commitment}
use pqtrust_agent_artifact.Protocol.Models.{
  Role, initiator, responder, role_eq, NegotiationProposal, NegotiationReveal, Crypto,
}

abbrev pub nonce_bytes : Crypto → NegotiationReveal → List ℕ
nonce_bytes c reveal = c.from_hex reveal.nonce_hex

-- The domain tag, a zero byte, the canonical proposal and the nonce, hashed.
unfoldable pub raw_commitment_hash : Crypto → List ℕ → List ℕ → String
raw_commitment_hash c proposal nonce =
    c.sha256_hex (codes "PQTrust.Commitment.v1" ++ (0 ∷ (proposal ++ nonce)))

unfoldable pub create_commitment : Crypto → NegotiationReveal → String
create_commitment c reveal =
    raw_commitment_hash c (c.proposal_bytes reveal.proposal) (nonce_bytes c reveal)

unfoldable pub verify_commitment : Crypto → String → NegotiationReveal → Bool
verify_commitment c commitment reveal = create_commitment c reveal == commitment

-- A dict keyed by the two roles.
pub record ByRole (A : Type 0) : Type 0 where
  pub for_initiator : Option A
  pub for_responder : Option A

abbrev pub of_role : {A : Type 0} → Role → ByRole A → Option A
of_role initiator d = d.for_initiator
of_role responder d = d.for_responder

abbrev pub set_role : {A : Type 0} → Role → A → ByRole A → ByRole A
set_role initiator a d = record d { for_initiator = some a }
set_role responder a d = record d { for_responder = some a }

abbrev pub is_some : {A : Type 0} → Option A → Bool
is_some none = false
is_some (some a) = true

-- `set(d) == {"initiator", "responder"}`
abbrev pub both : {A : Type 0} → ByRole A → Bool
both d = is_some d.for_initiator && is_some d.for_responder

pub record CommitRevealSession : Type 0 where
  pub session_id : String
  pub activation_time : DateTime
  pub replay_registry : Option ReplayRegistry
  pub commitments : ByRole String
  pub reveals : ByRole NegotiationReveal

-- A registry call on an optional registry: nothing happens where there is none.
abbrev pub on_registry :
    Exec ReplayRegistry (Unit {0})
    → Option ReplayRegistry
    → Result (Unit {0}) × Option ReplayRegistry
on_registry m none = (ok tt, none)
on_registry m (some registry) = let (r, registry') = m registry in (r, some registry')

-- `__init__`: the registry comes back also where it refuses the session.
unfoldable pub open_session :
    String → DateTime → Option ReplayRegistry → Result CommitRevealSession × Option ReplayRegistry
open_session session_id activation_time registry =
    let (r, registry') = on_registry (register_session session_id activation_time) registry in
    (
      elim r [
        | err e ↦ err e
        | ok _ ↦ ok (record {
          session_id = session_id;
          activation_time = activation_time;
          replay_registry = registry';
          commitments = record { for_initiator = none; for_responder = none };
          reveals = record { for_initiator = none; for_responder = none };
        })
      ],
      registry',
    )

-- The role that a string names.
abbrev pub parse_role : String → Result Role
parse_role role =
    if role == "initiator"
    then ok initiator
    else if role == "responder"
    then ok responder
    else err (value_error "role must be initiator or responder")

-- The call of the session's own registry, if it has one.
abbrev with_registry : Exec ReplayRegistry (Unit {0}) → Exec CommitRevealSession (Unit {0})
with_registry m s =
    let (r, registry') = on_registry m s.replay_registry in
    (r, record s { replay_registry = registry' })

unfoldable pub register_commitment_in : String → String → Exec CommitRevealSession (Unit {0})
register_commitment_in role commitment s =
    (do
      role ← lift (parse_role role)
      earlier ← gets (λ s. of_role role s.commitments)
      raise_when (is_some earlier) (value_error "commitment already registered")
      with_registry (register_commitment s.session_id commitment s.activation_time)
      modify (λ s. record s { commitments = set_role role commitment s.commitments }))
      s

-- `_validate_pair`, on the proposals of the two reveals
unfoldable pub validate_pair : NegotiationProposal → NegotiationProposal → Result (Unit {0})
validate_pair i r =
    let differ = λ (a b : String) (field : String) (rest : Result (Unit {0})).
      if not (a == b) then err (value_error field) else rest in
    if i.agent_role == r.agent_role
    then err (value_error "roles must be distinct")
    else if i.agent_id == r.agent_id
    then err (value_error "agent IDs must be distinct")
    else differ i.session_id r.session_id "session_id mismatch" (
        differ i.scenario_hash r.scenario_hash "scenario_hash mismatch" (
          differ i.task_hash r.task_hash "task_hash mismatch" (
            differ i.catalog_hash r.catalog_hash "catalog_hash mismatch" (
              differ i.cost_evidence_hash r.cost_evidence_hash "cost_evidence_hash mismatch"
                (ok tt)))))

abbrev validate_reveals : ByRole NegotiationReveal → Result (Unit {0})
validate_reveals d = elim d.for_initiator [
  | none ↦ ok tt
  | some i ↦ elim d.for_responder [ none ↦ ok tt | some r ↦ validate_pair i.proposal r.proposal ]
]

-- Whether the reveal matches the commitment of its role.
abbrev pub matches_commitment : Crypto → Option String → NegotiationReveal → Bool
matches_commitment c none reveal = false
matches_commitment c (some commitment) reveal = verify_commitment c commitment reveal

-- The reveal is stored before the pair is validated, and stays stored if that raises.
unfoldable pub accept_reveal :
    Crypto → NegotiationReveal → DateTime → Exec CommitRevealSession (Unit {0})
accept_reveal c reveal verification_time = do
  let role = reveal.proposal.agent_role
  s ← gets (λ s. s)
  raise_when (not (both s.commitments))
      (value_error "both commitments must be registered before reveal")
  raise_when (is_some (of_role role s.reveals)) (value_error "reveal already accepted")
  raise_when (not (reveal.proposal.session_id == s.session_id))
      (value_error "reveal session_id mismatch")
  raise_when (not (matches_commitment c (of_role role s.commitments) reveal))
      (value_error "reveal does not match commitment")
  lift (
      require_proposal_active (aware reveal.proposal.evaluation_time)
        (aware reveal.proposal.expires_at) verification_time)
  modify (λ s. record s { reveals = set_role role reveal s.reveals })
  reveals ← gets (λ s. s.reveals)
  lift (validate_reveals reveals)
