-- ===== src/Tests/Registry.antt =====
-- Witnesses of the theorems on times and the replay registry.
use pqtrust_agent_artifact.Prelude.{
  ℕ, String, List, [], ◌∷◌, ◌≡◌, ◌≤◌, ◌<◌, ◌↔◌, All, refl, arith, if◌then◌else◌, ◌==◌, string_eq,
}
use pqtrust_agent_artifact.Prelude.Result.{ok, err, value_error}
use pqtrust_agent_artifact.Protocol.Time.{
  aware, require_contract_active, require_proposal_active, require_contract_active_iff,
  require_proposal_active_iff,
}
use pqtrust_agent_artifact.Protocol.Replay.{
  empty, Call, session, commitment, transcript, contract, after, register_session,
  register_commitment, register_transcript, register_contract, cleanup_expired_contracts, get,
}
use pqtrust_agent_artifact.Protocol.Replay.Once.{
  register_session_once, register_commitment_once, register_transcript_once,
}
use pqtrust_agent_artifact.Protocol.Replay.Lease.{Before, register_contract_once}

require_contract_active_iff_example :
    (require_contract_active (aware 10) (aware 20) (aware 10) ≡ ok 10)
    ↔ ((10 ≤ 10) × (10 < 20) × (◌≡◌ {A = ℕ} 10 10))
require_contract_active_iff_example = require_contract_active_iff 10 20 10 10

require_proposal_active_iff_example :
    (require_proposal_active (aware 10) (aware 20) (aware 20) ≡ ok 20)
    ↔ ((10 ≤ 20) × (20 < 20) × (◌≡◌ {A = ℕ} 20 20))
require_proposal_active_iff_example = require_proposal_active_iff 10 20 20 20

abbrev calls : List Call
calls =
    commitment "s2" "c2" (aware 3)
    ∷ contract "k2" "h2" "s2" 3 30 (aware 4)
    ∷ transcript "s2" "t2" (aware 5)
    ∷ session "s2" (aware 6)
    ∷ []

session_registered : (register_session "s1" (aware 1) empty).0 ≡ ok tt
unfolding register_session cleanup_expired_contracts
session_registered = refl

register_session_once_example :
    (register_session "s1" (aware 7) (after calls (register_session "s1" (aware 1) empty).1)).0
    ≡ err (value_error "replayed session ID")
register_session_once_example =
    register_session_once empty "s1" (aware 1) calls 7 session_registered

commitment_registered : (register_commitment "s1" "c1" (aware 1) empty).0 ≡ ok tt
unfolding register_commitment cleanup_expired_contracts get
commitment_registered = refl

register_commitment_once_example :
    (register_commitment "s2" "c1"
      (aware 7)
      (after calls (register_commitment "s1" "c1" (aware 1) empty).1)).0
    ≡ err (
        value_error (
          if ◌==◌ {T = String} "s1" "s2"
          then "duplicate commitment"
          else "replayed commitment in different session"))
register_commitment_once_example =
    register_commitment_once empty "s1" "s2" "c1" (aware 1) calls 7 commitment_registered

transcript_registered : (register_transcript "s1" "t1" (aware 1) empty).0 ≡ ok tt
unfolding register_transcript cleanup_expired_contracts
transcript_registered = refl

register_transcript_once_example :
    (register_transcript "s2" "t1"
      (aware 7)
      (after calls (register_transcript "s1" "t1" (aware 1) empty).1)).0
    ≡ err (value_error "duplicate transcript hash")
register_transcript_once_example =
    register_transcript_once empty "s1" "s2" "t1" (aware 1) calls 7 transcript_registered

contract_registered : (register_contract "k1" "h1" "s1" 1 20 (aware 2) empty).0 ≡ ok tt
unfolding register_contract cleanup_expired_contracts require_contract_active get
contract_registered = refl

calls-Before : All (Before 20) calls
calls-Before = (omega arith, (omega arith, (omega arith, (omega arith, tt))))

register_contract_once_example :
    (register_contract "k1" "h2" "s2" 2 40
      (aware 7)
      (after calls (register_contract "k1" "h1" "s1" 1 20 (aware 2) empty).1)).0
    ≡ err (value_error "duplicate active contract ID")
register_contract_once_example =
    register_contract_once empty "k1" "h1" "h2" "s1" "s2" 1 20 2 40 (aware 2) calls 7
      contract_registered calls-Before (omega arith) (omega arith) (omega arith)
