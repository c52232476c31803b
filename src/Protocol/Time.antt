-- ===== src/Protocol/Time.antt =====
-- src/pqtrust_agent/protocol/time.py. A datetime is an instant in microseconds, with or without a
-- timezone; an instant in a model's field has been normalized to UTC by its validator.
use pqtrust_agent_artifact.Prelude.{ℕ, ◌≡◌, ◌≤◌, ◌<◌, ◌↔◌, ltb, leb, arith}
use pqtrust_agent_artifact.Prelude.Result.{
  Result, ok, err, protocol_time_error, ◌>>=◌, ◌>>◌, raise_if,
}

pub data DateTime : Type 0 where
  naive aware : ℕ → DateTime

unfoldable pub require_utc_aware : DateTime → Result ℕ
require_utc_aware (naive t) = err (protocol_time_error "TIMEZONE_NAIVE")
require_utc_aware (aware t) = ok t

unfoldable pub validate_time_interval : DateTime → DateTime → Result (ℕ × ℕ)
unfolding require_utc_aware
validate_time_interval issued_at expires_at = do
  issued ← require_utc_aware issued_at
  expires ← require_utc_aware expires_at
  raise_if (leb expires issued) (protocol_time_error "INVALID_TIME_INTERVAL")
  ok (issued, expires)

unfoldable pub require_contract_active : DateTime → DateTime → DateTime → Result ℕ
unfolding validate_time_interval
require_contract_active issued_at expires_at activation_time = do
  (issued, expires) ← validate_time_interval issued_at expires_at
  activation ← require_utc_aware activation_time
  raise_if (ltb activation issued) (protocol_time_error "CONTRACT_NOT_YET_VALID")
  raise_if (leb expires activation) (protocol_time_error "CONTRACT_EXPIRED")
  ok activation

unfoldable pub require_proposal_active : DateTime → DateTime → DateTime → Result ℕ
unfolding validate_time_interval
require_proposal_active evaluation_time expires_at verification_time = do
  (start, expires) ← validate_time_interval evaluation_time expires_at
  verification ← require_utc_aware verification_time
  raise_if (ltb verification start) (protocol_time_error "CONTRACT_NOT_YET_VALID")
  raise_if (leb expires verification) (protocol_time_error "PROPOSAL_EXPIRED")
  ok verification

-- On aware times the contract check passes exactly within the lease, which includes the time of
-- issue and excludes the time of expiry, and it returns the activation time.
pub require_contract_active_iff :
    (issued expires activation : ℕ) (t : ℕ)
    → (require_contract_active (aware issued) (aware expires) (aware activation) ≡ ok t)
      ↔ ((issued ≤ activation) × (activation < expires) × (t ≡ activation))
unfolding require_contract_active
require_contract_active_iff issued expires activation t =
    (λ h. (ground arith, ground arith, ground arith), λ h. ground arith)

-- On aware times the proposal check passes exactly from the evaluation time on and before the time of
-- expiry, and it returns the verification time.
pub require_proposal_active_iff :
    (start expires verification : ℕ) (t : ℕ)
    → (require_proposal_active (aware start) (aware expires) (aware verification) ≡ ok t)
      ↔ ((start ≤ verification) × (verification < expires) × (t ≡ verification))
unfolding require_proposal_active
require_proposal_active_iff start expires verification t =
    (λ h. (ground arith, ground arith, ground arith), λ h. ground arith)
