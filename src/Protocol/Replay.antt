-- ===== src/Protocol/Replay.antt =====
-- src/pqtrust_agent/protocol/replay.py: `InMemoryReplayRegistry`. A dict is an association list
-- and a set a list. The JSON file of `JsonFileReplayRegistry`, written after each call, is not
-- modelled.
pub mod Once
pub mod Lease
use pqtrust_agent_artifact.Prelude.{
  ℕ, String, Bool, true, false, not, Option, none, some, List, [], ◌∷◌, contains, keep, ltb,
  if◌then◌else◌, ◌==◌, string_eq,
}
use pqtrust_agent_artifact.Prelude.Result.{Result, ok, err, value_error}
use pqtrust_agent_artifact.Prelude.Exec.{Exec, lift, gets, modify, raise_when, ◌>>=◌, ◌>>◌}
use pqtrust_agent_artifact.Protocol.Time.{
  DateTime, aware, require_utc_aware, require_contract_active,
}

pub record ContractEntry : Type 0 where
  pub contract_hash : String
  pub session_id : String
  pub issued_at : ℕ
  pub expires_at : ℕ
  pub activation_time : ℕ

pub record ReplayRegistry : Type 0 where
  pub sessions : List String
  pub commitments : List (String × String)
  pub transcripts : List String
  pub contracts : List (String × ContractEntry)

abbrev pub empty : ReplayRegistry
empty = record { sessions = []; commitments = []; transcripts = []; contracts = [] }

module _ {V : Type 0} where
  -- `d.get(k)`
  unfoldable pub get : String → List (String × V) → Option V
  get k [] = none
  get k ((j, v) ∷ d) = if j == k then some v else get k d

  -- `d[k] = v`
  unfoldable pub put : String → V → List (String × V) → List (String × V)
  put k v [] = (k, v) ∷ []
  put k v ((j, w) ∷ d) = if j == k then (k, v) ∷ d else (j, w) ∷ put k v d

abbrev pub is_live : ℕ → String × ContractEntry → Bool
is_live reference (_, entry) = ltb reference entry.expires_at

-- Every registration first drops the contracts that have expired at its reference time.
unfoldable pub cleanup_expired_contracts : DateTime → Exec ReplayRegistry (Unit {0})
unfolding require_utc_aware
cleanup_expired_contracts reference_time = do
  reference ← lift (require_utc_aware reference_time)
  modify (λ s. record s { contracts = keep (is_live reference) s.contracts })

unfoldable pub register_session : String → DateTime → Exec ReplayRegistry (Unit {0})
register_session session_id reference_time = do
  cleanup_expired_contracts reference_time
  sessions ← gets (λ s. s.sessions)
  raise_when (contains session_id sessions) (value_error "replayed session ID")
  modify (λ s. record s { sessions = session_id ∷ s.sessions })

abbrev is_other : String → Option String → Bool
is_other session_id none = false
is_other session_id (some owner) = not (owner == session_id)

abbrev is_same : String → Option String → Bool
is_same session_id none = false
is_same session_id (some owner) = owner == session_id

unfoldable pub register_commitment : String → String → DateTime → Exec ReplayRegistry (Unit {0})
register_commitment session_id commitment reference_time = do
  cleanup_expired_contracts reference_time
  owner ← gets (λ s. get commitment s.commitments)
  raise_when (is_other session_id owner) (value_error "replayed commitment in different session")
  raise_when (is_same session_id owner) (value_error "duplicate commitment")
  modify (λ s. record s { commitments = put commitment session_id s.commitments })

-- The session identifier is dropped by the source too.
unfoldable pub register_transcript : String → String → DateTime → Exec ReplayRegistry (Unit {0})
register_transcript session_id transcript_hash reference_time = do
  cleanup_expired_contracts reference_time
  transcripts ← gets (λ s. s.transcripts)
  raise_when (contains transcript_hash transcripts) (value_error "duplicate transcript hash")
  modify (λ s. record s { transcripts = transcript_hash ∷ s.transcripts })

abbrev pub is_active : ℕ → Option ContractEntry → Bool
is_active activation none = false
is_active activation (some entry) = ltb activation entry.expires_at

unfoldable pub register_contract :
    (contract_id contract_hash session_id : String) (issued_at expires_at : ℕ)
    → DateTime
    → Exec ReplayRegistry (Unit {0})
register_contract contract_id contract_hash session_id issued_at expires_at activation_time = do
  activation ← lift (require_contract_active (aware issued_at) (aware expires_at) activation_time)
  cleanup_expired_contracts (aware activation)
  existing ← gets (λ s. get contract_id s.contracts)
  raise_when (is_active activation existing) (value_error "duplicate active contract ID")
  modify (λ s. record s {
    contracts =
        put contract_id
          (record {
            contract_hash = contract_hash;
            session_id = session_id;
            issued_at = issued_at;
            expires_at = expires_at;
            activation_time = activation;
          })
          s.contracts;
  })

-- A call of the registry, for sequences of calls.
pub data Call : Type 0 where
  session : String → DateTime → Call
  commitment : String → String → DateTime → Call
  transcript : String → String → DateTime → Call
  contract : (id hash session_id : String) (issued_at expires_at : ℕ) → DateTime → Call

pub perform : Call → Exec ReplayRegistry (Unit {0})
perform (session s t) = register_session s t
perform (commitment s c t) = register_commitment s c t
perform (transcript s h t) = register_transcript s h t
perform (contract i h s a b t) = register_contract i h s a b t

-- The registry after a sequence of calls, whether each returned or raised.
pub after : List Call → ReplayRegistry → ReplayRegistry
after [] s = s
after (c ∷ cs) s = after cs (perform c s).1
