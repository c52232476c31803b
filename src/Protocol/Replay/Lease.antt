-- ===== src/Protocol/Replay/Lease.antt =====
-- A contract identifier cannot be registered twice within its lease, while the clock that the calls
-- report has not passed the lease's end.
use pqtrust_agent_artifact.Prelude.{
  ℕ, ◌≡◌, ◌<◌, String, Bool, true, false, Option, none, some, List, [], ◌∷◌, keep, All, leb, ◌≤◌,
  eq_iff, arith, string_eq,
}
use pqtrust_agent_artifact.Prelude.Result.{ok, err, value_error}
use pqtrust_agent_artifact.Protocol.Time.{DateTime, aware, naive, require_contract_active}
use pqtrust_agent_artifact.Protocol.Replay.{
  ContractEntry, ReplayRegistry, get, is_live, register_session, register_commitment,
  register_transcript, register_contract, cleanup_expired_contracts, Call, session, commitment,
  transcript, contract, perform, after,
}
use pqtrust_agent_artifact.Protocol.Replay.Once.{get-put}

-- An entry for `id` that expires at `e` or later stands in the registry.
abbrev pub holds_until : ℕ → Option ContractEntry → Bool
holds_until e none = false
holds_until e (some entry) = leb e entry.expires_at

get-keep :
    (id : String) (e now : ℕ) (d : List (String × ContractEntry))
    → now < e
    → holds_until e (get id d) ≡ true
    → holds_until e (get id (keep (is_live now) d)) ≡ true
unfolding get
get-keep id e now [] lt h = h
get-keep id e now ((j, entry) ∷ d) lt h = ground (arith, get-keep id e now d lt)

-- The reference time of a call is aware and before `e`.
abbrev pub Before : ℕ → Call → Type 0
Before e (session s (aware t)) = t < e
Before e (commitment s c (aware t)) = t < e
Before e (transcript s h (aware t)) = t < e
Before e (contract i h s a b (aware t)) = t < e
Before e _ = Unit

perform-holds :
    (s : ReplayRegistry) (c : Call) (id : String) (e : ℕ)
    → Before e c
    → holds_until e (get id s.contracts) ≡ true
    → holds_until e (get id (perform c s).1.contracts) ≡ true
unfolding perform register_session register_commitment register_transcript register_contract
    cleanup_expired_contracts require_contract_active
perform-holds s (session x (aware t)) id e b h = ground (arith, get-keep id e t s.contracts)
perform-holds s (session x (naive t)) id e b h = h
perform-holds s (commitment i x (aware t)) id e b h = ground (arith, get-keep id e t s.contracts)
perform-holds s (commitment i x (naive t)) id e b h = h
perform-holds s (transcript i x (aware t)) id e b h = ground (arith, get-keep id e t s.contracts)
perform-holds s (transcript i x (naive t)) id e b h = h
perform-holds s (contract i k n a z (naive t)) id e b h = ground arith
perform-holds s (contract i k n a z (aware t)) id e b h = ground (
  arith,
  get-keep id e t s.contracts,
  eq_iff i id,
  get-put i id
      (record {
        contract_hash = k;
        session_id = n;
        issued_at = a;
        expires_at = z;
        activation_time = t;
      })
      (keep (is_live t) s.contracts),
)

after-holds :
    (cs : List Call) (s : ReplayRegistry) (id : String) (e : ℕ)
    → All (Before e) cs
    → holds_until e (get id s.contracts) ≡ true
    → holds_until e (get id (after cs s).contracts) ≡ true
unfolding after
after-holds [] s id e b h = h
after-holds (c ∷ cs) s id e b h =
    after-holds cs (perform c s).1 id e b.1 (perform-holds s c id e b.0 h)

contract_added :
    (s : ReplayRegistry) (id k n : String) (a z : ℕ) (t : DateTime)
    → (register_contract id k n a z t s).0 ≡ ok tt
    → holds_until z (get id (register_contract id k n a z t s).1.contracts) ≡ true
unfolding register_contract cleanup_expired_contracts require_contract_active
contract_added s id k n a z (naive t) h = ground arith
contract_added s id k n a z (aware t) h = ground (
  arith,
  eq_iff id id,
  get-put id id
      (record {
        contract_hash = k;
        session_id = n;
        issued_at = a;
        expires_at = z;
        activation_time = t;
      })
      (keep (is_live t) s.contracts),
)

contract_refused :
    (s : ReplayRegistry) (id k n : String) (a z e t : ℕ)
    → a ≤ t
    → t < z
    → t < e
    → holds_until e (get id s.contracts) ≡ true
    → (register_contract id k n a z (aware t) s).0
      ≡ err (value_error "duplicate active contract ID")
unfolding register_contract cleanup_expired_contracts require_contract_active
contract_refused s id k n a z e t le lt before h = ground (arith, get-keep id e t s.contracts)

-- After a contract with expiry `z` is registered, a registration of the same identifier that is
-- itself within its own lease, at a time before `z`, is refused as a duplicate. Between them may
-- come any calls whose reference times are before `z`.
pub register_contract_once :
    (s : ReplayRegistry) (id k k' n n' : String) (a z a' z' : ℕ) (t : DateTime) (cs : List Call)
    (t' : ℕ)
    → (register_contract id k n a z t s).0 ≡ ok tt
    → All (Before z) cs
    → t' < z
    → a' ≤ t'
    → t' < z'
    → (register_contract id k' n' a' z'
        (aware t')
        (after cs (register_contract id k n a z t s).1)).0
      ≡ err (value_error "duplicate active contract ID")
register_contract_once s id k k' n n' a z a' z' t cs t' h b lt le lt' =
    contract_refused _ id k' n' a' z' z t' le lt' lt
      (after-holds cs _ id z b (contract_added s id k n a z t h))
