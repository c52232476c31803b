-- ===== src/Protocol/Replay/Once.antt =====
-- What a registry has accepted stays accepted: no sequence of calls makes it accept the same
-- session, commitment or transcript again.
use pqtrust_agent_artifact.Prelude.{
  ℕ, ◌≡◌, refl, String, true, some, List, [], ◌∷◌, contains, ◌==◌, if◌then◌else◌, eq_iff, arith,
  string_eq,
}
use pqtrust_agent_artifact.Prelude.Result.{ok, err, value_error}
use pqtrust_agent_artifact.Protocol.Time.{DateTime, aware}
use pqtrust_agent_artifact.Protocol.Replay.{
  ReplayRegistry, get, put, register_session, register_commitment, register_transcript,
  register_contract, cleanup_expired_contracts, Call, session, commitment, transcript, contract,
  perform, after,
}

module _ {V : Type 0} where
  pub get-put :
      (k j : String) (v : V) (d : List (String × V))
      → get j (put k v d) ≡ (if k == j then some v else get j d)
  unfolding get put
  get-put k j v [] = refl
  get-put k j v ((i, w) ∷ d) = ground (arith, eq_iff k j, eq_iff i k, eq_iff i j, get-put k j v d)

perform-sessions :
    (s : ReplayRegistry) (c : Call) (x : String)
    → contains x s.sessions ≡ true
    → contains x (perform c s).1.sessions ≡ true
unfolding perform register_session register_commitment register_transcript register_contract
    cleanup_expired_contracts
perform-sessions s c x h = ground arith

perform-transcripts :
    (s : ReplayRegistry) (c : Call) (x : String)
    → contains x s.transcripts ≡ true
    → contains x (perform c s).1.transcripts ≡ true
unfolding perform register_session register_commitment register_transcript register_contract
    cleanup_expired_contracts
perform-transcripts s c x h = ground arith

perform-commitments :
    (s : ReplayRegistry) (c : Call) (x : String) {owner : String}
    → get x s.commitments ≡ some owner
    → get x (perform c s).1.commitments ≡ some owner
unfolding perform register_session register_commitment register_transcript register_contract
    cleanup_expired_contracts
perform-commitments s (session i t) x h = ground arith
perform-commitments s (transcript i k t) x h = ground arith
perform-commitments s (contract i k n a b t) x h = ground arith
perform-commitments s (commitment i c t) x h =
    ground (arith, get-put c x i s.commitments, eq_iff c x)

after-sessions :
    (cs : List Call) (s : ReplayRegistry) (x : String)
    → contains x s.sessions ≡ true
    → contains x (after cs s).sessions ≡ true
unfolding after
after-sessions [] s x h = h
after-sessions (c ∷ cs) s x h = after-sessions cs (perform c s).1 x (perform-sessions s c x h)

after-transcripts :
    (cs : List Call) (s : ReplayRegistry) (x : String)
    → contains x s.transcripts ≡ true
    → contains x (after cs s).transcripts ≡ true
unfolding after
after-transcripts [] s x h = h
after-transcripts (c ∷ cs) s x h =
    after-transcripts cs (perform c s).1 x (perform-transcripts s c x h)

after-commitments :
    (cs : List Call) (s : ReplayRegistry) (x : String) {owner : String}
    → get x s.commitments ≡ some owner
    → get x (after cs s).commitments ≡ some owner
unfolding after
after-commitments [] s x h = h
after-commitments (c ∷ cs) s x h =
    after-commitments cs (perform c s).1 x (perform-commitments s c x h)

session_added :
    (s : ReplayRegistry) (x : String) (t : DateTime)
    → (register_session x t s).0 ≡ ok tt
    → contains x (register_session x t s).1.sessions ≡ true
unfolding register_session cleanup_expired_contracts
session_added s x t h = ground (arith, eq_iff x x)

session_refused :
    (s : ReplayRegistry) (x : String) (t : ℕ)
    → contains x s.sessions ≡ true
    → (register_session x (aware t) s).0 ≡ err (value_error "replayed session ID")
unfolding register_session cleanup_expired_contracts
session_refused s x t h = ground arith

-- Once a session identifier is registered, every later registration of it at an aware time is
-- refused as a replay, whatever calls come between.
pub register_session_once :
    (s : ReplayRegistry) (x : String) (t : DateTime) (cs : List Call) (t' : ℕ)
    → (register_session x t s).0 ≡ ok tt
    → (register_session x (aware t') (after cs (register_session x t s).1)).0
      ≡ err (value_error "replayed session ID")
register_session_once s x t cs t' h =
    session_refused _ x t' (after-sessions cs (register_session x t s).1 x (session_added s x t h))

transcript_added :
    (s : ReplayRegistry) (i x : String) (t : DateTime)
    → (register_transcript i x t s).0 ≡ ok tt
    → contains x (register_transcript i x t s).1.transcripts ≡ true
unfolding register_transcript cleanup_expired_contracts
transcript_added s i x t h = ground (arith, eq_iff x x)

transcript_refused :
    (s : ReplayRegistry) (i x : String) (t : ℕ)
    → contains x s.transcripts ≡ true
    → (register_transcript i x (aware t) s).0 ≡ err (value_error "duplicate transcript hash")
unfolding register_transcript cleanup_expired_contracts
transcript_refused s i x t h = ground arith

-- Once a transcript hash is registered, every later registration of it at an aware time is
-- refused, for any session and whatever calls come between.
pub register_transcript_once :
    (s : ReplayRegistry) (i i' x : String) (t : DateTime) (cs : List Call) (t' : ℕ)
    → (register_transcript i x t s).0 ≡ ok tt
    → (register_transcript i' x (aware t') (after cs (register_transcript i x t s).1)).0
      ≡ err (value_error "duplicate transcript hash")
register_transcript_once s i i' x t cs t' h =
    transcript_refused _ i' x t'
      (after-transcripts cs (register_transcript i x t s).1 x (transcript_added s i x t h))

commitment_added :
    (s : ReplayRegistry) (i x : String) (t : DateTime)
    → (register_commitment i x t s).0 ≡ ok tt
    → get x (register_commitment i x t s).1.commitments ≡ some i
unfolding register_commitment cleanup_expired_contracts
commitment_added s i x t h = ground (arith, eq_iff x x, get-put x x i s.commitments)

commitment_refused :
    (s : ReplayRegistry) (i i' x : String) (t : ℕ)
    → get x s.commitments ≡ some i
    → (register_commitment i' x (aware t) s).0
      ≡ err (
          value_error (
            if i == i' then "duplicate commitment" else "replayed commitment in different session"))
unfolding register_commitment cleanup_expired_contracts
commitment_refused s i i' x t h = ground arith

-- Once a commitment is registered for a session, every later registration of it at an aware time
-- is refused, whatever calls come between: as a duplicate for the same session, and as a replay
-- for another one.
pub register_commitment_once :
    (s : ReplayRegistry) (i i' x : String) (t : DateTime) (cs : List Call) (t' : ℕ)
    → (register_commitment i x t s).0 ≡ ok tt
    → (register_commitment i' x (aware t') (after cs (register_commitment i x t s).1)).0
      ≡ err (
          value_error (
            if i == i' then "duplicate commitment" else "replayed commitment in different session"))
register_commitment_once s i i' x t cs t' h =
    commitment_refused _ i i' x t'
      (after-commitments cs (register_commitment i x t s).1 x (commitment_added s i x t h))
