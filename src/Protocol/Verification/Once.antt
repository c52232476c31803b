-- ===== src/Protocol/Verification/Once.antt =====
-- An accepted contract's identifier is accepted once within its lease.
use pqtrust_agent_artifact.Prelude.{ℕ, ◌<◌, List, some, ◌≡◌, ◌≢◌, arith, ap}
use pqtrust_agent_artifact.Prelude.Lists.{All}
use pqtrust_agent_artifact.Prelude.Result.{Result, ok}
use pqtrust_agent_artifact.Protocol.Time.{DateTime, aware, require_contract_active_iff}
use pqtrust_agent_artifact.Protocol.Models.{
  ProfileCatalog, NegotiationTranscript, SelectionSummary, SignedTrustContract, Crypto,
}
use pqtrust_agent_artifact.Protocol.Replay.{ReplayRegistry, register_contract, Call, after}
use pqtrust_agent_artifact.Protocol.Replay.Lease.{Before, register_contract_once}
use pqtrust_agent_artifact.Protocol.Verification.{ExpectedKey, verify_signed_contract}
use pqtrust_agent_artifact.Protocol.Verification.Accepted.{verify_signed_contract-IsAccepted}

module _ (c : Crypto) (signed : SignedTrustContract) (t : NegotiationTranscript)
    (selection : SelectionSummary) (catalog : ProfileCatalog) (keys : List ExpectedKey)
    (now : DateTime) where
  -- An accepted contract is the last one registered.
  registered :
      (s s' : ReplayRegistry)
      → verify_signed_contract c signed t selection catalog keys now (some s) ≡ (ok tt, some s')
      → register_contract signed.unsigned_contract.contract_id signed.signed_contract_hash
          signed.unsigned_contract.session_id signed.unsigned_contract.issued_at
          signed.unsigned_contract.expires_at now s
        ≡ (ok tt, s')
  unfolding verify_signed_contract
  registered s s' h = ground arith

  -- What was registered by a verification that returned.
  registered_ok :
      (s : ReplayRegistry)
      → (verify_signed_contract c signed t selection catalog keys now (some s)).0 ≡ ok tt
      → (register_contract signed.unsigned_contract.contract_id signed.signed_contract_hash
          signed.unsigned_contract.session_id signed.unsigned_contract.issued_at
          signed.unsigned_contract.expires_at now s).0
        ≡ ok tt
  unfolding verify_signed_contract
  registered_ok s h = ground arith

-- After a contract is accepted against a registry, no verification of a contract with the same
-- identifier, whatever its transcript, selection, catalog and keys, is accepted against that
-- registry at a time before the first one's expiry. Between the two may come any calls of the
-- registry whose reference times are before that expiry.
pub verify_signed_contract_once :
    (c : Crypto) (signed signed' : SignedTrustContract) (t t' : NegotiationTranscript)
    (selection selection' : SelectionSummary) (catalog catalog' : ProfileCatalog)
    (keys keys' : List ExpectedKey) (now : DateTime) (now' : ℕ) (s s1 : ReplayRegistry)
    (cs : List Call)
    → verify_signed_contract c signed t selection catalog keys now (some s) ≡ (ok tt, some s1)
    → All (Before signed.unsigned_contract.expires_at) cs
    → now' < signed.unsigned_contract.expires_at
    → signed'.unsigned_contract.contract_id ≡ signed.unsigned_contract.contract_id
    → (verify_signed_contract c signed' t' selection' catalog' keys'
        (aware now')
        (some (after cs s1))).0
      ≢ ok tt
verify_signed_contract_once c signed signed' t t' selection selection' catalog catalog' keys keys'
      now now' s s1 cs h before lt same h' =
    let u = signed.unsigned_contract in
    let u' = signed'.unsigned_contract in
    let first = registered c signed t selection catalog keys now s s1 h in
    let (a, active) =
      (verify_signed_contract-IsAccepted c signed' t' selection' catalog' keys' (aware now') _
        h').active in
    let (le, lt', _) = (require_contract_active_iff u'.issued_at u'.expires_at now' a).0 active in
    let second =
      registered_ok c signed' t' selection' catalog' keys' (aware now') (after cs s1) h' in
    let refused =
      register_contract_once s u.contract_id signed.signed_contract_hash
        signed'.signed_contract_hash u.session_id u'.session_id u.issued_at u.expires_at
        u'.issued_at u'.expires_at now cs now' (λ i. (first i).0) before lt le lt' in
    let state = ap (λ (p : Result (Unit {0}) × ReplayRegistry). p.1) first in cc
