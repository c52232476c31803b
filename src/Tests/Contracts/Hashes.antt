-- ===== src/Tests/Contracts/Hashes.antt =====
-- A hash without collisions, for the witness of the commitment's binding.
use Prim.Native.String.{String}
use pqtrust_agent_artifact.Prelude.{ℕ, zero, suc, List, [], ◌∷◌, ◌≡◌, refl, ap, sym}
use pqtrust_agent_artifact.Protocol.Models.{Crypto}
use pqtrust_agent_artifact.Protocol.Commitment.{nonce_bytes}
use pqtrust_agent_artifact.Protocol.Commitment.Binding.{create_commitment_binding}
use pqtrust_agent_artifact.Tests.Contracts.{crypto, initiator_reveal}

-- Each number in unary, with a mark after it.
abbrev unary : ℕ → String → String
unary zero s = String.◌∷◌ "\0" s
unary (suc n) s = String.◌∷◌ "\u{1}" (unary n s)

abbrev encode : List ℕ → String
encode [] = String.[]
encode (x ∷ xs) = unary x (encode xs)

unary_injective : (n m : ℕ) (s t : String) → unary n s ≡ unary m t → (n ≡ m) × (s ≡ t)
unary_injective zero zero s t h = (refl, cc)
unary_injective zero (suc m) s t h = cc
unary_injective (suc n) zero s t h = cc
unary_injective (suc n) (suc m) s t h = let (e, k) = unary_injective n m s t (cc) in (ap suc e, k)

empty_encode : (x : ℕ) (xs : List ℕ) → String.[] ≡ encode (x ∷ xs) → ⊥
empty_encode zero xs h = cc
empty_encode (suc x) xs h = cc

encode_injective : (xs ys : List ℕ) → encode xs ≡ encode ys → xs ≡ ys
encode_injective [] [] h = refl
encode_injective [] (y ∷ ys) h = absurd (empty_encode y ys h)
encode_injective (x ∷ xs) [] h = absurd (empty_encode x xs (sym h))
encode_injective (x ∷ xs) (y ∷ ys) h =
    let (e, k) = unary_injective x y (encode xs) (encode ys) h in
    let t = encode_injective xs ys k in cc

abbrev injective_crypto : Crypto
injective_crypto = record crypto { sha256_hex = encode }

create_commitment_binding_example :
    (injective_crypto.proposal_bytes initiator_reveal.proposal
      ≡ injective_crypto.proposal_bytes initiator_reveal.proposal)
    × (nonce_bytes injective_crypto initiator_reveal
        ≡ nonce_bytes injective_crypto initiator_reveal)
create_commitment_binding_example =
    create_commitment_binding injective_crypto initiator_reveal initiator_reveal encode_injective
      refl refl
