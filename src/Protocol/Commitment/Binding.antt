-- ===== src/Protocol/Commitment/Binding.antt =====
-- A commitment binds its author to one proposal and nonce.
use pqtrust_agent_artifact.Prelude.{
  ℕ, ◌+◌, ◌≡◌, refl, ap, List, [], ◌∷◌, ◌++◌, length, arith, codes,
}
use pqtrust_agent_artifact.Protocol.Models.{NegotiationReveal, Crypto}
use pqtrust_agent_artifact.Protocol.Commitment.{nonce_bytes, raw_commitment_hash, create_commitment}

length-append : (xs ys : List ℕ) → length (xs ++ ys) ≡ length xs + length ys
length-append [] ys = omega arith
length-append (x ∷ xs) ys = omega (arith, length-append xs ys)

-- Two concatenations that are equal split alike where their second parts are equally long.
append_split :
    (xs ys us vs : List ℕ) → xs ++ ys ≡ us ++ vs → length ys ≡ length vs → (xs ≡ us) × (ys ≡ vs)
append_split [] ys [] vs e l = (refl, e)
append_split [] ys (u ∷ us) vs e l =
    absurd (omega (arith, ap (length {A = ℕ}) e, length-append us vs))
append_split (x ∷ xs) ys [] vs e l =
    absurd (omega (arith, ap (length {A = ℕ}) e, length-append xs ys))
append_split (x ∷ xs) ys (u ∷ us) vs e l =
    let (h, t) = append_split xs ys us vs (cc) l in (ground arith, t)

append_cancel : (xs ys zs : List ℕ) → xs ++ ys ≡ xs ++ zs → ys ≡ zs
append_cancel [] ys zs e = e
append_cancel (x ∷ xs) ys zs e = append_cancel xs ys zs (cc)

cons_tail : (x : ℕ) (xs ys : List ℕ) → x ∷ xs ≡ x ∷ ys → xs ≡ ys
cons_tail x xs ys e = cc

-- SHA-256 taken to have no collisions.
abbrev pub HasNoCollisions : Crypto → Type 0
HasNoCollisions c = (a b : List ℕ) → c.sha256_hex a ≡ c.sha256_hex b → a ≡ b

-- If the hash has no collisions, two reveals with nonces of the same length that have the same
-- commitment have the same canonical proposal and the same nonce.
pub create_commitment_binding :
    (c : Crypto) (a b : NegotiationReveal)
    → HasNoCollisions c
    → length (nonce_bytes c a) ≡ length (nonce_bytes c b)
    → create_commitment c a ≡ create_commitment c b
    → (c.proposal_bytes a.proposal ≡ c.proposal_bytes b.proposal)
      × (nonce_bytes c a ≡ nonce_bytes c b)
unfolding create_commitment raw_commitment_hash
create_commitment_binding c a b inj l e =
    append_split (c.proposal_bytes a.proposal) (nonce_bytes c a) (c.proposal_bytes b.proposal)
      (nonce_bytes c b)
      (cons_tail 0 _ _ (append_cancel (codes "PQTrust.Commitment.v1") _ _ (inj _ _ e))) l
