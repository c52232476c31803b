-- ===== src/Transport/Sequence/Order.antt =====
-- Frames are accepted in the order of their numbers, each once.
use pqtrust_agent_artifact.Prelude.{
  ℕ, suc, true, false, List, [], ◌∷◌, ◌≡◌, ◌↔◌, contains, all, ltb, nat_eq, nat_beq_iff, refl,
  arith, ◌==◌, if◌then◌else◌,
}
use pqtrust_agent_artifact.Prelude.Result.{ok}
use pqtrust_agent_artifact.Transport.Sequence.{SequenceValidator, new_validator, observe, observed}

-- Every number seen is below the next one.
abbrev IsValid : SequenceValidator → Type 0
IsValid v = all (λ n. ltb n v.next) v.seen ≡ true

below_suc :
    (k : ℕ) (ns : List ℕ) → all (λ n. ltb n k) ns ≡ true → all (λ n. ltb n (suc k)) ns ≡ true
below_suc k [] h = refl
below_suc k (n ∷ ns) h = ground (arith, below_suc k ns)

not_seen : (k : ℕ) (ns : List ℕ) → all (λ n. ltb n k) ns ≡ true → contains k ns ≡ false
not_seen k [] h = refl
not_seen k (n ∷ ns) h = ground (arith, nat_beq_iff k n, not_seen k ns)

observe-IsValid : (n : ℕ) (v : SequenceValidator) → IsValid v → IsValid (observe n v).1
unfolding observe
observe-IsValid n v h = ground (arith, nat_beq_iff n v.next, below_suc v.next v.seen h)

observed-IsValid : (ns : List ℕ) (v : SequenceValidator) → IsValid v → IsValid (observed ns v)
unfolding observed
observed-IsValid [] v h = h
observed-IsValid (n ∷ ns) v h = observed-IsValid ns (observe n v).1 (observe-IsValid n v h)

observe_iff_of :
    (n : ℕ) (v : SequenceValidator) → IsValid v → ((observe n v).0 ≡ ok tt) ↔ (n ≡ v.next)
unfolding observe
observe_iff_of n v h = (
  (λ e. ground (arith, nat_beq_iff n v.next)),
  (λ e. ground (arith, nat_beq_iff n v.next, not_seen v.next v.seen h)),
)

observe_advances :
    (n : ℕ) (v : SequenceValidator)
    → IsValid v
    → (observe n v).1.next ≡ (if n == v.next then suc v.next else v.next)
unfolding observe
observe_advances n v h = ground (arith, nat_beq_iff n v.next, not_seen v.next v.seen h)

-- After any frames, accepted or not, a new validator accepts a frame exactly when the frame has the
-- next number, and that number advances by one on such a frame and stays on any other.
pub observe_next :
    (ns : List ℕ) (n : ℕ)
    → (((observe n (observed ns new_validator)).0 ≡ ok tt) ↔ (n ≡ (observed ns new_validator).next))
      × ((observe n (observed ns new_validator)).1.next ≡ (
          if n == (observed ns new_validator).next
          then suc (observed ns new_validator).next
          else (observed ns new_validator).next))
observe_next ns n =
    let v = observed-IsValid ns new_validator refl in
    (
      observe_iff_of n (observed ns new_validator) v,
      observe_advances n (observed ns new_validator) v,
    )
