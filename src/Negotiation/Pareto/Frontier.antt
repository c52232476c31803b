-- ===== src/Negotiation/Pareto/Frontier.antt =====
-- The frontier is exactly the undominated candidates, and it covers every candidate.
use pqtrust_agent_artifact.Prelude.{
  ℕ, zero, suc, ◌<◌, ◌≡◌, refl, String, Bool, true, false, not, ◌&&◌, List, [], ◌∷◌, map, length,
  nonempty, keep, any, contains, contains-keep, contains_of_any, length-keep-lt, ◌==◌, eq_iff,
  Bool-cases, inl, inr, arith, string_eq,
}
use pqtrust_agent_artifact.Negotiation.Decimals.{Decimals, Laws}
use pqtrust_agent_artifact.Negotiation.Cost.{CostVector}
use pqtrust_agent_artifact.Negotiation.Pareto.{dominates, dominators_of, removed_of, pareto_filter}
use pqtrust_agent_artifact.Negotiation.Pareto.Dominance.{dominates_irrefl, dominates_trans}

module _ (D : Decimals) (L : Laws D) (raw_vectors : String → CostVector D.Decimal) where
  -- `other` costs less than `p` in the sense of dominance.
  abbrev pub beats : String → String → Bool
  beats other p = (dominates D (raw_vectors other) (raw_vectors p)).0

  beats_self : (o p : String) → (o == p) ≡ true → beats o p ≡ false
  beats_self o p h = rw ((eq_iff o p).0 h) (dominates_irrefl D L (raw_vectors p))

  nonempty-dominators_of :
      (p : String) (ids : List String)
      → nonempty (dominators_of D raw_vectors p ids) ≡ any (λ o. beats o p) ids
  unfolding dominators_of
  nonempty-dominators_of p [] = refl
  nonempty-dominators_of p (o ∷ os) = ground (arith, beats_self o p, nonempty-dominators_of p os)

  contains-removed_of :
      (p : String) (all_ids ids : List String)
      → contains p (map (λ e. e.0) (removed_of D raw_vectors all_ids ids))
        ≡ (contains p ids && any (λ o. beats o p) all_ids)
  unfolding removed_of
  contains-removed_of p all_ids [] = refl
  contains-removed_of p all_ids (i ∷ ids) =
      ground
        (arith, eq_iff p i, nonempty-dominators_of i all_ids, contains-removed_of p all_ids ids)

  -- A profile is on the frontier exactly when it is a candidate that no candidate dominates.
  pub pareto_filter-frontier :
      (p : String) (ids : List String)
      → contains p (pareto_filter D raw_vectors ids).0
        ≡ (contains p ids && not (any (λ o. beats o p) ids))
  unfolding pareto_filter
  pareto_filter-frontier p ids = ground (
    arith,
    contains-keep (λ q. not (contains q (map (λ e. e.0) (removed_of D raw_vectors ids ids)))) p ids,
    contains-removed_of p ids ids,
  )

  beats_trans : (a b c : String) → beats a b ≡ true → beats b c ≡ true → beats a c ≡ true
  beats_trans a b c = dominates_trans D L (raw_vectors a) (raw_vectors b) (raw_vectors c)

  -- How many candidates dominate `p`.
  abbrev rivals : List String → String → ℕ
  rivals ids p = length (keep (λ o. beats o p) ids)

  rivals_fall :
      (ids : List String) (o p : String)
      → contains o ids ≡ true
      → beats o p ≡ true
      → rivals ids o < rivals ids p
  rivals_fall ids o p m h =
      length-keep-lt (λ x. beats x o) (λ x. beats x p) o ids (λ x k. beats_trans x o p k h) m h
        (dominates_irrefl D L (raw_vectors o))

  climb :
      (fuel : ℕ) (ids : List String) (p : String)
      → rivals ids p < fuel
      → contains p ids ≡ true
      → any (λ o. beats o p) ids ≡ true
      → (f : String) × (contains f (pareto_filter D raw_vectors ids).0 ≡ true) × (beats f p ≡ true)
  climb zero ids p lt m h = absurd (omega arith)
  climb (suc fuel) ids p lt m h =
      let (o, mo, ho) = contains_of_any (λ x. beats x p) ids h in
      elim (Bool-cases (any (λ x. beats x o) ids)) [
        | inl beaten ↦
            let fall = rivals_fall ids o p mo ho in
            let (f, mf, hf) = climb fuel ids o (omega arith) mo beaten in
            (f, mf, beats_trans f o p hf ho)
        | inr free ↦ (o, ground (arith, pareto_filter-frontier o ids), ho)
      ]

  -- Every candidate that the filter removes is dominated by a profile of the frontier.
  pub pareto_filter-covers :
      (ids : List String) (p : String)
      → contains p ids ≡ true
      → contains p (pareto_filter D raw_vectors ids).0 ≡ false
      → (f : String) × (contains f (pareto_filter D raw_vectors ids).0 ≡ true) × (beats f p ≡ true)
  pareto_filter-covers ids p m out =
      climb (suc (rivals ids p)) ids p (omega arith) m
        (ground (arith, pareto_filter-frontier p ids))

  nonempty_of_contains : (p : String) (xs : List String) → contains p xs ≡ true → nonempty xs ≡ true
  nonempty_of_contains p [] h = h
  nonempty_of_contains p (x ∷ xs) h = refl

  -- The frontier of a nonempty set of candidates is nonempty.
  pub nonempty-pareto_filter :
      (ids : List String)
      → nonempty ids ≡ true
      → nonempty (pareto_filter D raw_vectors ids).0 ≡ true
  nonempty-pareto_filter [] h = cc
  nonempty-pareto_filter (i ∷ ids) h =
      let kept = contains i (pareto_filter D raw_vectors (i ∷ ids)).0 in
      elim (Bool-cases kept) [
        | inl stays ↦ nonempty_of_contains i _ stays
        | inr out ↦
            let (f, m, _) = pareto_filter-covers (i ∷ ids) i (ground (arith, eq_iff i i)) out in
            nonempty_of_contains f _ m
      ]
