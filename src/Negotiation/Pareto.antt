-- ===== src/Negotiation/Pareto.antt =====
-- src/pqtrust_agent/negotiation/pareto.py. A dict keyed by profile identifiers is passed as its
-- lookup function: the selector builds it with an entry for every candidate.
pub mod Dominance
pub mod Frontier
use pqtrust_agent_artifact.Prelude.{
  String, Bool, true, false, not, ◌&&◌, List, [], ◌∷◌, ◌++◌, map, nonempty, keep, contains, ◌==◌,
  if◌then◌else◌, sort_by, string_leb, string_eq,
}
use pqtrust_agent_artifact.Negotiation.Decimals.{Decimals}
use pqtrust_agent_artifact.Negotiation.Cost.{MetricName, metrics, CostVector, at}

pub record DominationExplanation (A : Type 0) : Type 0 where
  pub profile_id : String
  pub dominating_profile_ids : List String
  pub dominated_dimensions : List (String × List MetricName)
  pub measured_values : List (String × CostVector A)

abbrev key_leb : {V : Type 0} → String × V → String × V → Bool
key_leb a b = string_leb a.0 b.0

module _ (D : Decimals) where
  open D use {Decimal, lt}

  -- The loop over the metrics, with the strict dimensions so far.
  unfoldable pub dominates_loop :
      CostVector Decimal
      → CostVector Decimal
      → List MetricName
      → List MetricName
      → Bool × List MetricName
  dominates_loop left right [] strict = (nonempty strict, strict)
  dominates_loop left right (m ∷ ms) strict =
      let rest =
        dominates_loop left right ms
          (if lt (at left m) (at right m) then strict ++ m ∷ [] else strict) in
      if lt (at right m) (at left m) then (false, []) else rest

  unfoldable pub dominates : CostVector Decimal → CostVector Decimal → Bool × List MetricName
  unfolding dominates_loop
  dominates left right = dominates_loop left right metrics []

  module _ (raw_vectors : String → CostVector Decimal) where
    -- The inner loop: who dominates a candidate, with the strict dimensions.
    unfoldable pub dominators_of : String → List String → List (String × List MetricName)
    dominators_of profile_id [] = []
    dominators_of profile_id (other ∷ others) =
        let rest = dominators_of profile_id others in
        let (is_dominated, strict) = dominates (raw_vectors other) (raw_vectors profile_id) in
        if not (other == profile_id) && is_dominated then (other, strict) ∷ rest else rest

    unfoldable pub explain :
        String → List (String × List MetricName) → DominationExplanation Decimal
    explain profile_id dominators = record {
      profile_id = profile_id;
      dominating_profile_ids = sort_by string_leb (map (λ d. d.0) dominators);
      dominated_dimensions = sort_by key_leb dominators;
      measured_values =
          sort_by key_leb
            ((profile_id, raw_vectors profile_id) ∷ map (λ d. (d.0, raw_vectors d.0)) dominators);
    }

    -- The outer loop over `profile_ids`, all of which are the candidates `all_ids`.
    unfoldable pub removed_of :
        List String → List String → List (String × DominationExplanation Decimal)
    removed_of all_ids [] = []
    removed_of all_ids (profile_id ∷ ids) =
        let rest = removed_of all_ids ids in
        let dominators = dominators_of profile_id all_ids in
        if nonempty dominators then (profile_id, explain profile_id dominators) ∷ rest else rest

    unfoldable pub pareto_filter :
        List String → List String × List (String × DominationExplanation Decimal)
    unfolding removed_of
    pareto_filter profile_ids =
        let removed = removed_of profile_ids profile_ids in
        (keep (λ p. not (contains p (map (λ e. e.0) removed))) profile_ids, sort_by key_leb removed)
