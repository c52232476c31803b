-- ===== src/Tests/Selection/Choices.antt =====
-- Witnesses of the theorems on the Pareto frontier, the regret choice and the selector.
use pqtrust_agent_artifact.Prelude.{
  ℕ, String, Bool, true, false, not, ◌&&◌, List, [], ◌∷◌, map, none, ◌≡◌, refl, contains, any, all,
  nonempty, string_eq, arith,
}
use pqtrust_agent_artifact.Prelude.Sort.{sort_by}
use pqtrust_agent_artifact.Prelude.Result.{Result, ok}
use pqtrust_agent_artifact.Negotiation.Cost.{CostVector, point, measured_vector}
use pqtrust_agent_artifact.Negotiation.Pareto.{
  pareto_filter, dominates, dominates_loop, dominators_of, removed_of, explain,
}
use pqtrust_agent_artifact.Negotiation.Pareto.Frontier.{
  beats, pareto_filter-frontier, pareto_filter-covers, nonempty-pareto_filter,
}
use pqtrust_agent_artifact.Negotiation.Normalization.{
  NormalizationAnchors, metric_anchor, compute_global_anchors, normalize_metric, normalize_vector,
}
use pqtrust_agent_artifact.Negotiation.Regret.{
  RegretRow, weighted_cost, regret_row, regret_loop, compute_regret_rows, keyed, row_leb,
  minimax_regret_select,
}
use pqtrust_agent_artifact.Negotiation.Regret.Rows.{
  IsMinimum, row, initiator_totals, responder_totals, compute_regret_rows_total,
}
use pqtrust_agent_artifact.Negotiation.Regret.Choice.{
  IsLeast, IsKeyed, minimax_regret_select-IsLeast, minimax_regret_select_order,
}
use pqtrust_agent_artifact.Negotiation.Selector.{
  BilateralSelectionResult, common_safe_set, classify_selection_mode, lookup, raw_vectors,
  frontier_candidate, dominated_candidate, candidate_evaluations, vector_of, prepare_vectors,
  choose, select_from_safe_set,
}
use pqtrust_agent_artifact.Negotiation.Selector.Safe.{IsBest, select_from_safe_set_safe}
use pqtrust_agent_artifact.Tests.Numbers.{integers, integers-Laws}
use pqtrust_agent_artifact.Tests.Selection.{raw, evidence, preference, selection_input}

abbrev ids : List String
ids = "p1" ∷ "p2" ∷ "p3" ∷ []

pareto_filter-frontier_example :
    contains "p2" (pareto_filter integers raw ids).0
    ≡ (contains "p2" ids && not (any (λ o. beats integers integers-Laws raw o "p2") ids))
pareto_filter-frontier_example = pareto_filter-frontier integers integers-Laws raw "p2" ids

p2_removed : contains "p2" (pareto_filter integers raw ids).0 ≡ false
unfolding pareto_filter removed_of dominators_of dominates dominates_loop explain
p2_removed = refl

pareto_filter-covers_example :
    (f : String) × (contains f (pareto_filter integers raw ids).0 ≡ true)
    × (beats integers integers-Laws raw f "p2" ≡ true)
pareto_filter-covers_example =
    pareto_filter-covers integers integers-Laws raw ids "p2" refl p2_removed

nonempty-pareto_filter_example : nonempty (pareto_filter integers raw ids).0 ≡ true
nonempty-pareto_filter_example = nonempty-pareto_filter integers integers-Laws raw ids refl

compute_regret_rows_total_example :
    (mi : ℕ × ℕ) × (mr : ℕ × ℕ) × (compute_regret_rows integers raw
        (preference "a" 10000 0 0)
        (preference "b" 0 0 10000)
        ids
      ≡ ok (
          map
            (row integers integers-Laws raw
              (preference "a" 10000 0 0)
              (preference "b" 0 0 10000)
              mi
              mr)
            ids))
    × IsMinimum integers integers-Laws
        (initiator_totals integers integers-Laws raw
          (preference "a" 10000 0 0)
          (preference "b" 0 0 10000)
          ids)
        mi
    × IsMinimum integers integers-Laws
        (responder_totals integers integers-Laws raw
          (preference "a" 10000 0 0)
          (preference "b" 0 0 10000)
          ids)
        mr
compute_regret_rows_total_example =
    compute_regret_rows_total integers integers-Laws raw (preference "a" 10000 0 0)
      (preference "b" 0 0 10000) ids refl

abbrev row_of : String → RegretRow (ℕ × ℕ)
row_of p =
    regret_row integers raw (preference "a" 10000 0 0) (preference "b" 0 0 10000) (10, 0) (15, 0) p

abbrev rows : List (RegretRow (ℕ × ℕ))
rows = row_of "p1" ∷ row_of "p3" ∷ []

rows-IsKeyed : IsKeyed integers integers-Laws rows
unfolding keyed regret_row
rows-IsKeyed = (refl, (refl, tt))

minimax_regret_select-IsLeast_example :
    (first : RegretRow (ℕ × ℕ)) × (ordered : List (RegretRow (ℕ × ℕ))) × (minimax_regret_select
        integers rows
      ≡ ok (first.profile_id, ordered))
    × IsLeast integers integers-Laws rows first
minimax_regret_select-IsLeast_example =
    minimax_regret_select-IsLeast integers integers-Laws rows refl rows-IsKeyed

abbrev reversed : List (RegretRow (ℕ × ℕ))
reversed = row_of "p3" ∷ row_of "p1" ∷ []

same_members : (p : RegretRow (ℕ × ℕ) → Bool) → all p rows ≡ all p reversed
same_members p = ground arith

reversed-IsKeyed : IsKeyed integers integers-Laws reversed
unfolding keyed regret_row
reversed-IsKeyed = (refl, (refl, tt))

-- Each profile is the best of one agent; the second costs its other agent less regret.
chosen : minimax_regret_select integers rows ≡ ok ("p3", reversed)
unfolding minimax_regret_select keyed row_leb regret_row weighted_cost sort_by
chosen = refl

chosen_again : minimax_regret_select integers reversed ≡ ok ("p3", reversed)
unfolding minimax_regret_select keyed row_leb regret_row weighted_cost sort_by
chosen_again = refl

minimax_regret_select_order_example : ◌≡◌ {A = String} "p3" "p3"
minimax_regret_select_order_example =
    minimax_regret_select_order integers integers-Laws rows reversed "p3" "p3" reversed reversed
      rows-IsKeyed reversed-IsKeyed same_members chosen chosen_again

abbrev outcome : Result (BilateralSelectionResult (ℕ × ℕ))
outcome =
    select_from_safe_set integers (λ i a r. "digest") "S1" selection_input ids ("p2" ∷ "p1" ∷ [])
      ("p1" ∷ "p2" ∷ "p4" ∷ []) (preference "a" 10000 0 0) (preference "b" 0 0 10000) evidence none
      point

selects : (r : BilateralSelectionResult (ℕ × ℕ)) × (outcome ≡ ok r)
unfolding select_from_safe_set common_safe_set prepare_vectors raw_vectors measured_vector lookup
    compute_global_anchors metric_anchor normalize_vector normalize_metric choose pareto_filter
    removed_of dominators_of dominates dominates_loop explain compute_regret_rows regret_loop
    regret_row weighted_cost minimax_regret_select keyed row_leb candidate_evaluations
    frontier_candidate dominated_candidate classify_selection_mode sort_by
selects = (_, refl)

select_from_safe_set_safe_example :
    (contains selects.0.selected_profile_id ids ≡ true)
    × (contains selects.0.selected_profile_id ("p2" ∷ "p1" ∷ []) ≡ true)
    × (contains selects.0.selected_profile_id ("p1" ∷ "p2" ∷ "p4" ∷ []) ≡ true)
    × (raw : List (String × CostVector (ℕ × ℕ))) × (normalizer : NormalizationAnchors (ℕ × ℕ))
    × (normalized : List (String × CostVector (ℕ × ℕ))) × (prepare_vectors integers
          (λ i a r. "digest")
          "S1"
          selection_input
          ids
          ("p2" ∷ "p1" ∷ [])
          ("p1" ∷ "p2" ∷ "p4" ∷ [])
          (preference "a" 10000 0 0)
          (preference "b" 0 0 10000)
          evidence
          none
          point
          (common_safe_set ids ("p2" ∷ "p1" ∷ []) ("p1" ∷ "p2" ∷ "p4" ∷ []))
        ≡ ok (raw, normalizer, normalized))
    × IsBest integers integers-Laws
        (λ i a r. "digest")
        "S1"
        selection_input
        ids
        ("p2" ∷ "p1" ∷ [])
        ("p1" ∷ "p2" ∷ "p4" ∷ [])
        (preference "a" 10000 0 0)
        (preference "b" 0 0 10000)
        evidence
        none
        point
        (common_safe_set ids ("p2" ∷ "p1" ∷ []) ("p1" ∷ "p2" ∷ "p4" ∷ []))
        (vector_of integers raw)
        (vector_of integers normalized)
        selects.0
select_from_safe_set_safe_example =
    select_from_safe_set_safe integers integers-Laws (λ i a r. "digest") "S1" selection_input ids
      ("p2" ∷ "p1" ∷ []) ("p1" ∷ "p2" ∷ "p4" ∷ []) (preference "a" 10000 0 0)
      (preference "b" 0 0 10000) evidence none point selects.0 selects.1
