-- ===== src/Negotiation/Selector/Safe.antt =====
-- What the selector returns is safe for both agents, undominated and of least maximum regret.
use pqtrust_agent_artifact.Prelude.{
  ◌≡◌, refl, sym, ◌∙◌, ap, subst, String, true, false, not, ◌&&◌, Option, List, [], ◌∷◌, map, all,
  All, any, nonempty, contains, contains-keep, arith, string_eq, eq_iff,
}
use pqtrust_agent_artifact.Prelude.Result.{Result, ok, >>=-eq-ok, require-eq-ok}
use pqtrust_agent_artifact.Negotiation.Decimals.{Decimals, Laws}
use pqtrust_agent_artifact.Negotiation.Cost.{CostVector, CostCase}
use pqtrust_agent_artifact.Negotiation.Normalization.{NormalizationAnchors}
use pqtrust_agent_artifact.Negotiation.Pareto.{pareto_filter}
use pqtrust_agent_artifact.Negotiation.Pareto.Frontier.{
  beats, pareto_filter-frontier, nonempty-pareto_filter,
}
use pqtrust_agent_artifact.Negotiation.Regret.{
  AgentCostPreference, RegretRow, regret_row, compute_regret_rows, minimax_regret_select,
}
use pqtrust_agent_artifact.Negotiation.Regret.Rows.{
  IsMinimum, row, initiator_totals, responder_totals, compute_regret_rows_total,
}
use pqtrust_agent_artifact.Negotiation.Regret.Choice.{
  IsKeyed-functional, minimax_regret_select-IsLeast,
}
use pqtrust_agent_artifact.Negotiation.Selector.{
  BilateralSelectionInput, BilateralSelectionResult, SelectorCostEvidence, common_safe_set,
  vector_of, prepare_vectors, choose, select_from_safe_set,
}

pub contains-common_safe_set :
    (p : String) (catalog initiator_safe responder_safe : List String)
    → contains p (common_safe_set catalog initiator_safe responder_safe) ≡ true
    → (contains p catalog ≡ true)
      × (contains p initiator_safe ≡ true)
      × (contains p responder_safe ≡ true)
unfolding common_safe_set
contains-common_safe_set p catalog initiator_safe responder_safe h =
    ground
      (arith, contains-keep (λ q. contains q initiator_safe && contains q responder_safe) p catalog)

contains_of_frontier :
    (D : Decimals) (L : Laws D) (raw : String → CostVector D.Decimal) (p : String)
    (ids : List String)
    → contains p (pareto_filter D raw ids).0 ≡ true
    → contains p ids ≡ true
contains_of_frontier D L raw p ids h = ground (arith, pareto_filter-frontier D L raw p ids)

module _ (D : Decimals) (L : Laws D)
    (selection_hash : BilateralSelectionInput
      → NormalizationAnchors D.Decimal
      → BilateralSelectionResult D.Decimal
      → String)
    (scenario_id : String) (selection_input : BilateralSelectionInput)
    (catalog initiator_safe responder_safe : List String)
    (initiator responder : AgentCostPreference) (evidence : SelectorCostEvidence D.Decimal)
    (anchors : Option (NormalizationAnchors D.Decimal)) (case : CostCase) where
  abbrev choose_here :
      List String
      → (String → CostVector D.Decimal)
      → (String → CostVector D.Decimal)
      → NormalizationAnchors D.Decimal
      → Result (BilateralSelectionResult D.Decimal)
  choose_here =
      choose D selection_hash scenario_id selection_input catalog initiator_safe responder_safe
        initiator responder evidence anchors case

  choose_selected :
      (common : List String) (raw normalized : String → CostVector D.Decimal)
      (normalizer : NormalizationAnchors D.Decimal) (rows : List (RegretRow D.Decimal))
      (first : RegretRow D.Decimal) (trace : List (RegretRow D.Decimal))
      (r : BilateralSelectionResult D.Decimal)
      → compute_regret_rows D normalized initiator responder (pareto_filter D raw common).0
        ≡ ok rows
      → minimax_regret_select D rows ≡ ok (first.profile_id, trace)
      → choose_here common raw normalized normalizer ≡ ok r
      → (r.selected_profile_id ≡ first.profile_id)
        × (r.common_safe_set ≡ common)
        × (r.pareto_frontier ≡ (pareto_filter D raw common).0)
  unfolding choose
  choose_selected common raw normalized normalizer rows first trace r e e' h = ground arith

  -- The rows of the frontier: each is the row of a profile of the frontier.
  rows_of_frontier :
      (normalized : String → CostVector D.Decimal) (mi mr : D.Decimal) (ids sub : List String)
      → ((p : String) → contains p sub ≡ true → contains p ids ≡ true)
      → All
          (λ f.
            (contains f.profile_id ids ≡ true)
            × (f ≡ row D L normalized initiator responder mi mr f.profile_id))
          (map (row D L normalized initiator responder mi mr) sub)
  unfolding regret_row
  rows_of_frontier normalized mi mr ids [] h = tt
  rows_of_frontier normalized mi mr ids (p ∷ ps) h = (
    (h p (ground (arith, eq_iff p p)), refl),
    rows_of_frontier normalized mi mr ids ps (λ q m. h q (ground arith)),
  )

  rows_of_ids :
      (normalized : String → CostVector D.Decimal) (mi mr : D.Decimal) (ids : List String)
      → All
          (λ f. f ≡ row D L normalized initiator responder mi mr f.profile_id)
          (map (row D L normalized initiator responder mi mr) ids)
  unfolding regret_row
  rows_of_ids normalized mi mr [] = tt
  rows_of_ids normalized mi mr (p ∷ ps) = (refl, rows_of_ids normalized mi mr ps)

  abbrev max_regret : (String → CostVector D.Decimal) → D.Decimal → D.Decimal → String → D.Decimal
  max_regret normalized mi mr p =
      let f = row D L normalized initiator responder mi mr p in f.maximum_regret

  all-map_rows :
      (normalized : String → CostVector D.Decimal) (mi mr least : D.Decimal) (ids : List String)
      → all
          (λ f. not (D.lt f.maximum_regret least))
          (map (row D L normalized initiator responder mi mr) ids)
        ≡ true
      → all (λ p. not (D.lt (max_regret normalized mi mr p) least)) ids ≡ true
  all-map_rows normalized mi mr least [] h = refl
  all-map_rows normalized mi mr least (p ∷ ps) h =
      ground (arith, all-map_rows normalized mi mr least ps)

  nonempty-map :
      (normalized : String → CostVector D.Decimal) (mi mr : D.Decimal) (ids : List String)
      → nonempty ids ≡ true
      → nonempty (map (row D L normalized initiator responder mi mr) ids) ≡ true
  nonempty-map normalized mi mr [] h = h
  nonempty-map normalized mi mr (p ∷ ps) h = refl

  -- What the choice among common profiles guarantees.
  pub record IsBest (common : List String) (raw normalized : String → CostVector D.Decimal)
      (r : BilateralSelectionResult D.Decimal) : Type 0 where
    pub on_frontier : contains r.selected_profile_id (pareto_filter D raw common).0 ≡ true
    pub frontier : r.pareto_frontier ≡ (pareto_filter D raw common).0
    pub common_set : r.common_safe_set ≡ common
    pub undominated : any (λ o. beats D L raw o r.selected_profile_id) common ≡ false
    -- Of the frontier's profiles, none has a smaller maximum regret, each agent's regret being
    -- taken against its own least weighted cost on the frontier.
    pub least_regret :
        (mi : D.Decimal) × (mr : D.Decimal) × IsMinimum D L
          (initiator_totals D L normalized initiator responder (pareto_filter D raw common).0)
          mi
        × IsMinimum D L
            (responder_totals D L normalized initiator responder (pareto_filter D raw common).0)
            mr
        × (all
              (λ p. not (
                D.lt
                  (max_regret normalized mi mr p)
                  (max_regret normalized mi mr r.selected_profile_id)))
              (pareto_filter D raw common).0
            ≡ true)

  choose-IsBest :
      (common : List String) (raw normalized : String → CostVector D.Decimal)
      (normalizer : NormalizationAnchors D.Decimal) (r : BilateralSelectionResult D.Decimal)
      → nonempty common ≡ true
      → choose_here common raw normalized normalizer ≡ ok r
      → IsBest common raw normalized r
  choose-IsBest common raw normalized normalizer r h e =
      let ids = (pareto_filter D raw common).0 in
      let some_left = nonempty-pareto_filter D L raw common h in
      let (mi, mr, table, min_i, min_r) =
        compute_regret_rows_total D L normalized initiator responder ids some_left in
      let (first, trace, chosen, least) =
        minimax_regret_select-IsLeast D L (map (row D L normalized initiator responder mi mr) ids)
          (nonempty-map normalized mi mr ids some_left)
          (IsKeyed-functional D L (row D L normalized initiator responder mi mr) _
            (rows_of_ids normalized mi mr ids)) in
      let (here, same) = least.member _ (rows_of_frontier normalized mi mr ids ids (λ p m. m)) in
      let (s, c, f) =
        choose_selected common raw normalized normalizer _ first trace r table chosen e in
      record {
        on_frontier = rw s here;
        frontier = f;
        common_set = c;
        undominated =
            rw s (ground (arith, here, pareto_filter-frontier D L raw first.profile_id common));
        least_regret = (
          mi,
          mr,
          min_i,
          min_r,
          all-map_rows normalized mi mr _ ids (
              subst
                (λ m.
                  all (λ f. not (D.lt f.maximum_regret m))
                    (map (row D L normalized initiator responder mi mr) ids)
                  ≡ true)
                (ap (λ f. f.maximum_regret) same ∙ ap (max_regret normalized mi mr) (sym s))
                least.minimax),
        );
      }

  abbrev common : List String
  common = common_safe_set catalog initiator_safe responder_safe

  -- A profile that the selector returns is in the catalog and in both agents' safe sets. It is on
  -- the Pareto frontier of the common safe profiles, so no common profile dominates its measured
  -- costs, and no profile of the frontier has a smaller maximum regret, where the vectors are those
  -- that the selector prepares and a regret is taken against an agent's least cost on the frontier.
  pub select_from_safe_set_safe :
      (r : BilateralSelectionResult D.Decimal)
      → select_from_safe_set D selection_hash scenario_id selection_input catalog initiator_safe
          responder_safe initiator responder evidence anchors case
        ≡ ok r
      → (contains r.selected_profile_id catalog ≡ true)
        × (contains r.selected_profile_id initiator_safe ≡ true)
        × (contains r.selected_profile_id responder_safe ≡ true)
        × (raw : List (String × CostVector D.Decimal)) × (normalizer : NormalizationAnchors
            D.Decimal)
        × (normalized : List (String × CostVector D.Decimal)) × (prepare_vectors D selection_hash
              scenario_id selection_input catalog initiator_safe responder_safe initiator responder
              evidence anchors case common
            ≡ ok (raw, normalizer, normalized))
        × IsBest common (vector_of D raw) (vector_of D normalized) r
  unfolding select_from_safe_set
  select_from_safe_set_safe r e =
      let (v, hv, chosen) = >>=-eq-ok _ _ e in
      let (some_common, prepared) = require-eq-ok (nonempty common) _ _ hv in
      let best =
        choose-IsBest common (vector_of D v.0) (vector_of D v.2) v.1 r some_common chosen in
      let inside =
        contains_of_frontier D L (vector_of D v.0) r.selected_profile_id common best.on_frontier in
      let three =
        contains-common_safe_set r.selected_profile_id catalog initiator_safe responder_safe
          inside in
      (three.0, three.1, three.2, v.0, v.1, v.2, prepared, best)
