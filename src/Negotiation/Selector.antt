-- ===== src/Negotiation/Selector.antt =====
-- src/pqtrust_agent/negotiation/selector.py and models/selection.py: the bilateral selector. The
-- digest of the result is a parameter: RFC 8785 and SHA-256 are not the program's.
pub mod Safe
use pqtrust_agent_artifact.Prelude.{
  ℕ, String, Bool, true, false, not, ◌&&◌, Option, none, some, List, [], ◌∷◌, map, length, nonempty,
  keep, contains, ltb, leb, nat_beq, if◌then◌else◌, ◌==◌, string_eq,
}
use pqtrust_agent_artifact.Prelude.Result.{
  Result, ok, err, value_error, key_error, ◌>>=◌, ◌>>◌, raise_if, require, or_raise,
}
use pqtrust_agent_artifact.Negotiation.Decimals.{Decimals}
use pqtrust_agent_artifact.Negotiation.Cost.{
  MetricName, CostVector, CostCase, ProfileCostEvidence, measured_vector,
}
use pqtrust_agent_artifact.Negotiation.Normalization.{
  NormalizationAnchors, traverse, compute_global_anchors, normalize_vector,
}
use pqtrust_agent_artifact.Negotiation.Pareto.{DominationExplanation, pareto_filter}
use pqtrust_agent_artifact.Negotiation.Regret.{
  AgentCostPreference, RegretRow, compute_regret_rows, minimax_regret_select,
}

pub data SelectionMode : Type 0 where
  singleton_common_safe_set pareto_frontier_collapse bilateral_minimax_regret : SelectionMode

unfoldable pub classify_selection_mode : ℕ → ℕ → Result SelectionMode
classify_selection_mode common_count pareto_count =
    raise_if (ltb common_count 1) (value_error "common safe set must not be empty")
    >> raise_if (ltb pareto_count 1) (value_error "Pareto frontier must not be empty")
    >> raise_if (ltb common_count pareto_count)
        (value_error "Pareto frontier cannot exceed common safe set")
    >> ok (
        if nat_beq common_count 1
        then singleton_common_safe_set
        else if nat_beq pareto_count 1
        then pareto_frontier_collapse
        else bilateral_minimax_regret)

-- Intersect the two safe sets in catalog order.
unfoldable pub common_safe_set : List String → List String → List String → List String
common_safe_set catalog_profile_ids initiator_safe responder_safe =
    keep (λ p. contains p initiator_safe && contains p responder_safe) catalog_profile_ids

-- A dict in the order of its insertions: of two entries for one key the later holds.
module _ {V : Type 0} where
  unfoldable pub lookup : String → List (String × V) → Option V
  lookup k [] = none
  lookup k ((j, v) ∷ d) =
      let later = lookup k d in
      elim later [ some w ↦ some w | none ↦ if j == k then some v else none ]

  -- `d[k]`
  abbrev pub get_item : String → List (String × V) → Result V
  get_item k d = or_raise (lookup k d) (key_error k)

pub record BilateralSelectionInput : Type 0 where
  pub scenario_hash : String
  pub task_hash : String
  pub catalog_hash : String
  pub initiator_agent_id : String
  pub responder_agent_id : String
  pub initiator_policy_compilation_hash : String
  pub responder_policy_compilation_hash : String
  pub initiator_preference_hash : String
  pub responder_preference_hash : String
  pub calibrated_cost_evidence_hash : String
  pub evaluation_time : ℕ

pub data ParetoStatus : Type 0 where
  frontier dominated : ParetoStatus

pub record BilateralCandidateEvaluation (A : Type 0) : Type 0 where
  pub profile_id : String
  pub raw_measured_cost_vector : CostVector A
  pub normalized_cost_vector : CostVector A
  pub initiator_weighted_components : Option (CostVector A)
  pub responder_weighted_components : Option (CostVector A)
  pub initiator_cost : Option A
  pub responder_cost : Option A
  pub initiator_regret : Option A
  pub responder_regret : Option A
  pub maximum_regret : Option A
  pub total_regret : Option A
  pub pareto_status : ParetoStatus
  pub dominating_profile_ids : List String
  pub dominated_dimensions : List (String × List MetricName)
  pub domination_explanation : Option (DominationExplanation A)
  pub eligible_for_regret_computation : Bool
  pub regret_exclusion_reason : Option String

pub record BilateralSelectionResult (A : Type 0) : Type 0 where
  pub scenario_id : String
  pub initiator_local_safe_set : List String
  pub responder_local_safe_set : List String
  pub common_safe_set : List String
  pub pareto_frontier : List String
  pub removed_as_dominated : List String
  pub selected_profile_id : String
  pub candidates : List (BilateralCandidateEvaluation A)
  pub common_safe_candidate_count : ℕ
  pub pareto_candidate_count : ℕ
  pub selection_mode : SelectionMode
  pub minimax_regret_exercised : Bool
  pub bilateral_tradeoff_present : Bool
  pub frontier_collapsed : Bool
  pub deterministic_tie_break_trace : List (RegretRow A)
  pub absolute_timing_stability_passed : Bool
  pub paired_relative_timing_stability_passed : Bool
  pub relative_cost_usable_for_selector : Bool
  pub selection_hash : String

-- `SelectorCostEvidence`, less the file digests that the selector does not read.
pub record SelectorCostEvidence (A : Type 0) : Type 0 where
  pub profiles : List (ProfileCostEvidence A)
  pub evidence_hash : String
  pub catalog_hash : String
  pub absolute_timing_stability_passed : Bool
  pub paired_relative_timing_stability_passed : Bool
  pub relative_cost_usable_for_selector : Bool

module _ (D : Decimals) where
  open D use {Decimal, of_int}

  abbrev pub zero_vector : CostVector Decimal
  zero_vector = record {
    wall_time_cost = of_int 0;
    process_cpu_time_cost = of_int 0;
    total_handshake_bytes_cost = of_int 0;
  }

  -- A dict with an entry for every key that is read, as its lookup function; the default is not
  -- reached, since the selector's dicts have an entry for each common profile.
  abbrev pub vector_of : List (String × CostVector Decimal) → String → CostVector Decimal
  vector_of d p = elim (lookup p d) [ none ↦ zero_vector | some v ↦ v ]

  -- `_raw_vectors`, with no restriction of the profiles
  unfoldable pub raw_vectors :
      SelectorCostEvidence Decimal → CostCase → Result (List (String × CostVector Decimal))
  raw_vectors evidence case =
      traverse (λ p. measured_vector p case >>= λ v. ok (p.profile_id, v)) evidence.profiles

  -- `_candidate_evaluations`: one branch of the loop for each kind of candidate
  module _ (raw normalized : String → CostVector Decimal) where
    unfoldable pub frontier_candidate : RegretRow Decimal → BilateralCandidateEvaluation Decimal
    frontier_candidate row = record {
      profile_id = row.profile_id;
      raw_measured_cost_vector = raw row.profile_id;
      normalized_cost_vector = normalized row.profile_id;
      initiator_weighted_components = some row.initiator_cost.components;
      responder_weighted_components = some row.responder_cost.components;
      initiator_cost = some row.initiator_cost.total;
      responder_cost = some row.responder_cost.total;
      initiator_regret = some row.initiator_regret;
      responder_regret = some row.responder_regret;
      maximum_regret = some row.maximum_regret;
      total_regret = some row.total_regret;
      pareto_status = frontier;
      dominating_profile_ids = [];
      dominated_dimensions = [];
      domination_explanation = none;
      eligible_for_regret_computation = true;
      regret_exclusion_reason = none;
    }

    unfoldable pub dominated_candidate :
        String → DominationExplanation Decimal → BilateralCandidateEvaluation Decimal
    dominated_candidate p explanation = record {
      profile_id = p;
      raw_measured_cost_vector = raw p;
      normalized_cost_vector = normalized p;
      initiator_weighted_components = none;
      responder_weighted_components = none;
      initiator_cost = none;
      responder_cost = none;
      initiator_regret = none;
      responder_regret = none;
      maximum_regret = none;
      total_regret = none;
      pareto_status = dominated;
      dominating_profile_ids = explanation.dominating_profile_ids;
      dominated_dimensions = explanation.dominated_dimensions;
      domination_explanation = some explanation;
      eligible_for_regret_computation = false;
      regret_exclusion_reason = some "removed_by_measured_pareto_dominance";
    }

    unfoldable pub candidate_evaluations :
        List (RegretRow Decimal)
        → List String
        → List (String × DominationExplanation Decimal)
        → Result (List (BilateralCandidateEvaluation Decimal))
    candidate_evaluations rows common removed =
        traverse
          (λ p. elim (lookup p (map (λ r. (r.profile_id, r)) rows)) [
            | some row ↦ ok (frontier_candidate row)
            | none ↦ get_item p removed >>= λ e. ok (dominated_candidate p e)
          ])
          common

  module _
      (selection_hash : BilateralSelectionInput
        → NormalizationAnchors Decimal
        → BilateralSelectionResult Decimal
        → String)
      (scenario_id : String) (selection_input : BilateralSelectionInput)
      (catalog_profile_ids initiator_safe_set responder_safe_set : List String)
      (initiator_preference responder_preference : AgentCostPreference)
      (cost_evidence : SelectorCostEvidence Decimal)
      (anchors : Option (NormalizationAnchors Decimal)) (case : CostCase) where
    -- The vectors of the common profiles, raw and normalized, with the anchors used.
    unfoldable pub prepare_vectors :
        List String
        → Result (
            List (String × CostVector Decimal)
            × NormalizationAnchors Decimal
            × List (String × CostVector Decimal))
    prepare_vectors common = do
      all_raw ← raw_vectors cost_evidence case
      raw ← traverse (λ p. get_item p all_raw >>= λ v. ok (p, v)) common
      normalizer ← elim anchors [
        | some a ↦ ok a
        | none ↦ compute_global_anchors D cost_evidence.profiles case
      ]
      normalized ←
          traverse (λ p. get_item p raw >>= λ v. normalize_vector D v normalizer >>= λ n. ok (p, n))
            common
      ok (raw, normalizer, normalized)

    -- The choice among the common profiles, given their vectors.
    unfoldable pub choose :
        List String
        → (raw normalized : String → CostVector Decimal) → NormalizationAnchors Decimal
        → Result (BilateralSelectionResult Decimal)
    choose common raw normalized normalizer = do
      let (frontier_ids, removed) = pareto_filter D raw common
      rows ← compute_regret_rows D normalized initiator_preference responder_preference frontier_ids
      (selected, trace) ← minimax_regret_select D rows
      candidates ← candidate_evaluations raw normalized rows common removed
      mode ← classify_selection_mode (length common) (length frontier_ids)
      let result : BilateralSelectionResult Decimal = record {
        scenario_id = scenario_id;
        initiator_local_safe_set = initiator_safe_set;
        responder_local_safe_set = responder_safe_set;
        common_safe_set = common;
        pareto_frontier = frontier_ids;
        removed_as_dominated = map (λ e. e.0) removed;
        selected_profile_id = selected;
        candidates = candidates;
        common_safe_candidate_count = length common;
        pareto_candidate_count = length frontier_ids;
        selection_mode = mode;
        minimax_regret_exercised = leb 2 (length frontier_ids);
        bilateral_tradeoff_present = leb 2 (length frontier_ids);
        frontier_collapsed = nat_beq (length frontier_ids) 1;
        deterministic_tie_break_trace = trace;
        absolute_timing_stability_passed = cost_evidence.absolute_timing_stability_passed;
        paired_relative_timing_stability_passed =
            cost_evidence.paired_relative_timing_stability_passed;
        relative_cost_usable_for_selector = cost_evidence.relative_cost_usable_for_selector;
        selection_hash = "";
      }
      ok (record result { selection_hash = selection_hash selection_input normalizer result })

    unfoldable pub select_from_safe_set : Result (BilateralSelectionResult Decimal)
    select_from_safe_set =
        let common = common_safe_set catalog_profile_ids initiator_safe_set responder_safe_set in
        require (nonempty common) (value_error "bilateral common-safe set is empty")
        >> prepare_vectors common
        >>= λ v. choose common (vector_of v.0) (vector_of v.2) v.1
