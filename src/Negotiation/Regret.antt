-- ===== src/Negotiation/Regret.antt =====
-- src/pqtrust_agent/negotiation/regret.py and models/preference.py: weighted costs, bilateral
-- regrets and the minimax-regret choice. The text of the trace is not modelled: it is the list of
-- the keys of the rows in the order of the sort, with the selected profile.
pub mod Rows
pub mod Order
pub mod Choice
use pqtrust_agent_artifact.Prelude.{
  ℕ, String, Bool, true, false, not, ◌&&◌, ◌||◌, List, [], ◌∷◌, map, all, nat_beq, ◌+◌,
  if◌then◌else◌, sort_by, ◌==◌, string_eq, string_leb,
}
use pqtrust_agent_artifact.Prelude.Result.{
  Result, ok, err, value_error, ◌>>=◌, ◌>>◌, raise_if, require,
}
use pqtrust_agent_artifact.Negotiation.Decimals.{Decimals, num_eq, max2, min2}
use pqtrust_agent_artifact.Negotiation.Cost.{
  MetricName, wall_time, process_cpu_time, total_handshake_bytes, CostVector, at,
}
use pqtrust_agent_artifact.Negotiation.Normalization.{fold1}

pub record AgentCostPreference : Type 0 where
  pub preference_id : String
  pub preference_version : ℕ
  pub agent_id : String
  pub wall_time_weight_bps : ℕ
  pub process_cpu_time_weight_bps : ℕ
  pub total_handshake_bytes_weight_bps : ℕ
  pub description : String

-- `_validate_weight_sum`
unfoldable pub validate_weight_sum : AgentCostPreference → Result AgentCostPreference
validate_weight_sum p =
    require
      (nat_beq
        (p.wall_time_weight_bps + p.process_cpu_time_weight_bps
          + p.total_handshake_bytes_weight_bps)
        10000)
      (value_error "preference weights must sum to 10000 basis points")
    >> ok p

pub record WeightedCost (A : Type 0) : Type 0 where
  pub components : CostVector A
  pub total : A

pub record RegretRow (A : Type 0) : Type 0 where
  pub profile_id : String
  pub initiator_cost : WeightedCost A
  pub responder_cost : WeightedCost A
  pub initiator_regret : A
  pub responder_regret : A
  pub maximum_regret : A
  pub total_regret : A
  pub maximum_normalized_component : A
  pub total_normalized_cost : A

module _ (D : Decimals) where
  open D use {Decimal, lt, of_int, add, sub, mul, div}

  -- `sum(values, Decimal(0))` and `max(values)` of a vector's three values
  abbrev pub vector_sum : CostVector Decimal → Decimal
  vector_sum v =
      add (add (add (of_int 0) v.wall_time_cost) v.process_cpu_time_cost)
        v.total_handshake_bytes_cost

  abbrev pub vector_max : CostVector Decimal → Decimal
  vector_max v =
      max2 D (max2 D v.wall_time_cost v.process_cpu_time_cost) v.total_handshake_bytes_cost

  unfoldable pub weighted_cost : CostVector Decimal → AgentCostPreference → WeightedCost Decimal
  weighted_cost normalized preference =
      let component =
        λ (weight : ℕ) (value : Decimal). mul (div (of_int weight) (of_int 10000)) value in
      let components : CostVector Decimal = record {
        wall_time_cost = component preference.wall_time_weight_bps normalized.wall_time_cost;
        process_cpu_time_cost =
            component preference.process_cpu_time_weight_bps normalized.process_cpu_time_cost;
        total_handshake_bytes_cost =
            component preference.total_handshake_bytes_weight_bps
              normalized.total_handshake_bytes_cost;
      } in
      record { components = components; total = vector_sum components }

  -- Whether no row has a zero regret in the given field.
  abbrev pub no_zero : (RegretRow Decimal → Decimal) → List (RegretRow Decimal) → Bool
  no_zero field rows = all (λ row. not (num_eq D (field row) (of_int 0))) rows

  module _ (normalized_vectors : String → CostVector Decimal)
      (initiator responder : AgentCostPreference) where
    abbrev pub initiator_total : String → Decimal
    initiator_total p = (weighted_cost (normalized_vectors p) initiator).total

    abbrev pub responder_total : String → Decimal
    responder_total p = (weighted_cost (normalized_vectors p) responder).total

    -- The row of one profile, given the two least totals.
    unfoldable pub regret_row : Decimal → Decimal → String → RegretRow Decimal
    regret_row min_initiator min_responder p =
        let initiator_regret = sub (initiator_total p) min_initiator in
        let responder_regret = sub (responder_total p) min_responder in
        record {
          profile_id = p;
          initiator_cost = weighted_cost (normalized_vectors p) initiator;
          responder_cost = weighted_cost (normalized_vectors p) responder;
          initiator_regret = initiator_regret;
          responder_regret = responder_regret;
          maximum_regret = max2 D initiator_regret responder_regret;
          total_regret = add initiator_regret responder_regret;
          maximum_normalized_component = vector_max (normalized_vectors p);
          total_normalized_cost = vector_sum (normalized_vectors p);
        }

    -- The loop over the profiles, which raises on a negative regret.
    unfoldable pub regret_loop : Decimal → Decimal → List String → Result (List (RegretRow Decimal))
    regret_loop min_initiator min_responder [] = ok []
    regret_loop min_initiator min_responder (p ∷ ps) =
        let rest = regret_loop min_initiator min_responder ps in
        let row = regret_row min_initiator min_responder p in
        raise_if (lt row.initiator_regret (of_int 0) || lt row.responder_regret (of_int 0))
          (value_error "regret must be non-negative")
        >> rest
        >>= λ rows. ok (row ∷ rows)

    unfoldable pub compute_regret_rows : List String → Result (List (RegretRow Decimal))
    compute_regret_rows profile_ids = do
      min_initiator ← fold1 D (min2 D) (map initiator_total profile_ids)
      min_responder ← fold1 D (min2 D) (map responder_total profile_ids)
      rows ← regret_loop min_initiator min_responder profile_ids
      raise_if (no_zero (λ r. r.initiator_regret) rows || no_zero (λ r. r.responder_regret) rows)
          (value_error "each agent must have at least one zero-regret profile")
      ok rows

  -- The comparison of two tuples, one field after another; `string_leb` decides the last.
  abbrev then_by : Decimal → Decimal → Bool → Bool
  then_by a b rest = lt a b || (not (lt b a) && rest)

  unfoldable pub row_leb : RegretRow Decimal → RegretRow Decimal → Bool
  row_leb a b = then_by a.maximum_regret b.maximum_regret (
      then_by a.total_regret b.total_regret (
        then_by a.maximum_normalized_component b.maximum_normalized_component (
          then_by a.total_normalized_cost b.total_normalized_cost
            (string_leb a.profile_id b.profile_id))))

  -- `keys[row.profile_id]`: the dict is filled in the order of the rows, so that a later row of an
  -- identifier replaces an earlier one. The row found stands for its tuple.
  unfoldable pub keyed : List (RegretRow Decimal) → RegretRow Decimal → RegretRow Decimal
  keyed [] row = row
  keyed (r ∷ rows) row = keyed rows (if r.profile_id == row.profile_id then r else row)

  abbrev pub keyed_leb : List (RegretRow Decimal) → RegretRow Decimal → RegretRow Decimal → Bool
  keyed_leb rows a b = row_leb (keyed rows a) (keyed rows b)

  -- `sorted(rows, key=...)`, with every row already in `keys`.
  unfoldable pub minimax_regret_select :
      List (RegretRow Decimal) → Result (String × List (RegretRow Decimal))
  minimax_regret_select [] = err (value_error "cannot select from an empty candidate set")
  minimax_regret_select (row ∷ rows) = elim (sort_by (keyed_leb (row ∷ rows)) (row ∷ rows)) [
    | [] ↦ err (value_error "cannot select from an empty candidate set")
    | first ∷ rest ↦ ok (first.profile_id, map (keyed (row ∷ rows)) (first ∷ rest))
  ]
