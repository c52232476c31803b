-- ===== src/Negotiation/Normalization.antt =====
-- src/pqtrust_agent/negotiation/normalization.py: the global anchors and a normalized vector.
use pqtrust_agent_artifact.Prelude.{◌||◌, List, [], ◌∷◌}
use pqtrust_agent_artifact.Prelude.Result.{Result, ok, err, value_error, ◌>>=◌, ◌>>◌, raise_if}
use pqtrust_agent_artifact.Negotiation.Decimals.{Decimals, max2, min2, num_eq}
use pqtrust_agent_artifact.Negotiation.Cost.{
  MetricName, wall_time, process_cpu_time, total_handshake_bytes, CostVector, at, CostCase,
  ProfileCostEvidence, measured_vector,
}

pub record NormalizationAnchors (A : Type 0) : Type 0 where
  pub minima : CostVector A
  pub maxima : CostVector A

-- `{metric: f(metric) for metric in METRICS}` where `f` may raise.
abbrev pub for_metrics : {A : Type 0} → (MetricName → Result A) → Result (CostVector A)
for_metrics f = do
  w ← f wall_time
  c ← f process_cpu_time
  b ← f total_handshake_bytes
  ok (record { wall_time_cost = w; process_cpu_time_cost = c; total_handshake_bytes_cost = b })

-- `[f(x) for x in xs]` where `f` may raise.
abbrev pub traverse : {A B : Type 0} → (A → Result B) → List A → Result (List B)
traverse f [] = ok []
traverse f (x ∷ xs) = let rest = traverse f xs in (f x >>= λ y. rest >>= λ ys. ok (y ∷ ys))

module _ (D : Decimals) where
  open D use {Decimal, lt, of_int, sub, div}

  -- `min(values)` and `max(values)`, which raise on an empty sequence
  abbrev pub fold1 : (Decimal → Decimal → Decimal) → List Decimal → Result Decimal
  fold1 f [] = err (value_error "min() arg is an empty sequence")
  fold1 f (x ∷ []) = ok x
  fold1 f (x ∷ y ∷ ys) = fold1 f (f x y ∷ ys)

  unfoldable pub metric_anchor :
      List (ProfileCostEvidence Decimal) → CostCase → MetricName → Result (Decimal × Decimal)
  metric_anchor profiles case metric = do
    values ← traverse (λ p. measured_vector p case >>= λ v. ok (at v metric)) profiles
    minimum ← fold1 (min2 D) values
    maximum ← fold1 (max2 D) values
    raise_if (num_eq D maximum minimum) (value_error "normalization denominator is zero")
    ok (minimum, maximum)

  unfoldable pub compute_global_anchors :
      List (ProfileCostEvidence Decimal) → CostCase → Result (NormalizationAnchors Decimal)
  compute_global_anchors profiles case = do
    anchors ← for_metrics (metric_anchor profiles case)
    ok (record {
      minima = record {
        wall_time_cost = anchors.wall_time_cost.0;
        process_cpu_time_cost = anchors.process_cpu_time_cost.0;
        total_handshake_bytes_cost = anchors.total_handshake_bytes_cost.0;
      };
      maxima = record {
        wall_time_cost = anchors.wall_time_cost.1;
        process_cpu_time_cost = anchors.process_cpu_time_cost.1;
        total_handshake_bytes_cost = anchors.total_handshake_bytes_cost.1;
      };
    })

  unfoldable pub normalize_metric :
      CostVector Decimal → NormalizationAnchors Decimal → MetricName → Result Decimal
  normalize_metric raw anchors metric =
      let value =
        div (sub (at raw metric) (at anchors.minima metric))
          (sub (at anchors.maxima metric) (at anchors.minima metric)) in
      raise_if (lt value (of_int 0) || lt (of_int 1) value)
        (value_error "normalized metric is outside [0,1]")
      >> ok value

  unfoldable pub normalize_vector :
      CostVector Decimal → NormalizationAnchors Decimal → Result (CostVector Decimal)
  normalize_vector raw anchors = for_metrics (normalize_metric raw anchors)
