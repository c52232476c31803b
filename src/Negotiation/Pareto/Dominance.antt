-- ===== src/Negotiation/Pareto/Dominance.antt =====
-- Cost dominance is a strict partial order on vectors.
use pqtrust_agent_artifact.Prelude.{◌≡◌, true, false, not, ◌&&◌, ◌||◌, arith}
use pqtrust_agent_artifact.Negotiation.Decimals.{Decimals, Laws}
use pqtrust_agent_artifact.Negotiation.Cost.{CostVector}
use pqtrust_agent_artifact.Negotiation.Pareto.{dominates}

module _ (D : Decimals) where
  open D use {Decimal, lt}

  -- Dominance in closed form: no metric is dearer and some metric is cheaper.
  pub dominates-eq :
      (l r : CostVector Decimal)
      → (dominates D l r).0 ≡ (
          not (lt r.wall_time_cost l.wall_time_cost)
          && not (lt r.process_cpu_time_cost l.process_cpu_time_cost)
          && not (lt r.total_handshake_bytes_cost l.total_handshake_bytes_cost)
          && (lt l.wall_time_cost r.wall_time_cost
              || lt l.process_cpu_time_cost r.process_cpu_time_cost
              || lt l.total_handshake_bytes_cost r.total_handshake_bytes_cost))
  unfolding dominates
  dominates-eq l r = ground arith

  module _ (L : Laws D) where
    open L use {irrefl, not_lt_trans}

    pub dominates_irrefl : (v : CostVector Decimal) → (dominates D v v).0 ≡ false
    dominates_irrefl v = ground (
      arith,
      dominates-eq v v,
      irrefl v.wall_time_cost,
      irrefl v.process_cpu_time_cost,
      irrefl v.total_handshake_bytes_cost,
    )

    pub dominates_trans :
        (a b c : CostVector Decimal)
        → (dominates D a b).0 ≡ true
        → (dominates D b c).0 ≡ true
        → (dominates D a c).0 ≡ true
    dominates_trans a b c h k = ground (
      arith,
      dominates-eq a b,
      dominates-eq b c,
      dominates-eq a c,
      not_lt_trans c.wall_time_cost b.wall_time_cost a.wall_time_cost,
      not_lt_trans c.process_cpu_time_cost b.process_cpu_time_cost a.process_cpu_time_cost,
      not_lt_trans c.total_handshake_bytes_cost b.total_handshake_bytes_cost
          a.total_handshake_bytes_cost,
      not_lt_trans b.wall_time_cost a.wall_time_cost c.wall_time_cost,
      not_lt_trans a.wall_time_cost c.wall_time_cost b.wall_time_cost,
      not_lt_trans a.process_cpu_time_cost c.process_cpu_time_cost b.process_cpu_time_cost,
      not_lt_trans a.total_handshake_bytes_cost c.total_handshake_bytes_cost
          b.total_handshake_bytes_cost,
    )
