-- ===== src/Negotiation/Cost.antt =====
-- src/pqtrust_agent/negotiation/cost_evidence.py: the metrics, the evidence of one profile and its
-- measured vector in the three uncertainty cases. A vector keyed by `METRICS` is a record.
use pqtrust_agent_artifact.Prelude.{ℕ, String, List, [], ◌∷◌}
use pqtrust_agent_artifact.Prelude.Result.{Result, ok, err, value_error}

pub data MetricName : Type 0 where
  wall_time process_cpu_time total_handshake_bytes : MetricName

abbrev pub metrics : List MetricName
metrics = wall_time ∷ process_cpu_time ∷ total_handshake_bytes ∷ []

pub record CostVector (A : Type 0) : Type 0 where
  pub wall_time_cost : A
  pub process_cpu_time_cost : A
  pub total_handshake_bytes_cost : A

-- `vector[metric]`
abbrev pub at : {A : Type 0} → CostVector A → MetricName → A
at v wall_time = v.wall_time_cost
at v process_cpu_time = v.process_cpu_time_cost
at v total_handshake_bytes = v.total_handshake_bytes_cost

pub record BootstrapInterval (A : Type 0) : Type 0 where
  pub lower : A
  pub upper : A
  pub confidence_level : A
  pub iterations : ℕ
  pub seed : ℕ

-- Each source checksum is a pair of the file's name and its digest.
pub record ProfileCostEvidence (A : Type 0) : Type 0 where
  pub profile_id : String
  pub tls_group : String
  pub wall_time_point : A
  pub process_cpu_time_point : A
  pub total_handshake_bytes_point : A
  pub wall_time_interval : BootstrapInterval A
  pub process_cpu_time_interval : BootstrapInterval A
  pub catalog_hash : String
  pub scientific_design_hash : String
  pub source_run_ids : List String
  pub source_raw_checksums : List (String × String)

-- The names of the cases; any other string raises `CostEvidenceError`.
pub data CostCase : Type 0 where
  point lower_bound upper_bound unknown_case : CostCase

unfoldable pub measured_vector :
    {A : Type 0} → ProfileCostEvidence A → CostCase → Result (CostVector A)
measured_vector p point = ok (record {
  wall_time_cost = p.wall_time_point;
  process_cpu_time_cost = p.process_cpu_time_point;
  total_handshake_bytes_cost = p.total_handshake_bytes_point;
})
measured_vector p lower_bound = ok (record {
  wall_time_cost = p.wall_time_interval.lower;
  process_cpu_time_cost = p.process_cpu_time_interval.lower;
  total_handshake_bytes_cost = p.total_handshake_bytes_point;
})
measured_vector p upper_bound = ok (record {
  wall_time_cost = p.wall_time_interval.upper;
  process_cpu_time_cost = p.process_cpu_time_interval.upper;
  total_handshake_bytes_cost = p.total_handshake_bytes_point;
})
measured_vector p unknown_case = err (value_error "unknown cost case")
