-- ===== src/Tests/Selection.antt =====
-- Three profiles with measured costs, for the witnesses of the negotiation.
pub mod Choices
use pqtrust_agent_artifact.Prelude.{
  ℕ, String, List, [], ◌∷◌, Option, some, none, true, if◌then◌else◌, ◌==◌, string_eq,
}
use pqtrust_agent_artifact.Negotiation.Cost.{CostVector, BootstrapInterval, ProfileCostEvidence}
use pqtrust_agent_artifact.Negotiation.Regret.{AgentCostPreference}
use pqtrust_agent_artifact.Negotiation.Selector.{BilateralSelectionInput, SelectorCostEvidence}

abbrev vector : ℕ → ℕ → ℕ → CostVector (ℕ × ℕ)
vector w c b = record {
  wall_time_cost = (w, 0);
  process_cpu_time_cost = (c, 0);
  total_handshake_bytes_cost = (b, 0);
}

-- `p1` dominates `p2`; `p1` and `p3` trade time for bytes.
abbrev pub raw : String → CostVector (ℕ × ℕ)
raw p =
    if p == "p1" then vector 10 10 30 else if p == "p2" then vector 12 10 30 else vector 20 20 15

abbrev interval : BootstrapInterval (ℕ × ℕ)
interval = record {
  lower = (9, 0);
  upper = (21, 0);
  confidence_level = (95, 0);
  iterations = 1000;
  seed = 1;
}

abbrev profile_evidence : String → ProfileCostEvidence (ℕ × ℕ)
profile_evidence p =
    let v = raw p in
    record {
      profile_id = p;
      tls_group = "group";
      wall_time_point = v.wall_time_cost;
      process_cpu_time_point = v.process_cpu_time_cost;
      total_handshake_bytes_point = v.total_handshake_bytes_cost;
      wall_time_interval = interval;
      process_cpu_time_interval = interval;
      catalog_hash = "catalog";
      scientific_design_hash = "design";
      source_run_ids = [];
      source_raw_checksums = [];
    }

abbrev pub evidence : SelectorCostEvidence (ℕ × ℕ)
evidence = record {
  profiles = profile_evidence "p1" ∷ profile_evidence "p2" ∷ profile_evidence "p3" ∷ [];
  evidence_hash = "evidence";
  catalog_hash = "catalog";
  absolute_timing_stability_passed = true;
  paired_relative_timing_stability_passed = true;
  relative_cost_usable_for_selector = true;
}

abbrev pub preference : String → ℕ → ℕ → ℕ → AgentCostPreference
preference agent w c b = record {
  preference_id = "preference";
  preference_version = 1;
  agent_id = agent;
  wall_time_weight_bps = w;
  process_cpu_time_weight_bps = c;
  total_handshake_bytes_weight_bps = b;
  description = "weights";
}

abbrev pub selection_input : BilateralSelectionInput
selection_input = record {
  scenario_hash = "scenario";
  task_hash = "task";
  catalog_hash = "catalog";
  initiator_agent_id = "agent-a";
  responder_agent_id = "agent-b";
  initiator_policy_compilation_hash = "compilation";
  responder_policy_compilation_hash = "compilation";
  initiator_preference_hash = "preference";
  responder_preference_hash = "preference";
  calibrated_cost_evidence_hash = "evidence";
  evaluation_time = 10;
}
