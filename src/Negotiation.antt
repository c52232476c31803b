-- ===== src/Negotiation.antt =====
-- The negotiation: measured costs, Pareto filtering, regrets and the bilateral selector.
pub mod Decimals
pub mod Cost
pub mod Pareto
pub mod Normalization
pub mod Regret
pub mod Selector
