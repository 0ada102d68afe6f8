-- ===== src/Analysis.antt =====
-- scovant_core/analysis: pure analyses of gathered evidence.
pub mod CrawlGraph
pub mod ProtocolAdoption
