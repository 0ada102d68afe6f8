-- ===== src/Parsers.antt =====
-- scovant_core/parsers: readers of fetched texts.
pub mod Robots
