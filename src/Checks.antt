-- ===== src/Checks.antt =====
-- checks/base.py and checks/registry.py.
pub mod Base
pub mod Registry
pub mod Degrade
pub mod Valid
mod Tests
