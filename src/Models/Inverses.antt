-- ===== src/Models/Inverses.antt =====
-- Each model can be read back after it was written: one child for each group of models.
pub mod Common
pub mod Meta
pub mod Pipeline
pub mod Run
pub mod Task
