-- ===== src/Models/Interfaces.antt =====
-- The interfaces of generated/sdk/ts-fetch/models: what the decoded values are typed as.
pub mod Common
pub mod Meta
pub mod Discovery
pub mod Pipeline
pub mod Run
pub mod Task
