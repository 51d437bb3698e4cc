-- ===== src/Models.antt =====
-- The models of the fetch client, generated/sdk/ts-fetch/models.
pub mod Codec
pub mod Common
pub mod Meta
pub mod Discovery
pub mod Pipeline
pub mod Run
pub mod Task
pub mod Inverses
pub mod Rereads
pub mod Interfaces
pub mod Typing
