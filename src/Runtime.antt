-- ===== src/Runtime.antt =====
-- The shared runtime of the fetch client, generated/sdk/ts-fetch/runtime.ts.
pub mod Query
pub mod Mime
pub mod Types
pub mod Configuration
pub mod Headers
pub mod Api
