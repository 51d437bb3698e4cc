-- ===== src/Axios/Operations.antt =====
-- The 33 operations of the axios client, generated/sdk/ts-axios/api.ts.
pub mod Queries
pub mod Pipelines
pub mod Runs
pub mod Tasks
pub mod PipelineCalls
pub mod RunCalls
pub mod TaskCalls
