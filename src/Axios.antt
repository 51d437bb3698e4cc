-- ===== src/Axios.antt =====
-- The axios client, generated/sdk/ts-axios.
pub mod Mime
pub mod Params
pub mod Objects
pub mod Requests
pub mod Calls
pub mod Operations
pub mod Interfaces
