-- ===== src/Tests.antt =====
-- Concrete platforms, clients and values, and the theorems at them.
pub mod Samples
pub mod Codecs
pub mod Requests
pub mod Types
pub mod Methods
pub mod States
pub mod Volumes
pub mod AxiosCalls
pub mod Typed
pub mod Clusters
