-- ===== src/Axios/Interfaces.antt =====
-- The interfaces of generated/sdk/ts-axios/api.ts, by the names that they have there, with `container`
-- for `PipelineSpecAdditionalContainerSpecs`, `pod` for `PipelineSpecAdditionalPodSpecs`,
-- `preferred` for `PreferredDuringSchedulingIgnoredDuringExecution` and `required` alike; two names
-- are shorter still, `pod_match_expressions_inner` and `pod_label_selector`.
pub mod Shared
pub mod Meta
pub mod Discovery
pub mod Environments
pub mod Probes
pub mod Containers
pub mod Affinities
pub mod VolumeSources
pub mod VolumePlugins
pub mod Volumes
pub mod Pods
pub mod Specs
pub mod Pipelines
pub mod Runs
pub mod Tasks
