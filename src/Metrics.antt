-- ===== src/Metrics.antt =====
-- internal/metrics: recording request outcomes and merging them into a summary.
pub mod Bucket
pub mod Histogram
pub mod Recorder
pub mod Sampler
pub mod Families
mod Tests
