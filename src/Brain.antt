-- ===== src/Brain.antt =====
-- internal/brain: the cortex that turns readings into alert levels, and the filter that logs them.
pub mod Level
pub mod Welford
pub mod Mahalanobis
pub mod Cortex
pub mod Thalamus
