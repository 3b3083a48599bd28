-- ===== src/Scale.antt =====
-- src/pyDE1/scale: the processor of a scale's weights, and its estimators.
pub mod Estimator
pub mod Processor
pub mod Acaia
