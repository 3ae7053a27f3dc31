-- ===== src/Tests.antt =====
-- Runs of the model at concrete inputs: the theorems at values for which their conditions hold.
mod Data
mod Engines
mod Folds
mod Lives
mod Logs
mod Lookups
mod Masks
mod Pipelines
mod Queries
mod Relations
mod Required
mod Rules
mod Schema
mod Timelines
