-- ===== src/Tests.antt =====
-- Runs of the model at concrete inputs, and the theorems at such inputs.
mod Fixtures
mod Program
mod Quotas
mod Lists
mod Machine
mod Run
mod Filter
mod Paths
mod States
mod Substitutes
mod Rotation
mod Segments
mod Lowest
mod Names
mod Copies
