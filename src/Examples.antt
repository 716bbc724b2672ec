-- ===== src/Examples.antt =====
-- Runs of the definitions, and of the theorems, on small inputs.
mod Styles
mod Cleansing
mod Matching
mod Reports
mod Blocks
mod Paths
mod Guards
