-- ===== src/Tests.antt =====
-- Runs of the development at concrete inputs.
mod Mock
mod Steps
mod Paths
mod Plans
mod Nonces
mod Unassigned
mod Graphs
mod Routes
mod Workers
mod Conversions
