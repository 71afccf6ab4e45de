-- ===== src/Examples.antt =====
-- The theorems at concrete inputs.
mod Door
mod Rules
mod Sessions
mod Queue
mod Tables
mod Reports
mod Orders
mod Nodes
mod Plans
mod Cameras
