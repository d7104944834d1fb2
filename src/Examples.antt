-- ===== src/Examples.antt =====
-- Runs of the handlers on concrete nodes, to which the theorems apply.
mod Data
mod Votes
mod Logs
mod Sensing
mod Timing
mod Field
mod Power
mod Hardware
mod Election
mod Boards
mod Reports
