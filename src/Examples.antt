-- ===== src/Examples.antt =====
-- Concrete inputs: each theorem applied where its hypotheses hold.
mod Data
mod Units
mod Runs
mod Slots
mod Managers
mod Compliances
mod Commits
mod Kafka
mod Policies
mod Tables
mod Databases
mod Statuses
mod Agents
mod Minimals
