-- ===== src/Tests.antt =====
-- Runs of the model on concrete inputs, and each theorem at an input where its conditions hold.
mod Machine
mod Generators
mod Texts
mod Tables
mod Loads
mod Transactions
mod Blocks
mod Missions
mod Redis
mod Tbb
