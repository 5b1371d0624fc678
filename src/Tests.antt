-- ===== src/Tests.antt =====
-- Runs of the model on concrete inputs, and the theorems at inputs where their conditions hold.
mod Data
mod Curves
mod Flows
mod Fairness
mod Refinement
mod Asks
mod Places
mod Settlements
