-- ===== src/Examples.antt =====
-- The theorems at concrete inputs: the RL-001 scenario, a finance review, an item of
-- evidence, an exposure and an execution.
mod Scenario
mod Ranked
mod Review
mod Evidence
mod Required
mod Approvals
mod Presenter
mod Actions
mod Mail
mod Exposure
