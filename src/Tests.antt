-- ===== src/Tests.antt =====
-- The theorems at concrete inputs, and test runs of the definitions.
mod Jobs
mod Scenarios
mod Aggregation
mod Broker
mod Loop
mod Retry
mod Pairing
mod Regression
mod SetMatch
mod Panel
mod Outcomes
mod Trace
mod Mapper
mod Proposers
mod Sampling
mod Sweep
mod Trajectory
