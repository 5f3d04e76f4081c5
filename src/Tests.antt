-- ===== src/Tests.antt =====
-- Concrete runs of the models, and the properties applied to them.
pub mod Pools
pub mod Bytecodes
pub mod Calls
pub mod Traces
pub mod Runs
pub mod Refusals
pub mod Startups
pub mod Deployments
pub mod Draws
pub mod Choices
