-- ===== src/Rca.antt =====
-- The root cause analysis (rca.go): the evidence in its first prompt, how that is cut to the context of
-- the model, and the agent that asks the model.
pub mod Evidence
pub mod Fit
pub mod Agent
