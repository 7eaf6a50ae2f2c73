-- ===== src/Agentic.antt =====
-- agentic.py: the calls of the provider and the loop of model turns and tool runs.
pub mod Retry
pub mod Env
pub mod Loop
