-- ===== src/Agent.antt =====
-- agent.go and `classifySignError` of main.go: a signing request from its peer to its signature, and
-- the watch over Touch ID prompts that do not complete.
pub mod Failure
pub mod Stall
pub mod Notice
pub mod Requests
