-- ===== src/Policy.antt =====
-- synapse_guardian/policy.py, the pure rule logic that the module and the bot share
-- (bot/guardian_bot/policy.py is a verbatim copy).
pub mod Kinds
pub mod Patterns
pub mod Rules
pub mod Power
pub mod Payload
pub mod Permitted
pub mod Building
pub mod Built
pub mod Evaluation
pub mod Merging
pub mod Newlines
