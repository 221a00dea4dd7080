-- ===== src/Agents.antt =====
-- backend/app/modules/agent_platform
pub mod RateLimit
pub mod Contracts
pub mod Registry
pub mod Router
pub mod Planner
pub mod Approval
pub mod Trace
pub mod EventLog
pub mod Checkpoint
pub mod Outbox
