-- ===== src/Agent.antt =====
-- The agent's namespaces, environments and managers: pkg/agent, pkg/command/agent and pkg/util/operator.
pub mod Namespaces
pub mod Managers
pub mod Managing
pub mod Loops
pub mod Environments
pub mod Ssh
pub mod Resync
pub mod Worker
mod Tests
