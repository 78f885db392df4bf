-- ===== src/Sandbox.antt =====
-- internal/sandbox: the service that creates, watches and deletes sandboxes.
pub mod Ports
pub mod Config
pub mod Phase
pub mod Health
pub mod Runtime
pub mod Vm
pub mod Waits
pub mod Locks
pub mod Containers
pub mod World
pub mod Demo
mod Tests
pub mod Artifacts
pub mod Orphans
pub mod Provision
pub mod Lifecycle
pub mod Isolation
pub mod Reconcile
