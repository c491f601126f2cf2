-- ===== src/Core.antt =====
-- crates/harness-core: the types of the protocol, the policy, the tools, the event store, recovery
-- and the runtime.
pub mod Id
pub mod Protocol
pub mod Receipt
pub mod Model
pub mod Context
pub mod Approval
pub mod Event
pub mod Policy
pub mod Tool
pub mod Hook
pub mod Store
pub mod Recovery
pub mod Runtime
pub mod Tests
