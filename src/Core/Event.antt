-- ===== src/Core/Event.antt =====
-- crates/harness-core/src/event.rs: the durable events and their envelopes.
use nausicaa.Prelude.{ℕ, String, Option, List}
use nausicaa.Core.Id.{ThreadId, TurnId, CallId, EventId}
use nausicaa.Core.Protocol.{ToolCall, PreparedToolCall, ToolReceipt}
use nausicaa.Core.Model.{StopReason, TokenUsage}
use nausicaa.Core.Approval.{ApprovalRequest, ApprovalDecision}

pub data HookPoint : Type 0 where
  before_model before_tool after_tool : HookPoint

pub data RuntimeEvent (V : Type 0) : Type 0 where
  thread_started : RuntimeEvent V
  turn_started : RuntimeEvent V
  user_message : String → RuntimeEvent V
  -- the iteration, the prompt segments, the messages and the visible tools
  context_compiled : ℕ → ℕ → ℕ → List String → RuntimeEvent V
  model_request_started : ℕ → RuntimeEvent V
  assistant_message : String → List (ToolCall V) → StopReason → TokenUsage → RuntimeEvent V
  tool_prepared : PreparedToolCall V → RuntimeEvent V
  approval_requested : ApprovalRequest V → RuntimeEvent V
  approval_resolved : CallId → ApprovalDecision V → RuntimeEvent V
  tool_execution_started : PreparedToolCall V → RuntimeEvent V
  tool_receipt_recorded : ToolReceipt V → RuntimeEvent V
  hook_failed : String → HookPoint → String → RuntimeEvent V
  turn_completed : String → RuntimeEvent V
  turn_failed : String → RuntimeEvent V
  turn_cancelled : RuntimeEvent V

pub record EventEnvelope (V : Type 0) : Type 0 where
  pub id : EventId
  pub sequence : ℕ  -- u64
  pub at_unix_ms : ℕ  -- u128
  pub thread_id : ThreadId
  pub turn_id : Option TurnId
  pub event : RuntimeEvent V
