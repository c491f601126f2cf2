-- ===== src/Core/Model.antt =====
-- crates/harness-core/src/model.rs: what the runtime sends to a model and gets back. The
-- events of its progress, which decide nothing, are in Tui/Progress.
use nausicaa.Prelude.{ℕ, String, Bool, List}
use nausicaa.Core.Id.{ThreadId, TurnId}
use nausicaa.Core.Protocol.{ToolCall}
use nausicaa.Core.Context.{CompiledContext}

pub data StopReason : Type 0 where
  end_turn tool_use max_tokens other : StopReason

pub record TokenUsage : Type 0 where
  pub input_tokens : ℕ  -- u64
  pub output_tokens : ℕ  -- u64

pub record ToolDefinition (V : Type 0) : Type 0 where
  pub name : String
  pub description : String
  pub input_schema : V

pub record ModelRequest (V : Type 0) : Type 0 where
  pub thread_id : ThreadId
  pub turn_id : TurnId
  pub iteration : ℕ
  pub context : CompiledContext V
  pub tools : List (ToolDefinition V)

pub record ModelResponse (V : Type 0) : Type 0 where
  pub content : String
  pub tool_calls : List (ToolCall V)
  pub stop_reason : StopReason
  pub usage : TokenUsage

pub record ModelError : Type 0 where
  pub message : String
  pub retryable : Bool
