-- ===== src/Core/Runtime/Errors.antt =====
-- crates/harness-core/src/runtime.rs: `RuntimeError`, and the `#[error]` texts that are written to
-- the log.
use Prim.Native.String.{◌++◌}
use nausicaa.Prelude.{ℕ, String, show}
use nausicaa.Core.Id.{ThreadId, TurnId, CallId}
use nausicaa.Core.Model.{StopReason, ModelError}
use nausicaa.Core.Context.{ContextError, too_large, path, read}
use nausicaa.Core.Hook.{HookError}
use nausicaa.Core.Store.{StoreError}

pub data RuntimeError : Type 0 where
  store : StoreError → RuntimeError
  context : ContextError → RuntimeError
  model : ModelError → RuntimeError
  hook : HookError → RuntimeError
  unknown_thread : ThreadId → RuntimeError
  concurrent_turn : ThreadId → RuntimeError
  duplicate_turn : ThreadId → TurnId → RuntimeError
  invalid_model_response : TurnId → String → RuntimeError
  incomplete_model_response : TurnId → StopReason → RuntimeError
  cancelled : TurnId → RuntimeError
  max_model_iterations : TurnId → ℕ → RuntimeError
  receipt_persistence_unknown : CallId → String → StoreError → RuntimeError

unfoldable pub model_error_text : ModelError → String
model_error_text e = "model request failed: " ++ e.message

unfoldable pub context_error_text : ContextError → String
context_error_text (too_large actual maximum) =
    "context exceeds the configured character budget ("
    ++ show actual
    ++ " > "
    ++ show maximum
    ++ ")"
context_error_text (path e) = "context path error: " ++ e
context_error_text (read e) = "failed to read context source: " ++ e

-- the derived `Debug`
abbrev stop_reason_debug : StopReason → String
stop_reason_debug StopReason.end_turn = "EndTurn"
stop_reason_debug StopReason.tool_use = "ToolUse"
stop_reason_debug StopReason.max_tokens = "MaxTokens"
stop_reason_debug StopReason.other = "Other"

unfoldable pub incomplete_text : TurnId → StopReason → String
incomplete_text turn_id stop_reason =
    "model stopped without a complete response for turn `"
    ++ turn_id
    ++ "`: "
    ++ stop_reason_debug stop_reason

unfoldable pub invalid_text : TurnId → String → String
invalid_text turn_id reason =
    "model returned an invalid response for turn `" ++ turn_id ++ "`: " ++ reason
