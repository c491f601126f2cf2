-- ===== src/Core/Receipt.antt =====
-- crates/harness-core/src/protocol.rs: the constructors of `ToolReceipt`.
use nausicaa.Prelude.{String, Option, none, some}
use nausicaa.Core.Id.{CallId}
use nausicaa.Core.Protocol.{CanonicalAction, PreparedToolCall, ReceiptStatus, ToolCall, ToolReceipt}

module _ {V : Type 0} where
  unfoldable pub succeeded : PreparedToolCall V → V → ToolReceipt V
  succeeded prepared output = record {
    call_id = prepared.call_id;
    tool_name = prepared.action.tool_name;
    status = ReceiptStatus.succeeded;
    action = some prepared.action;
    output = some output;
    error = none;
  }

  unfoldable pub failed : PreparedToolCall V → String → ToolReceipt V
  failed prepared error = record {
    call_id = prepared.call_id;
    tool_name = prepared.action.tool_name;
    status = ReceiptStatus.failed;
    action = some prepared.action;
    output = none;
    error = some error;
  }

  unfoldable pub denied : CallId → String → Option (CanonicalAction V) → String → ToolReceipt V
  denied call_id tool_name action reason = record {
    call_id = call_id;
    tool_name = tool_name;
    status = ReceiptStatus.denied;
    action = action;
    output = none;
    error = some reason;
  }

  unfoldable pub malformed : ToolCall V → String → ToolReceipt V
  malformed call error = record {
    call_id = call.id;
    tool_name = call.name;
    status = ReceiptStatus.failed;
    action = none;
    output = none;
    error = some error;
  }

  unfoldable pub unknown : PreparedToolCall V → String → ToolReceipt V
  unknown prepared reason = record {
    call_id = prepared.call_id;
    tool_name = prepared.action.tool_name;
    status = ReceiptStatus.unknown;
    action = some prepared.action;
    output = none;
    error = some reason;
  }
