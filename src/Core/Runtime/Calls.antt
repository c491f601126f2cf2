-- ===== src/Core/Runtime/Calls.antt =====
-- crates/harness-core/src/runtime.rs: `handle_tool_call`, in its stages.
use nausicaa.Prelude.{
  ℕ, String, Bool, true, false, not, Option, none, some, ◌∷◌, ◌||◌, Result, ok, err, Done,
  if◌then◌else◌, string_ord, ◌==◌, Eq,
}
use nausicaa.Prelude.Exec.{pure, throw, ◌>>=◌, ◌>>◌}
use nausicaa.Core.Id.{ThreadId, TurnId}
use nausicaa.Core.Protocol.{ToolCall, ToolReceipt, PreparedToolCall, CanonicalAction, action_eq}
use nausicaa.Core.Receipt
use nausicaa.Core.Approval.{
  ApprovalRequest, ApprovalDecision, ApprovalError, approved, denied, approval_error_text,
}
use nausicaa.Core.Event.{
  HookPoint, tool_prepared, approval_requested, approval_resolved, tool_execution_started,
}
use nausicaa.Core.Policy.{Access, CapabilityProjection, access, is_denied}
use nausicaa.Core.Tool.{
  Tool, ToolError, ToolOutput, ToolExecutionContext, outcome_unknown, tool_error_text, get_tool,
}
use nausicaa.Core.Hook
use nausicaa.Core.Hook.{HookContext, HookError, hook_error_text}
use nausicaa.Core.Runtime.{
  AgentRuntime, RuntimeError, Step, executed, append, outside, record_receipt, record_hook_failure,
  fail_turn,
}

abbrev pub request_of :
    {V : Type 0} → ThreadId → TurnId → ToolCall V → PreparedToolCall V → ApprovalRequest V
request_of thread_id turn_id call prepared = record {
  thread_id = thread_id;
  turn_id = turn_id;
  call_id = call.id;
  action = prepared.action;
  reason = "effective tool policy requires approval";
}

module _ {V W S : Type 0} ⦃v : Eq V⦄ (rt : AgentRuntime V W S) where
  -- a receipt that closes the call before the executor is reached
  unfoldable pub close_with : ThreadId → TurnId → ToolReceipt V → Step V W S (ToolReceipt V)
  close_with thread_id turn_id receipt = do
    record_receipt rt thread_id turn_id receipt false
    pure receipt

  -- the call of the executor, which the trace keeps
  unfoldable pub call_executor :
      Tool V W
      → PreparedToolCall V
      → ToolExecutionContext
      → Step V W S (Result (ToolOutput V) ToolError)
  call_executor tool prepared context r =
      let (result, w) = rt.executor tool prepared context r.world in
      (
        ok result,
        record r { world = w; trace = executed prepared (rt.store.view r.store) ∷ r.trace },
      )

  unfoldable pub receipt_of : PreparedToolCall V → Result (ToolOutput V) ToolError → ToolReceipt V
  receipt_of prepared (ok output) = Receipt.succeeded prepared output.value
  receipt_of prepared (err (outcome_unknown reason)) = Receipt.unknown prepared reason
  receipt_of prepared (err error) = Receipt.failed prepared (tool_error_text error)

  abbrev pub after_execution :
      ThreadId → TurnId → ToolReceipt V → Result Done HookError → Step V W S (ToolReceipt V)
  after_execution thread_id turn_id receipt (ok _) = pure receipt
  after_execution thread_id turn_id receipt (err error) = do
    record_hook_failure rt thread_id turn_id HookPoint.after_tool error
    fail_turn rt thread_id turn_id (hook_error_text error)
    throw (RuntimeError.hook error)

  -- from the durable start of the execution on
  unfoldable pub execute_prepared :
      ThreadId
      → TurnId
      → HookContext
      → Tool V W
      → PreparedToolCall V
      → ToolExecutionContext
      → Step V W S (ToolReceipt V)
  execute_prepared thread_id turn_id hook_context tool prepared context = do
    append rt thread_id (some turn_id) (tool_execution_started prepared)
    result ← call_executor tool prepared context
    let receipt = receipt_of prepared result
    record_receipt rt thread_id turn_id receipt true
    hooked ← outside rt (Hook.after_tool rt.hooks hook_context receipt)
    after_execution thread_id turn_id receipt hooked

  -- a provider that fails has denied
  abbrev pub decision_of : Result (ApprovalDecision V) ApprovalError → ApprovalDecision V
  decision_of (ok decision) = decision
  decision_of (err error) = denied (approval_error_text error.message)

  unfoldable pub denial_of : CanonicalAction V → ApprovalDecision V → Option String
  denial_of prepared (approved action) =
      if action_eq action prepared
      then none
      else some "approval did not match the exact canonical action; execution was denied"
  denial_of prepared (denied reason) = some reason

  -- the `Ask` branch: the reason of a denial, if there is one
  unfoldable pub ask_approval :
      ThreadId → TurnId → ToolCall V → PreparedToolCall V → Step V W S (Option String)
  unfolding denial_of
  ask_approval thread_id turn_id call prepared = do
    let request = request_of thread_id turn_id call prepared
    append rt thread_id (some turn_id) (approval_requested request)
    answer ← outside rt (rt.approvals request)
    let decision = decision_of answer
    append rt thread_id (some turn_id) (approval_resolved call.id decision)
    pure (denial_of prepared.action decision)

  abbrev pub is_ask : Access → Bool
  is_ask Access.ask = true
  is_ask _ = false

  abbrev pub after_answer :
      ThreadId
      → TurnId
      → ToolCall V
      → PreparedToolCall V
      → Option String
      → Step V W S (ToolReceipt V)
      → Step V W S (ToolReceipt V)
  after_answer thread_id turn_id call prepared none go_on = go_on
  after_answer thread_id turn_id call prepared (some reason) go_on =
      close_with thread_id turn_id (Receipt.denied call.id call.name (some prepared.action) reason)

  -- the policy's answer again, for a tool that wants approval
  unfoldable pub approve_and_execute :
      Access
      → ThreadId
      → TurnId
      → HookContext
      → ToolCall V
      → Tool V W
      → PreparedToolCall V
      → ToolExecutionContext
      → Step V W S (ToolReceipt V)
  approve_and_execute granted thread_id turn_id hook_context call tool prepared context =
      let go_on = execute_prepared thread_id turn_id hook_context tool prepared context in
      if is_ask granted
      then (do
        denial ← ask_approval thread_id turn_id call prepared
        after_answer thread_id turn_id call prepared denial go_on)
      else go_on

  abbrev pub after_hook :
      Access
      → ThreadId
      → TurnId
      → HookContext
      → ToolCall V
      → Tool V W
      → PreparedToolCall V
      → ToolExecutionContext
      → Result Done HookError
      → Step V W S (ToolReceipt V)
  after_hook granted thread_id turn_id hook_context call tool prepared context (ok _) =
      approve_and_execute granted thread_id turn_id hook_context call tool prepared context
  after_hook granted thread_id turn_id hook_context call tool prepared context (err error) = do
    record_hook_failure rt thread_id turn_id HookPoint.before_tool error
    close_with thread_id turn_id
        (Receipt.denied call.id call.name (some prepared.action) (hook_error_text error))

  -- from the durable preparation on
  unfoldable pub run_prepared :
      Access
      → ThreadId
      → TurnId
      → HookContext
      → ToolCall V
      → Tool V W
      → PreparedToolCall V
      → ToolExecutionContext
      → Step V W S (ToolReceipt V)
  run_prepared granted thread_id turn_id hook_context call tool prepared context = do
    append rt thread_id (some turn_id) (tool_prepared prepared)
    hooked ← outside rt (Hook.before_tool rt.hooks hook_context prepared)
    after_hook granted thread_id turn_id hook_context call tool prepared context hooked

  abbrev pub after_prepare :
      Access
      → ThreadId
      → TurnId
      → HookContext
      → ToolCall V
      → Tool V W
      → ToolExecutionContext
      → Result (PreparedToolCall V) ToolError
      → Step V W S (ToolReceipt V)
  after_prepare granted thread_id turn_id hook_context call tool context (err error) =
      close_with thread_id turn_id (Receipt.malformed call (tool_error_text error))
  after_prepare granted thread_id turn_id hook_context call tool context (ok prepared) =
      if not (prepared.call_id == call.id) || not (prepared.action.tool_name == call.name)
      then close_with thread_id turn_id
          (Receipt.malformed call "tool preparation changed the call id or tool name")
      else run_prepared granted thread_id turn_id hook_context call tool prepared context

  abbrev pub with_tool :
      ThreadId → TurnId → ℕ → ToolCall V → Access → Option (Tool V W) → Step V W S (ToolReceipt V)
  with_tool thread_id turn_id iteration call granted none =
      close_with thread_id turn_id (Receipt.denied call.id call.name none "tool is not registered")
  with_tool thread_id turn_id iteration call granted (some tool) =
      if is_denied granted
      then close_with thread_id turn_id (
          Receipt.denied call.id call.name none
            "tool is denied by the effective capability projection")
      else (do
        let context : ToolExecutionContext = record {
          thread_id = thread_id;
          turn_id = turn_id;
          workspace = rt.config.workspace;
          metadata = rt.config.tool_metadata;
        }
        let hook_context : HookContext = record {
          thread_id = thread_id;
          turn_id = turn_id;
          iteration = iteration;
        }
        prepared ← outside rt (tool.prepare call context)
        after_prepare granted thread_id turn_id hook_context call tool context prepared)

  unfoldable pub handle_tool_call :
      ThreadId → TurnId → ℕ → ToolCall V → CapabilityProjection → Step V W S (ToolReceipt V)
  handle_tool_call thread_id turn_id iteration call projection =
      with_tool thread_id turn_id iteration call (access projection call.name)
        (get_tool rt.tools call.name)
