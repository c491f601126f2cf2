-- ===== src/Core/Tests.antt =====
-- Runs of the core on one runtime: a memory store, a tool that echoes, and an approver that approves
-- what it is asked for.
pub mod Policies
pub mod Turns
use nausicaa.Prelude.{
  ℕ, suc, ◌≡◌, String, Option, none, some, List, [], ◌∷◌, Result, ok, err, arith, eqb, Eq, Bool,
  true, false, ◌↔◌, Done, if◌then◌else◌,
}
use nausicaa.Core.Protocol.{
  ToolCall, PreparedToolCall, EffectKind, RetrySafety, ToolReceipt, CanonicalAction,
}
use nausicaa.Core.Model.{
  ModelRequest, ModelResponse, ModelError, StopReason, ToolDefinition, TokenUsage,
}
use nausicaa.Core.Context.{ContextInput, CompiledContext, ContextError}
use nausicaa.Core.Event.{thread_started}
use nausicaa.Core.Approval.{ApprovalRequest, ApprovalDecision, approved}
use nausicaa.Core.Policy.{
  Access, CapabilityPolicy, CapabilityProjection, PolicyContext, policy_access,
}
use nausicaa.Core.Tool.{Tool, ToolOutput, ToolRegistry, ToolExecutionContext, direct_executor}
use nausicaa.Core.Store.{Host}
use nausicaa.Core.Store.Memory.{MemoryEventStore, memory_store}
use nausicaa.Core.Runtime.{AgentRuntime, Run, default_config}

pub eqb_iff : (a b : ℕ) → (eqb a b ≡ true) ↔ (a ≡ b)
eqb_iff a b = ground arith

instance abbrev pub nat_eq : Eq ℕ
nat_eq = record { equals = eqb; equals_iff = eqb_iff }

abbrev pub clock : Host ℕ
clock = record { now = λ h. (h, suc h); fresh_event_id = λ h. ("event", h) }

abbrev pub echo_definition : ToolDefinition ℕ
echo_definition = record { name = "echo"; description = "returns its argument"; input_schema = 0 }

abbrev pub echo_action : ℕ → CanonicalAction ℕ
echo_action n = record {
  tool_name = "echo";
  arguments = n;
  effect = EffectKind.workspace_write;
  retry_safety = RetrySafety.unsafe;
  scope = none;
}

abbrev pub echo : Tool ℕ Done
echo = record {
  definition = echo_definition;
  prepare =
      λ call context w. (ok (record { call_id = call.id; action = echo_action call.arguments }), w);
  execute = λ prepared context w. (ok (record { value = prepared.action.arguments }), w);
}

abbrev pub echo_tools : ToolRegistry ℕ Done
echo_tools = record {
  tools = ("echo", record { definition = echo_definition; implementation = echo }) ∷ [];
}

abbrev pub ask_policy : CapabilityPolicy
ask_policy = record { default = Access.deny; tools = ("echo", Access.ask) ∷ [] }

abbrev pub nobody : PolicyContext
nobody = record { principal = none; channel = none; agent = none; sandbox = none }

abbrev pub ask_projection : CapabilityProjection
ask_projection = record { entries = ("echo", Access.ask) ∷ [] }

abbrev pub echo_call : ToolCall ℕ
echo_call = record { id = "call"; name = "echo"; arguments = 7 }

abbrev pub response : List (ToolCall ℕ) → ModelResponse ℕ
response calls = record {
  content = "done";
  tool_calls = calls;
  stop_reason = StopReason.end_turn;
  usage = record { input_tokens = 1; output_tokens = 1 };
}

abbrev pub runtime : AgentRuntime ℕ Done (MemoryEventStore ℕ ℕ)
runtime = record {
  model = λ request w. (ok (response (if eqb request.iteration 0 then echo_call ∷ [] else [])), w);
  store = memory_store clock;
  compiler = λ input w. (ok (record { prompt = []; messages = input.transcript }), w);
  tools = echo_tools;
  policy = policy_access ask_policy;
  policy_context = nobody;
  parent_capabilities = none;
  approvals = λ request w. (ok (approved request.action), w);
  executor = direct_executor;
  hooks = [];
  observers = [];
  config = default_config;
  is_cancelled = λ w. (false, w);
}

abbrev pub empty_store : MemoryEventStore ℕ ℕ
empty_store = record { is_poisoned = false; next_sequence = 0; events = []; host = 0 }

abbrev pub idle : Run ℕ Done (MemoryEventStore ℕ ℕ)
idle = record {
  store = empty_store;
  world = tt;
  active_poisoned = false;
  active_threads = [];
  trace = [];
}

-- the thread is there
abbrev pub ready : Run ℕ Done (MemoryEventStore ℕ ℕ)
ready = record idle {
  store = record empty_store {
    next_sequence = 1;
    events =
        record {
          id = "event";
          sequence = 0;
          at_unix_ms = 0;
          thread_id = "thread";
          turn_id = none;
          event = thread_started;
        }
        ∷ [];
  };
}
