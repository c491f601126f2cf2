-- ===== src/Core/Runtime.antt =====
-- crates/harness-core/src/runtime.rs: the runtime's parts and its steps over the event store. What
-- lies outside (the model, the compiler, the approver, the executor, the tools, the hooks, the
-- observers and the cancellation token) acts on the state `W` of the world. `Run` is the state of
-- one runtime; its trace says what was notified and executed, each with the events that were
-- durable at that moment.
pub mod Errors
pub mod Calls
pub mod Turn
pub mod Keeps
pub mod Authority
pub mod Justified
pub mod Receipts
pub mod Validation
pub use Errors.{RuntimeError}
use nausicaa.Prelude.{
  ℕ, zero, suc, ◌+◌, ◌^◌, ◌-◌, String, Bool, true, false, Option, none, some, List, [], ◌∷◌, ◌||◌,
  Result, ok, err, Done, if◌then◌else◌, string_ord, ◌==◌, any, min, leb,
}
use nausicaa.Prelude.Exec.{Exec, pure, throw, ◌>>=◌, ◌>>◌}
use nausicaa.Prelude.BTreeMap.{BTreeMap}
use nausicaa.Prelude.BTreeSet.{BTreeSet}
use nausicaa.Core.Id.{ThreadId, TurnId, CallId}
use nausicaa.Core.Protocol.{ToolReceipt, PreparedToolCall}
use nausicaa.Core.Model.{ModelRequest, ModelResponse, ModelError}
use nausicaa.Core.Context.{ContextInput, CompiledContext, ContextError}
use nausicaa.Core.Approval.{ApprovalProvider}
use nausicaa.Core.Event.{
  RuntimeEvent, EventEnvelope, HookPoint, thread_started, tool_receipt_recorded, hook_failed,
  turn_failed,
}
use nausicaa.Core.Policy.{ToolPolicy, PolicyContext, CapabilityProjection, project_capabilities}
use nausicaa.Core.Tool.{ToolRegistry, ToolExecutor, names}
use nausicaa.Core.Hook.{HookSet, HookError}
use nausicaa.Core.Store.{EventStore, StoreError}
use nausicaa.Core.Recovery.{RecoveryReport, recover_thread}

pub record RuntimeConfig : Type 0 where
  pub max_model_iterations : ℕ
  pub workspace : Option String
  pub tool_metadata : BTreeMap String String

abbrev pub default_config : RuntimeConfig
default_config = record { max_model_iterations = 32; workspace = none; tool_metadata = [] }

pub record TurnOutcome : Type 0 where
  pub thread_id : ThreadId
  pub turn_id : TurnId
  pub content : String
  pub model_iterations : ℕ

pub record AgentRuntime (V W S : Type 0) : Type 0 where
  pub model : ModelRequest V → W → Result (ModelResponse V) ModelError × W
  pub store : EventStore V S
  pub compiler : ContextInput V → W → Result (CompiledContext V) ContextError × W
  pub tools : ToolRegistry V W
  pub policy : ToolPolicy
  pub policy_context : PolicyContext
  pub parent_capabilities : Option CapabilityProjection
  pub approvals : ApprovalProvider V W
  pub executor : ToolExecutor V W
  pub hooks : HookSet V W
  pub observers : List (EventEnvelope V → W → W)
  pub config : RuntimeConfig
  -- the turn's cancellation token, which anyone may set between two reads
  pub is_cancelled : W → Bool × W

-- what the runtime did, with what was durable then
pub data Effect (V : Type 0) : Type 0 where
  notified : EventEnvelope V → List (EventEnvelope V) → Effect V
  executed : PreparedToolCall V → List (EventEnvelope V) → Effect V

pub record Run (V W S : Type 0) : Type 0 where
  pub store : S
  pub world : W
  pub active_poisoned : Bool
  pub active_threads : BTreeSet ThreadId
  pub trace : List (Effect V)

abbrev pub Step : Type 0 → Type 0 → Type 0 → Type 0 → Type 0
Step V W S A = Exec (Run V W S) RuntimeError A

module _ {V W S : Type 0} (rt : AgentRuntime V W S) where
  unfoldable pub capabilities : CapabilityProjection
  capabilities =
      project_capabilities (names rt.tools) rt.policy rt.policy_context rt.parent_capabilities

  unfoldable pub observe : List (EventEnvelope V → W → W) → EventEnvelope V → W → W
  observe [] event w = w
  observe (on_event ∷ observers) event w = observe observers event (on_event event w)

  unfoldable pub notify : EventEnvelope V → Run V W S → Run V W S
  unfolding observe
  notify event r = record r {
    world = observe rt.observers event r.world;
    trace = notified event (rt.store.view r.store) ∷ r.trace;
  }

  abbrev pub append_result :
      Result (EventEnvelope V) StoreError
      → Run V W S
      → Result (EventEnvelope V) RuntimeError × Run V W S
  append_result (ok envelope) r = (ok envelope, notify envelope r)
  append_result (err e) r = (err (RuntimeError.store e), r)

  -- the event is stored, and then the observers see it
  unfoldable pub append : ThreadId → Option TurnId → RuntimeEvent V → Step V W S (EventEnvelope V)
  unfolding notify
  append thread_id turn_id event r =
      let (result, s) = rt.store.append thread_id turn_id event r.store in
      append_result result (record r { store = s })

  -- a call of the outside world, whose failure is a value
  unfoldable pub outside : {A : Type 0} → (W → A × W) → Step V W S A
  outside call r = let (a, w) = call r.world in (ok a, record r { world = w })

  unfoldable pub lift_store : {A : Type 0} → Exec S StoreError A → Step V W S A
  lift_store m r =
      let (result, s) = m r.store in
      (elim result [ ok a ↦ ok a | err e ↦ err (RuntimeError.store e) ], record r { store = s })

  unfoldable pub load_thread : ThreadId → Step V W S (List (EventEnvelope V))
  unfolding lift_store
  load_thread thread_id = lift_store (λ s. (rt.store.load_thread thread_id s, s))

  abbrev pub crossed_error : Bool → ToolReceipt V → RuntimeError → RuntimeError
  crossed_error true receipt (RuntimeError.store source) =
      RuntimeError.receipt_persistence_unknown receipt.call_id receipt.tool_name source
  crossed_error _ receipt e = e

  abbrev pub receipt_result :
      {A : Type 0}
      → Bool
      → ToolReceipt V
      → Result A RuntimeError × Run V W S
      → Result Done RuntimeError × Run V W S
  receipt_result crossed receipt (ok a, r) = (ok tt, r)
  receipt_result crossed receipt (err e, r) = (err (crossed_error crossed receipt e), r)

  unfoldable pub record_receipt : ThreadId → TurnId → ToolReceipt V → Bool → Step V W S Done
  unfolding append
  record_receipt thread_id turn_id receipt execution_crossed r =
      receipt_result execution_crossed receipt
        (append thread_id (some turn_id) (tool_receipt_recorded receipt) r)

  unfoldable pub record_hook_failure : ThreadId → TurnId → HookPoint → HookError → Step V W S Done
  unfolding append
  record_hook_failure thread_id turn_id point e = do
    append thread_id (some turn_id) (hook_failed e.hook point e.reason)
    pure tt

  unfoldable pub fail_turn : ThreadId → TurnId → String → Step V W S Done
  unfolding append
  fail_turn thread_id turn_id error = do
    append thread_id (some turn_id) (turn_failed error)
    pure tt
