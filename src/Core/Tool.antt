-- ===== src/Core/Tool.antt =====
-- crates/harness-core/src/tool.rs: tools and their registry. A tool is a trait object: a record of
-- its methods, which may change the state `W` of the world. The cancellation token of a tool's
-- context is part of the world.
pub mod Registry
use nausicaa.Prelude.{
  String, Bool, true, false, Option, none, some, List, [], ◌∷◌, Result, Done, ok, err, is_blank,
  if◌then◌else◌, string_ord,
}
use Prim.Native.String.{◌++◌}
use nausicaa.Prelude.BTreeMap
use nausicaa.Prelude.BTreeMap.{BTreeMap}
use nausicaa.Core.Id.{ThreadId, TurnId}
use nausicaa.Core.Protocol.{ToolCall, PreparedToolCall}
use nausicaa.Core.Model.{ToolDefinition}

pub record ToolExecutionContext : Type 0 where
  pub thread_id : ThreadId
  pub turn_id : TurnId
  pub workspace : Option String
  pub metadata : BTreeMap String String

pub record ToolOutput (V : Type 0) : Type 0 where
  pub value : V

pub data ToolError : Type 0 where
  outcome_unknown : String → ToolError
  invalid_arguments : String → ToolError
  execution : String → ToolError
  executor_unavailable : String → ToolError
  cancelled : ToolError

-- the `#[error]` texts
unfoldable pub tool_error_text : ToolError → String
tool_error_text (outcome_unknown e) = "tool outcome is unknown: " ++ e
tool_error_text (invalid_arguments e) = "invalid tool arguments: " ++ e
tool_error_text (execution e) = "tool execution failed: " ++ e
tool_error_text (executor_unavailable e) = "tool executor is unavailable: " ++ e
tool_error_text cancelled = "tool execution was cancelled"

pub record Tool (V W : Type 0) : Type 0 where
  pub definition : ToolDefinition V
  pub prepare : ToolCall V → ToolExecutionContext → W → Result (PreparedToolCall V) ToolError × W
  pub execute : PreparedToolCall V → ToolExecutionContext → W → Result (ToolOutput V) ToolError × W

pub data RegistryError : Type 0 where
  empty_name : RegistryError
  duplicate : String → RegistryError

pub record RegisteredTool (V W : Type 0) : Type 0 where
  pub definition : ToolDefinition V
  pub implementation : Tool V W

pub record ToolRegistry (V W : Type 0) : Type 0 where
  pub tools : BTreeMap String (RegisteredTool V W)

-- executor.rs: an executor, the one that rejects all, and the one that calls the tool
abbrev pub ToolExecutor : Type 0 → Type 0 → Type 0
ToolExecutor V W =
    Tool V W → PreparedToolCall V → ToolExecutionContext → W → Result (ToolOutput V) ToolError × W

module _ {V W : Type 0} where
  -- what is returned, and the registry afterwards
  unfoldable pub register_arc :
      ToolRegistry V W → Tool V W → Result Done RegistryError × ToolRegistry V W
  register_arc registry tool =
      let definition = tool.definition in
      if is_blank definition.name
      then (err empty_name, registry)
      else if BTreeMap.contains_key definition.name registry.tools
      then (err (duplicate definition.name), registry)
      else (
        ok tt,
        record {
          tools =
              BTreeMap.insert definition.name
                (record { definition = definition; implementation = tool }) registry.tools;
        },
      )

  abbrev implementation_of : Option (RegisteredTool V W) → Option (Tool V W)
  implementation_of none = none
  implementation_of (some r) = some r.implementation

  unfoldable pub get_tool : ToolRegistry V W → String → Option (Tool V W)
  get_tool registry name = implementation_of (BTreeMap.get name registry.tools)

  unfoldable pub names : ToolRegistry V W → List String
  names registry = BTreeMap.keys registry.tools

  abbrev push_definition :
      Option (RegisteredTool V W) → List (ToolDefinition V) → List (ToolDefinition V)
  push_definition none rest = rest
  push_definition (some r) rest = r.definition ∷ rest

  unfoldable pub definitions_for : ToolRegistry V W → List String → List (ToolDefinition V)
  definitions_for registry [] = []
  definitions_for registry (name ∷ rest) =
      push_definition (BTreeMap.get name registry.tools) (definitions_for registry rest)

  unfoldable pub rejecting_executor : ToolExecutor V W
  rejecting_executor tool prepared context w =
      (err (executor_unavailable "no tool executor is configured"), w)

  unfoldable pub direct_executor : ToolExecutor V W
  direct_executor tool prepared context w = tool.execute prepared context w
