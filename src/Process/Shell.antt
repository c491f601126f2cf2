-- ===== src/Process/Shell.antt =====
-- crates/executor-process/src/lib.rs: `ShellTool`, and how a runner is called. A runner is a record of
-- its method `run`; the conversions of a request and an output to JSON are parameters.
use nausicaa.Prelude.{
  ℕ, String, Bool, Option, none, some, [], ◌∷◌, Result, ok, err, if◌then◌else◌, is_blank, min, max,
}
use Prim.Native.String.{◌++◌}
use nausicaa.Prelude.Exec.{Exec, ◌>>=◌, pure}
use nausicaa.Core.Protocol.{ToolCall, PreparedToolCall, EffectKind, RetrySafety}
use nausicaa.Core.Tool.{
  ToolError, ToolOutput, ToolExecutionContext, invalid_arguments, execution, outcome_unknown,
  cancelled,
}
use nausicaa.Process.{Json, lift, string_argument}
use nausicaa.Process.Pipe.{ProcessError}

pub record ProcessRequest : Type 0 where
  pub command : String
  pub working_directory : String
  pub timeout_ms : ℕ  -- u64

pub record ProcessOutput : Type 0 where
  pub exit_code : Option ℕ  -- the low 32 bits of an i32
  pub stdout : String
  pub stderr : String
  pub timed_out : Bool
  pub stdout_truncated : Bool
  pub stderr_truncated : Bool

module _ {W : Type 0} (is_cancelled : W → Bool)
    (run : ProcessRequest → Exec W ProcessError ProcessOutput) where
  abbrev pub after_run :
      Result ProcessOutput ProcessError × W → Result ProcessOutput ProcessError × W
  after_run (result, w) = if is_cancelled w then (err ProcessError.cancelled, w) else (result, w)

  -- the method that a runner has where it gives no other
  unfoldable pub run_controlled : ProcessRequest → Exec W ProcessError ProcessOutput
  run_controlled request w =
      let ran = after_run (run request w) in
      if is_cancelled w then (err ProcessError.cancelled, w) else ran

-- the `#[error]` texts
abbrev pub process_error_text : ProcessError → String
process_error_text ProcessError.cancelled =
    "process cancelled; effects before termination may have occurred"
process_error_text (ProcessError.io message) = "process I/O error: " ++ message
process_error_text (ProcessError.invalid message) = "invalid process request: " ++ message

abbrev pub as_tool_error : ProcessError → ToolError
as_tool_error ProcessError.cancelled = outcome_unknown (process_error_text ProcessError.cancelled)
as_tool_error e = execution (process_error_text e)

abbrev pub timeout_of : {V : Type 0} → Json V → Option V → ℕ
timeout_of json none = 30000
timeout_of json (some value) = elim (json.as_u64 value) [ none ↦ 30000 | some n ↦ n ]

abbrev pub command_of : String → Result String ToolError
command_of command =
    if is_blank command then err (invalid_arguments "`command` cannot be empty") else ok command

abbrev pub or_execution : {A : Type 0} → Result A String → Result A ToolError
or_execution (ok a) = ok a
or_execution (err message) = err (execution message)

abbrev pub outcome :
    {W : Type 0} → Result ProcessOutput ProcessError × W → Result ProcessOutput ToolError × W
outcome (ok output, w) = (ok output, w)
outcome (err e, w) = (err (as_tool_error e), w)

module _ {V W : Type 0} (json : Json V) (workspace : String) where
  -- the timeout is clamped, to at least one millisecond
  unfoldable pub prepare :
      ℕ → ToolCall V → ToolExecutionContext → Exec W ToolError (PreparedToolCall V)
  unfolding string_argument
  prepare maximum_timeout_ms call context = do
    requested ← lift (string_argument json call.arguments "command")
    command ← lift (command_of requested)
    pure (record {
      call_id = call.id;
      action = record {
        tool_name = "shell";
        arguments = json.object (
            ("command", json.string command)
            ∷ ("working_directory", json.string workspace)
            ∷ (
              "timeout_ms",
              json.number (
                  min (max (timeout_of json (json.get "timeout_ms" call.arguments)) 1)
                    maximum_timeout_ms),
            )
            ∷ []);
        effect = EffectKind.workspace_write;
        retry_safety = RetrySafety.unsafe;
        scope = some workspace;
      };
    })

  module _ (is_cancelled : W → Bool)
      (controlled : ProcessRequest → Exec W ProcessError ProcessOutput)
      (request_of : V → Result ProcessRequest String)
      (value_of : ProcessOutput → Result V String) where
    abbrev pub run_request : V → Exec W ToolError (ToolOutput V)
    run_request args = do
      request ← lift (or_execution (request_of args))
      output ← λ w. outcome (controlled request w)
      value ← lift (or_execution (value_of output))
      pure (record { value = value })

    unfoldable pub execute :
        PreparedToolCall V → ToolExecutionContext → Exec W ToolError (ToolOutput V)
    execute prepared context w =
        let run = run_request prepared.action.arguments w in
        if is_cancelled w then (err cancelled, w) else run
