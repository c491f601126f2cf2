-- ===== src/Task/Contract.antt =====
-- crates/task/src/lib.rs: `TaskContextCompiler`, which puts the contract of a task before the prompt.
use nausicaa.Prelude.{String, ◌∷◌, Result, ok, err}
use Prim.Native.String.{◌++◌}
use nausicaa.Prelude.Results.{◌>>=◌}
use nausicaa.Core.Context.{ContextInput, CompiledContext, ContextError, PromptSegment, PromptLayer}
use nausicaa.Task.{TaskSpec, TaskState, TaskError, json}
use nausicaa.Task.State.{initial_state}

pub record TaskContextCompiler (V : Type 0) : Type 0 where
  pub inner : ContextInput V → Result (CompiledContext V) ContextError
  pub contract : PromptSegment

abbrev pub contract_of : Result String String → Result PromptSegment TaskError
contract_of (err message) = err (json message)
contract_of (ok text) = ok (record {
  layer = PromptLayer.stable;
  name = "task-contract-v1";
  text = "Host task contract (context, not tool authority):\n" ++ text;
})

module _ {V : Type 0} (encode_spec : TaskSpec → Result String String) where
  abbrev pub checked : TaskSpec → Result (TaskState V) TaskError
  checked = initial_state

  unfoldable pub new_compiler :
      (ContextInput V → Result (CompiledContext V) ContextError)
      → TaskSpec
      → Result (TaskContextCompiler V) TaskError
  unfolding initial_state
  new_compiler inner spec = checked spec >>= λ state. contract_of (encode_spec spec) >>= λ contract.
      ok (record { inner = inner; contract = contract })

module _ {V : Type 0} where
  unfoldable pub compile :
      TaskContextCompiler V → ContextInput V → Result (CompiledContext V) ContextError
  compile compiler input = compiler.inner input >>= λ context.
      ok (record context { prompt = compiler.contract ∷ context.prompt })
