-- ===== src/Core/Hook.antt =====
-- crates/harness-core/src/hook.rs: hooks run in order, and the first that rejects ends the row.
use nausicaa.Prelude.{ℕ, String, List, [], ◌∷◌, Result, Done, ok, err}
use nausicaa.Core.Id.{ThreadId, TurnId}
use nausicaa.Core.Protocol.{PreparedToolCall, ToolReceipt}
use nausicaa.Core.Context.{CompiledContext}
use Prim.Native.String.{◌++◌}

pub record HookContext : Type 0 where
  pub thread_id : ThreadId
  pub turn_id : TurnId
  pub iteration : ℕ

pub record HookError : Type 0 where
  pub hook : String
  pub point : String
  pub reason : String

-- the `#[error]` text
unfoldable pub hook_error_text : HookError → String
hook_error_text e = "hook `" ++ e.hook ++ "` rejected " ++ e.point ++ ": " ++ e.reason

pub record Hook (V W : Type 0) : Type 0 where
  pub name : String
  pub before_model : HookContext → CompiledContext V → W → Result Done String × W
  pub before_tool : HookContext → PreparedToolCall V → W → Result Done String × W
  pub after_tool : HookContext → ToolReceipt V → W → Result Done String × W

abbrev pub HookSet : Type 0 → Type 0 → Type 0
HookSet V W = List (Hook V W)

module _ {V W : Type 0} where
  -- the shape that the three loops share: `call` is the method with its arguments
  unfoldable pub run_hooks :
      String → (Hook V W → W → Result Done String × W) → HookSet V W → W → Result Done HookError × W
  run_hooks point call [] w = (ok tt, w)
  run_hooks point call (hook ∷ hooks) w =
      let (r, w') = call hook w in
      let rest = run_hooks point call hooks w' in
      elim r [
        | ok _ ↦ rest
        | err reason ↦ (err (record { hook = hook.name; point = point; reason = reason }), w')
      ]

  unfoldable pub before_model :
      HookSet V W → HookContext → CompiledContext V → W → Result Done HookError × W
  unfolding run_hooks
  before_model hooks context compiled =
      run_hooks "before_model" (λ hook. hook.before_model context compiled) hooks

  unfoldable pub before_tool :
      HookSet V W → HookContext → PreparedToolCall V → W → Result Done HookError × W
  unfolding run_hooks
  before_tool hooks context prepared =
      run_hooks "before_tool" (λ hook. hook.before_tool context prepared) hooks

  unfoldable pub after_tool :
      HookSet V W → HookContext → ToolReceipt V → W → Result Done HookError × W
  unfolding run_hooks
  after_tool hooks context receipt =
      run_hooks "after_tool" (λ hook. hook.after_tool context receipt) hooks
