-- ===== src/Process/Files.antt =====
-- crates/executor-process/src/lib.rs: `ReadFileTool` and `WriteFileTool`.
use nausicaa.Prelude.{
  ℕ, ◌+◌, ◌-◌, ◌^◌, String, Bool, true, false, Option, none, some, List, [], ◌∷◌, Result, ok, err,
  Done, if◌then◌else◌, ltb, byte_len, length, show, min,
}
use Prim.Native.String.{◌++◌}
use nausicaa.Prelude.Exec.{Exec, ◌>>=◌, ◌>>◌, pure}
use nausicaa.Prelude.LogFile.{Bytes}
use nausicaa.Core.Protocol.{ToolCall, PreparedToolCall, EffectKind, RetrySafety}
use nausicaa.Core.Tool.{
  ToolError, ToolOutput, ToolExecutionContext, invalid_arguments, execution, cancelled,
}
use nausicaa.Process.{
  Json, Paths, FileHost, map_err, lift, string_argument, validate_relative, resolve_existing_file,
}

-- What writing a new file uses besides: `parents` are the results of `parent`, one after the other.
pub record WriteHost (W D : Type 0) : Type 0 where
  pub parents : String → List String
  pub exists : String → W → Bool
  pub create_dir_all : String → Exec W String Done
  pub open_truncated : String → Exec W String D

abbrev pub or_execution : {A : Type 0} → Option A → String → Result A ToolError
or_execution none message = err (execution message)
or_execution (some a) message = ok a

module _ {V W D : Type 0} (json : Json V) (paths : Paths) (host : FileHost W D)
    (workspace : String) where
  abbrev pub action : ToolCall V → String → V → EffectKind → RetrySafety → PreparedToolCall V
  action call name args effect retry_safety = record {
    call_id = call.id;
    action = record {
      tool_name = name;
      arguments = args;
      effect = effect;
      retry_safety = retry_safety;
      scope = some workspace;
    };
  }

  unfoldable pub prepare_read :
      ℕ → ToolCall V → ToolExecutionContext → Exec W ToolError (PreparedToolCall V)
  unfolding resolve_existing_file string_argument
  prepare_read maximum_bytes call context = do
    requested ← lift (string_argument json call.arguments "path")
    path ← resolve_existing_file paths host workspace requested
    pure (
        action call "read_file"
          (json.object
            (("path", json.string path) ∷ ("maximum_bytes", json.number maximum_bytes) ∷ []))
          EffectKind.read_only RetrySafety.safe)

  -- `as_u64`, and `usize::try_from` where a `usize` has 64 bits
  abbrev as_usize : Option V → Option ℕ
  as_usize none = none
  as_usize (some value) = elim (json.as_u64 value) [
    | none ↦ none
    | some n ↦ if ltb n (2 ^ 64) then some n else none
  ]

  abbrev within : ℕ → Bytes → Result String ToolError
  within maximum bytes =
      if ltb maximum (length bytes)
      then err (execution ("file exceeds " ++ show maximum ++ " byte limit"))
      else or_execution (host.from_utf8 bytes) "file is not valid UTF-8"

  -- `saturating_add` of a `usize`
  abbrev one_more : ℕ → ℕ
  one_more maximum = min (maximum + 1) (2 ^ 64 - 1)

  abbrev read_file : V → Exec W ToolError (ToolOutput V)
  read_file args = do
    path ← lift (string_argument json args "path")
    maximum ← lift (or_execution (as_usize (json.get "maximum_bytes" args)) "invalid maximum_bytes")
    file ← map_err execution (host.open_read path)
    bytes ← map_err execution (host.read_up_to (one_more maximum) file)
    content ← lift (within maximum bytes)
    pure (record {
      value = json.object (("path", json.string path) ∷ ("content", json.string content) ∷ []);
    })

  unfoldable pub execute_read :
      PreparedToolCall V → ToolExecutionContext → Exec W ToolError (ToolOutput V)
  unfolding string_argument
  execute_read prepared context w =
      let run = read_file prepared.action.arguments w in
      if host.is_cancelled w then (err cancelled, w) else run

  module _ (bool : Bool → V) (as_bool : V → Option Bool) (writes : WriteHost W D) where
    abbrev stays : String → String → Result Done ToolError
    stays message canonical =
        if paths.starts_with canonical workspace then ok tt else err (invalid_arguments message)

    -- the `while` loop: the nearest ancestor that exists
    unfoldable pub verify_ancestor : List String → Exec W ToolError Done
    verify_ancestor [] w = (ok tt, w)
    verify_ancestor (path ∷ rest) w =
        let next = verify_ancestor rest w in
        let here =
          (do
            canonical ← map_err invalid_arguments (host.canonicalize path)
            lift (stays "write target traverses a symlink outside the workspace" canonical))
            w in
        if writes.exists path w then here else next

    abbrev verify_target : String → Exec W ToolError Done
    verify_target target w =
        let there =
          (do
            canonical ← map_err invalid_arguments (host.canonicalize target)
            lift (stays "write target resolves outside the workspace" canonical))
            w in
        if writes.exists target w then there else (ok tt, w)

    unfoldable pub verify_write_target : String → Exec W ToolError Done
    unfolding verify_ancestor
    verify_write_target target = do
      lift (stays "write target is outside the workspace" target)
      verify_ancestor (writes.parents target)
      verify_target target

    unfoldable pub resolve_write_target : String → Exec W ToolError String
    unfolding validate_relative verify_write_target
    resolve_write_target requested = do
      lift (validate_relative paths requested)
      verify_write_target (paths.join workspace requested)
      pure (paths.join workspace requested)

    abbrev fits : ℕ → String → Result Done ToolError
    fits maximum content =
        if ltb maximum (byte_len content)
        then err (invalid_arguments ("content exceeds " ++ show maximum ++ " byte limit"))
        else ok tt

    abbrev flag_of : Option V → Bool
    flag_of none = false
    flag_of (some value) = elim (as_bool value) [ none ↦ false | some b ↦ b ]

    unfoldable pub prepare_write :
        ℕ → ToolCall V → ToolExecutionContext → Exec W ToolError (PreparedToolCall V)
    unfolding resolve_write_target string_argument
    prepare_write maximum_bytes call context = do
      requested ← lift (string_argument json call.arguments "path")
      content ← lift (string_argument json call.arguments "content")
      lift (fits maximum_bytes content)
      path ← resolve_write_target requested
      pure (
          action call "write_file"
            (json.object (
              ("path", json.string path)
              ∷ ("content", json.string content)
              ∷ (
                "create_directories",
                bool (flag_of (json.get "create_directories" call.arguments)),
              )
              ∷ []))
            EffectKind.workspace_write RetrySafety.idempotent)

    abbrev parent_of : List String → Result String ToolError
    parent_of [] = err (execution "write target has no parent")
    parent_of (parent ∷ rest) = ok parent

    abbrev make_parent : Bool → String → String → Exec W ToolError Done
    make_parent false parent path = pure tt
    make_parent true parent path = do
      map_err execution (writes.create_dir_all parent)
      verify_write_target path

    abbrev write_file : V → Exec W ToolError (ToolOutput V)
    write_file args = do
      path ← lift (string_argument json args "path")
      content ← lift (string_argument json args "content")
      verify_write_target path
      parent ← lift (parent_of (writes.parents path))
      make_parent (flag_of (json.get "create_directories" args)) parent path
      file ← map_err execution (writes.open_truncated path)
      map_err execution (host.write_all content file)
      map_err execution (host.sync_data file)
      pure (record {
        value =
            json.object
              (("path", json.string path) ∷ ("bytes_written", json.number (byte_len content)) ∷ []);
      })

    unfoldable pub execute_write :
        PreparedToolCall V → ToolExecutionContext → Exec W ToolError (ToolOutput V)
    unfolding verify_write_target string_argument
    execute_write prepared context w =
        let run = write_file prepared.action.arguments w in
        if host.is_cancelled w then (err cancelled, w) else run
