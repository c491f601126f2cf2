-- ===== src/Process/Editing.antt =====
-- crates/executor-process/src/editing.rs: what the editing tools share.
use nausicaa.Prelude.{
  ℕ, ◌+◌, ◌^◌, String, Bool, true, false, Option, none, some, Result, ok, err, if◌then◌else◌, leb,
  ltb, length, ◌==◌, string_ord,
}
use Prim.Native.String.{◌++◌}
use nausicaa.Prelude.Exec.{Exec, ◌>>=◌, throw}
use nausicaa.Prelude.LogFile.{Bytes}
use nausicaa.Core.Protocol.{ToolCall, PreparedToolCall, EffectKind, RetrySafety}
use nausicaa.Core.Tool.{ToolError, invalid_arguments, execution}
use nausicaa.Process.{Json, Paths, FileHost, map_err, lift, or_invalid, resolve_existing_file}

abbrev pub max_file_bytes : ℕ
max_file_bytes = 1048576

abbrev pub max_page_bytes : ℕ
max_page_bytes = 16384

abbrev pub max_paths : ℕ
max_paths = 32

abbrev pub max_matches : ℕ
max_matches = 100

module _ {W D : Type 0} (host : FileHost W D) where
  abbrev pub as_text : Bytes → Result String ToolError
  as_text bytes =
      if ltb max_file_bytes (length bytes)
      then err (invalid_arguments "file exceeds 1 MiB limit")
      else or_invalid (host.from_utf8 bytes) "file is not valid UTF-8"

  abbrev pub read_regular : D → Bool → Exec W ToolError String
  read_regular file false = throw (invalid_arguments "target must be a regular file")
  read_regular file true = do
    bytes ← map_err execution (host.read_up_to (max_file_bytes + 1) file)
    lift (as_text bytes)

  unfoldable pub read_text : D → Exec W ToolError String
  read_text file = do regular ← map_err execution (host.is_regular file); read_regular file regular

module _ {W D : Type 0} (paths : Paths) (host : FileHost W D) where
  abbrev pub unchanged : String → String → Result String ToolError
  unchanged path current =
      if current == path
      then ok current
      else err (invalid_arguments "prepared path changed; prepare a new call")

  unfoldable pub checked_path : String → String → Exec W ToolError String
  unfolding resolve_existing_file
  checked_path workspace path = do
    relative ← lift (or_invalid (paths.strip_prefix path workspace) "path outside workspace")
    current ← resolve_existing_file paths host workspace relative
    lift (unchanged path current)

module _ {V : Type 0} (json : Json V) where
  abbrev pub bounded : ℕ → Option ℕ → Option ℕ
  bounded maximum none = none
  bounded maximum (some n) =
      if ltb n (2 ^ 64) then (if leb n maximum then some n else none) else none

  abbrev pub number_of : String → ℕ → ℕ → Option V → Result ℕ ToolError
  number_of key default maximum none = ok default
  number_of key default maximum (some value) =
      or_invalid (bounded maximum (json.as_u64 value)) ("invalid `" ++ key ++ "`")

  unfoldable pub number : V → String → ℕ → ℕ → Result ℕ ToolError
  number args key default maximum = number_of key default maximum (json.get key args)

  -- `display` of the workspace's path is the path
  unfoldable pub prepared : ToolCall V → String → V → String → Bool → PreparedToolCall V
  prepared call name args workspace write = record {
    call_id = call.id;
    action = record {
      tool_name = name;
      arguments = args;
      effect = if write then EffectKind.workspace_write else EffectKind.read_only;
      retry_safety = if write then RetrySafety.unsafe else RetrySafety.safe;
      scope = some workspace;
    };
  }
