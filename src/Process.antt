-- ===== src/Process.antt =====
-- crates/executor-process: the file tools. `Json` is what they use of `serde_json::Value`, `FileHost`
-- of the file system and of the cancellation token; a path is the string that it was made from.
pub mod Editing
pub mod Pages
pub mod Patch
pub mod Search
pub mod Slices
pub mod Shell
pub mod Tests
pub mod Files
pub mod Inside
pub mod Pipe
pub mod Captured
pub mod Patched
pub mod Execution
pub mod Searched
pub mod Paged
use nausicaa.Prelude.{
  ℕ, String, Bool, true, false, not, ◌||◌, Option, none, some, List, [], ◌∷◌, Result, ok, err, Done,
  if◌then◌else◌, any, leb, ltb, is_blank, length,
}
use Prim.Native.String.{◌++◌}
use nausicaa.Prelude.Exec.{Exec, ◌>>=◌, ◌>>◌}
use nausicaa.Prelude.Strings.{is_empty}
use nausicaa.Prelude.LogFile.{Bytes}
use nausicaa.Core.Protocol.{ToolCall, PreparedToolCall, EffectKind, RetrySafety}
use nausicaa.Core.Tool.{ToolError, invalid_arguments, execution}

-- the accessors and constructors of a JSON value
pub record Json (V : Type 0) : Type 0 where
  pub get : String → V → Option V
  pub as_str : V → Option String
  pub as_u64 : V → Option ℕ
  pub object : List (String × V) → V
  pub string : String → V
  pub number : ℕ → V
  pub null : V

pub data Component : Type 0 where
  normal : String → Component
  parent root current prefix_ : Component

-- `std::path::Path`
pub record Paths : Type 0 where
  pub components : String → List Component
  pub join : String → String → String
  pub starts_with : String → String → Bool
  pub strip_prefix : String → String → Option String

-- The file system and the token. `D` is an open file; every call that may fail gives the text of its
-- error.
pub record FileHost (W D : Type 0) : Type 0 where
  pub is_cancelled : W → Bool
  pub canonicalize : String → Exec W String String
  pub is_file : String → W → Bool
  pub open_read : String → Exec W String D
  pub open_read_write : String → Exec W String D
  pub is_regular : D → Exec W String Bool
  pub read_up_to : ℕ → D → Exec W String Bytes
  pub from_utf8 : Bytes → Option String
  pub seek_start : D → Exec W String Done
  pub write_all : String → D → Exec W String Done
  pub set_len : ℕ → D → Exec W String Done
  pub sync_data : D → Exec W String Done

module _ {W A : Type 0} where
  abbrev pub reported : (String → ToolError) → Result A String × W → Result A ToolError × W
  reported report (ok a, w) = (ok a, w)
  reported report (err message, w) = (err (report message), w)

  -- `map_err`
  abbrev pub map_err : (String → ToolError) → Exec W String A → Exec W ToolError A
  map_err report body w = reported report (body w)

  -- `ok_or_else`
  abbrev pub lift : Result A ToolError → Exec W ToolError A
  lift result w = (result, w)

abbrev pub or_invalid : {A : Type 0} → Option A → String → Result A ToolError
or_invalid none message = err (invalid_arguments message)
or_invalid (some a) message = ok a

module _ {V : Type 0} (json : Json V) where
  abbrev pub and_str : Option V → Option String
  and_str none = none
  and_str (some v) = json.as_str v

  unfoldable pub string_argument : V → String → Result String ToolError
  string_argument arguments name =
      or_invalid (and_str (json.get name arguments)) ("`" ++ name ++ "` must be a string")

abbrev pub is_normal : Component → Bool
is_normal (normal name) = true
is_normal _ = false

module _ (paths : Paths) where
  unfoldable pub validate_relative : String → Result Done ToolError
  unfolding any
  validate_relative path =
      if is_empty path || any (λ c. not (is_normal c)) (paths.components path)
      then err (invalid_arguments "path must be a non-empty relative path without `..`")
      else ok tt

module _ {W D : Type 0} (paths : Paths) (host : FileHost W D) where
  abbrev pub inside : String → String → Exec W ToolError String
  inside workspace canonical w =
      if not (paths.starts_with canonical workspace) || not (host.is_file canonical w)
      then (err (invalid_arguments "path is not a file inside the workspace"), w)
      else (ok canonical, w)

  unfoldable pub resolve_existing_file : String → String → Exec W ToolError String
  unfolding validate_relative
  resolve_existing_file workspace requested = do
    lift (validate_relative paths requested)
    canonical ← map_err invalid_arguments (host.canonicalize (paths.join workspace requested))
    inside workspace canonical
