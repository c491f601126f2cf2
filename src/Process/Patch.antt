-- ===== src/Process/Patch.antt =====
-- crates/executor-process/src/editing.rs: `ApplyPatchTool`.
use nausicaa.Prelude.{
  ℕ, ◌+◌, String, true, ◌||◌, Option, none, some, [], ◌∷◌, Result, ok, err, Done, if◌then◌else◌,
  ltb, byte_len, ◌==◌, string_ord,
}
use nausicaa.Prelude.Exec.{Exec, ◌>>=◌, ◌>>◌, pure}
use nausicaa.Prelude.Strings.{is_empty, is_substring}
use nausicaa.Prelude.Utf8.{find, slice_from, replace_range, width}
use nausicaa.Core.Protocol.{ToolCall, PreparedToolCall}
use nausicaa.Core.Tool.{
  ToolError, ToolOutput, ToolExecutionContext, invalid_arguments, execution, outcome_unknown,
  cancelled,
}
use nausicaa.Process.{Json, Paths, FileHost, map_err, lift, string_argument, resolve_existing_file}
use nausicaa.Process.Editing.{max_file_bytes, read_text, checked_path, prepared}

-- the width of the first character; the source panics on an empty text, which a match never leaves
abbrev pub first_width : String → ℕ
first_width String.[] = 0
first_width (String.◌∷◌ c s) = width c

-- what the checks of `prepare` make of the content, from where the first match starts
abbrev pub replace_unique : String → String → String → Option ℕ → Result String ToolError
replace_unique before old new none = err (invalid_arguments "patch conflict: old_text not found")
replace_unique before old new (some start) =
    let next = start + first_width (slice_from before start) in
    let after = replace_range before start (start + byte_len old) new in
    if is_substring old (slice_from before next)
    then err (invalid_arguments "patch conflict: old_text is ambiguous")
    else if ltb max_file_bytes (byte_len after)
    then err (invalid_arguments "patched file exceeds 1 MiB")
    else ok after

unfoldable pub patch_of : String → String → String → Result String ToolError
patch_of before old new = replace_unique before old new (find before old)

module _ {V W D : Type 0} (json : Json V) (paths : Paths) (host : FileHost W D)
    (workspace : String) where
  abbrev pub sized : String → String → Result Done ToolError
  sized old new =
      if is_empty old || ltb max_file_bytes (byte_len old) || ltb max_file_bytes (byte_len new)
      then err (invalid_arguments "invalid patch size or empty old_text")
      else ok tt

  unfoldable pub prepare : ToolCall V → ToolExecutionContext → Exec W ToolError (PreparedToolCall V)
  unfolding resolve_existing_file string_argument read_text patch_of prepared
  prepare call context = do
    requested ← lift (string_argument json call.arguments "path")
    path ← resolve_existing_file paths host workspace requested
    old ← lift (string_argument json call.arguments "old_text")
    new ← lift (string_argument json call.arguments "new_text")
    lift (sized old new)
    file ← map_err execution (host.open_read path)
    before ← read_text host file
    after ← lift (patch_of before old new)
    pure (
        prepared json call "apply_patch"
          (json.object (
            ("path", json.string path)
            ∷ ("before", json.string before)
            ∷ ("after", json.string after)
            ∷ ("old_text", json.string old)
            ∷ ("new_text", json.string new)
            ∷ []))
          workspace true)

  -- the writes, of which any error may leave a part
  abbrev pub replace_content : String → D → Exec W String Done
  replace_content after file = do
    host.write_all after file
    host.set_len (byte_len after) file
    host.sync_data file

  abbrev pub write_unless_cancelled : String → D → Exec W ToolError Done
  write_unless_cancelled after file w =
      let written = map_err outcome_unknown (replace_content after file) w in
      if host.is_cancelled w then (err cancelled, w) else written

  abbrev pub same_content : String → String → Result Done ToolError
  same_content before current =
      if current == before
      then ok tt
      else err (invalid_arguments "patch conflict: file changed after preparation")

  -- what `execute` does with the open file
  abbrev pub replace_file : String → String → String → D → Exec W ToolError (ToolOutput V)
  replace_file path before after file = do
    current ← read_text host file
    lift (same_content before current)
    map_err execution (host.seek_start file)
    write_unless_cancelled after file
    pure (record {
      value =
          json.object
            (("path", json.string path) ∷ ("bytes_written", json.number (byte_len after)) ∷ []);
    })

  abbrev pub apply_patch : V → Exec W ToolError (ToolOutput V)
  apply_patch args = do
    requested ← lift (string_argument json args "path")
    path ← checked_path paths host workspace requested
    before ← lift (string_argument json args "before")
    after ← lift (string_argument json args "after")
    file ← map_err execution (host.open_read_write path)
    replace_file path before after file

  unfoldable pub execute :
      PreparedToolCall V → ToolExecutionContext → Exec W ToolError (ToolOutput V)
  unfolding checked_path read_text string_argument
  execute prepared_call context w =
      let run = apply_patch prepared_call.action.arguments w in
      if host.is_cancelled w then (err cancelled, w) else run
