-- ===== src/Process/Pages.antt =====
-- crates/executor-process/src/editing.rs: `ReadFilePageTool`.
use nausicaa.Prelude.{
  ℕ, zero, suc, ◌+◌, String, false, not, ◌||◌, Option, none, some, [], ◌∷◌, Result, ok, err,
  if◌then◌else◌, ltb, min, byte_len,
}
use nausicaa.Prelude.Exec.{Exec, ◌>>=◌, pure}
use nausicaa.Prelude.Utf8.{is_char_boundary, slice}
use nausicaa.Core.Protocol.{ToolCall, PreparedToolCall}
use nausicaa.Core.Tool.{
  ToolError, ToolOutput, ToolExecutionContext, invalid_arguments, execution, cancelled,
}
use nausicaa.Process.{Json, Paths, FileHost, map_err, lift, string_argument, resolve_existing_file}
use nausicaa.Process.Editing.{
  max_file_bytes, max_page_bytes, read_text, checked_path, number, prepared,
}

-- a page of a file
pub record Page : Type 0 where
  pub content : String
  pub offset : ℕ
  pub next_offset : Option ℕ
  pub total_bytes : ℕ

-- the `while` loop: back to a boundary
unfoldable pub back : String → ℕ → ℕ
back content zero = zero
back content (suc end) =
    let before = back content end in if is_char_boundary content (suc end) then suc end else before

-- the page of a content, from the offset and the limit on
unfoldable pub page_of : String → ℕ → ℕ → Result Page ToolError
unfolding back
page_of content offset limit =
    let end = back content (min (offset + limit) (byte_len content)) in
    if ltb limit 4 || ltb (byte_len content) offset || not (is_char_boundary content offset)
    then err (invalid_arguments "invalid page bounds or UTF-8 offset")
    else ok (record {
      content = slice content offset end;
      offset = offset;
      next_offset = if ltb end (byte_len content) then some end else none;
      total_bytes = byte_len content;
    })

module _ {V W D : Type 0} (json : Json V) (paths : Paths) (host : FileHost W D)
    (workspace : String) where
  abbrev pub enough : ℕ → Result ℕ ToolError
  enough limit =
      if ltb limit 4 then err (invalid_arguments "limit must be at least 4 bytes") else ok limit

  unfoldable pub prepare : ToolCall V → ToolExecutionContext → Exec W ToolError (PreparedToolCall V)
  unfolding resolve_existing_file string_argument number prepared
  prepare call context = do
    requested ← lift (string_argument json call.arguments "path")
    path ← resolve_existing_file paths host workspace requested
    offset ← lift (number json call.arguments "offset" 0 max_file_bytes)
    limit ← lift (number json call.arguments "limit" 4096 max_page_bytes)
    limit ← lift (enough limit)
    pure (
        prepared json call "read_file_page"
          (json.object (
            ("path", json.string path)
            ∷ ("offset", json.number offset)
            ∷ ("limit", json.number limit)
            ∷ []))
          workspace false)

  abbrev pub optional : Option ℕ → V
  optional none = json.null
  optional (some n) = json.number n

  abbrev pub page_output : String → Page → ToolOutput V
  page_output path page = record {
    value = json.object (
        ("path", json.string path)
        ∷ ("content", json.string page.content)
        ∷ ("offset", json.number page.offset)
        ∷ ("next_offset", optional page.next_offset)
        ∷ ("total_bytes", json.number page.total_bytes)
        ∷ []);
  }

  abbrev pub read_page : V → Exec W ToolError (ToolOutput V)
  read_page args = do
    requested ← lift (string_argument json args "path")
    path ← checked_path paths host workspace requested
    file ← map_err execution (host.open_read path)
    content ← read_text host file
    offset ← lift (number json args "offset" 0 max_file_bytes)
    limit ← lift (number json args "limit" 4096 max_page_bytes)
    page ← lift (page_of content offset limit)
    pure (page_output path page)

  unfoldable pub execute :
      PreparedToolCall V → ToolExecutionContext → Exec W ToolError (ToolOutput V)
  unfolding checked_path read_text page_of
  execute prepared_call context w =
      let run = read_page prepared_call.action.arguments w in
      if host.is_cancelled w then (err cancelled, w) else run
