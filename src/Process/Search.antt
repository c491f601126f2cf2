-- ===== src/Process/Search.antt =====
-- crates/executor-process/src/editing.rs: `SearchFilesTool`.
use nausicaa.Prelude.{
  ℕ, zero, suc, ◌+◌, String, Bool, true, false, ◌||◌, Option, none, some, List, [], ◌∷◌, Result, ok,
  err, if◌then◌else◌, ltb, eqb, length, byte_len, push, map,
}
use nausicaa.Prelude.Exec.{Exec, ◌>>=◌, pure}
use nausicaa.Prelude.Strings.{is_empty}
use nausicaa.Prelude.Utf8.{find, slice_from}
use Prim.Native.Char.{Char, code}
use nausicaa.Core.Protocol.{ToolCall, PreparedToolCall}
use nausicaa.Core.Tool.{
  ToolError, ToolOutput, ToolExecutionContext, invalid_arguments, execution, cancelled,
}
use nausicaa.Process.{
  Json, Paths, FileHost, map_err, lift, or_invalid, string_argument, resolve_existing_file,
}
use nausicaa.Process.Editing.{max_paths, max_matches, read_text, checked_path, prepared}

-- `content.split_inclusive('\n')`
abbrev pub prepend : Char → List String → List String
prepend c [] = String.◌∷◌ c String.[] ∷ []
prepend c (line ∷ lines) = String.◌∷◌ c line ∷ lines

unfoldable pub split_lines : String → List String
split_lines String.[] = []
split_lines (String.◌∷◌ c s) =
    let lines = split_lines s in
    if eqb (code c) b'\n' then String.◌∷◌ c String.[] ∷ lines else prepend c lines

-- `chars().take(n)`
unfoldable pub take_chars : ℕ → String → String
take_chars zero s = String.[]
take_chars (suc n) String.[] = String.[]
take_chars (suc n) (String.◌∷◌ c s) = String.◌∷◌ c (take_chars n s)

pub record Match : Type 0 where
  pub path : String
  pub line : ℕ
  pub offset : ℕ
  pub excerpt : String

-- the matches, and whether there are more than may be returned
abbrev pub Matches : Type 0
Matches = List Match × Bool

abbrev pub add_match : Match → List Match → (List Match → Matches) → Matches
add_match found matches rest =
    let more = rest (push found matches) in
    if eqb (length matches) max_matches then (matches, true) else more

-- the loop over the lines of a file, from a line's index and offset on
unfoldable pub search_lines : String → String → ℕ → ℕ → List String → List Match → Matches
search_lines path query index offset [] matches = (matches, false)
search_lines path query index offset (line ∷ lines) matches = elim (find line query) [
  | none ↦ search_lines path query (suc index) (offset + byte_len line) lines matches
  | some column ↦
      add_match
        (record {
          path = path;
          line = index + 1;
          offset = offset + column;
          excerpt = take_chars 200 (slice_from line column);
        })
        matches (λ found. search_lines path query (suc index) (offset + byte_len line) lines found)
]

unfoldable pub search_text : String → String → String → List Match → Matches
unfolding split_lines search_lines
search_text path query content matches = search_lines path query 0 0 (split_lines content) matches

abbrev pub has_line_end : String → Bool
has_line_end String.[] = false
has_line_end (String.◌∷◌ c s) = eqb (code c) b'\n' || eqb (code c) b'\r' || has_line_end s

-- What this tool uses of JSON besides `Json`: `strings_of` is `from_value` of a list of strings.
module _ {V W D : Type 0} (json : Json V) (as_array : V → Option (List V)) (array : List V → V)
    (bool : Bool → V) (strings_of : Option V → Result (List String) String) (paths : Paths)
    (host : FileHost W D) (workspace : String) where
  abbrev pub single_line : String → Result String ToolError
  single_line query =
      if is_empty query || ltb 1024 (byte_len query) || has_line_end query
      then err (invalid_arguments "query must be a single nonempty line of at most 1024 bytes")
      else ok query

  abbrev pub and_array : Option V → Option (List V)
  and_array none = none
  and_array (some v) = as_array v

  abbrev pub counted : List V → Result (List V) ToolError
  counted requested =
      if eqb (length requested) 0 || ltb max_paths (length requested)
      then err (invalid_arguments "provide 1 to 32 paths")
      else ok requested

  unfoldable pub resolve_all : List V → Exec W ToolError (List String)
  resolve_all [] = pure []
  resolve_all (value ∷ values) = do
    requested ← lift (or_invalid (json.as_str value) "path must be a string")
    path ← resolve_existing_file paths host workspace requested
    rest ← resolve_all values
    pure (path ∷ rest)

  unfoldable pub prepare : ToolCall V → ToolExecutionContext → Exec W ToolError (PreparedToolCall V)
  unfolding resolve_all string_argument prepared
  prepare call context = do
    requested ← lift (string_argument json call.arguments "query")
    query ← lift (single_line requested)
    values ←
        lift (or_invalid (and_array (json.get "paths" call.arguments)) "paths must be an array")
    counted_values ← lift (counted values)
    resolved ← resolve_all counted_values
    pure (
        prepared json call "search_files"
          (json.object
            (("paths", array (map json.string resolved)) ∷ ("query", json.string query) ∷ []))
          workspace false)

  -- the path of a match, within the workspace
  abbrev pub relative : String → Result String ToolError
  relative path = or_invalid (paths.strip_prefix path workspace) "path outside workspace"

  abbrev pub search_next :
      String → String → Matches → (List Match → Exec W ToolError Matches) → Exec W ToolError Matches
  search_next path query (matches, true) rest = pure (matches, true)
  search_next path query (matches, false) rest = rest matches

  -- The loop over the files. `checked_path` has taken the workspace off the same path before.
  unfoldable pub search_files : String → List String → List Match → Exec W ToolError Matches
  unfolding search_text
  search_files query [] matches w = (ok (matches, false), w)
  search_files query (path ∷ rest) matches w =
      let go =
        (do
          current ← checked_path paths host workspace path
          file ← map_err execution (host.open_read current)
          content ← read_text host file
          shown ← lift (relative current)
          search_next current query (search_text shown query content matches)
              (search_files query rest))
          w in
      if host.is_cancelled w then (err cancelled, w) else go

  abbrev match_value : Match → V
  match_value m = json.object (
      ("path", json.string m.path)
      ∷ ("line", json.number m.line)
      ∷ ("offset", json.number m.offset)
      ∷ ("excerpt", json.string m.excerpt)
      ∷ [])

  abbrev invalid_paths : Result (List String) String → Result (List String) ToolError
  invalid_paths (ok found) = ok found
  invalid_paths (err message) = err (invalid_arguments message)

  abbrev output : Matches → ToolOutput V
  output (matches, truncated) = record {
    value =
        json.object
          (("matches", array (map match_value matches)) ∷ ("truncated", bool truncated) ∷ []);
  }

  unfoldable pub execute :
      PreparedToolCall V → ToolExecutionContext → Exec W ToolError (ToolOutput V)
  unfolding search_files string_argument
  execute prepared_call context = do
    requested ← lift (invalid_paths (strings_of (json.get "paths" prepared_call.action.arguments)))
    query ← lift (string_argument json prepared_call.action.arguments "query")
    found ← search_files query requested []
    pure (output found)
