-- ===== src/Process/Tests.antt =====
-- The file tools over one file, and a pipe that reads from a list.
use nausicaa.Prelude.{
  suc, ◌≤◌, ◌≡◌, refl, String, true, false, not, any, Option, none, some, List, [], ◌∷◌, ok, err,
  Done, ◌||◌, arith, ◌⊎◌, byte_len, if◌then◌else◌, ◌==◌, string_ord,
}
use Prim.Native.String.{◌++◌}
use nausicaa.Prelude.LogFile.{Bytes}
use nausicaa.Prelude.Strings.{is_prefix, is_substring}
use nausicaa.Prelude.Utf8.{find, slice_from, slice_to, replace_range}
use nausicaa.Core.Protocol.{PreparedToolCall, EffectKind, RetrySafety}
use nausicaa.Core.Tool.{ToolError, ToolExecutionContext, outcome_unknown, invalid_arguments}
use nausicaa.Process.{
  Json, Paths, FileHost, normal, is_normal, validate_relative, resolve_existing_file,
  string_argument,
}
use nausicaa.Process.Editing.{max_file_bytes, read_text, checked_path}
use nausicaa.Process.Patch.{patch_of, execute}
use nausicaa.Process.Search.{search_lines}
use nausicaa.Process.Pipe.{Read, CapturedPipe, count, drain, would_block}
use nausicaa.Process.Paged.{follow, follow-all}
use nausicaa.Process.Patched.{patch_of-replaces, patch_of_unique}
use nausicaa.Process.Execution.{Preserves, execute-IsSafe}
use nausicaa.Process.Searched.{IsBounded, search_lines-IsBounded}
use nausicaa.Process.Captured.{Captures, seen, drain-Captures}
use nausicaa.Process.Inside.{FollowsLinks, resolve_existing_file-inside}

follow-all_example : follow (suc (byte_len "a你好🙂")) "a你好🙂" 4 0 ≡ some "a你好🙂"
follow-all_example = follow-all "a你好🙂" 4 (omega arith)

patches : patch_of "let a" "a" "b" ≡ ok "let b"
unfolding patch_of find is_prefix is_substring slice_from slice_to replace_range byte_len
patches = refl

ambiguous :
    patch_of "aaa" "aa" "b"
    ≡ err (ToolError.invalid_arguments "patch conflict: old_text is ambiguous")
unfolding patch_of find is_prefix is_substring slice_from slice_to replace_range byte_len
ambiguous = refl

patch_of-replaces_example :
    (pre : String) × (post : String) × ("let a" ≡ pre ++ ("a" ++ post))
    × ("let b" ≡ pre ++ ("b" ++ post))
    × (byte_len "let b" ≤ max_file_bytes)
patch_of-replaces_example = patch_of-replaces "let a" "a" "b" "let b" patches

abbrev start : String
start = "let "

patch_of_unique_example : start ≡ start
patch_of_unique_example =
    patch_of_unique "let a" "a" "b" "let b" start "" start "" patches refl refl

search_lines-IsBounded_example : IsBounded (search_lines "src" "b" 0 0 ("a" ∷ "b" ∷ []) [])
search_lines-IsBounded_example =
    search_lines-IsBounded "src" "b" 0 0 ("a" ∷ "b" ∷ []) [] (omega arith)

-- a pipe whose output is in pieces
abbrev read : List Bytes → Read × List Bytes
read [] = (would_block, [])
read (bytes ∷ rest) = (count bytes, rest)

abbrev pipe : CapturedPipe (List Bytes)
pipe = record {
  reader = (1 ∷ 2 ∷ []) ∷ (3 ∷ []) ∷ [];
  retained = [];
  maximum = 2;
  truncated = false;
  eof = false;
}

drain-Captures_example : Captures (seen read 32 pipe.reader) (drain read pipe).1
drain-Captures_example = drain-Captures read [] pipe refl (record { kept = refl; cut = refl })

-- a JSON value as far as the tools look into it
data Value : Type 0 where
  text : String → Value
  fields : List (String × String) → Value
  other : Value

abbrev field_of : String → List (String × String) → Option Value
field_of name [] = none
field_of name ((key, value) ∷ rest) =
    let later = field_of name rest in if key == name then some (text value) else later

abbrev json : Json Value
json = record {
  get = λ name v. elim v [ text t ↦ none | fields entries ↦ field_of name entries | other ↦ none ];
  as_str = λ v. elim v [ text t ↦ some t | fields entries ↦ none | other ↦ none ];
  as_u64 = λ v. none;
  object = λ entries. other;
  string = text;
  number = λ n. other;
  null = other;
}

abbrev paths : Paths
paths = record {
  components = λ path. normal path ∷ [];
  join = λ workspace path. path;
  starts_with = λ path workspace. true;
  strip_prefix = λ path workspace. some path;
}

-- a file that holds one byte for the text "old", on a disk that is full
abbrev host : FileHost Bytes Done
host = record {
  is_cancelled = λ w. false;
  canonicalize = λ path w. (ok path, w);
  is_file = λ path w. true;
  open_read = λ path w. (ok tt, w);
  open_read_write = λ path w. (ok tt, w);
  is_regular = λ file w. (ok true, w);
  read_up_to = λ n file w. (ok w, w);
  from_utf8 = λ bytes. some "old";
  seek_start = λ file w. (ok tt, w);
  write_all = λ content file w. (err "no space", []);
  set_len = λ n file w. (ok tt, w);
  sync_data = λ file w. (ok tt, w);
}

preserves : Preserves host (λ w. w)
preserves = record {
  canonicalize = λ path w. refl;
  open_read_write = λ path w. refl;
  is_regular = λ file w. refl;
  read_up_to = λ n file w. refl;
  seek_start = λ file w. refl;
}

-- a workspace in which `link` leads to `note`, and `out` to a file outside
abbrev linked_paths : Paths
linked_paths = record {
  components = λ path. normal path ∷ [];
  join = λ workspace path. workspace ++ path;
  starts_with = λ path workspace. is_prefix workspace path;
  strip_prefix = λ path workspace. none;
}

abbrev place : String → Bytes → String
place path w =
    if path == "/work/link"
    then "/work/note"
    else if path == "/work/out"
    then "/etc/passwd"
    else path

abbrev linked_host : FileHost Bytes Done
linked_host = record host {
  canonicalize = λ path w. (ok (place path w), w);
  is_file = λ path w. path == "/work/note" || path == "/etc/passwd";
}

linked_host-FollowsLinks : FollowsLinks linked_host place
linked_host-FollowsLinks = record { followed = λ path canonical w u h. ground (arith, h) }

resolves : resolve_existing_file linked_paths linked_host "/work/" "link" [] ≡ (ok "/work/note", [])
unfolding resolve_existing_file validate_relative any is_prefix
resolves = refl

refuses :
    (resolve_existing_file linked_paths linked_host "/work/" "out" []).0
    ≡ err (invalid_arguments "path is not a file inside the workspace")
unfolding resolve_existing_file validate_relative any is_prefix
refuses = refl

resolve_existing_file-inside_example :
    ("/work/note" ≡ place "/work/link" [])
    × (linked_paths.starts_with (place "/work/link" []) "/work/" ≡ true)
    × (linked_host.is_file (place "/work/link" []) [] ≡ true)
    × (any (λ c. not (is_normal c)) (linked_paths.components "link") ≡ false)
resolve_existing_file-inside_example =
    resolve_existing_file-inside linked_paths linked_host place linked_host-FollowsLinks "/work/"
      "link" "/work/note" [] [] resolves

abbrev context : ToolExecutionContext
context = record { thread_id = "thread"; turn_id = "turn"; workspace = none; metadata = [] }

abbrev call : PreparedToolCall Value
call = record {
  call_id = "call";
  action = record {
    tool_name = "apply_patch";
    arguments = fields (("path", "file") ∷ ("before", "old") ∷ ("after", "new") ∷ []);
    effect = EffectKind.workspace_write;
    retry_safety = RetrySafety.unsafe;
    scope = some "work";
  };
}

fails :
    execute json paths host "work" call context (b'o' ∷ []) ≡ (err (outcome_unknown "no space"), [])
unfolding execute checked_path resolve_existing_file validate_relative any read_text string_argument
fails = refl

abbrev nothing : Bytes
nothing = []

abbrev before : Bytes
before = b'o' ∷ []

execute-IsSafe_example :
    (nothing ≡ before)
    ⊎ ((message : String) × (outcome_unknown "no space" ≡ outcome_unknown message))
execute-IsSafe_example =
    execute-IsSafe json paths host "work" (λ w. w) preserves call context (b'o' ∷ []) []
      (outcome_unknown "no space") fails
