-- ===== src/Provider/Stream.antt =====
-- crates/provider-openai/src/stream.rs: `Decoder`. The callback that is given each draft of text is
-- the list `drafts`; `from_utf8` is `std::str::from_utf8`.
use nausicaa.Prelude.{
  ℕ, String, Bool, true, false, ◌&&◌, Option, none, some, List, [], ◌∷◌, Result, ok, err, Done,
  if◌then◌else◌, ltb, eqb, length, byte_len, push as push_back, ◌==◌, string_ord, nat_ord,
}
use Prim.Native.Char.{code}
use Prim.Native.String.{◌++◌}
use nausicaa.Prelude.Exec.{Exec, ◌>>=◌, ◌>>◌, pure, throw}
use nausicaa.Prelude.BTreeMap.{BTreeMap, get, insert}
use nausicaa.Prelude.Strings.{is_empty, trim}
use nausicaa.Prelude.LogFile.{Bytes}
use nausicaa.Provider.{StreamJson}

abbrev pub max_frame : ℕ
max_frame = 1048576

pub data TransportError : Type 0 where
  io : String → TransportError
  protocol : String → TransportError
  http : ℕ → String → TransportError

pub record Call : Type 0 where
  pub id : String
  pub name : String
  pub arguments : String

pub record Decoder (V : Type 0) : Type 0 where
  pub pending : Bytes
  pub data_ : String
  pub content : String
  pub calls : BTreeMap ℕ Call
  pub finish_reason : Option String
  pub usage : V
  pub done : Bool
  pub drafts : List String

-- `trim_end_matches('\r')`
abbrev pub trim_carriage_returns : String → String
trim_carriage_returns String.[] = String.[]
trim_carriage_returns (String.◌∷◌ c s) =
    let rest = trim_carriage_returns s in
    if is_empty rest && eqb (code c) b'\r' then String.[] else String.◌∷◌ c rest

-- `s.strip_prefix(p)`, with the prefix first
unfoldable pub strip_prefix : String → String → Option String
strip_prefix String.[] s = some s
strip_prefix (String.◌∷◌ c p) String.[] = none
strip_prefix (String.◌∷◌ c p) (String.◌∷◌ d s) =
    let rest = strip_prefix p s in if eqb (code c) (code d) then rest else none

abbrev pub without_space : String → String
without_space data_ = elim (strip_prefix " " data_) [ none ↦ data_ | some rest ↦ rest ]

abbrev pub empty_call : Call
empty_call = record { id = ""; name = ""; arguments = "" }

module _ {V : Type 0} (json : StreamJson V) where
  abbrev pub Step : Type 0 → Type 0
  Step A = Exec (Decoder V) TransportError A

  abbrev pub fail : {A : Type 0} → String → Step A
  fail message = throw (protocol message)

  -- `ok_or_else`
  abbrev pub or_fail : {A : Type 0} → Option A → String → Step A
  or_fail none message = fail message
  or_fail (some a) message = pure a

  abbrev pub check : Bool → String → Step Done
  check true message = pure tt
  check false message = fail message

  abbrev pub and_then : {A : Type 0} → Option V → (V → Option A) → Option A
  and_then none f = none
  and_then (some v) f = f v

  -- `filter(|v| !v.is_null())`
  abbrev pub non_null : Option V → Option V
  non_null none = none
  non_null (some v) = if json.is_null v then none else some v

  -- what an `if let` does with a field that is there
  abbrev pub when_some : Option V → (V → Step Done) → Step Done
  when_some none f = pure tt
  when_some (some v) f = f v

  abbrev pub add_draft : String → Step Done
  add_draft text s =
      if is_empty text
      then (ok tt, s)
      else (ok tt, record s { content = s.content ++ text; drafts = push_back text s.drafts })

  abbrev pub on_content : V → Step Done
  on_content v = do
    text ← or_fail (json.as_str v) "stream text delta must be a string"
    add_draft text

  abbrev pub refuse_legacy : Option V → Step Done
  refuse_legacy none = pure tt
  refuse_legacy (some v) = fail "legacy streamed function_call is unsupported"

  -- `entry(index).or_default()`
  abbrev pub entry : ℕ → Decoder V → Call
  entry index s = elim (get index s.calls) [ none ↦ empty_call | some call ↦ call ]

  abbrev pub change_call : ℕ → (Call → Call) → Step Done
  change_call index change s =
      (ok tt, record s { calls = insert index (change (entry index s)) s.calls })

  abbrev pub add_id : ℕ → V → Step Done
  add_id index v = do
    text ← or_fail (json.as_str v) "invalid stream call id"
    change_call index (λ call. record call { id = call.id ++ text })

  abbrev pub add_name : ℕ → V → Step Done
  add_name index v = do
    text ← or_fail (json.as_str v) "invalid streamed function name"
    change_call index (λ call. record call { name = call.name ++ text })

  abbrev pub add_arguments : ℕ → V → Step Done
  add_arguments index v = do
    text ← or_fail (json.as_str v) "invalid streamed arguments fragment"
    change_call index (λ call. record call { arguments = call.arguments ++ text })

  -- a kind other than the string "function"
  abbrev pub is_function : Option String → Bool
  is_function none = false
  is_function (some kind) = kind == "function"

  abbrev pub check_type : V → Step Done
  check_type kind = check (is_function (json.as_str kind)) "unsupported streamed tool type"

  abbrev pub on_function : ℕ → V → Step Done
  on_function index function = do
    when_some (non_null (json.get "name" function)) (add_name index)
    when_some (non_null (json.get "arguments" function)) (add_arguments index)

  abbrev pub below : ℕ → Option ℕ → Option ℕ
  below maximum none = none
  below maximum (some n) = if ltb n maximum then some n else none

  abbrev pub on_call : V → Step Done
  on_call call = do
    index ←
        or_fail (below 128 (and_then (json.get "index" call) json.as_u64))
          "stream tool index must be below 128"
    change_call index (λ collected. collected)
    when_some (non_null (json.get "id" call)) (add_id index)
    when_some (non_null (json.get "type" call)) check_type
    when_some (json.get "function" call) (on_function index)

  -- a `for` loop whose body may return an error
  unfoldable pub for_each : (V → Step Done) → List V → Step Done
  for_each body [] = pure tt
  for_each body (v ∷ rest) = body v >> for_each body rest

  abbrev pub on_calls : V → Step Done
  on_calls v = do
    calls ← or_fail (json.as_array v) "stream tool_calls must be an array"
    for_each on_call calls

  abbrev pub on_delta : V → Step Done
  on_delta delta = do
    when_some (non_null (json.get "content" delta)) on_content
    refuse_legacy (json.get "function_call" delta)
    when_some (json.get "tool_calls" delta) on_calls

  abbrev pub is_zero : Option ℕ → Bool
  is_zero none = false
  is_zero (some n) = eqb n 0

  abbrev pub unfinished : Step Done
  unfinished s = elim s.finish_reason [
    | none ↦ (ok tt, s)
    | some reason ↦ (err (protocol "choice data followed its finish reason"), s)
  ]

  abbrev pub on_reason : V → Step Done
  on_reason v = do
    reason ← or_fail (json.as_str v) "invalid stream finish reason"
    λ s. (ok tt, record s { finish_reason = some reason })

  abbrev pub check_index : V → Step Done
  check_index choice =
      check (is_zero (and_then (json.get "index" choice) json.as_u64))
        "unexpected stream choice index"

  abbrev pub on_choice : V → Step Done
  on_choice choice = do
    check_index choice
    unfinished
    when_some (json.get "delta" choice) on_delta
    when_some (non_null (json.get "finish_reason" choice)) on_reason

  abbrev pub on_choices : List V → Step Done
  on_choices choices =
      if ltb 1 (length choices)
      then fail "multiple streaming choices are unsupported"
      else for_each on_choice choices

  abbrev pub refuse_error : Option V → Step Done
  refuse_error none = pure tt
  refuse_error (some v) = fail ("provider stream error: " ++ json.display v)

  abbrev pub set_usage : V → Step Done
  set_usage v s = (ok tt, record s { usage = v })

  abbrev pub on_frame : V → Step Done
  on_frame frame = do
    refuse_error (json.get "error" frame)
    when_some (non_null (json.get "usage" frame)) set_usage
    choices ←
        or_fail (and_then (json.get "choices" frame) json.as_array) "stream frame has no choices"
    on_choices choices

  abbrev pub on_parsed : Result V String → Step Done
  on_parsed (err message) = fail ("invalid stream JSON: " ++ message)
  on_parsed (ok frame) = on_frame frame

  abbrev pub on_done : Step Done
  on_done s = elim s.finish_reason [
    | none ↦ (err (protocol "stream ended without a finish reason"), s)
    | some reason ↦ (ok tt, record s { done = true })
  ]

  unfoldable pub dispatch : Step Done
  unfolding for_each
  dispatch s =
      let taken = record s { data_ = "" } in
      let finished = on_done taken in
      let parsed = on_parsed (json.parse s.data_) taken in
      if is_empty s.data_ then (ok tt, s) else if trim s.data_ == "[DONE]" then finished else parsed

  abbrev pub add_data : Option String → Step Done
  add_data none s = (ok tt, s)
  add_data (some data_) s =
      let grown = record s { data_ = s.data_ ++ without_space data_ ++ "\n" } in
      if s.done
      then (err (protocol "stream data followed [DONE]"), s)
      else if ltb max_frame (byte_len grown.data_)
      then (err (protocol "stream event exceeds 1 MiB"), grown)
      else (ok tt, grown)

  unfoldable pub line : String → Step Done
  unfolding dispatch strip_prefix
  line text s =
      let dispatched = dispatch s in
      if is_empty text then dispatched else add_data (strip_prefix "data:" text) s

  module _ (from_utf8 : Bytes → Option String) where
    unfoldable pub push_byte : ℕ → Step Done
    unfolding line
    push_byte byte s =
        let grown = record s { pending = push_back byte s.pending } in
        let ended =
          (do
            text ← or_fail (from_utf8 s.pending) "stream contains invalid UTF-8"
            line (trim_carriage_returns text))
            (record s { pending = [] }) in
        if eqb byte b'\n'
        then ended
        else if ltb max_frame (length grown.pending)
        then (err (protocol "stream line exceeds 1 MiB"), grown)
        else (ok tt, grown)

    unfoldable pub push : Bytes → Step Done
    unfolding push_byte
    push [] = pure tt
    push (byte ∷ bytes) = push_byte byte >> push bytes
