-- ===== src/Tui/Progress.antt =====
-- crates/tui/src/progress.rs: `ModelProgressBuffer`, and the events of
-- crates/harness-core/src/model.rs that it observes. `write_metrics` is the `writeln!` of the JSON
-- record of an event to the file of metrics.
use nausicaa.Prelude.{
  ℕ, zero, suc, ◌-◌, String, Bool, true, false, ◌&&◌, Option, none, some, List, [], ◌∷◌, Result, ok,
  err, Done, if◌then◌else◌, ltb, eqb, length, byte_len, push, ◌==◌, string_ord,
}
use Prim.Native.String.{◌++◌}
use nausicaa.Prelude.Exec.{Exec}
use nausicaa.Prelude.Utf8.{is_char_boundary, slice_from}
use nausicaa.Core.Id.{ThreadId, TurnId}

pub record RequestTimings : Type 0 where
  pub dns_ms : Option ℕ  -- u64, as the others
  pub tcp_connect_ms : Option ℕ
  pub tls_ms : Option ℕ
  pub first_byte_ms : Option ℕ
  pub first_text_ms : Option ℕ
  pub total_ms : ℕ

pub data ModelProgress : Type 0 where
  started : ModelProgress
  text_delta : String → ModelProgress
  finished : RequestTimings → String → ModelProgress

pub record ModelProgressEvent : Type 0 where
  pub thread_id : ThreadId
  pub turn_id : TurnId
  pub iteration : ℕ
  pub progress : ModelProgress

pub record Snapshot : Type 0 where
  pub draft : Option ModelProgressEvent
  pub completed : List ModelProgressEvent
  pub error : Option String

pub record ModelProgressBuffer (F : Type 0) : Type 0 where
  pub state : Snapshot
  pub metrics : Option F

abbrev pub empty_snapshot : Snapshot
empty_snapshot = record { draft = none; completed = []; error = none }

-- the snapshot, and the buffer without it
abbrev pub take : {F : Type 0} → ModelProgressBuffer F → Snapshot × ModelProgressBuffer F
take buffer = (buffer.state, record buffer { state = empty_snapshot })

-- the loop that moves to the next boundary, on the bytes that are left
unfoldable pub next_boundary : String → ℕ → ℕ → ℕ
next_boundary text zero start = start
next_boundary text (suc left) start = elim (is_char_boundary text start) [
  | true ↦ start
  | false ↦ next_boundary text left (suc start)
]

-- the text from the first boundary that leaves at most `maximum` bytes
unfoldable pub truncate_to : ℕ → String → String
unfolding next_boundary
truncate_to maximum text =
    if ltb maximum (byte_len text)
    then slice_from text (next_boundary text maximum (byte_len text - maximum))
    else text

abbrev pub max_preview : ℕ
max_preview = 65536

abbrev pub truncate : String → String
truncate text = truncate_to max_preview text

abbrev pub append_bounded : String → String → String
append_bounded previous text = truncate (previous ++ text)

abbrev pub same_request : ModelProgressEvent → ModelProgressEvent → Bool
same_request old event =
    old.turn_id == event.turn_id
    && eqb old.iteration event.iteration
    && old.thread_id == event.thread_id

abbrev pub truncated_progress : ModelProgress → ModelProgress
truncated_progress started = started
truncated_progress (text_delta text) = text_delta (truncate text)
truncated_progress (finished timings outcome) = finished timings outcome

abbrev pub truncated : ModelProgressEvent → ModelProgressEvent
truncated event = record event { progress = truncated_progress event.progress }

-- a delta of the same request goes on with the draft, where that is a text
abbrev pub extend :
    ModelProgress → ModelProgressEvent → String → ModelProgressEvent → ModelProgressEvent
extend started old text event = truncated event
extend (text_delta previous) old text event = record old {
  progress = text_delta (append_bounded previous text);
}
extend (finished timings outcome) old text event = truncated event

abbrev pub draft_after :
    Option ModelProgressEvent → String → ModelProgressEvent → ModelProgressEvent
draft_after none text event = truncated event
draft_after (some old) text event =
    if same_request old event then extend old.progress old text event else truncated event

-- the loop that drops the oldest above sixteen
unfoldable pub keep_latest : List ModelProgressEvent → List ModelProgressEvent
keep_latest [] = []
keep_latest (e ∷ es) =
    let rest = keep_latest es in if ltb 16 (length (e ∷ es)) then rest else e ∷ es

module _ {F : Type 0} (write_metrics : ModelProgressEvent → Exec F String Done) where
  abbrev pub after_write : Snapshot → Result Done String × F → ModelProgressBuffer F
  after_write state (ok d, file) = record { state = state; metrics = some file }
  after_write state (err message, file) = record {
    state = record state { error = some ("request metrics write failed: " ++ message) };
    metrics = some file;
  }

  abbrev pub write_record :
      Option F → ModelProgressEvent → ModelProgressBuffer F → ModelProgressBuffer F
  write_record none event buffer = buffer
  write_record (some file) event buffer = after_write buffer.state (write_metrics event file)

  abbrev pub complete : ModelProgressEvent → ModelProgressBuffer F → ModelProgressBuffer F
  complete event buffer = record buffer {
    state = record buffer.state { completed = keep_latest (push event buffer.state.completed) };
  }

  abbrev pub observe :
      ModelProgress → ModelProgressEvent → ModelProgressBuffer F → ModelProgressBuffer F
  observe started event buffer = record buffer {
    state = record buffer.state { draft = some event };
  }
  observe (text_delta text) event buffer = record buffer {
    state = record buffer.state { draft = some (draft_after buffer.state.draft text event) };
  }
  observe (finished timings outcome) event buffer =
      complete event (write_record buffer.metrics event buffer)

  unfoldable pub on_progress : ModelProgressEvent → ModelProgressBuffer F → ModelProgressBuffer F
  unfolding truncate_to keep_latest
  on_progress event buffer = observe event.progress event buffer
