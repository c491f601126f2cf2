-- ===== src/Tui/Previews.antt =====
-- crates/tui/src/progress.rs: the bounds of what the buffer holds.
use nausicaa.Prelude.{
  ℕ, zero, suc, ◌+◌, ◌-◌, ◌≤◌, ◌≡◌, refl, sym, ap, ◌∙◌, arith, String, true, Option, none, some,
  List, [], ◌∷◌, Result, ok, err, Done, ltb, length, byte_len, push, Bool-cases, inl, inr,
}
use Prim.Native.String.{◌++◌}
use nausicaa.Prelude.Exec.{Exec}
use nausicaa.Prelude.Utf8.{is_char_boundary, slice_from, width}
use nausicaa.Process.Slices.{is_char_boundary-append_len, append-nil}
use nausicaa.Tui.Progress.{
  ModelProgress, started, text_delta, finished, ModelProgressEvent, ModelProgressBuffer, Snapshot,
  next_boundary, truncate_to, max_preview, truncated_progress, extend, draft_after, keep_latest,
  after_write, write_record, observe, on_progress, same_request,
}

byte_len-slice_from : (s : String) (i : ℕ) → byte_len (slice_from s i) ≤ byte_len s - i
unfolding byte_len slice_from
byte_len-slice_from s zero = omega arith
byte_len-slice_from String.[] (suc i) = omega arith
byte_len-slice_from (String.◌∷◌ c s) (suc i) =
    omega (arith, byte_len-slice_from s (suc i - width c))

next_boundary-le : (text : String) (left start : ℕ) → start ≤ next_boundary text left start
unfolding next_boundary
next_boundary-le text zero start = omega arith
next_boundary-le text (suc left) start = elim (Bool-cases (is_char_boundary text start)) [
  | inl e ↦ rw (next_boundary, e) (omega arith)
  | inr e ↦ rw (next_boundary, e) (omega (arith, next_boundary-le text left (suc start)))
]

is_char_boundary-byte_len : (text : String) → is_char_boundary text (byte_len text) ≡ true
is_char_boundary-byte_len text =
    ap (λ t. is_char_boundary t (byte_len text)) (sym (append-nil text))
    ∙ is_char_boundary-append_len text String.[]

-- The loop ends at a boundary: the bytes that are left are enough for it.
next_boundary-boundary :
    (text : String) (left start : ℕ)
    → left + start ≡ byte_len text
    → is_char_boundary text (next_boundary text left start) ≡ true
unfolding next_boundary
next_boundary-boundary text zero start h =
    ap (is_char_boundary text) (omega (arith, h)) ∙ is_char_boundary-byte_len text
next_boundary-boundary text (suc left) start h = elim (Bool-cases (is_char_boundary text start)) [
  | inl e ↦ rw (next_boundary, e) e
  | inr e ↦ rw (next_boundary, e) (next_boundary-boundary text left (suc start) (omega (arith, h)))
]

byte_len-truncate_to : (maximum : ℕ) (text : String) → byte_len (truncate_to maximum text) ≤ maximum
unfolding truncate_to
byte_len-truncate_to maximum text = elim (Bool-cases (ltb maximum (byte_len text))) [
  | inl e ↦
      let start = next_boundary text maximum (byte_len text - maximum) in
      rw (truncate_to, e)
        (omega (
          arith,
          byte_len-slice_from text start,
          next_boundary-le text maximum (byte_len text - maximum),
        ))
  | inr e ↦ rw (truncate_to, e) (ground (arith, e))
]

-- a text of at most so many bytes
abbrev pub IsShort : ModelProgress → Type 0
IsShort started = Unit
IsShort (text_delta text) = byte_len text ≤ max_preview
IsShort (finished timings outcome) = Unit

abbrev pub IsPreview : Option ModelProgressEvent → Type 0
IsPreview none = Unit
IsPreview (some event) = IsShort event.progress

pub record IsBounded {F : Type 0} (buffer : ModelProgressBuffer F) : Type 0 where
  pub preview : IsPreview buffer.state.draft
  pub few : length buffer.state.completed ≤ 16

truncated_progress-IsShort : (progress : ModelProgress) → IsShort (truncated_progress progress)
truncated_progress-IsShort started = tt
truncated_progress-IsShort (text_delta text) = byte_len-truncate_to max_preview text
truncated_progress-IsShort (finished timings outcome) = tt

extend-IsPreview :
    (progress : ModelProgress) (old : ModelProgressEvent) (text : String)
    (event : ModelProgressEvent)
    → IsPreview (some (extend progress old text event))
extend-IsPreview started old text event = truncated_progress-IsShort event.progress
extend-IsPreview (text_delta previous) old text event =
    byte_len-truncate_to max_preview (previous ++ text)
extend-IsPreview (finished timings outcome) old text event =
    truncated_progress-IsShort event.progress

draft_after-IsPreview :
    (draft : Option ModelProgressEvent) (text : String) (event : ModelProgressEvent)
    → IsPreview (some (draft_after draft text event))
draft_after-IsPreview none text event = truncated_progress-IsShort event.progress
draft_after-IsPreview (some old) text event = elim (Bool-cases (same_request old event)) [
  | inl e ↦ rw e (extend-IsPreview old.progress old text event)
  | inr e ↦ rw e (truncated_progress-IsShort event.progress)
]

length-keep_latest : (events : List ModelProgressEvent) → length (keep_latest events) ≤ 16
unfolding keep_latest
length-keep_latest [] = omega arith
length-keep_latest (e ∷ es) = elim (Bool-cases (ltb 16 (length (e ∷ es)))) [
  | inl many ↦ rw (keep_latest, many) (length-keep_latest es)
  | inr few ↦ rw (keep_latest, few) (ground (arith, few))
]

module _ {F : Type 0} (write_metrics : ModelProgressEvent → Exec F String Done) where
  after_write-draft :
      (state : Snapshot) (r : Result Done String × F)
      → (after_write write_metrics state r).state.draft ≡ state.draft
  after_write-draft state (ok d, file) = refl
  after_write-draft state (err message, file) = refl

  write_record-draft :
      (metrics : Option F) (event : ModelProgressEvent) (buffer : ModelProgressBuffer F)
      → (write_record write_metrics metrics event buffer).state.draft ≡ buffer.state.draft
  write_record-draft none event buffer = refl
  write_record-draft (some file) event buffer =
      after_write-draft buffer.state (write_metrics event file)

  observe-IsBounded :
      (progress : ModelProgress) (event : ModelProgressEvent) (buffer : ModelProgressBuffer F)
      → event.progress ≡ progress
      → IsBounded buffer
      → IsBounded (observe write_metrics progress event buffer)
  observe-IsBounded started event buffer e h = record { preview = rw e tt; few = h.few }
  observe-IsBounded (text_delta text) event buffer e h = record {
    preview = draft_after-IsPreview buffer.state.draft text event;
    few = h.few;
  }
  observe-IsBounded (finished timings outcome) event buffer e h =
      let written = write_record write_metrics buffer.metrics event buffer in
      record {
        preview = rw (write_record-draft buffer.metrics event buffer) h.preview;
        few = length-keep_latest (push event written.state.completed);
      }

  -- Whatever is observed, in any order, the buffer holds at most sixteen requests that are finished
  -- and a draft of at most 65536 bytes, also where a metrics record cannot be written: a buffer
  -- within these bounds stays within them.
  pub on_progress-IsBounded :
      (event : ModelProgressEvent) (buffer : ModelProgressBuffer F)
      → IsBounded buffer
      → IsBounded (on_progress write_metrics event buffer)
  unfolding on_progress
  on_progress-IsBounded event buffer h = observe-IsBounded event.progress event buffer refl h
