-- ===== src/Tui/Tests.antt =====
-- A buffer that observes a text in two deltas.
use nausicaa.Prelude.{◌≡◌, refl, String, none, some, Done, arith, byte_len}
use nausicaa.Prelude.Exec.{Exec, pure}
use nausicaa.Tui.Progress.{
  text_delta, ModelProgressEvent, ModelProgressBuffer, empty_snapshot, on_progress, truncate_to,
  keep_latest,
}
use nausicaa.Tui.Previews.{IsBounded, on_progress-IsBounded}

abbrev delta : String → ModelProgressEvent
delta text = record {
  thread_id = "thread";
  turn_id = "turn";
  iteration = 1;
  progress = text_delta text;
}

abbrev unwritten : ModelProgressEvent → Exec Done String Done
unwritten event = pure tt

abbrev no_progress : ModelProgressBuffer Done
no_progress = record { state = empty_snapshot; metrics = none }

abbrev one_delta : ModelProgressBuffer Done
one_delta = record no_progress { state = record empty_snapshot { draft = some (delta "one ") } }

two_deltas : (on_progress unwritten (delta "two") one_delta).state.draft ≡ some (delta "one two")
unfolding on_progress truncate_to keep_latest byte_len
two_deltas = refl

one_delta-IsBounded : IsBounded one_delta
unfolding byte_len
one_delta-IsBounded = record { preview = omega arith; few = omega arith }

on_progress-IsBounded_example : IsBounded (on_progress unwritten (delta "two") one_delta)
on_progress-IsBounded_example =
    on_progress-IsBounded unwritten (delta "two") one_delta one_delta-IsBounded
