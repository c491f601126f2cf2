-- ===== src/Task/Journal.antt =====
-- crates/task/src/lib.rs: `TaskJournal`, over the state machine of `State`. The file is a `LogFile`;
-- `encode` and `decode` are `serde_json` on a `Record`.
-- A sequence number is a `usize` of 64 bits.
use nausicaa.Prelude.{
  ℕ, ◌+◌, ◌%◌, ◌^◌, String, Bool, true, false, not, ◌||◌, Option, none, some, List, [], ◌∷◌, ◌++◌,
  Result, ok, err, Done, if◌then◌else◌, eqb,
}
use nausicaa.Prelude.Results.{◌>>=◌}
use nausicaa.Prelude.Exec.{Exec, ◌>>◌}
use nausicaa.Prelude.LogFile.{LogFile, Bytes}
use nausicaa.Prelude.Lines.{ends_with_newline, split_inclusive}
use nausicaa.Core.Protocol.{ToolReceipt}
use nausicaa.Task.{
  ArtifactRef, TaskSpec, TaskState, TaskEvent, TaskError, created, attempt_started, attempt_checked,
  task_blocked, io, json, invalid,
}
use nausicaa.Task.State.{initial_state, apply}

pub record Record (V : Type 0) : Type 0 where
  pub version : ℕ  -- u32
  pub sequence : ℕ
  pub payload : TaskEvent V

pub record TaskJournal (V F : Type 0) : Type 0 where
  pub file : F
  pub state : TaskState V
  pub sequence : ℕ
  pub write_failed : Bool

-- the bytes, written and synced
abbrev pub write_synced : {F : Type 0} → LogFile F → Bytes → Exec F String Done
write_synced log bytes = do log.write_all bytes; log.sync_data

module _ {V F : Type 0} where
  abbrev pub saved : Result Done String → TaskJournal V F → Result Done TaskError × TaskJournal V F
  saved (err message) s = (err (io message), s)
  saved (ok _) s = (ok tt, record s { write_failed = false; sequence = (s.sequence + 1) % 2 ^ 64 })

module _ {V F : Type 0} (debug : String → String) (log : LogFile F)
    (encode : Record V → Result Bytes String) where
  -- the record's line, written and synced with the latch set
  abbrev pub write_record :
      Result Bytes String → TaskJournal V F → Result Done TaskError × TaskJournal V F
  write_record (err message) s = (err (json message), s)
  write_record (ok bytes) s =
      let (result, f) = write_synced log (bytes ++ b'\n' ∷ []) s.file in
      saved result (record s { file = f; write_failed = true })

  unfoldable pub append : TaskEvent V → Exec (TaskJournal V F) TaskError Done
  append payload s =
      let record_ : Record V = record { version = 1; sequence = s.sequence; payload = payload } in
      if s.write_failed
      then (err (invalid "previous write failed; reopen journal"), s)
      else write_record (encode record_) s

  abbrev pub publish :
      TaskState V
      → Result Done TaskError × TaskJournal V F
      → Result Done TaskError × TaskJournal V F
  publish next (err e, s) = (err e, s)
  publish next (ok _, s) = (ok tt, record s { state = next })

  unfoldable pub transition : TaskEvent V → Exec (TaskJournal V F) TaskError Done
  unfolding append
  transition event s = elim (apply debug s.state event) [
    | err e ↦ (err e, s)
    | ok next ↦ publish next (append event s)
  ]

  unfoldable pub start_attempt : String → Exec (TaskJournal V F) TaskError Done
  unfolding transition
  start_attempt turn_id = transition (attempt_started turn_id)

  unfoldable pub verify :
      List ArtifactRef → List (ToolReceipt V) → Exec (TaskJournal V F) TaskError Done
  unfolding transition
  verify artifacts receipts = transition (attempt_checked artifacts receipts)

  unfoldable pub block : String → Exec (TaskJournal V F) TaskError Done
  unfolding transition
  block reason = transition (task_blocked reason)

  abbrev pub returned : Result Done TaskError × TaskJournal V F → Result (TaskJournal V F) TaskError
  returned (err e, s) = err e
  returned (ok _, s) = ok s

  abbrev pub opened : Result F String → Result F TaskError
  opened (err message) = err (io message)
  opened (ok file) = ok file

  -- `file` is what `create_new` gives
  unfoldable pub create : Result F String → TaskSpec → Result (TaskJournal V F) TaskError
  unfolding append
  create file spec = initial_state spec >>= λ state. opened file >>= λ f. returned (
      append (created spec)
        (record { file = f; state = state; sequence = 0; write_failed = false }))

-- what the loop of `open` has: the state and the next sequence number
abbrev pub Replay : Type 0 → Type 0
Replay V = Option (TaskState V) × ℕ

module _ {V : Type 0} (debug : String → String) where
  abbrev pub replay_event : Option (TaskState V) → TaskEvent V → Result (TaskState V) TaskError
  replay_event none (created spec) = initial_state spec
  replay_event none _ = err (invalid "journal must begin with task creation")
  replay_event (some current) event = apply debug current event

  unfoldable pub replay_record : Replay V → Record V → Result (Replay V) TaskError
  replay_record (state, sequence) r =
      if not (eqb r.version 1) || not (eqb r.sequence sequence)
      then err (invalid "unsupported version or out-of-order sequence")
      else (replay_event state r.payload >>= λ next. ok (some next, (sequence + 1) % 2 ^ 64))

module _ {V : Type 0} (debug : String → String) (decode : Bytes → Result (Record V) String) where
  abbrev pub decoded : Bytes → Result (Record V) TaskError
  decoded line = elim (decode line) [ ok r ↦ ok r | err message ↦ err (json message) ]

  unfoldable pub replay_lines : List Bytes → Replay V → Result (Replay V) TaskError
  replay_lines [] state = ok state
  replay_lines (line ∷ lines) state =
      decoded line >>= λ r. replay_record debug state r >>= λ after. replay_lines lines after

  abbrev pub reopened :
      {F : Type 0} → Result F String → Replay V → Result (TaskJournal V F) TaskError
  reopened (err message) replayed = err (io message)
  reopened (ok file) (none, sequence) = err (invalid "missing task creation")
  reopened (ok file) (some state, sequence) =
      ok (record { file = file; state = state; sequence = sequence; write_failed = false })

  -- `open`, from what `read` gives and what opening the file again gives
  unfoldable pub open_journal :
      {F : Type 0} → Result Bytes String → Result F String → Result (TaskJournal V F) TaskError
  unfolding ends_with_newline split_inclusive replay_lines
  open_journal (err message) file = err (io message)
  open_journal (ok bytes) file =
      if ends_with_newline bytes
      then (replay_lines (split_inclusive bytes) (none, 0) >>= λ replayed. reopened file replayed)
      else err (invalid "empty or unterminated journal; inspect before recovery")
