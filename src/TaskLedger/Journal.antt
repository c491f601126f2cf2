-- ===== src/TaskLedger/Journal.antt =====
-- crates/task-ledger/src/lib.rs: `apply_event`, `terminal`, `append_locked` and `open`.
use nausicaa.Prelude.{
  ℕ, ◌+◌, ◌%◌, ◌^◌, suc, String, false, Option, none, some, List, [], ◌∷◌, ◌++◌, Result, ok, err,
  Done, if◌then◌else◌, leb, is_blank, string_ord,
}
use nausicaa.Prelude.Results.{◌>>=◌}
use nausicaa.Prelude.BTreeMap.{BTreeMap, get, insert, values}
use nausicaa.Prelude.LogFile.{LogFile, Bytes, write_line}
use nausicaa.TaskLedger.{
  TaskId, TaskStatus, DeliveryState, TaskLease, TaskRecord, LedgerEvent, LedgerEnvelope,
  LedgerError, Failure, Ledger, LedgerHost, submitted, claimed, heartbeat, succeeded, failed,
  cancelled, marked_unknown, delivery_acknowledged, unknown_task, error, panicked, Operation,
}

abbrev pub Tasks : Type 0 → Type 0
Tasks V = BTreeMap TaskId (TaskRecord V)

abbrev pub extended : ℕ → Option TaskLease → Option TaskLease
extended expires none = none
extended expires (some lease) = some (record lease { expires_at_unix_ms = expires })

abbrev pub next_after : ℕ → ℕ → ℕ
next_after next sequence =
    let after = (sequence + 1) % 2 ^ 64 in if leb next after then after else next

module _ {V : Type 0} where
  -- `get_mut`, with the failure for a task that is not there
  unfoldable pub update :
      Failure → TaskId → (TaskRecord V → TaskRecord V) → Tasks V → Result (Tasks V) Failure
  update missing task_id change tasks = elim (get task_id tasks) [
    | none ↦ err missing
    | some task ↦ ok (insert task_id (change task) tasks)
  ]

  abbrev pub end_with : TaskStatus → Option String → ℕ → TaskRecord V → TaskRecord V
  end_with status e event_time task = record task {
    status = status;
    lease = none;
    error = e;
    delivery = DeliveryState.pending;
    updated_at_unix_ms = event_time;
  }

  unfoldable pub terminal :
      TaskId → TaskStatus → Option String → ℕ → Tasks V → Result (Tasks V) Failure
  unfolding update
  terminal task_id status e event_time =
      update (error (unknown_task task_id)) task_id (end_with status e event_time)

  abbrev pub start : TaskLease → ℕ → TaskRecord V → TaskRecord V
  start lease event_time task = record task {
    status = TaskStatus.running;
    attempt = (task.attempt + 1) % 2 ^ 32;
    lease = some lease;
    updated_at_unix_ms = event_time;
  }

  abbrev pub extend_lease : ℕ → ℕ → TaskRecord V → TaskRecord V
  extend_lease expires event_time task = record task {
    lease = extended expires task.lease;
    updated_at_unix_ms = event_time;
  }

  abbrev pub acknowledge : ℕ → TaskRecord V → TaskRecord V
  acknowledge event_time task = record task {
    delivery = DeliveryState.acknowledged;
    updated_at_unix_ms = event_time;
  }

  abbrev pub set_result : V → TaskRecord V → TaskRecord V
  set_result value task = record task { result = some value }

  unfoldable pub apply_event : Tasks V → LedgerEvent V → ℕ → Result (Tasks V) Failure
  unfolding update terminal
  apply_event tasks (submitted task) event_time = ok (insert task.id task tasks)
  apply_event tasks (claimed task_id lease) event_time =
      update (error (unknown_task task_id)) task_id (start lease event_time) tasks
  apply_event tasks (heartbeat task_id expires) event_time =
      update (error (unknown_task task_id)) task_id (extend_lease expires event_time) tasks
  apply_event tasks (succeeded task_id value) event_time =
      terminal task_id TaskStatus.succeeded none event_time tasks >>= λ ended.
      update panicked task_id (set_result value) ended
  apply_event tasks (failed task_id reason) event_time =
      terminal task_id TaskStatus.failed (some reason) event_time tasks
  apply_event tasks (cancelled task_id reason) event_time =
      terminal task_id TaskStatus.cancelled (some reason) event_time tasks
  apply_event tasks (marked_unknown task_id reason) event_time =
      terminal task_id TaskStatus.unknown (some reason) event_time tasks
  apply_event tasks (delivery_acknowledged task_id) event_time =
      update (error (unknown_task task_id)) task_id (acknowledge event_time) tasks

  abbrev pub index_submission : LedgerEvent V → BTreeMap String TaskId → BTreeMap String TaskId
  index_submission (submitted task) keys = insert task.idempotency_key task.id keys
  index_submission _ keys = keys

module _ {V H F : Type 0} (host : LedgerHost H) (log : LogFile F)
    (encode : LedgerEnvelope V → Result Bytes String) where
  -- what follows the sync of the line
  abbrev pub after_apply :
      LedgerEvent V → Result (Tasks V) Failure → Ledger V H F → Result Done Failure × Ledger V H F
  after_apply event (err e) s = (err e, s)
  after_apply event (ok tasks) s = (
    ok tt,
    record s {
      tasks = tasks;
      idempotency = index_submission event s.idempotency;
      next_sequence = (s.next_sequence + 1) % 2 ^ 64;
    },
  )

  abbrev pub after_write :
      LedgerEnvelope V → Result Done String → Ledger V H F → Result Done Failure × Ledger V H F
  after_write envelope (err message) s = (err (error (LedgerError.io message)), s)
  after_write envelope (ok _) s =
      after_apply envelope.event (apply_event s.tasks envelope.event envelope.at_unix_ms)
        (record s { written = s.written ++ envelope ∷ [] })

  abbrev pub write_envelope :
      LedgerEnvelope V → Result Bytes String → Ledger V H F → Result Done Failure × Ledger V H F
  write_envelope envelope (err message) s = (err (error (LedgerError.serialization message)), s)
  write_envelope envelope (ok bytes) s =
      let (result, f) = write_line log bytes s.file in
      after_write envelope result (record s { file = f })

  unfoldable pub append_locked : LedgerEvent V → Operation V H F Done
  append_locked event s =
      let (now, h) = host.now_ms s.host in
      let envelope : LedgerEnvelope V = record {
        sequence = s.next_sequence;
        at_unix_ms = now;
        event = event;
      } in
      write_envelope envelope (encode envelope) (record s { host = h })

-- What `open` reads: a line that is not UTF-8 is an error of the reader.
-- the tasks, the next sequence number and the envelopes read
abbrev pub Replayed : Type 0 → Type 0
Replayed V = Tasks V × ℕ × List (LedgerEnvelope V)

abbrev pub replay_envelope :
    {V : Type 0} → Replayed V → LedgerEnvelope V → Result (Replayed V) Failure
replay_envelope (tasks, next, read) envelope =
    apply_event tasks envelope.event envelope.at_unix_ms >>= λ after.
    ok (after, next_after next envelope.sequence, read ++ envelope ∷ [])

abbrev pub decoded :
    {V : Type 0} → ℕ → Result (LedgerEnvelope V) String → Result (LedgerEnvelope V) Failure
decoded line (ok envelope) = ok envelope
decoded line (err message) = err (error (LedgerError.corrupt line message))

module _ {V : Type 0} (decode : String → Result (LedgerEnvelope V) String) where
  -- the loop of `open`, from a line's index on
  unfoldable pub replay_lines :
      ℕ → List (Result String String) → Replayed V → Result (Replayed V) Failure
  replay_lines index [] state = ok state
  replay_lines index (err message ∷ lines) state = err (error (LedgerError.io message))
  replay_lines index (ok line ∷ lines) state =
      let skip = replay_lines (suc index) lines state in
      if is_blank line
      then skip
      else decoded (suc index) (decode line) >>= λ envelope.
          replay_envelope state envelope >>= λ after. replay_lines (suc index) lines after

  abbrev pub index_tasks : List (TaskRecord V) → BTreeMap String TaskId → BTreeMap String TaskId
  index_tasks [] keys = keys
  index_tasks (task ∷ tasks) keys = index_tasks tasks (insert task.idempotency_key task.id keys)

  -- `open`, from the lines of the file
  unfoldable pub open_ledger :
      {H F : Type 0} → List (Result String String) → F → H → Result (Ledger V H F) Failure
  unfolding replay_lines
  open_ledger lines file host =
      replay_lines 0 lines ([], 0, []) >>= λ (tasks, next_sequence, written). ok (record {
        is_poisoned = false;
        file = file;
        next_sequence = next_sequence;
        tasks = tasks;
        idempotency = index_tasks (values tasks) [];
        written = written;
        host = host;
      })
