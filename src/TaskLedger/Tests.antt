-- ===== src/TaskLedger/Tests.antt =====
-- A ledger with one task: submitted, claimed, ended and read back.
use nausicaa.Prelude.{
  ◌<◌, ℕ, suc, ◌≡◌, refl, String, true, false, Option, none, some, List, inl, [], ◌∷◌, Result, ok,
  err, Done, arith, ◌==◌, string_ord, if◌then◌else◌, is_blank,
}
use nausicaa.Prelude.BTreeMap.{get, insert}
use nausicaa.Prelude.LogFile.{LogFile, Bytes, write_line}
use nausicaa.TaskLedger.{
  TaskStatus, DeliveryState, TaskLease, LeaseToken, TaskRecord, Submission, LedgerEnvelope, Ledger,
  LedgerHost, claimed, submitted,
}
use nausicaa.TaskLedger.Journal.{append_locked, apply_event, open_ledger, replay_lines}
use nausicaa.TaskLedger.Operations.{recover_expired, submit, succeed, heartbeat_task, require_lease}
use nausicaa.TaskLedger.Expiry.{IsKeyed}
use nausicaa.TaskLedger.Submitting.{submit-submit}
use nausicaa.TaskLedger.Fencing.{IsHeld, succeed-IsHeld, heartbeat_task-IsHeld}
use nausicaa.TaskLedger.Ended.{
  Call, heartbeat_call, fail_call, cancel_call, after_calls, after_calls-ended,
}
use nausicaa.TaskLedger.Indexed.{open_ledger-submit}
use nausicaa.TaskLedger.Reopened.{
  IsReplayed, Encodes, replay, appends, appends-open_ledger, append_locked-IsReplayed,
}

abbrev clock : LedgerHost ℕ
clock = record { now_ms = λ h. (h, suc h); fresh_thread_id = λ h. ("new", h) }

abbrev disk : LogFile Done
disk = record {
  write_all = λ bytes f. (ok tt, f);
  flush = λ f. (ok tt, f);
  sync_data = λ f. (ok tt, f);
}

abbrev encode : LedgerEnvelope ℕ → Result Bytes String
encode envelope = ok []

abbrev task : TaskStatus → Option TaskLease → Option ℕ → TaskRecord ℕ
task status lease result = record {
  id = "t";
  idempotency_key = "key";
  payload = 5;
  status = status;
  attempt = 1;
  lease = lease;
  result = result;
  error = none;
  delivery = DeliveryState.not_ready;
  created_at_unix_ms = 0;
  updated_at_unix_ms = 0;
}

abbrev lease : TaskLease
lease = record { worker_id = "worker"; expires_at_unix_ms = 10 }

abbrev token : LeaseToken
token = record { worker_id = "worker"; attempt = 1 }

abbrev ledger_of : TaskRecord ℕ → Ledger ℕ ℕ Done
ledger_of t = record {
  is_poisoned = false;
  file = tt;
  next_sequence = 1;
  tasks = ("t", t) ∷ [];
  idempotency = ("key", "t") ∷ [];
  written = record { sequence = 0; at_unix_ms = 0; event = submitted t } ∷ [];
  host = 7;
}

abbrev running : Ledger ℕ ℕ Done
running = ledger_of (task TaskStatus.running (some lease) none)

abbrev after_success : TaskRecord ℕ
after_success = record (task TaskStatus.succeeded none (some 42)) {
  delivery = DeliveryState.pending;
  updated_at_unix_ms = 7;
}

abbrev ended : Ledger ℕ ℕ Done
ended = (succeed clock disk encode "t" token 3 42 running).1

succeeds : succeed clock disk encode "t" token 3 42 running ≡ (ok after_success, ended)
unfolding succeed get require_lease append_locked write_line apply_event insert
succeeds = refl

succeed-IsHeld_example :
    (before : TaskRecord ℕ) × (held : TaskLease) × (get "t" running.tasks ≡ some before)
    × IsHeld token 3 before held
    × (get "t" ended.tasks ≡ some after_success)
    × (after_success.status ≡ TaskStatus.succeeded)
    × (after_success.result ≡ some 42)
    × (after_success.lease ≡ none)
    × (after_success.delivery ≡ DeliveryState.pending)
    × (after_success.attempt ≡ before.attempt)
succeed-IsHeld_example =
    succeed-IsHeld clock disk encode "t" token 3 42 running ended after_success succeeds

abbrev finished : Ledger ℕ ℕ Done
finished = ledger_of after_success

found_finished : get "t" finished.tasks ≡ some after_success
unfolding get
found_finished = refl

-- late calls of the worker, and of a client
abbrev late_calls : List (Call ℕ)
late_calls =
    heartbeat_call "t" token 3 20 ∷ fail_call "t" token 3 "late" ∷ cancel_call "t" "stop" ∷ []

after_calls-ended_example :
    get "t" (after_calls clock disk encode late_calls finished).tasks ≡ some after_success
after_calls-ended_example =
    after_calls-ended clock disk encode "t" after_success late_calls finished found_finished
      (inl refl)

abbrev empty : Ledger ℕ ℕ Done
empty = record {
  is_poisoned = false;
  file = tt;
  next_sequence = 0;
  tasks = [];
  idempotency = [];
  written = [];
  host = 7;
}

abbrev submission : Submission ℕ
submission = record {
  task = record {
    id = "task_new";
    idempotency_key = "key";
    payload = 5;
    status = TaskStatus.pending;
    attempt = 0;
    lease = none;
    result = none;
    error = none;
    delivery = DeliveryState.not_ready;
    created_at_unix_ms = 7;
    updated_at_unix_ms = 7;
  };
  created = true;
}

abbrev one_task : Ledger ℕ ℕ Done
one_task = (submit clock disk encode "key" 5 empty).1

submits : submit clock disk encode "key" 5 empty ≡ (ok submission, one_task)
unfolding submit get append_locked write_line apply_event
submits = refl

submit-submit_example :
    submit clock disk encode "key" 6 one_task
    ≡ (ok (record { task = submission.task; created = false }), one_task)
submit-submit_example = submit-submit clock disk encode "key" 5 6 empty one_task submission submits

abbrev decode : String → Result (LedgerEnvelope ℕ) String
decode line =
    if line == "first"
    then ok (record { sequence = 0; at_unix_ms = 0; event = submitted after_success })
    else err "unknown line"

abbrev taken : Ledger ℕ ℕ Done
taken = (appends clock disk encode (submitted after_success ∷ []) (record empty { host = 0 })).1

appended :
    appends clock disk encode (submitted after_success ∷ []) (record empty { host = 0 })
    ≡ (ok tt, taken)
unfolding append_locked write_line apply_event
appended = refl

taken-Encodes : Encodes decode (ok "first" ∷ []) taken.written
unfolding is_blank append_locked write_line apply_event
taken-Encodes = (refl, refl, tt)

appends-open_ledger_example :
    (t : Ledger ℕ ℕ Done) × (open_ledger decode (ok "first" ∷ []) tt 0 ≡ ok t)
    × (t.tasks ≡ taken.tasks)
    × (t.next_sequence ≡ taken.next_sequence)
    × (t.written ≡ taken.written)
appends-open_ledger_example =
    appends-open_ledger clock disk encode decode (submitted after_success ∷ [])
      (record empty { host = 0 }) taken tt (ok "first" ∷ []) tt 0 refl refl refl (omega arith)
      appended taken-Encodes

abbrev opened : Ledger ℕ ℕ Done
opened = record finished { host = 0 }

opens : open_ledger decode (ok "first" ∷ []) tt 0 ≡ ok opened
unfolding open_ledger replay_lines apply_event insert is_blank
opens = refl

finished-IsKeyed : IsKeyed finished.tasks
unfolding get
finished-IsKeyed = (refl, refl, tt)

open_ledger-submit_example :
    (found : TaskRecord ℕ) × (found.idempotency_key ≡ "key")
    × (submit clock disk encode "key" 6 opened
        ≡ (ok (record { task = found; created = false }), opened))
open_ledger-submit_example =
    open_ledger-submit clock disk encode decode (ok "first" ∷ []) tt 0 opened "t" after_success 6
      opens finished-IsKeyed found_finished

abbrev waiting : Ledger ℕ ℕ Done
waiting = ledger_of (task TaskStatus.pending none none)

waiting-IsReplayed : IsReplayed waiting
unfolding replay apply_event insert
waiting-IsReplayed = refl

abbrev claimed_ledger : Ledger ℕ ℕ Done
claimed_ledger = (append_locked clock disk encode (claimed "t" lease) waiting).1

claims : append_locked clock disk encode (claimed "t" lease) waiting ≡ (ok tt, claimed_ledger)
unfolding append_locked write_line apply_event get
claims = refl

append_locked-IsReplayed_example : IsReplayed claimed_ledger
append_locked-IsReplayed_example =
    append_locked-IsReplayed clock disk encode (claimed "t" lease) waiting claimed_ledger tt claims
      (omega arith) waiting-IsReplayed

abbrev lost_record : TaskRecord ℕ
lost_record = record (task TaskStatus.unknown none none) {
  error = some "worker lease expired; completion cannot be determined";
  delivery = DeliveryState.pending;
  updated_at_unix_ms = 7;
}

abbrev lost_ledger : Ledger ℕ ℕ Done
lost_ledger = (recover_expired clock disk encode 11 running).1

abbrev held : TaskRecord ℕ
held = task TaskStatus.running (some lease) none

abbrev extended_record : TaskRecord ℕ
extended_record =
    record (task TaskStatus.running (some (record lease { expires_at_unix_ms = 20 })) none) {
      updated_at_unix_ms = 7;
    }

abbrev extended_ledger : Ledger ℕ ℕ Done
extended_ledger = (heartbeat_task clock disk encode "t" token 3 20 running).1

extends :
    heartbeat_task clock disk encode "t" token 3 20 running ≡ (ok extended_record, extended_ledger)
unfolding heartbeat_task get require_lease append_locked write_line apply_event insert
extends = refl

heartbeat_task-IsHeld_example :
    (before : TaskRecord ℕ) × (held : TaskLease) × (get "t" running.tasks ≡ some before)
    × IsHeld token 3 before held
    × (held.expires_at_unix_ms < 20)
    × (get "t" extended_ledger.tasks ≡ some extended_record)
    × (extended_record.status ≡ TaskStatus.running)
    × (extended_record.lease ≡ some (record held { expires_at_unix_ms = 20 }))
    × (extended_record.attempt ≡ before.attempt)
heartbeat_task-IsHeld_example =
    heartbeat_task-IsHeld clock disk encode "t" token 3 20 running extended_ledger extended_record
      extends
