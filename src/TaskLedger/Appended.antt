-- ===== src/TaskLedger/Appended.antt =====
-- crates/task-ledger/src/lib.rs: what a successful `append_locked` has done.
use nausicaa.Prelude.{
  ℕ, ◌+◌, ◌%◌, ◌^◌, ◌≡◌, String, false, none, ◌==◌, Result-cases, some, [], ◌∷◌, ◌++◌, Result, ok,
  Done, if◌then◌else◌, arith, ==_refl, string_ord, sym, ◌∙◌, ap, Option-cases, inl, inr,
}
use nausicaa.Prelude.BTreeMap.{get, insert, get-insert}
use nausicaa.Prelude.LogFile.{LogFile, Bytes}
use nausicaa.Prelude.Exec.{continue_ok}
use nausicaa.TaskLedger.{
  TaskId, TaskStatus, TaskRecord, LedgerEvent, LedgerEnvelope, Failure, Ledger, LedgerHost,
  submitted, claimed, heartbeat, succeeded, failed, cancelled, marked_unknown,
  delivery_acknowledged, panicked,
}
use nausicaa.TaskLedger.Journal.{
  Tasks, append_locked, apply_event, index_submission, update, terminal, set_result,
}
use nausicaa.TaskLedger.Operations.{append_and_get, indexed}

-- `get_mut` and a change, read through a lookup
pub get-update :
    {V : Type 0} (missing : Failure) (task_id : TaskId) (change : TaskRecord V → TaskRecord V)
    (tasks after : Tasks V)
    → update missing task_id change tasks ≡ ok after
    → (task : TaskRecord V) × (get task_id tasks ≡ some task)
      × (get task_id after ≡ some (change task))
      × (after ≡ insert task_id (change task) tasks)
unfolding update
get-update missing task_id change tasks after h = elim (Option-cases (get task_id tasks)) [
  | inl e ↦ ground (arith, rw (update, e) at h)
  | inr (task, e) ↦
      let found : ok (insert task_id (change task) tasks) ≡ ok after = rw (update, e) at h in
      let same : insert task_id (change task) tasks ≡ after = ground (arith, found) in
      (
        task,
        e,
        rw (← same) (
            get-insert task_id task_id (change task) tasks
            ∙ ap (λ b. if b then some (change task) else get task_id tasks) (==_refl task_id)),
        sym same,
      )
]

-- the task that an event is about
abbrev pub target : {V : Type 0} → LedgerEvent V → TaskId
target (submitted task) = task.id
target (claimed task_id lease) = task_id
target (heartbeat task_id expires) = task_id
target (succeeded task_id value) = task_id
target (failed task_id reason) = task_id
target (cancelled task_id reason) = task_id
target (marked_unknown task_id reason) = task_id
target (delivery_acknowledged task_id) = task_id

module _ {V : Type 0} (j : TaskId) where
  get-insert_other :
      (id : TaskId) (task : TaskRecord V) (tasks : Tasks V)
      → (id == j) ≡ false
      → get j (insert id task tasks) ≡ get j tasks
  get-insert_other id task tasks h =
      get-insert id j task tasks ∙ ap (λ b. if b then some task else get j tasks) h

  get-update_other :
      (missing : Failure) (id : TaskId) (change : TaskRecord V → TaskRecord V)
      (tasks after : Tasks V)
      → update missing id change tasks ≡ ok after
      → (id == j) ≡ false
      → get j after ≡ get j tasks
  get-update_other missing id change tasks after h other =
      let (task, _, _, grown) = get-update missing id change tasks after h in
      ap (get j) grown ∙ get-insert_other id (change task) tasks other

  -- an event changes no task but its own
  pub apply_event-other :
      (event : LedgerEvent V) (time : ℕ) (tasks after : Tasks V)
      → apply_event tasks event time ≡ ok after
      → (target event == j) ≡ false
      → get j after ≡ get j tasks
  unfolding apply_event terminal
  apply_event-other (submitted task) time tasks after h other =
      let made : insert task.id task tasks ≡ after = ground (arith, h) in
      rw (← made) (get-insert_other task.id task tasks other)
  apply_event-other (claimed id lease) time tasks after h other =
      get-update_other _ id _ tasks after h other
  apply_event-other (heartbeat id expires) time tasks after h other =
      get-update_other _ id _ tasks after h other
  apply_event-other (succeeded id value) time tasks after h other =
      elim (Result-cases (terminal id TaskStatus.succeeded none time tasks)) [
        | inl (e, x) ↦ ground (arith, rw (terminal, x) at h)
        | inr (ended, x) ↦
            get-update_other panicked id (set_result value) ended after (rw x at h) other
            ∙ get-update_other _ id _ tasks ended x other
      ]
  apply_event-other (failed id reason) time tasks after h other =
      get-update_other _ id _ tasks after h other
  apply_event-other (cancelled id reason) time tasks after h other =
      get-update_other _ id _ tasks after h other
  apply_event-other (marked_unknown id reason) time tasks after h other =
      get-update_other _ id _ tasks after h other
  apply_event-other (delivery_acknowledged id) time tasks after h other =
      get-update_other _ id _ tasks after h other

module _ {V H F : Type 0} (host : LedgerHost H) (log : LogFile F)
    (encode : LedgerEnvelope V → Result Bytes String) where
  abbrev pub envelope_of : LedgerEvent V → Ledger V H F → LedgerEnvelope V
  envelope_of event s = record {
    sequence = s.next_sequence;
    at_unix_ms = (host.now_ms s.host).0;
    event = event;
  }

  -- the state after the event is written, synced and applied
  pub record Appended (event : LedgerEvent V) (s t : Ledger V H F) : Type 0 where
    pub applied : apply_event s.tasks event (host.now_ms s.host).0 ≡ ok t.tasks
    pub index : t.idempotency ≡ index_submission event s.idempotency
    pub written : t.written ≡ s.written ++ envelope_of event s ∷ []
    pub next : t.next_sequence ≡ (s.next_sequence + 1) % 2 ^ 64
    pub poisoned : t.is_poisoned ≡ s.is_poisoned

  pub append_locked-Appended :
      (event : LedgerEvent V) (s t : Ledger V H F) {d : Done}
      → append_locked host log encode event s ≡ (ok d, t)
      → Appended event s t
  unfolding append_locked
  append_locked-Appended event s t h = record {
    applied = ground arith;
    index = ground arith;
    written = ground arith;
    next = ground arith;
    poisoned = ground arith;
  }

  pub append_and_get-Appended :
      (task_id : TaskId) (event : LedgerEvent V) (s t : Ledger V H F) {r : TaskRecord V}
      → append_and_get host log encode task_id event s ≡ (ok r, t)
      → Appended event s t × (get task_id t.tasks ≡ some r)
  unfolding append_and_get indexed
  append_and_get-Appended task_id event s t {r} h =
      let (d, u, p, q) =
        continue_ok (append_locked host log encode event s) (λ _. indexed host log encode task_id)
          h in
      let same : u ≡ t = ap (λ x. x.1) q in
      (rw (← same) (append_locked-Appended event s u p), ground arith)
