-- ===== src/TaskLedger/Operations.antt =====
-- crates/task-ledger/src/lib.rs: the operations of `JsonlTaskLedger`.
use nausicaa.Prelude.{
  ℕ, ◌+◌, ◌^◌, ◌-◌, String, Bool, true, false, not, Option, none, some, List, [], ◌∷◌, ◌||◌, ◌&&◌,
  Result, ok, err, Done, if◌then◌else◌, leb, ltb, eqb, filter, Ord, ◌==◌, string_ord, nat_ord,
  pair_ord, Ordering,
}
use Prim.Native.String.{◌++◌}
use nausicaa.Prelude.BTreeMap.{get, values}
use nausicaa.Prelude.LogFile.{LogFile, Bytes}
use nausicaa.Prelude.Exec.{pure, throw, ◌>>=◌, ◌>>◌}
use nausicaa.TaskLedger.{
  TaskId, TaskStatus, DeliveryState, TaskLease, LeaseToken, TaskRecord, Submission, LedgerEvent,
  LedgerEnvelope, LedgerError, Failure, Ledger, LedgerHost, Operation, is_terminal, is_pending,
  is_running, is_deliverable, submitted, claimed, heartbeat, succeeded, failed, cancelled,
  marked_unknown, delivery_acknowledged, unknown_task, error, panicked,
}
use nausicaa.TaskLedger.Journal.{append_locked}

abbrev pub is_after : {K : Type 0} ⦃o : Ord K⦄ → K → K → Bool
is_after ⦃o⦄ a b = elim (o.cmp a b) [ Ordering.gt ↦ true | _ ↦ false ]

-- `min_by_key`: the first entry whose key is the least
unfoldable pub min_by_key : {K A : Type 0} ⦃o : Ord K⦄ → (A → K) → List A → Option A
min_by_key key [] = none
min_by_key key (x ∷ xs) = elim (min_by_key key xs) [
  | none ↦ some x
  | some y ↦ some (if is_after (key x) (key y) then y else x)
]

-- `saturating_add` and `max(1)` of `u64`
unfoldable pub lease_end : ℕ → ℕ → ℕ
lease_end now duration =
    let sum = now + (if leb duration 1 then 1 else duration) in
    if ltb sum (2 ^ 64) then sum else 2 ^ 64 - 1

abbrev pub has_expired : ℕ → Option TaskLease → Bool
has_expired now none = false
has_expired now (some lease) = leb lease.expires_at_unix_ms now

module _ {V : Type 0} where
  abbrev pub new_task : ℕ → String → String → V → TaskRecord V
  new_task now thread_id idempotency_key payload = record {
    id = "task_" ++ thread_id;
    idempotency_key = idempotency_key;
    payload = payload;
    status = TaskStatus.pending;
    attempt = 0;
    lease = none;
    result = none;
    error = none;
    delivery = DeliveryState.not_ready;
    created_at_unix_ms = now;
    updated_at_unix_ms = now;
  }

  abbrev pub invalid : TaskRecord V → String → Failure
  invalid task operation = error (LedgerError.invalid_transition task.id task.status operation)

  abbrev pub claim_order : TaskRecord V → ℕ × TaskId
  claim_order task = (task.created_at_unix_ms, task.id)

  unfoldable pub next_pending : List (TaskRecord V) → Option (TaskRecord V)
  unfolding min_by_key
  next_pending tasks = min_by_key claim_order (filter (λ task. is_pending task.status) tasks)

  abbrev pub is_expired : ℕ → TaskRecord V → Bool
  is_expired now task = is_running task.status && has_expired now task.lease

  abbrev ids_of : List (TaskRecord V) → List TaskId
  ids_of [] = []
  ids_of (task ∷ tasks) = task.id ∷ ids_of tasks

  unfoldable pub expired_ids : ℕ → List (TaskRecord V) → List TaskId
  expired_ids now tasks = ids_of (filter (is_expired now) tasks)

  abbrev check_lease : TaskRecord V → LeaseToken → ℕ → Option TaskLease → Result TaskLease Failure
  check_lease task token now none =
      err (error (LedgerError.invalid_lease task.id "running task has no lease"))
  check_lease task token now (some lease) =
      if not (token.worker_id == lease.worker_id) || not (eqb token.attempt task.attempt)
      then err (error (LedgerError.invalid_lease task.id "worker or claim attempt does not match"))
      else if leb lease.expires_at_unix_ms now
      then err (error (LedgerError.invalid_lease task.id "lease has expired"))
      else ok lease

  unfoldable pub require_lease : TaskRecord V → LeaseToken → ℕ → Result TaskLease Failure
  require_lease task token now =
      if is_running task.status
      then check_lease task token now task.lease
      else err (invalid task "lease operation")

module _ {V H F : Type 0} (host : LedgerHost H) (log : LogFile F)
    (encode : LedgerEnvelope V → Result Bytes String) where
  -- `state.lock()`
  abbrev pub lock : Operation V H F Done
  lock s = if s.is_poisoned then (err (error LedgerError.poisoned), s) else (ok tt, s)

  abbrev pub lift : {A : Type 0} → Result A Failure → Operation V H F A
  lift result s = (result, s)

  abbrev required : TaskId → Option (TaskRecord V) → Result (TaskRecord V) Failure
  required task_id none = err (error (unknown_task task_id))
  required task_id (some task) = ok task

  unfoldable pub require_task : TaskId → Operation V H F (TaskRecord V)
  require_task task_id s = (required task_id (get task_id s.tasks), s)

  abbrev indexed_result : Option (TaskRecord V) → Result (TaskRecord V) Failure
  indexed_result none = err panicked
  indexed_result (some task) = ok task

  -- `state.tasks[task_id].clone()`
  unfoldable pub indexed : TaskId → Operation V H F (TaskRecord V)
  indexed task_id s = (indexed_result (get task_id s.tasks), s)

  -- the end that most operations share
  unfoldable pub append_and_get : TaskId → LedgerEvent V → Operation V H F (TaskRecord V)
  unfolding indexed
  append_and_get task_id event = do append_locked host log encode event; indexed task_id

  abbrev pub known : Ledger V H F → Option TaskId → Option (TaskRecord V)
  known s none = none
  known s (some task_id) = get task_id s.tasks

  abbrev pub create_task : String → V → Operation V H F (Submission V)
  create_task idempotency_key payload s =
      let (now, h) = host.now_ms s.host in
      let (thread_id, h') = host.fresh_thread_id h in
      let task = new_task now thread_id idempotency_key payload in
      (append_locked host log encode (submitted task)
          >> pure (record { task = task; created = true }))
        (record s { host = h' })

  abbrev pub submit_known : String → V → Option (TaskRecord V) → Operation V H F (Submission V)
  submit_known idempotency_key payload (some task) = pure (record { task = task; created = false })
  submit_known idempotency_key payload none = create_task idempotency_key payload

  unfoldable pub submit : String → V → Operation V H F (Submission V)
  submit idempotency_key payload = do
    lock
    λ s. submit_known idempotency_key payload (known s (get idempotency_key s.idempotency)) s

  abbrev pub claim :
      String → ℕ → ℕ → Option (TaskRecord V) → Operation V H F (Option (TaskRecord V))
  claim worker_id now duration none = pure none
  claim worker_id now duration (some task) = do
    append_locked host log encode (
        claimed task.id
          (record { worker_id = worker_id; expires_at_unix_ms = lease_end now duration }))
    λ s. (ok (get task.id s.tasks), s)

  unfoldable pub claim_next : String → ℕ → ℕ → Operation V H F (Option (TaskRecord V))
  claim_next worker_id now duration = do
    lock
    λ s. claim worker_id now duration (next_pending (values s.tasks)) s

  unfoldable pub heartbeat_task : TaskId → LeaseToken → ℕ → ℕ → Operation V H F (TaskRecord V)
  unfolding append_and_get require_task
  heartbeat_task task_id token now expires_at = do
    lock
    task ← require_task task_id
    lease ← lift (require_lease task token now)
    if leb expires_at lease.expires_at_unix_ms
        then throw
            (error (LedgerError.invalid_lease task.id "heartbeat must extend the current lease"))
        else append_and_get task_id (heartbeat task_id expires_at)

  unfoldable pub finish : TaskId → LeaseToken → ℕ → LedgerEvent V → Operation V H F (TaskRecord V)
  unfolding append_and_get require_task
  finish task_id token now event = do
    lock
    task ← require_task task_id
    lift (require_lease task token now)
    append_and_get task_id event

  unfoldable pub succeed : TaskId → LeaseToken → ℕ → V → Operation V H F (TaskRecord V)
  unfolding finish
  succeed task_id token now value = finish task_id token now (succeeded task_id value)

  unfoldable pub fail : TaskId → LeaseToken → ℕ → String → Operation V H F (TaskRecord V)
  unfolding finish
  fail task_id token now reason = finish task_id token now (failed task_id reason)

  unfoldable pub cancel : TaskId → String → Operation V H F (TaskRecord V)
  unfolding append_and_get require_task
  cancel task_id reason = do
    lock
    task ← require_task task_id
    if is_terminal task.status
        then throw (invalid task "cancel")
        else append_and_get task_id (cancelled task_id reason)

  -- the loop of `recover_expired`
  unfoldable pub mark_unknown : List TaskId → Operation V H F (List (TaskRecord V))
  mark_unknown [] = pure []
  mark_unknown (task_id ∷ rest) = do
    task ←
        append_and_get task_id
          (marked_unknown task_id "worker lease expired; completion cannot be determined")
    recovered ← mark_unknown rest
    pure (task ∷ recovered)

  unfoldable pub recover_expired : ℕ → Operation V H F (List (TaskRecord V))
  recover_expired now = do lock; λ s. mark_unknown (expired_ids now (values s.tasks)) s

  unfoldable pub acknowledge_delivery : TaskId → Operation V H F (TaskRecord V)
  unfolding append_and_get require_task
  acknowledge_delivery task_id = do
    lock
    task ← require_task task_id
    if is_deliverable task.delivery
        then append_and_get task_id (delivery_acknowledged task_id)
        else throw (invalid task "acknowledge_delivery")

  unfoldable pub get_task : TaskId → Operation V H F (Option (TaskRecord V))
  get_task task_id = do lock; λ s. (ok (get task_id s.tasks), s)

  unfoldable pub list : Operation V H F (List (TaskRecord V))
  list = do lock; λ s. (ok (values s.tasks), s)
