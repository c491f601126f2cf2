-- ===== src/TaskLedger/Expiry.antt =====
-- crates/task-ledger/src/lib.rs: what `recover_expired` makes of the tasks, those whose lease has run
-- out and the others.
use nausicaa.Prelude.{ℕ, ◌≤◌, ◌≡◌, String, none, some, List, [], ◌∷◌, Result, In, ◌⊎◌, string_ord}
use nausicaa.Prelude.BTreeMap.{get}
use nausicaa.Prelude.LogFile.{LogFile, Bytes}
use nausicaa.TaskLedger.{
  TaskId, TaskStatus, DeliveryState, TaskLease, TaskRecord, LedgerEvent, LedgerEnvelope, Ledger,
  LedgerHost, marked_unknown,
}
use nausicaa.TaskLedger.Journal.{Tasks}

-- the map of a ledger: no identifier twice, and each task under its own
abbrev pub IsKeyed : {V : Type 0} → Tasks V → Type 0
IsKeyed [] = Unit
IsKeyed ((id, task) ∷ tasks) = (task.id ≡ id) × (get id tasks ≡ none) × IsKeyed tasks

-- a worker's claim that has run out
pub record IsExpired {V : Type 0} (now : ℕ) (task : TaskRecord V) : Type 0 where
  pub running : task.status ≡ TaskStatus.running
  pub lapsed : (lease : TaskLease) × (task.lease ≡ some lease) × (lease.expires_at_unix_ms ≤ now)

-- the task after it was given up: of unknown outcome and no longer leased, its completion still to be
-- delivered, and the rest as it was
pub record IsGivenUp {V : Type 0} (task after : TaskRecord V) : Type 0 where
  pub status : after.status ≡ TaskStatus.unknown
  pub lease : after.lease ≡ none
  pub delivery : after.delivery ≡ DeliveryState.pending
  pub id : after.id ≡ task.id
  pub payload : after.payload ≡ task.payload
  pub attempt : after.attempt ≡ task.attempt
  pub result : after.result ≡ task.result

module _ {V H F : Type 0} (host : LedgerHost H) (log : LogFile F)
    (encode : LedgerEnvelope V → Result Bytes String) where
  abbrev lost : TaskId → LedgerEvent V
  lost id = marked_unknown id "worker lease expired; completion cannot be determined"

  -- what the loop makes of a task: given up and returned, or as it was
  abbrev Fate : List TaskId → Ledger V H F → List (TaskRecord V) → TaskId → TaskRecord V → Type 0
  Fate ids t rs id task =
      (after : TaskRecord V) × (get id t.tasks ≡ some after)
      × (((In id ids → ⊥) × (after ≡ task)) ⊎ (In id ids × IsGivenUp task after × In after rs))
