-- ===== src/TaskLedger.antt =====
-- crates/task-ledger/src/lib.rs: the data of the persistent task ledger. Tasks, events and envelopes
-- over a payload type `V`; the modules below are the journal, the operations and what holds of them.
pub mod Journal
pub mod Operations
pub mod Appended
pub mod Submitting
pub mod Fencing
pub mod Reopened
pub mod Expiry
pub mod Ended
pub mod Indexed
pub mod Tests
use nausicaa.Prelude.{
  ℕ, String, ◌≡◌, Bool, true, false, Option, none, some, List, [], ◌∷◌, Result, ok, err, Done,
}
use nausicaa.Prelude.BTreeMap.{BTreeMap}
use nausicaa.Prelude.Exec.{Exec}

abbrev pub TaskId : Type 0
TaskId = String

pub data TaskStatus : Type 0 where
  pending : TaskStatus
  running : TaskStatus
  succeeded : TaskStatus
  failed : TaskStatus
  cancelled : TaskStatus
  unknown : TaskStatus

unfoldable pub is_terminal : TaskStatus → Bool
is_terminal TaskStatus.pending = false
is_terminal TaskStatus.running = false
is_terminal _ = true

-- `status == TaskStatus::Pending`
abbrev pub is_pending : TaskStatus → Bool
is_pending TaskStatus.pending = true
is_pending _ = false

-- `status == TaskStatus::Running`
abbrev pub is_running : TaskStatus → Bool
is_running TaskStatus.running = true
is_running _ = false

pub data DeliveryState : Type 0 where
  not_ready : DeliveryState
  pending : DeliveryState
  acknowledged : DeliveryState

-- `delivery == DeliveryState::Pending`
abbrev pub is_deliverable : DeliveryState → Bool
is_deliverable DeliveryState.pending = true
is_deliverable _ = false

pub record TaskLease : Type 0 where
  pub worker_id : String
  pub expires_at_unix_ms : ℕ  -- u64

pub record LeaseToken : Type 0 where
  pub worker_id : String
  pub attempt : ℕ  -- u32

pub record TaskRecord (V : Type 0) : Type 0 where
  pub id : TaskId
  pub idempotency_key : String
  pub payload : V
  pub status : TaskStatus
  pub attempt : ℕ  -- u32
  pub lease : Option TaskLease
  pub result : Option V
  pub error : Option String
  pub delivery : DeliveryState
  pub created_at_unix_ms : ℕ  -- u64
  pub updated_at_unix_ms : ℕ  -- u64

abbrev token_of : ℕ → Option TaskLease → Option LeaseToken
token_of attempt none = none
token_of attempt (some lease) = some (record { worker_id = lease.worker_id; attempt = attempt })

unfoldable pub lease_token : {V : Type 0} → TaskRecord V → Option LeaseToken
lease_token task = token_of task.attempt task.lease

pub record Submission (V : Type 0) : Type 0 where
  pub task : TaskRecord V
  pub created : Bool

pub data LedgerEvent (V : Type 0) : Type 0 where
  submitted : TaskRecord V → LedgerEvent V
  claimed : TaskId → TaskLease → LedgerEvent V
  heartbeat : TaskId → ℕ → LedgerEvent V
  succeeded : TaskId → V → LedgerEvent V
  failed : TaskId → String → LedgerEvent V
  cancelled : TaskId → String → LedgerEvent V
  marked_unknown : TaskId → String → LedgerEvent V
  delivery_acknowledged : TaskId → LedgerEvent V

pub record LedgerEnvelope (V : Type 0) : Type 0 where
  pub sequence : ℕ  -- u64
  pub at_unix_ms : ℕ  -- u64
  pub event : LedgerEvent V

pub data LedgerError : Type 0 where
  io : String → LedgerError
  serialization : String → LedgerError
  corrupt : ℕ → String → LedgerError
  poisoned : LedgerError
  unknown_task : TaskId → LedgerError
  invalid_lease : TaskId → String → LedgerError
  invalid_transition : TaskId → TaskStatus → String → LedgerError

-- An operation returns an error, or panics where the source indexes a map or calls `expect`.
pub data Failure : Type 0 where
  error : LedgerError → Failure
  panicked : Failure

-- `LedgerState` behind its mutex. `written` is what the model keeps of the file `F`: the envelopes
-- that were synced, in order.
pub record Ledger (V H F : Type 0) : Type 0 where
  pub is_poisoned : Bool
  pub file : F
  pub next_sequence : ℕ  -- u64
  pub tasks : BTreeMap TaskId (TaskRecord V)
  pub idempotency : BTreeMap String TaskId
  pub written : List (LedgerEnvelope V)
  pub host : H

-- the clock, and the generator behind `ThreadId::new`
pub record LedgerHost (H : Type 0) : Type 0 where
  pub now_ms : H → ℕ × H
  pub fresh_thread_id : H → String × H

abbrev pub Operation : Type 0 → Type 0 → Type 0 → Type 0 → Type 0
Operation V H F A = Exec (Ledger V H F) Failure A
