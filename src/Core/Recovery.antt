-- ===== src/Core/Recovery.antt =====
-- crates/harness-core/src/recovery.rs: `recover_thread`, over any event store.
pub mod Log
pub mod Collected
pub mod Keys
pub mod Closing
pub mod Turns
pub mod Recovered
pub mod Outcome
use nausicaa.Prelude.{
  String, Bool, true, false, Option, none, some, List, [], ◌∷◌, ◌==◌, if◌then◌else◌, string_ord,
  pair_ord,
}
use nausicaa.Prelude.Exec.{Exec, pure, ◌>>=◌, ◌>>◌}
use nausicaa.Prelude.BTreeMap
use nausicaa.Prelude.BTreeMap.{BTreeMap}
use nausicaa.Prelude.BTreeSet
use nausicaa.Prelude.BTreeSet.{BTreeSet}
use nausicaa.Core.Id.{ThreadId, TurnId, CallId}
use nausicaa.Core.Protocol.{ToolCall, PreparedToolCall, ToolReceipt}
use nausicaa.Core.Receipt
use nausicaa.Core.Event.{
  RuntimeEvent, EventEnvelope, turn_started, assistant_message, tool_prepared,
  tool_execution_started, tool_receipt_recorded, turn_completed, turn_failed, turn_cancelled,
}
use nausicaa.Core.Store.{StoreError, EventStore}

abbrev pub Key : Type 0
Key = TurnId × CallId

pub record RecoveryReport (V : Type 0) : Type 0 where
  pub receipts_recorded : List (ToolReceipt V)
  pub turns_marked_failed : List TurnId

-- the five collections that the pass over the events fills
pub record Scan (V : Type 0) : Type 0 where
  pub open_turns : BTreeSet TurnId
  pub calls : BTreeMap Key (ToolCall V)
  pub prepared : BTreeMap Key (PreparedToolCall V)
  pub started : BTreeMap Key (PreparedToolCall V)
  pub completed : BTreeSet Key

unfoldable pub extend : BTreeSet Key → List Key → BTreeSet Key
extend s [] = s
extend s (k ∷ ks) = extend (BTreeSet.insert k s) ks

module _ {V : Type 0} where
  abbrev pub empty_scan : Scan V
  empty_scan = record { open_turns = []; calls = []; prepared = []; started = []; completed = [] }

  unfoldable pub insert_calls :
      TurnId → List (ToolCall V) → BTreeMap Key (ToolCall V) → BTreeMap Key (ToolCall V)
  insert_calls turn_id [] m = m
  insert_calls turn_id (call ∷ calls) m =
      insert_calls turn_id calls (BTreeMap.insert (turn_id, call.id) call m)

  unfoldable pub scan_event : TurnId → RuntimeEvent V → Scan V → Scan V
  scan_event turn_id turn_started scan = record scan {
    open_turns = BTreeSet.insert turn_id scan.open_turns;
  }
  scan_event turn_id (assistant_message content tool_calls stop_reason usage) scan = record scan {
    calls = insert_calls turn_id tool_calls scan.calls;
  }
  scan_event turn_id (tool_prepared action) scan = record scan {
    prepared = BTreeMap.insert (turn_id, action.call_id) action scan.prepared;
  }
  scan_event turn_id (tool_execution_started action) scan = record scan {
    started = BTreeMap.insert (turn_id, action.call_id) action scan.started;
  }
  scan_event turn_id (tool_receipt_recorded receipt) scan = record scan {
    completed = BTreeSet.insert (turn_id, receipt.call_id) scan.completed;
  }
  scan_event turn_id (turn_completed content) scan = record scan {
    open_turns = BTreeSet.remove turn_id scan.open_turns;
  }
  scan_event turn_id (turn_failed error) scan = record scan {
    open_turns = BTreeSet.remove turn_id scan.open_turns;
  }
  scan_event turn_id turn_cancelled scan = record scan {
    open_turns = BTreeSet.remove turn_id scan.open_turns;
  }
  scan_event turn_id _ scan = scan

  -- an event of no turn is passed over
  abbrev pub scan_turn : Option TurnId → RuntimeEvent V → Scan V → Scan V
  scan_turn none event scan = scan
  scan_turn (some turn_id) event scan = scan_event turn_id event scan

  unfoldable pub scan_events : Scan V → List (EventEnvelope V) → Scan V
  scan_events scan [] = scan
  scan_events scan (envelope ∷ events) =
      scan_events (scan_turn envelope.turn_id envelope.event scan) events

  unfoldable pub scan_keys : Scan V → BTreeSet Key
  unfolding extend
  scan_keys scan =
      extend (extend (extend [] (BTreeMap.keys scan.calls)) (BTreeMap.keys scan.prepared))
        (BTreeMap.keys scan.started)

  abbrev pub first_receipt :
      Option (PreparedToolCall V)
      → Option (PreparedToolCall V)
      → Option (ToolCall V)
      → Option (ToolReceipt V)
  first_receipt (some action) _ _ =
      some (
        Receipt.unknown action "execution started but no durable receipt was found during recovery")
  first_receipt none (some action) _ =
      some (Receipt.failed action "turn was interrupted before execution began")
  first_receipt none none (some call) =
      some (Receipt.malformed call "turn was interrupted before tool preparation")
  first_receipt none none none = none

  unfoldable pub receipt_for : Scan V → Key → Option (ToolReceipt V)
  receipt_for scan key =
      first_receipt (BTreeMap.get key scan.started) (BTreeMap.get key scan.prepared)
        (BTreeMap.get key scan.calls)

module _ {V S : Type 0} (store : EventStore V S) (thread_id : ThreadId) where
  -- append the receipt of one key, then go on
  abbrev pub close_call :
      TurnId
      → Option (ToolReceipt V)
      → Exec S StoreError (List (ToolReceipt V))
      → Exec S StoreError (List (ToolReceipt V))
  close_call turn_id none rest = rest
  close_call turn_id (some receipt) rest = do
    store.append thread_id (some turn_id) (tool_receipt_recorded receipt)
    receipts ← rest
    pure (receipt ∷ receipts)

  unfoldable pub recover_calls : Scan V → List Key → Exec S StoreError (List (ToolReceipt V))
  recover_calls scan [] = pure []
  recover_calls scan (key ∷ keys) =
      let rest = recover_calls scan keys in
      if BTreeSet.contains key scan.completed
      then rest
      else close_call key.0 (receipt_for scan key) rest

  unfoldable pub fail_turns : List TurnId → Exec S StoreError (List TurnId)
  fail_turns [] = pure []
  fail_turns (turn_id ∷ turns) =
      let rest = fail_turns turns in
      do
        store.append thread_id (some turn_id)
            (turn_failed "turn was interrupted and recovered without replaying actions")
        failed ← rest
        pure (turn_id ∷ failed)

  unfoldable pub recover_thread : Exec S StoreError (RecoveryReport V)
  unfolding recover_calls fail_turns
  recover_thread = do
    events ← λ s. (store.load_thread thread_id s, s)
    let scan = scan_events empty_scan events
    receipts ← recover_calls scan (scan_keys scan)
    turns ← fail_turns scan.open_turns
    pure (record { receipts_recorded = receipts; turns_marked_failed = turns })
