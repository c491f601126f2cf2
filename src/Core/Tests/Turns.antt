-- ===== src/Core/Tests/Turns.antt =====
-- Turns, calls and recoveries of the echo runtime.
use nausicaa.Prelude.{ℕ, ◌≡◌, refl, false, none, some, [], ◌∷◌, ok, Done, ◌⊎◌, inl, inr, filter}
use nausicaa.Prelude.BTreeMap
use nausicaa.Prelude.BTreeSet
use nausicaa.Core.Protocol.{action_eq, ToolReceipt, ReceiptStatus}
use nausicaa.Core.Receipt
use nausicaa.Core.Event.{tool_execution_started, turn_started, tool_receipt_recorded}
use nausicaa.Core.Store.{thread_events}
use nausicaa.Core.Store.Memory
use nausicaa.Core.Store.Memory.{MemoryEventStore, memory_store}
use nausicaa.Core.Recovery.{
  RecoveryReport, recover_thread, scan_keys, scan_events, scan_event, receipt_for,
}
use nausicaa.Core.Recovery.Log.{Logged, IsRequested, IsClosed, open_turn}
use nausicaa.Core.Recovery.Recovered.{log_of, recover_thread-IsClosed, recover_thread-open_turn}
use nausicaa.Core.Recovery.Outcome.{Starts, recover_thread_outcome}
use nausicaa.Core.Hook
use nausicaa.Core.Policy.{access}
use nausicaa.Core.Tool.{get_tool, direct_executor}
use nausicaa.Core.Runtime.{Run, capabilities, outside, append, record_receipt}
use nausicaa.Core.Runtime.Calls.{
  handle_tool_call, run_prepared, approve_and_execute, ask_approval, execute_prepared,
  call_executor, receipt_of,
}
use nausicaa.Core.Runtime.Authority.{AllJustified, handle_tool_call-AllJustified}
use nausicaa.Core.Runtime.Justified.{run_turn-AllJustified}
use nausicaa.Core.Runtime.Receipts.{IsRecorded, handle_tool_call-IsRecorded}
use nausicaa.Core.Runtime.Turn.Thread.{run_turn}
use nausicaa.Core.Tests.{
  runtime, idle, ready, echo_call, echo_action, ask_projection, empty_store, clock, nat_eq,
}

run_turn-AllJustified_example :
    AllJustified
      (capabilities runtime)
      "turn"
      (run_turn runtime "thread" "turn" "hello" ready).1.trace
run_turn-AllJustified_example = run_turn-AllJustified runtime "thread" "turn" "hello" ready refl

handle_tool_call-AllJustified_example :
    AllJustified ask_projection "turn"
      (handle_tool_call runtime "thread" "turn" 0 echo_call ask_projection idle).1.trace
handle_tool_call-AllJustified_example =
    handle_tool_call-AllJustified runtime ask_projection "thread" "turn" 0 echo_call idle tt

abbrev echo_receipt : ToolReceipt ℕ
echo_receipt = record {
  call_id = "call";
  tool_name = "echo";
  status = ReceiptStatus.succeeded;
  action = some (echo_action 7);
  output = some 7;
  error = none;
}

abbrev handled : Run ℕ Done (MemoryEventStore ℕ ℕ)
handled = (handle_tool_call runtime "thread" "turn" 0 echo_call ask_projection idle).1

echo_handled :
    handle_tool_call runtime "thread" "turn" 0 echo_call ask_projection idle
    ≡ (ok echo_receipt, handled)
unfolding handle_tool_call get_tool BTreeMap.get access outside run_prepared append memory_store
    Memory.append approve_and_execute ask_approval action_eq execute_prepared call_executor
    direct_executor receipt_of record_receipt Hook.after_tool Hook.before_tool Receipt.succeeded
echo_handled = refl

handle_tool_call-IsRecorded_example :
    IsRecorded runtime "thread" "turn" echo_call echo_receipt handled
handle_tool_call-IsRecorded_example =
    handle_tool_call-IsRecorded runtime "thread" "turn" echo_call 0 ask_projection idle handled
      echo_receipt echo_handled

abbrev interrupted : MemoryEventStore ℕ ℕ
interrupted = record empty_store {
  events =
      record {
        id = "a";
        sequence = 0;
        at_unix_ms = 0;
        thread_id = "thread";
        turn_id = some "turn";
        event = turn_started;
      }
      ∷ record {
        id = "b";
        sequence = 1;
        at_unix_ms = 0;
        thread_id = "thread";
        turn_id = some "turn";
        event = tool_execution_started (record { call_id = "call"; action = echo_action 7 });
      }
      ∷ [];
}

abbrev recovered : MemoryEventStore ℕ ℕ
recovered = (recover_thread (memory_store clock) "thread" interrupted).1

abbrev report : RecoveryReport ℕ
report = record {
  receipts_recorded =
      Receipt.unknown (record { call_id = "call"; action = echo_action 7 })
        "execution started but no durable receipt was found during recovery"
      ∷ [];
  turns_marked_failed = "turn" ∷ [];
}

interrupted_recovers :
    recover_thread (memory_store clock) "thread" interrupted ≡ (ok report, recovered)
unfolding recover_thread memory_store Memory.load_thread Memory.append thread_events filter
    scan_keys scan_events scan_event BTreeMap.insert BTreeSet.insert BTreeSet.contains receipt_for
    BTreeMap.get
interrupted_recovers = refl

call-IsRequested : IsRequested "turn" "call" (log_of (memory_store clock) "thread" interrupted)
unfolding thread_events memory_store filter
call-IsRequested = inr (inl (refl, refl))

call_not-IsClosed : ¬ (IsClosed "turn" "call" (log_of (memory_store clock) "thread" interrupted))
unfolding thread_events memory_store filter
call_not-IsClosed (inl h) = absurd h.1
call_not-IsClosed (inr (inl h)) = absurd h.1
call_not-IsClosed (inr (inr h)) = absurd h

call-IsRequested_after : IsRequested "turn" "call" (log_of (memory_store clock) "thread" recovered)
unfolding recover_thread memory_store Memory.load_thread Memory.append thread_events filter
    scan_keys scan_events scan_event BTreeMap.insert BTreeSet.insert BTreeSet.contains receipt_for
    BTreeMap.get
call-IsRequested_after = inr (inl (refl, refl))

recover_thread-IsClosed_example :
    IsClosed "turn" "call" (log_of (memory_store clock) "thread" recovered)
recover_thread-IsClosed_example =
    recover_thread-IsClosed (memory_store clock) "thread" interrupted "turn" "call"
      interrupted_recovers call-IsRequested_after

recover_thread-open_turn_example :
    open_turn "turn" false (log_of (memory_store clock) "thread" recovered) ≡ false
recover_thread-open_turn_example =
    recover_thread-open_turn (memory_store clock) "thread" interrupted "turn" interrupted_recovers

recover_thread_outcome_example :
    (r : ToolReceipt ℕ) × Logged
      (λ e. e ≡ tool_receipt_recorded r)
      "turn"
      (log_of (memory_store clock) "thread" recovered)
    × (r.call_id ≡ "call")
    × ((r.status ≡ ReceiptStatus.unknown)
          × Logged (Starts "call") "turn" (log_of (memory_store clock) "thread" interrupted)
        ⊎ (r.status ≡ ReceiptStatus.failed)
          × (¬ (Logged (Starts "call") "turn" (log_of (memory_store clock) "thread" interrupted))))
recover_thread_outcome_example =
    recover_thread_outcome (memory_store clock) "thread" interrupted "turn" "call"
      interrupted_recovers call-IsRequested call_not-IsClosed
