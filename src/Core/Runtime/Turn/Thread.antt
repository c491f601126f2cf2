-- ===== src/Core/Runtime/Turn/Thread.antt =====
-- crates/harness-core/src/runtime.rs: threads, the guard of the active ones, recovery before a turn,
-- and `run_turn_with_id_and_cancellation`.
use nausicaa.Prelude.{
  ℕ, ◌+◌, ◌^◌, ◌-◌, min, String, Bool, true, false, not, Option, none, some, List, [], ◌∷◌, ◌||◌,
  ok, err, Done, if◌then◌else◌, string_ord, ◌==◌, Eq, any, leb,
}
use nausicaa.Prelude.Exec.{pure, throw, ◌>>=◌, ◌>>◌}
use nausicaa.Prelude.BTreeSet
use nausicaa.Core.Id.{ThreadId, TurnId}
use nausicaa.Core.Protocol.{TranscriptMessage, user, assistant, tool}
use nausicaa.Core.Event.{
  RuntimeEvent, EventEnvelope, thread_started, turn_started, user_message, assistant_message,
  tool_receipt_recorded,
}
use nausicaa.Core.Policy.{visible_names}
use nausicaa.Core.Tool.{definitions_for}
use nausicaa.Core.Store.{StoreError}
use nausicaa.Core.Recovery.{RecoveryReport, recover_thread}
use nausicaa.Core.Runtime.{
  AgentRuntime, RuntimeError, Run, Step, TurnOutcome, append, notify, capabilities, lift_store,
  load_thread,
}
use nausicaa.Core.Runtime.Turn.{TurnPlan, turn_loop}

abbrev pub is_turn : TurnId → Option TurnId → Bool
is_turn turn_id none = false
is_turn turn_id (some t) = t == turn_id

abbrev pub is_empty {ℓ} : {A : Type ℓ} → List A → Bool
is_empty [] = true
is_empty (x ∷ xs) = false

module _ {V : Type 0} where
  abbrev pub is_thread_started : RuntimeEvent V → Bool
  is_thread_started thread_started = true
  is_thread_started _ = false

  abbrev pub push_message : RuntimeEvent V → List (TranscriptMessage V) → List (TranscriptMessage V)
  push_message (user_message content) rest = user content ∷ rest
  push_message (assistant_message content tool_calls stop_reason usage) rest =
      assistant content tool_calls ∷ rest
  push_message (tool_receipt_recorded receipt) rest = tool receipt ∷ rest
  push_message _ rest = rest

  unfoldable pub transcript_from_events : List (EventEnvelope V) → List (TranscriptMessage V)
  transcript_from_events [] = []
  transcript_from_events (envelope ∷ events) =
      push_message envelope.event (transcript_from_events events)

  -- the sequence after that of the last event, `saturating_add(1)` of a u64
  unfoldable pub next_after : ℕ → List (EventEnvelope V) → ℕ
  next_after before [] = before
  next_after before (envelope ∷ events) =
      next_after (min (envelope.sequence + 1) (2 ^ 64 - 1)) events

  -- the recovery has added something
  abbrev pub changed : RecoveryReport V → Bool
  changed report =
      not (is_empty report.receipts_recorded) || not (is_empty report.turns_marked_failed)

module _ {V W S : Type 0} ⦃v : Eq V⦄ (rt : AgentRuntime V W S) where
  unfoldable pub ensure_thread : ThreadId → Step V W S Done
  ensure_thread thread_id = do
    events ← load_thread rt thread_id
    (if any (λ event. is_thread_started event.event) events
        then pure tt
        else throw (RuntimeError.unknown_thread thread_id))

  unfoldable pub ensure_turn_unused : ThreadId → TurnId → Step V W S Done
  ensure_turn_unused thread_id turn_id = do
    events ← load_thread rt thread_id
    (if any (λ event. is_turn turn_id event.turn_id) events
        then throw (RuntimeError.duplicate_turn thread_id turn_id)
        else pure tt)

  unfoldable pub acquire_thread : ThreadId → Step V W S Done
  acquire_thread thread_id r =
      if r.active_poisoned
      then (err (RuntimeError.store StoreError.poisoned), r)
      else if BTreeSet.contains thread_id r.active_threads
      then (err (RuntimeError.concurrent_turn thread_id), r)
      else (ok tt, record r { active_threads = BTreeSet.insert thread_id r.active_threads })

  -- `ActiveThread::drop`
  unfoldable pub release_thread : ThreadId → Run V W S → Run V W S
  release_thread thread_id r =
      if r.active_poisoned
      then r
      else record r { active_threads = BTreeSet.remove thread_id r.active_threads }

  -- what runs while the guard is held; the guard goes whatever comes out
  unfoldable pub while_active : {A : Type 0} → ThreadId → Step V W S A → Step V W S A
  unfolding acquire_thread release_thread
  while_active thread_id body = do
    acquire_thread thread_id
    λ r. let (result, r') = body r in (result, release_thread thread_id r')

  abbrev pub notify_if : Bool → EventEnvelope V → Run V W S → Run V W S
  notify_if true event r = notify rt event r
  notify_if false event r = r

  unfoldable pub notify_from : ℕ → List (EventEnvelope V) → Run V W S → Run V W S
  notify_from before [] r = r
  notify_from before (event ∷ events) r =
      notify_from before events (notify_if (leb before event.sequence) event r)

  -- show the events that the recovery has added
  unfoldable pub publish : ThreadId → ℕ → RecoveryReport V → Step V W S (RecoveryReport V)
  publish thread_id before report = do
    recovered ← load_thread rt thread_id
    λ r. (ok report, notify_from before recovered r)

  unfoldable pub recover_exclusive : ThreadId → Step V W S (RecoveryReport V)
  unfolding publish
  recover_exclusive thread_id = do
    events ← load_thread rt thread_id
    report ← lift_store rt (recover_thread rt.store thread_id)
    (if changed report then publish thread_id (next_after 0 events) report else pure report)

  unfoldable pub start_thread : ThreadId → Step V W S ThreadId
  start_thread fresh = do append rt fresh none thread_started; pure fresh

  unfoldable pub recover : ThreadId → Step V W S (RecoveryReport V)
  recover thread_id = do
    ensure_thread thread_id
    while_active thread_id (recover_exclusive thread_id)

  -- what is fixed before the loop
  unfoldable pub plan_turn : ThreadId → TurnId → TurnPlan V
  plan_turn thread_id turn_id =
      let projection = capabilities rt in
      record {
        thread_id = thread_id;
        turn_id = turn_id;
        projection = projection;
        visible_names = visible_names projection;
        visible_tools = definitions_for rt.tools (visible_names projection);
      }

  unfoldable pub turn_body : ThreadId → TurnId → String → Step V W S TurnOutcome
  turn_body thread_id turn_id input = do
    ensure_turn_unused thread_id turn_id
    recover_exclusive thread_id
    append rt thread_id (some turn_id) turn_started
    append rt thread_id (some turn_id) (user_message input)
    events ← load_thread rt thread_id
    turn_loop rt (plan_turn thread_id turn_id) rt.config.max_model_iterations 0
        (transcript_from_events events) []

  unfoldable pub run_turn : ThreadId → TurnId → String → Step V W S TurnOutcome
  run_turn thread_id turn_id input = do
    ensure_thread thread_id
    while_active thread_id (turn_body thread_id turn_id input)
