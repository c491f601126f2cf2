-- ===== src/Core/Recovery/Recovered.antt =====
-- crates/harness-core/src/recovery.rs: what holds of the log after a recovery that succeeds.
use nausicaa.Prelude.{
  ◌≡◌, true, false, List, ◌++◌, string_ord, pair_ord, ◌⊎◌, inl, inr, arith, ap, Bool-cases, sym, ok,
  append_assoc, filter-append,
}
use nausicaa.Prelude.Exec.{continue_ok, pure}
use nausicaa.Prelude.BTreeMap
use nausicaa.Prelude.BTreeSet
use nausicaa.Core.Id.{ThreadId, TurnId, CallId}
use nausicaa.Core.Event.{EventEnvelope, tool_receipt_recorded}
use nausicaa.Core.Store.{EventStore, thread_events}
use nausicaa.Core.Recovery.{
  Scan, scan_keys, scan_events, empty_scan, recover_calls, fail_turns, recover_thread,
  RecoveryReport,
}
use nausicaa.Core.Recovery.Log.{
  IsRequested, IsClosed, open_turn, Answers, Logged-append_left, Logged-append_right,
  Logged-append_cases, Logged-map, open_turn-append,
}
use nausicaa.Core.Recovery.Keys.{known-scan_keys}
use nausicaa.Core.Recovery.Collected.{
  known, IsKeyed, scan_events-IsKeyed, requested-known, known-receipt_for, receipt_for-call_id,
  completed-IsClosed, open-scan_events,
}
use nausicaa.Core.Recovery.Closing.{Received, recover_calls_lem}
use nausicaa.Core.Recovery.Turns.{Failed, fail_turns_lem}

pub empty_scan-IsKeyed : {V : Type 0} → IsKeyed (empty_scan {V = V})
unfolding BTreeMap.get
empty_scan-IsKeyed = record {
  calls_keyed = λ k c e. cc;
  prepared_keyed = λ k c e. cc;
  started_keyed = λ k c e. cc;
}

module _ {V S : Type 0} (store : EventStore V S) (thread_id : ThreadId) where
  open store use {view}

  -- the events of the thread
  abbrev pub log_of : S → List (EventEnvelope V)
  log_of s = thread_events thread_id (view s)

  thread_events-append :
      (xs ys : List (EventEnvelope V))
      → thread_events thread_id (xs ++ ys)
        ≡ thread_events thread_id xs ++ thread_events thread_id ys
  unfolding thread_events
  thread_events-append xs ys = filter-append _ xs ys

  log_grows :
      (s s₁ s' : S) (xs ys : List (EventEnvelope V))
      → view s₁ ≡ view s ++ xs
      → view s' ≡ view s₁ ++ ys
      → thread_events thread_id xs ≡ xs
      → thread_events thread_id ys ≡ ys
      → log_of s' ≡ log_of s ++ (xs ++ ys)
  log_grows s s₁ s' xs ys g h tx ty = simp (h, g, append_assoc, thread_events-append, tx, ty)

  -- the two loops of a recovery, over the events that it loaded
  pub record Steps (s s' : S) : Type 0 where
    pub scan : Scan V
    pub scanned : scan ≡ scan_events empty_scan (log_of s)
    pub middle : S
    pub receipts : Received store thread_id scan (scan_keys scan) s middle
    pub turns : Failed store thread_id scan.open_turns middle s'
    pub log : log_of s' ≡ log_of s ++ (receipts.new ++ turns.new)

  pub steps :
      (s : S) {report : RecoveryReport V} {s' : S}
      → recover_thread store thread_id s ≡ (ok report, s')
      → Steps s s'
  unfolding recover_thread
  steps s {s' = s'} h =
      let (events, s₀, loaded, h₁) = continue_ok (store.load_thread thread_id s, s) _ h in
      let scan = scan_events empty_scan events in
      let (rs, s₁, closed, h₂) =
        continue_ok (recover_calls store thread_id scan (scan_keys scan) s₀) _ h₁ in
      let (ts, s₂, marked, h₃) =
        continue_ok (fail_turns store thread_id scan.open_turns s₁)
          (λ turns. pure (record { receipts_recorded = rs; turns_marked_failed = turns })) h₂ in
      let unchanged : s₀ ≡ s = ap (λ p. p.1) (sym loaded) in
      let last : s₂ ≡ s' = ap (λ p. p.1) h₃ in
      let receipts =
        recover_calls_lem store thread_id scan (scan_keys scan) s (rw unchanged at closed) in
      let turns = fail_turns_lem store thread_id scan.open_turns s₁ (rw last at marked) in
      record {
        scan = scan;
        scanned =
            ap (scan_events empty_scan) (store.load_thread_ok thread_id s (ap (λ p. p.0) loaded));
        middle = s₁;
        receipts = receipts;
        turns = turns;
        log =
            log_grows s s₁ s' receipts.new turns.new receipts.grown turns.grown
              receipts.appended.same_thread turns.appended.same_thread;
      }

  Steps-receipt :
      (s s' : S) (st : Steps s s') (turn : TurnId) (c : CallId)
      → IsRequested turn c (log_of s)
      → IsClosed turn c (log_of s) ⊎ IsClosed turn c st.receipts.new
  unfolding BTreeSet.contains
  Steps-receipt s s' st turn c asked =
      let k : TurnId × CallId = (turn, c) in
      let keyed : IsKeyed st.scan =
        rw st.scanned (scan_events-IsKeyed empty_scan (log_of s) empty_scan-IsKeyed) in
      let kn : known st.scan k ≡ true =
        rw st.scanned (requested-known empty_scan (log_of s) turn c asked) in
      let (r, found) = known-receipt_for st.scan k kn in
      elim (Bool-cases (BTreeSet.contains k st.scan.completed)) [
        | inl done ↦ elim (completed-IsClosed empty_scan (log_of s) k (rw st.scanned at done)) [
          | inl never ↦ absurd (ground arith)
          | inr old ↦ inl old
        ]
        | inr pending ↦ inr (
            Logged-map (λ e. e ≡ tool_receipt_recorded r) (Answers c) turn st.receipts.new
              (λ e p. rw p (receipt_for-call_id st.scan k keyed found))
              (st.receipts.received k r (known-scan_keys st.scan k kn) pending found))
      ]

  Steps-closes :
      (s s' : S) (st : Steps s s') (turn : TurnId) (c : CallId)
      → IsRequested turn c (log_of s')
      → IsClosed turn c (log_of s')
  Steps-closes s s' st turn c asked =
      rw st.log (elim (Logged-append_cases _ turn (log_of s) _ (rw st.log at asked)) [
        | inl before ↦ elim (Steps-receipt s s' st turn c before) [
          | inl old ↦ Logged-append_left _ turn (log_of s) _ old
          | inr new ↦
              Logged-append_right _ turn (log_of s) _
                (Logged-append_left _ turn st.receipts.new st.turns.new new)
        ]
        | inr after ↦ elim (Logged-append_cases _ turn st.receipts.new _ after) [
          | inl x ↦ absurd (st.receipts.appended.quiet turn c x)
          | inr x ↦ absurd (st.turns.appended.quiet turn c x)
        ]
      ])

  Steps-shut :
      (s s' : S) (st : Steps s s') (turn : TurnId) → open_turn turn false (log_of s') ≡ false
  unfolding BTreeSet.contains
  Steps-shut s s' st turn =
      let seen = open-scan_events empty_scan (log_of s) turn in
      rw (st.log, open_turn-append, open_turn-append, st.receipts.still, st.turns.shut)
        (ground (arith, seen, st.scanned))

  -- After a recovery that succeeds, a call that the thread's log asks for, prepares or starts, in any
  -- turn, has a receipt recorded in that turn.
  pub recover_thread-IsClosed :
      (s : S) (turn : TurnId) (c : CallId) {report : RecoveryReport V} {s' : S}
      → recover_thread store thread_id s ≡ (ok report, s')
      → IsRequested turn c (log_of s')
      → IsClosed turn c (log_of s')
  recover_thread-IsClosed s turn c {s' = s'} h asked = Steps-closes s s' (steps s h) turn c asked

  -- After a recovery that succeeds, no turn of the thread is open.
  pub recover_thread-open_turn :
      (s : S) (turn : TurnId) {report : RecoveryReport V} {s' : S}
      → recover_thread store thread_id s ≡ (ok report, s')
      → open_turn turn false (log_of s') ≡ false
  recover_thread-open_turn s turn {s' = s'} h = Steps-shut s s' (steps s h) turn
