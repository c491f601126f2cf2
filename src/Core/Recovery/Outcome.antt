-- ===== src/Core/Recovery/Outcome.antt =====
-- crates/harness-core/src/recovery.rs: which receipt an interrupted call gets.
use nausicaa.Prelude.{
  ◌≡◌, refl, Bool, true, false, Option, none, some, List, [], ◌∷◌, ==_iff, if◌then◌else◌,
  string_ord, pair_ord, ◌⊎◌, inl, inr, arith, ap, ◌∙◌, Bool-cases, ok,
}
use nausicaa.Prelude.BTreeMap
use nausicaa.Prelude.BTreeSet
use nausicaa.Core.Id.{ThreadId, TurnId, CallId}
use nausicaa.Core.Event.{RuntimeEvent, EventEnvelope, tool_execution_started, tool_receipt_recorded}
use nausicaa.Core.Protocol.{ToolReceipt, ReceiptStatus}
use nausicaa.Core.Receipt
use nausicaa.Core.Store.{EventStore}
use nausicaa.Core.Recovery.{
  Key, Scan, scan_event, scan_turn, scan_events, empty_scan, receipt_for, recover_thread,
  RecoveryReport,
}
use nausicaa.Core.Recovery.Log.{
  Logged, IsRequested, IsClosed, Logged-append_left, Logged-append_right,
}
use nausicaa.Core.Recovery.Keys.{known-scan_keys}
use nausicaa.Core.Recovery.Collected.{
  known, is_some, IsKeyed, scan_events-IsKeyed, requested-known, known-receipt_for,
  receipt_for-call_id, completed-IsClosed,
}
use nausicaa.Core.Recovery.Recovered.{steps, log_of, empty_scan-IsKeyed}

module _ {V : Type 0} where
  -- the event starts the execution of the call
  abbrev pub Starts : CallId → RuntimeEvent V → Type 0
  Starts call_id (tool_execution_started action) = action.call_id ≡ call_id
  Starts call_id _ = ⊥

  abbrev has_started : Scan V → Key → Bool
  has_started scan k = is_some (BTreeMap.get k scan.started)

  started_cases :
      (turn : TurnId) (e : RuntimeEvent V) (scan : Scan V) (k : Key)
      → has_started (scan_event turn e scan) k ≡ true
      → (has_started scan k ≡ true) ⊎ ((turn ≡ k.0) × Starts k.1 e)
  unfolding scan_event
  started_cases turn (tool_execution_started p) scan k h = ground (
    arith,
    BTreeMap.get-insert (turn, p.call_id) k p scan.started,
    ==_iff {K = TurnId × CallId} (turn, p.call_id) k,
  )
  started_cases turn _ scan k h = inl h

  started_keeps :
      (t : Option TurnId) (e : RuntimeEvent V) (scan : Scan V) (k : Key)
      → has_started scan k ≡ true
      → has_started (scan_turn t e scan) k ≡ true
  unfolding scan_event
  started_keeps none e scan k h = h
  started_keeps (some t) (tool_execution_started p) scan k h =
      ground (arith, BTreeMap.get-insert (t, p.call_id) k p scan.started)
  started_keeps (some t) _ scan k h = h

  started_adds :
      (turn : TurnId) (e : RuntimeEvent V) (scan : Scan V) (c : CallId)
      → Starts c e
      → has_started (scan_event turn e scan) (turn, c) ≡ true
  unfolding scan_event
  started_adds turn (tool_execution_started p) scan c h = ground (
    arith,
    BTreeMap.get-insert (turn, p.call_id) (turn, c) p scan.started,
    ==_iff {K = TurnId × CallId} (turn, p.call_id) (turn, c),
  )
  started_adds turn _ scan c h = absurd h

  started_stays :
      (scan : Scan V) (es : List (EventEnvelope V)) (k : Key)
      → has_started scan k ≡ true
      → has_started (scan_events scan es) k ≡ true
  unfolding scan_events
  started_stays scan [] k h = h
  started_stays scan (e ∷ es) k h =
      started_stays (scan_turn e.turn_id e.event scan) es k
        (started_keeps e.turn_id e.event scan k h)

  Logged-started :
      (scan : Scan V) (es : List (EventEnvelope V)) (turn : TurnId) (c : CallId)
      → Logged (Starts c) turn es
      → has_started (scan_events scan es) (turn, c) ≡ true
  unfolding scan_events
  Logged-started scan [] turn c h = absurd h
  Logged-started scan (e ∷ es) turn c (inl (t, m)) =
      started_stays (scan_turn e.turn_id e.event scan) es (turn, c)
        (rw t (started_adds turn e.event scan c m))
  Logged-started scan (e ∷ es) turn c (inr h) =
      Logged-started (scan_turn e.turn_id e.event scan) es turn c h

  started-Logged :
      (scan : Scan V) (es : List (EventEnvelope V)) (k : Key)
      → has_started (scan_events scan es) k ≡ true
      → (has_started scan k ≡ true) ⊎ Logged (Starts k.1) k.0 es
  unfolding scan_events
  started-Logged scan [] k h = inl h
  started-Logged scan (e ∷ es) k h =
      elim (started-Logged (scan_turn e.turn_id e.event scan) es k h) [
        | inl now ↦ step e.turn_id refl now
        | inr later ↦ inr (inr later)
      ]
    where
      step :
          (t : Option TurnId)
          → e.turn_id ≡ t
          → has_started (scan_turn t e.event scan) k ≡ true
          → (has_started scan k ≡ true) ⊎ Logged (Starts k.1) k.0 (e ∷ es)
      step none p now = inl now
      step (some t) p now = elim (started_cases t e.event scan k now) [
        | inl before ↦ inl before
        | inr (q, a) ↦ inr (inl (p ∙ ap some q, a))
      ]

  -- the status of a recovery's receipt
  receipt_for-status :
      (scan : Scan V) (k : Key) {r : ToolReceipt V}
      → receipt_for scan k ≡ some r
      → r.status ≡ (if has_started scan k then ReceiptStatus.unknown else ReceiptStatus.failed)
  unfolding receipt_for Receipt.unknown Receipt.failed Receipt.malformed
  receipt_for-status scan k h = ground arith

module _ {V S : Type 0} (store : EventStore V S) (thread_id : ThreadId) where
  abbrev log : S → List (EventEnvelope V)
  log s = log_of store thread_id s

  -- A recovery that succeeds gives each call that was asked for, prepared or started and has no
  -- receipt a receipt of its call id: `unknown` if its execution had started, and `failed` if not.
  pub recover_thread_outcome :
      (s : S) (turn : TurnId) (c : CallId) {report : RecoveryReport V} {s' : S}
      → recover_thread store thread_id s ≡ (ok report, s')
      → IsRequested turn c (log s)
      → ¬ (IsClosed turn c (log s))
      → (r : ToolReceipt V) × Logged (λ e. e ≡ tool_receipt_recorded r) turn (log s')
        × (r.call_id ≡ c)
        × ((r.status ≡ ReceiptStatus.unknown) × Logged (Starts c) turn (log s)
            ⊎ (r.status ≡ ReceiptStatus.failed) × (¬ (Logged (Starts c) turn (log s))))
  unfolding BTreeSet.contains BTreeMap.get
  recover_thread_outcome s turn c {s' = s'} h asked not_closed =
      let st = steps store thread_id s h in
      let k : TurnId × CallId = (turn, c) in
      let keyed : IsKeyed st.scan =
        rw st.scanned (scan_events-IsKeyed empty_scan (log s) empty_scan-IsKeyed) in
      let kn : known st.scan k ≡ true =
        rw st.scanned (requested-known empty_scan (log s) turn c asked) in
      let (r, found) = known-receipt_for st.scan k kn in
      let status = receipt_for-status st.scan k found in
      let recorded : BTreeSet.contains k st.scan.completed ≡ false
          → Logged (λ e. e ≡ tool_receipt_recorded r) turn (log s') =
        λ pending. rw st.log (
          Logged-append_right _ turn (log s) _ (
            Logged-append_left _ turn st.receipts.new st.turns.new
              (st.receipts.received k r (known-scan_keys st.scan k kn) pending found))) in
      let pending : BTreeSet.contains k st.scan.completed ≡ false =
        elim (Bool-cases (BTreeSet.contains k st.scan.completed)) [
          | inl done ↦ elim (completed-IsClosed empty_scan (log s) k (rw st.scanned at done)) [
            | inl never ↦ cc
            | inr old ↦ absurd (not_closed old)
          ]
          | inr p ↦ p
        ] in
      (
        r,
        recorded pending,
        receipt_for-call_id st.scan k keyed found,
        elim (Bool-cases (has_started st.scan k)) [
          | inl yes_started ↦ inl (
            status
                ∙ ap (λ b. if b then ReceiptStatus.unknown else ReceiptStatus.failed) yes_started,
            elim (started-Logged empty_scan (log s) k (rw st.scanned at yes_started)) [
              | inl never ↦ absurd (ground arith)
              | inr l ↦ l
            ],
          )
          | inr not_started ↦ inr (
            status
                ∙ ap (λ b. if b then ReceiptStatus.unknown else ReceiptStatus.failed) not_started,
            λ l. ground (arith, st.scanned, Logged-started empty_scan (log s) turn c l),
          )
        ],
      )
