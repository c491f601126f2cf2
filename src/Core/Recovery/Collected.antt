-- ===== src/Core/Recovery/Collected.antt =====
-- crates/harness-core/src/recovery.rs: what the pass over the events has collected, compared with
-- what the log says.
use nausicaa.Prelude.{
  ◌≡◌, refl, Bool, true, false, Option, none, some, List, [], ◌∷◌, ◌++◌, ==_iff, if◌then◌else◌,
  string_ord, pair_ord, ◌⊎◌, inl, inr, arith, ◌||◌, ap, ◌∙◌,
}
use nausicaa.Prelude.BTreeMap
use nausicaa.Prelude.BTreeMap.{BTreeMap}
use nausicaa.Prelude.BTreeSet
use nausicaa.Core.Id.{TurnId, CallId}
use nausicaa.Core.Protocol.{ToolCall, ToolReceipt, PreparedToolCall}
use nausicaa.Core.Event.{
  RuntimeEvent, EventEnvelope, turn_started, assistant_message, tool_prepared,
  tool_execution_started, tool_receipt_recorded, turn_completed, turn_failed, turn_cancelled,
}
use nausicaa.Core.Receipt
use nausicaa.Core.Recovery.{
  Key, Scan, insert_calls, scan_event, scan_turn, scan_events, receipt_for, first_receipt,
}
use nausicaa.Core.Recovery.Log.{
  HasCall, Mentions, Answers, IsRequested, IsClosed, open_after, of_turn, open_turn,
}

abbrev pub is_some {ℓ} : {A : Type ℓ} → Option A → Bool
is_some none = false
is_some (some a) = true

module _ {V : Type 0} where
  -- the key is in one of the three maps
  abbrev pub known : Scan V → Key → Bool
  known scan key =
      is_some (BTreeMap.get key scan.started)
      || is_some (BTreeMap.get key scan.prepared)
      || is_some (BTreeMap.get key scan.calls)

  pub scan_events-append :
      (scan : Scan V) (xs ys : List (EventEnvelope V))
      → scan_events scan (xs ++ ys) ≡ scan_events (scan_events scan xs) ys
  unfolding scan_events
  scan_events-append scan [] ys = refl
  scan_events-append scan (x ∷ xs) ys = scan_events-append (scan_turn x.turn_id x.event scan) xs ys

  insert_calls_keeps :
      (turn : TurnId) (calls : List (ToolCall V)) (m : BTreeMap Key (ToolCall V)) (k : Key)
      → is_some (BTreeMap.get k m) ≡ true
      → is_some (BTreeMap.get k (insert_calls turn calls m)) ≡ true
  unfolding insert_calls
  insert_calls_keeps turn [] m k h = h
  insert_calls_keeps turn (call ∷ calls) m k h =
      insert_calls_keeps turn calls (BTreeMap.insert (turn, call.id) call m) k
        (ground (arith, BTreeMap.get-insert (turn, call.id) k call m))

  insert_calls_adds :
      (turn : TurnId) (calls : List (ToolCall V)) (m : BTreeMap Key (ToolCall V)) (c : CallId)
      → HasCall c calls
      → is_some (BTreeMap.get (turn, c) (insert_calls turn calls m)) ≡ true
  unfolding insert_calls
  insert_calls_adds turn [] m c h = absurd h
  insert_calls_adds turn (call ∷ calls) m c (inl e) =
      insert_calls_keeps turn calls (BTreeMap.insert (turn, call.id) call m) (turn, c)
        (ground (
          arith,
          BTreeMap.get-insert (turn, call.id) (turn, c) call m,
          ==_iff {K = TurnId × CallId} (turn, call.id) (turn, c),
        ))
  insert_calls_adds turn (call ∷ calls) m c (inr h) =
      insert_calls_adds turn calls (BTreeMap.insert (turn, call.id) call m) c h

  known-scan_event :
      (turn : TurnId) (e : RuntimeEvent V) (scan : Scan V) (k : Key)
      → known scan k ≡ true
      → known (scan_event turn e scan) k ≡ true
  unfolding scan_event
  known-scan_event turn (assistant_message content calls stop usage) scan k h =
      ground (arith, insert_calls_keeps turn calls scan.calls k)
  known-scan_event turn (tool_prepared p) scan k h =
      ground (arith, BTreeMap.get-insert (turn, p.call_id) k p scan.prepared)
  known-scan_event turn (tool_execution_started p) scan k h =
      ground (arith, BTreeMap.get-insert (turn, p.call_id) k p scan.started)
  known-scan_event turn _ scan k h = h

  known-scan_events :
      (scan : Scan V) (es : List (EventEnvelope V)) (k : Key)
      → known scan k ≡ true
      → known (scan_events scan es) k ≡ true
  unfolding scan_events
  known-scan_events scan [] k h = h
  known-scan_events scan (e ∷ es) k h =
      known-scan_events (scan_turn e.turn_id e.event scan) es k (step e.turn_id)
    where
      step : (t : Option TurnId) → known (scan_turn t e.event scan) k ≡ true
      step none = h
      step (some t) = known-scan_event t e.event scan k h

  Mentions-known :
      (e : RuntimeEvent V) (scan : Scan V) (turn : TurnId) (c : CallId)
      → Mentions c e
      → known (scan_event turn e scan) (turn, c) ≡ true
  unfolding scan_event
  Mentions-known (assistant_message content calls stop usage) scan turn c h =
      ground (arith, insert_calls_adds turn calls scan.calls c h)
  Mentions-known (tool_prepared p) scan turn c h = ground (
    arith,
    BTreeMap.get-insert (turn, p.call_id) (turn, c) p scan.prepared,
    ==_iff {K = TurnId × CallId} (turn, p.call_id) (turn, c),
  )
  Mentions-known (tool_execution_started p) scan turn c h = ground (
    arith,
    BTreeMap.get-insert (turn, p.call_id) (turn, c) p scan.started,
    ==_iff {K = TurnId × CallId} (turn, p.call_id) (turn, c),
  )
  Mentions-known _ scan turn c h = absurd h

  -- a call that the log asks for, prepares or starts is known after the pass
  pub requested-known :
      (scan : Scan V) (es : List (EventEnvelope V)) (turn : TurnId) (c : CallId)
      → IsRequested turn c es
      → known (scan_events scan es) (turn, c) ≡ true
  unfolding scan_events
  requested-known scan [] turn c h = absurd h
  requested-known scan (e ∷ es) turn c (inl (t, m)) =
      known-scan_events (scan_turn e.turn_id e.event scan) es (turn, c)
        (rw t (Mentions-known e.event scan turn c m))
  requested-known scan (e ∷ es) turn c (inr h) =
      requested-known (scan_turn e.turn_id e.event scan) es turn c h

  -- a known key has a receipt to be recorded, and it is one of its call
  pub known-receipt_for :
      (scan : Scan V) (k : Key)
      → known scan k ≡ true
      → (r : ToolReceipt V) × (receipt_for scan k ≡ some r)
  unfolding receipt_for
  known-receipt_for scan k h =
      go (BTreeMap.get k scan.started) (BTreeMap.get k scan.prepared) (BTreeMap.get k scan.calls) h
    where
      go :
          (a b : Option (PreparedToolCall V)) (c : Option (ToolCall V))
          → (is_some a || is_some b || is_some c) ≡ true
          → (r : ToolReceipt V) × (first_receipt a b c ≡ some r)
      go (some a) b c h = (_, refl)
      go none (some b) c h = (_, refl)
      go none none (some c) h = (_, refl)
      go none none none h = absurd (ground arith)

  -- every value stands under the key of its call
  pub record IsKeyed (scan : Scan V) : Type 0 where
    pub calls_keyed :
        (k : Key) (call : ToolCall V) → BTreeMap.get k scan.calls ≡ some call → call.id ≡ k.1
    pub prepared_keyed :
        (k : Key) (p : PreparedToolCall V) → BTreeMap.get k scan.prepared ≡ some p → p.call_id ≡ k.1
    pub started_keyed :
        (k : Key) (p : PreparedToolCall V) → BTreeMap.get k scan.started ≡ some p → p.call_id ≡ k.1

  insert_calls_keyed :
      (turn : TurnId) (calls : List (ToolCall V)) (m : BTreeMap Key (ToolCall V))
      → ((k : Key) (call : ToolCall V) → BTreeMap.get k m ≡ some call → call.id ≡ k.1)
      → (k : Key) (call : ToolCall V) → BTreeMap.get k (insert_calls turn calls m) ≡ some call
      → call.id ≡ k.1
  unfolding insert_calls
  insert_calls_keyed turn [] m h = h
  insert_calls_keyed turn (c ∷ calls) m h =
      insert_calls_keyed turn calls (BTreeMap.insert (turn, c.id) c m) λ k call e. ground (
        arith,
        h k call,
        BTreeMap.get-insert (turn, c.id) k c m,
        ==_iff {K = TurnId × CallId} (turn, c.id) k,
      )

  scan_event-IsKeyed :
      (turn : TurnId) (e : RuntimeEvent V) (scan : Scan V)
      → IsKeyed scan
      → IsKeyed (scan_event turn e scan)
  unfolding scan_event
  scan_event-IsKeyed turn (assistant_message content calls stop usage) scan h = record {
    calls_keyed = insert_calls_keyed turn calls scan.calls h.calls_keyed;
    prepared_keyed = h.prepared_keyed;
    started_keyed = h.started_keyed;
  }
  scan_event-IsKeyed turn (tool_prepared p) scan h = record {
    calls_keyed = h.calls_keyed;
    prepared_keyed = λ k q e. ground (
      arith,
      h.prepared_keyed k q,
      BTreeMap.get-insert (turn, p.call_id) k p scan.prepared,
      ==_iff {K = TurnId × CallId} (turn, p.call_id) k,
    );
    started_keyed = h.started_keyed;
  }
  scan_event-IsKeyed turn (tool_execution_started p) scan h = record {
    calls_keyed = h.calls_keyed;
    prepared_keyed = h.prepared_keyed;
    started_keyed = λ k q e. ground (
      arith,
      h.started_keyed k q,
      BTreeMap.get-insert (turn, p.call_id) k p scan.started,
      ==_iff {K = TurnId × CallId} (turn, p.call_id) k,
    );
  }
  scan_event-IsKeyed turn _ scan h = record {
    calls_keyed = h.calls_keyed;
    prepared_keyed = h.prepared_keyed;
    started_keyed = h.started_keyed;
  }

  pub scan_events-IsKeyed :
      (scan : Scan V) (es : List (EventEnvelope V)) → IsKeyed scan → IsKeyed (scan_events scan es)
  unfolding scan_events
  scan_events-IsKeyed scan [] h = h
  scan_events-IsKeyed scan (e ∷ es) h =
      scan_events-IsKeyed (scan_turn e.turn_id e.event scan) es (step e.turn_id)
    where
      step : (t : Option TurnId) → IsKeyed (scan_turn t e.event scan)
      step none = h
      step (some t) = scan_event-IsKeyed t e.event scan h

  pub receipt_for-call_id :
      (scan : Scan V) (k : Key) {r : ToolReceipt V}
      → IsKeyed scan
      → receipt_for scan k ≡ some r
      → r.call_id ≡ k.1
  unfolding receipt_for Receipt.unknown Receipt.failed Receipt.malformed
  receipt_for-call_id scan k {r} h e =
      go (BTreeMap.get k scan.started) (BTreeMap.get k scan.prepared) (BTreeMap.get k scan.calls)
        (h.started_keyed k) (h.prepared_keyed k) (h.calls_keyed k) e
    where
      go :
          (a b : Option (PreparedToolCall V)) (c : Option (ToolCall V))
          → ((p : PreparedToolCall V) → a ≡ some p → p.call_id ≡ k.1)
          → ((p : PreparedToolCall V) → b ≡ some p → p.call_id ≡ k.1)
          → ((p : ToolCall V) → c ≡ some p → p.id ≡ k.1)
          → first_receipt a b c ≡ some r
          → r.call_id ≡ k.1
      go (some p) b c ha hb hc e = ground (arith, ha p refl)
      go none (some p) c ha hb hc e = ground (arith, hb p refl)
      go none none (some p) ha hb hc e = ground (arith, hc p refl)
      go none none none ha hb hc e = cc

  completed-scan_event :
      (turn : TurnId) (e : RuntimeEvent V) (scan : Scan V) (c : CallId)
      → Answers c e
      → BTreeSet.contains (turn, c) (scan_event turn e scan).completed ≡ true
  unfolding scan_event
  completed-scan_event turn (tool_receipt_recorded r) scan c h = ground (
    arith,
    BTreeSet.contains-insert (turn, r.call_id) (turn, c) scan.completed,
    ==_iff {K = TurnId × CallId} (turn, r.call_id) (turn, c),
  )
  completed-scan_event turn _ scan c h = absurd h

  -- what one event adds to the completed calls
  completed_cases :
      (turn : TurnId) (e : RuntimeEvent V) (scan : Scan V) (k : Key)
      → BTreeSet.contains k (scan_event turn e scan).completed ≡ true
      → (BTreeSet.contains k scan.completed ≡ true) ⊎ ((turn ≡ k.0) × Answers k.1 e)
  unfolding scan_event
  completed_cases turn (tool_receipt_recorded r) scan k h = ground (
    arith,
    BTreeSet.contains-insert (turn, r.call_id) k scan.completed,
    ==_iff {K = TurnId × CallId} (turn, r.call_id) k,
  )
  completed_cases turn _ scan k h = inl h

  completed_keeps :
      (t : Option TurnId) (e : RuntimeEvent V) (scan : Scan V) (k : Key)
      → BTreeSet.contains k scan.completed ≡ true
      → BTreeSet.contains k (scan_turn t e scan).completed ≡ true
  unfolding scan_event
  completed_keeps none e scan k h = h
  completed_keeps (some t) (tool_receipt_recorded r) scan k h =
      ground (arith, BTreeSet.contains-insert (t, r.call_id) k scan.completed)
  completed_keeps (some t) _ scan k h = h

  pub completed-scan_events :
      (scan : Scan V) (es : List (EventEnvelope V)) (k : Key)
      → BTreeSet.contains k scan.completed ≡ true
      → BTreeSet.contains k (scan_events scan es).completed ≡ true
  unfolding scan_events
  completed-scan_events scan [] k h = h
  completed-scan_events scan (e ∷ es) k h =
      completed-scan_events (scan_turn e.turn_id e.event scan) es k
        (completed_keeps e.turn_id e.event scan k h)

  -- the completed keys are those of the calls that the log answers
  pub completed-IsClosed :
      (scan : Scan V) (es : List (EventEnvelope V)) (k : Key)
      → BTreeSet.contains k (scan_events scan es).completed ≡ true
      → (BTreeSet.contains k scan.completed ≡ true) ⊎ IsClosed k.0 k.1 es
  unfolding scan_events
  completed-IsClosed scan [] k h = inl h
  completed-IsClosed scan (e ∷ es) k h =
      elim (completed-IsClosed (scan_turn e.turn_id e.event scan) es k h) [
        | inl now ↦ step e.turn_id refl now
        | inr later ↦ inr (inr later)
      ]
    where
      step :
          (t : Option TurnId)
          → e.turn_id ≡ t
          → BTreeSet.contains k (scan_turn t e.event scan).completed ≡ true
          → (BTreeSet.contains k scan.completed ≡ true) ⊎ IsClosed k.0 k.1 (e ∷ es)
      step none p now = inl now
      step (some t) p now = elim (completed_cases t e.event scan k now) [
        | inl before ↦ inl before
        | inr (q, a) ↦ inr (inl (p ∙ ap some q, a))
      ]

  pub closed-completed :
      (scan : Scan V) (es : List (EventEnvelope V)) (turn : TurnId) (c : CallId)
      → IsClosed turn c es
      → BTreeSet.contains (turn, c) (scan_events scan es).completed ≡ true
  unfolding scan_events
  closed-completed scan [] turn c h = absurd h
  closed-completed scan (e ∷ es) turn c (inl (t, a)) =
      completed-scan_events (scan_turn e.turn_id e.event scan) es (turn, c)
        (rw t (completed-scan_event turn e.event scan c a))
  closed-completed scan (e ∷ es) turn c (inr h) =
      closed-completed (scan_turn e.turn_id e.event scan) es turn c h

  open-scan_turn :
      (t : Option TurnId) (e : RuntimeEvent V) (scan : Scan V) (turn : TurnId)
      → BTreeSet.contains turn (scan_turn t e scan).open_turns ≡ (
          if of_turn t turn
          then open_after e (BTreeSet.contains turn scan.open_turns)
          else BTreeSet.contains turn scan.open_turns)
  unfolding scan_event
  open-scan_turn none e scan turn = refl
  open-scan_turn (some t) turn_started scan turn =
      ground (arith, BTreeSet.contains-insert t turn scan.open_turns)
  open-scan_turn (some t) (turn_completed c) scan turn =
      ground (arith, BTreeSet.contains-remove t turn scan.open_turns)
  open-scan_turn (some t) (turn_failed c) scan turn =
      ground (arith, BTreeSet.contains-remove t turn scan.open_turns)
  open-scan_turn (some t) turn_cancelled scan turn =
      ground (arith, BTreeSet.contains-remove t turn scan.open_turns)
  open-scan_turn (some t) _ scan turn = ground arith

  -- the open turns are those that the log leaves open
  pub open-scan_events :
      (scan : Scan V) (es : List (EventEnvelope V)) (turn : TurnId)
      → BTreeSet.contains turn (scan_events scan es).open_turns
        ≡ open_turn turn (BTreeSet.contains turn scan.open_turns) es
  unfolding scan_events open_turn
  open-scan_events scan [] turn = refl
  open-scan_events scan (e ∷ es) turn =
      open-scan_events (scan_turn e.turn_id e.event scan) es turn
      ∙ ap (λ b. open_turn turn b es) (open-scan_turn e.turn_id e.event scan turn)
