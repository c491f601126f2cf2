-- ===== src/Core/Recovery/Log.antt =====
-- What a log says of a call and of a turn, read off the events one by one and with no collection.
use nausicaa.Prelude.{
  ◌≡◌, Bool, true, false, Option, none, some, List, [], ◌∷◌, ◌==◌, if◌then◌else◌, string_ord, ◌⊎◌,
  inl, inr, refl, ◌++◌,
}
use nausicaa.Core.Id.{TurnId, CallId}
use nausicaa.Core.Protocol.{ToolCall}
use nausicaa.Core.Event.{
  RuntimeEvent, EventEnvelope, turn_started, assistant_message, tool_prepared,
  tool_execution_started, tool_receipt_recorded, turn_completed, turn_failed, turn_cancelled,
}

abbrev pub of_turn : Option TurnId → TurnId → Bool
of_turn none turn_id = false
of_turn (some t) turn_id = t == turn_id

module _ {V : Type 0} where
  abbrev pub HasCall : CallId → List (ToolCall V) → Type 0
  HasCall call_id [] = ⊥
  HasCall call_id (call ∷ calls) = (call.id ≡ call_id) ⊎ HasCall call_id calls

  -- the event asks for the call, prepares it, or starts it
  abbrev pub Mentions : CallId → RuntimeEvent V → Type 0
  Mentions call_id (assistant_message content tool_calls stop_reason usage) =
      HasCall call_id tool_calls
  Mentions call_id (tool_prepared action) = action.call_id ≡ call_id
  Mentions call_id (tool_execution_started action) = action.call_id ≡ call_id
  Mentions call_id _ = ⊥

  -- the event records a receipt of the call
  abbrev pub Answers : CallId → RuntimeEvent V → Type 0
  Answers call_id (tool_receipt_recorded receipt) = receipt.call_id ≡ call_id
  Answers call_id _ = ⊥

  -- an event of the turn, for which `P` holds, is in the log
  abbrev pub Logged : (RuntimeEvent V → Type 0) → TurnId → List (EventEnvelope V) → Type 0
  Logged P turn_id [] = ⊥
  Logged P turn_id (envelope ∷ log) =
      ((envelope.turn_id ≡ some turn_id) × P envelope.event) ⊎ Logged P turn_id log

  abbrev pub IsRequested : TurnId → CallId → List (EventEnvelope V) → Type 0
  IsRequested turn_id call_id = Logged (Mentions call_id) turn_id

  abbrev pub IsClosed : TurnId → CallId → List (EventEnvelope V) → Type 0
  IsClosed turn_id call_id = Logged (Answers call_id) turn_id

  -- whether a turn is open after an event of it
  abbrev pub open_after : RuntimeEvent V → Bool → Bool
  open_after turn_started b = true
  open_after (turn_completed content) b = false
  open_after (turn_failed error) b = false
  open_after turn_cancelled b = false
  open_after _ b = b

  -- whether the turn is open after the log, if it was `b` before
  unfoldable pub open_turn : TurnId → Bool → List (EventEnvelope V) → Bool
  open_turn turn_id b [] = b
  open_turn turn_id b (envelope ∷ log) =
      open_turn turn_id
        (if of_turn envelope.turn_id turn_id then open_after envelope.event b else b) log

module _ {V : Type 0} where
  pub Logged-append_left :
      (P : RuntimeEvent V → Type 0) (turn : TurnId) (xs ys : List (EventEnvelope V))
      → Logged P turn xs
      → Logged P turn (xs ++ ys)
  Logged-append_left P turn [] ys h = absurd h
  Logged-append_left P turn (x ∷ xs) ys (inl h) = inl h
  Logged-append_left P turn (x ∷ xs) ys (inr h) = inr (Logged-append_left P turn xs ys h)

  pub Logged-append_right :
      (P : RuntimeEvent V → Type 0) (turn : TurnId) (xs ys : List (EventEnvelope V))
      → Logged P turn ys
      → Logged P turn (xs ++ ys)
  Logged-append_right P turn [] ys h = h
  Logged-append_right P turn (x ∷ xs) ys h = inr (Logged-append_right P turn xs ys h)

  pub Logged-append_cases :
      (P : RuntimeEvent V → Type 0) (turn : TurnId) (xs ys : List (EventEnvelope V))
      → Logged P turn (xs ++ ys)
      → Logged P turn xs ⊎ Logged P turn ys
  Logged-append_cases P turn [] ys h = inr h
  Logged-append_cases P turn (x ∷ xs) ys (inl h) = inl (inl h)
  Logged-append_cases P turn (x ∷ xs) ys (inr h) = elim (Logged-append_cases P turn xs ys h) [
    | inl l ↦ inl (inr l)
    | inr r ↦ inr r
  ]

  pub Logged-map :
      (P Q : RuntimeEvent V → Type 0) (turn : TurnId) (xs : List (EventEnvelope V))
      → ((e : RuntimeEvent V) → P e → Q e)
      → Logged P turn xs
      → Logged Q turn xs
  Logged-map P Q turn [] f h = absurd h
  Logged-map P Q turn (x ∷ xs) f (inl (t, p)) = inl (t, f x.event p)
  Logged-map P Q turn (x ∷ xs) f (inr h) = inr (Logged-map P Q turn xs f h)

  pub open_turn-append :
      (turn : TurnId) (b : Bool) (xs ys : List (EventEnvelope V))
      → open_turn turn b (xs ++ ys) ≡ open_turn turn (open_turn turn b xs) ys
  unfolding open_turn
  open_turn-append turn b [] ys = refl
  open_turn-append turn b (x ∷ xs) ys =
      open_turn-append turn (if of_turn x.turn_id turn then open_after x.event b else b) xs ys
