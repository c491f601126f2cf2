-- ===== src/Core/Runtime/Keeps.antt =====
-- crates/harness-core/src/runtime.rs: invariants of the runtime's steps. What every append and every
-- call of the outside world keeps is kept by the stages that are built of them.
use nausicaa.Prelude.{
  ℕ, zero, suc, ◌+◌, String, ◌≡◌, refl, Bool, true, false, Option, none, some, List, [], ◌∷◌, ◌++◌,
  Result, ok, err, Done, if◌then◌else◌, Eq, ◌⊎◌, inl, inr, ap,
}
use nausicaa.Prelude.Exec.{Exec, pure, throw, ◌>>=◌, continue}
use nausicaa.Prelude.BTreeSet.{BTreeSet}
use nausicaa.Core.Context.{CompiledContext, ContextError}
use nausicaa.Core.Id.{ThreadId, TurnId, CallId}
use nausicaa.Core.Protocol.{ToolCall, ToolReceipt, TranscriptMessage, assistant}
use nausicaa.Core.Model.{ModelResponse, ModelError}
use nausicaa.Core.Event.{RuntimeEvent, EventEnvelope, HookPoint}
use nausicaa.Core.Hook.{HookError}
use nausicaa.Core.Store.{StoreError}
use nausicaa.Core.Runtime.{
  AgentRuntime, RuntimeError, Run, Step, notified, TurnOutcome, append, append_result, outside,
  record_receipt, record_hook_failure, fail_turn, notify, receipt_result,
}
use nausicaa.Core.Runtime.Calls.{handle_tool_call, close_with}
use nausicaa.Core.Runtime.Turn.{
  TurnPlan, deny_calls, cancel_turn, fail_with, handle_calls, accept_response, after_message,
  request_model, iterate, turn_loop, Again, validate_tool_calls, complete_or_call, after_model,
  after_validation, after_compile, after_model_hook, extend_seen,
}

-- `m` keeps `P`, whether it returns or fails
pub record Keeps {S E A : Type 0} (P : S → Type 0) (m : Exec S E A) : Type 0 where
  pub at : (s : S) → P s → P (m s).1

module _ {S E A : Type 0} {P : S → Type 0} where
  pub Keeps-pure : (a : A) → Keeps P (pure {E = E} a)
  Keeps-pure a = record { at = λ s h. h }

  pub Keeps-throw : (e : E) → Keeps P (throw {A = A} e)
  Keeps-throw e = record { at = λ s h. h }

  pub Keeps-if :
      (b : Bool) (m n : Exec S E A) → Keeps P m → Keeps P n → Keeps P (if b then m else n)
  Keeps-if true m n km kn = km
  Keeps-if false m n km kn = kn

module _ {S E A B : Type 0} {P : S → Type 0} where
  continue-keeps :
      (m : Result A E × S) (f : A → Exec S E B)
      → P m.1
      → ((a : A) → Keeps P (f a))
      → P (continue m f).1
  continue-keeps (ok a, s) f h kf = (kf a).at s h
  continue-keeps (err e, s) f h kf = h

  pub Keeps-bind :
      (m : Exec S E A) (f : A → Exec S E B)
      → Keeps P m
      → ((a : A) → Keeps P (f a))
      → Keeps P (m >>= f)
  Keeps-bind m f km kf = record { at = λ s h. continue-keeps (m s) f (km.at s h) kf }

-- what an append does to the durable events and to the trace
module _ {V W S : Type 0} (rt : AgentRuntime V W S) (t : ThreadId) (u : Option TurnId)
    (e : RuntimeEvent V) where
  pub record Stored (r : Run V W S) : Type 0 where
    pub env : EventEnvelope V
    pub after : Run V W S
    pub result : append rt t u e r ≡ (ok env, after)
    pub grown : rt.store.view after.store ≡ rt.store.view r.store ++ env ∷ []
    pub thread : env.thread_id ≡ t
    pub turn : env.turn_id ≡ u
    pub event : env.event ≡ e
    pub traced : after.trace ≡ notified env (rt.store.view after.store) ∷ r.trace

  pub record Refused (r : Run V W S) : Type 0 where
    pub error : StoreError
    pub after : Run V W S
    pub result : append rt t u e r ≡ (err (RuntimeError.store error), after)
    pub same : rt.store.view after.store ≡ rt.store.view r.store
    pub traced : after.trace ≡ r.trace

  pub append_cases : (r : Run V W S) → Stored r ⊎ Refused r
  unfolding append
  append_cases r = go (rt.store.append t u e r.store) refl
    where
      go :
          (x : Result (EventEnvelope V) StoreError × S)
          → rt.store.append t u e r.store ≡ x
          → Stored r ⊎ Refused r
      go (ok env, s) p =
          let (grown, thread, turn, event) = rt.store.append_ok t u e r.store p in
          inl (record {
            env = env;
            after = notify rt env (record r { store = s });
            result = ap (λ x. append_result rt x.0 (record r { store = x.1 })) p;
            grown = grown;
            thread = thread;
            turn = turn;
            event = event;
            traced = refl;
          })
      go (err error, s) p = inr (record {
        error = error;
        after = record r { store = s };
        result = ap (λ x. append_result rt x.0 (record r { store = x.1 })) p;
        same = rt.store.append_err t u e r.store p;
        traced = refl;
      })

ruleset keeps_rules = (Keeps-pure, Keeps-throw, Keeps-if, Keeps-bind)

module _ {V W S : Type 0} ⦃v : Eq V⦄ (rt : AgentRuntime V W S) {P : Run V W S → Type 0}
    (keeps_append : (t : ThreadId) (u : Option TurnId) (e : RuntimeEvent V)
      → Keeps P (append rt t u e))
    (keeps_outside : (A : Type 0) (call : W → A × W) → Keeps P (outside rt call)) where
  receipt-keeps :
      (crossed : Bool) (receipt : ToolReceipt V)
      (x : Result (EventEnvelope V) RuntimeError × Run V W S)
      → P x.1
      → P (receipt_result rt crossed receipt x).1
  receipt-keeps crossed receipt (ok a, r) h = h
  receipt-keeps crossed receipt (err e, r) h = h

  pub Keeps-record_receipt :
      (t : ThreadId) (u : TurnId) (receipt : ToolReceipt V) (crossed : Bool)
      → Keeps P (record_receipt rt t u receipt crossed)
  unfolding record_receipt
  Keeps-record_receipt t u receipt crossed = record {
    at = λ r h. receipt-keeps crossed receipt _ ((keeps_append t (some u) _).at r h);
  }

  pub Keeps-record_hook_failure :
      (t : ThreadId) (u : TurnId) (point : HookPoint) (e : HookError)
      → Keeps P (record_hook_failure rt t u point e)
  unfolding record_hook_failure
  Keeps-record_hook_failure t u point e = search (keeps_rules, keeps_append)

  pub Keeps-fail_turn :
      (t : ThreadId) (u : TurnId) (error : String) → Keeps P (fail_turn rt t u error)
  unfolding fail_turn
  Keeps-fail_turn t u error = search (keeps_rules, keeps_append)

  pub Keeps-close_with :
      (t : ThreadId) (u : TurnId) (receipt : ToolReceipt V) → Keeps P (close_with rt t u receipt)
  unfolding close_with
  Keeps-close_with t u receipt = search (keeps_rules, Keeps-record_receipt)

  module _ (plan : TurnPlan V)
      (keeps_call : (iteration : ℕ) (call : ToolCall V)
        → Keeps P
            (handle_tool_call rt plan.thread_id plan.turn_id iteration call plan.projection)) where
    Keeps-deny_calls :
        (reason : String) (calls : List (ToolCall V)) → Keeps P (deny_calls rt plan reason calls)
    unfolding deny_calls
    Keeps-deny_calls reason [] = Keeps-pure tt
    Keeps-deny_calls reason (call ∷ calls) =
        Keeps-bind _ _ (Keeps-record_receipt _ _ _ _) (λ _. Keeps-deny_calls reason calls)

    Keeps-cancel_turn :
        {A : Type 0} (calls : List (ToolCall V)) → Keeps P (cancel_turn rt plan {A = A} calls)
    unfolding cancel_turn
    Keeps-cancel_turn calls = search (keeps_rules, Keeps-deny_calls, keeps_append)

    Keeps-fail_with :
        {A : Type 0} (text : String) (e : RuntimeError) → Keeps P (fail_with rt plan {A = A} text e)
    unfolding fail_with
    Keeps-fail_with text e = search (keeps_rules, Keeps-fail_turn)

    Keeps-handle_calls :
        (iteration : ℕ) (calls : List (ToolCall V)) → Keeps P (handle_calls rt plan iteration calls)
    unfolding handle_calls
    Keeps-handle_calls iteration [] = Keeps-pure []
    Keeps-handle_calls iteration (call ∷ calls) =
        Keeps-bind _ _ (keeps_outside _ rt.is_cancelled) λ stop.
          Keeps-if stop _ _ (Keeps-cancel_turn (call ∷ calls)) (
            Keeps-bind _ _ (keeps_call iteration call) λ receipt.
              Keeps-bind _ _ (Keeps-handle_calls iteration calls) (λ messages. Keeps-pure _))

    -- what is done after the round keeps the invariant
    abbrev KeepsAgain : Again rt plan → Type 0
    KeepsAgain again =
        (messages : List (TranscriptMessage V)) (ids : BTreeSet CallId)
        → Keeps P (again messages ids)

    Keeps-complete_or_call :
        (iteration : ℕ) (response : ModelResponse V) (calls : List (ToolCall V))
        (again : List (TranscriptMessage V) → Step V W S TurnOutcome)
        → ((messages : List (TranscriptMessage V)) → Keeps P (again messages))
        → Keeps P (complete_or_call rt plan iteration response calls again)
    Keeps-complete_or_call iteration response [] again k = search (keeps_rules, keeps_append)
    Keeps-complete_or_call iteration response (call ∷ calls) again k =
        Keeps-bind _ _ (Keeps-handle_calls iteration (call ∷ calls)) k

    Keeps-after_message :
        (iteration : ℕ) (response : ModelResponse V) (stop : Option (RuntimeError × String))
        (again : List (TranscriptMessage V) → Step V W S TurnOutcome)
        → ((messages : List (TranscriptMessage V)) → Keeps P (again messages))
        → Keeps P (after_message rt plan iteration response stop again)
    Keeps-after_message iteration response none again k =
        Keeps-bind _ _ (keeps_outside _ rt.is_cancelled) λ stop.
          Keeps-if stop _ _ (Keeps-cancel_turn response.tool_calls)
            (Keeps-complete_or_call iteration response response.tool_calls again k)
    Keeps-after_message iteration response (some (error, text)) again k =
        Keeps-bind _ _ (Keeps-deny_calls text response.tool_calls) (λ _. Keeps-fail_with text error)

    Keeps-accept_response :
        (iteration : ℕ) (response : ModelResponse V)
        (again : List (TranscriptMessage V) → Step V W S TurnOutcome)
        → ((messages : List (TranscriptMessage V)) → Keeps P (again messages))
        → Keeps P (accept_response rt plan iteration response again)
    unfolding accept_response
    Keeps-accept_response iteration response again k =
        Keeps-bind _ _ (keeps_append _ _ _) (λ _. Keeps-after_message iteration response _ again k)

    Keeps-after_model :
        (iteration : ℕ) (transcript : List (TranscriptMessage V)) (seen : BTreeSet CallId)
        (again : Again rt plan)
        → KeepsAgain again
        → (answer : Result (ModelResponse V) ModelError)
        → Keeps P (after_model rt plan iteration transcript seen again answer)
    Keeps-after_model iteration transcript seen again k (err error) =
        Keeps-bind _ _ (keeps_outside _ rt.is_cancelled)
          λ stop. Keeps-if stop _ _ (Keeps-cancel_turn []) (Keeps-fail_with _ _)
    Keeps-after_model iteration transcript seen again k (ok response) =
        validated (validate_tool_calls response.tool_calls seen)
      where
        validated :
            (x : Result Done String)
            → Keeps P (
                after_validation rt plan iteration response x λ messages.
                  again
                    (transcript ++ assistant response.content response.tool_calls ∷ messages)
                    (extend_seen seen response.tool_calls))
        validated (err reason) = Keeps-fail_with _ _
        validated (ok _) = Keeps-accept_response iteration response _ (λ messages. k _ _)

    Keeps-request_model :
        (iteration : ℕ) (transcript : List (TranscriptMessage V)) (seen : BTreeSet CallId)
        (again : Again rt plan)
        → KeepsAgain again
        → (compiled : CompiledContext V)
        → Keeps P (request_model rt plan iteration transcript seen again compiled)
    unfolding request_model
    Keeps-request_model iteration transcript seen again k compiled =
        Keeps-bind _ _ (keeps_append _ _ _) λ _. Keeps-bind _ _ (keeps_append _ _ _) λ _.
          Keeps-bind _ _ (keeps_outside _ _) (Keeps-after_model iteration transcript seen again k)

    Keeps-after_compile :
        (iteration : ℕ) (transcript : List (TranscriptMessage V)) (seen : BTreeSet CallId)
        (again : Again rt plan)
        → KeepsAgain again
        → (compiled : Result (CompiledContext V) ContextError)
        → Keeps P (after_compile rt plan iteration transcript seen again compiled)
    Keeps-after_compile iteration transcript seen again k (err error) = Keeps-fail_with _ _
    Keeps-after_compile iteration transcript seen again k (ok compiled) =
        Keeps-bind _ _ (keeps_outside _ _) hooked
      where
        hooked :
            (x : Result Done HookError)
            → Keeps P (after_model_hook rt plan iteration transcript seen again compiled x)
        hooked (ok _) = Keeps-request_model iteration transcript seen again k compiled
        hooked (err error) =
            Keeps-bind _ _ (Keeps-record_hook_failure _ _ _ _) (λ _. Keeps-fail_with _ _)

    pub Keeps-turn_loop :
        (rounds iteration : ℕ) (transcript : List (TranscriptMessage V)) (seen : BTreeSet CallId)
        → Keeps P (turn_loop rt plan rounds iteration transcript seen)
    unfolding turn_loop iterate
    Keeps-turn_loop zero iteration transcript seen = Keeps-fail_with _ _
    Keeps-turn_loop (suc rounds) iteration transcript seen =
        Keeps-bind _ _ (keeps_outside _ rt.is_cancelled) λ stop.
          Keeps-if stop _ _ (Keeps-cancel_turn []) (
            Keeps-bind _ _ (keeps_outside _ _) (
              Keeps-after_compile iteration transcript seen _
                (λ messages ids. Keeps-turn_loop rounds (iteration + 1) messages ids)))
