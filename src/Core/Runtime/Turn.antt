-- ===== src/Core/Runtime/Turn.antt =====
-- crates/harness-core/src/runtime.rs: the model loop of a turn, in its stages. The compiler, the
-- hooks, the model and the token are asked in the order of the source; what the loop goes on with is
-- passed to the stages as `again`.
pub mod Thread
use Prim.Native.String.{◌++◌ as ◌+++◌}
use nausicaa.Prelude.{
  ℕ, zero, suc, ◌+◌, String, Bool, true, false, Option, none, some, List, [], ◌∷◌, ◌++◌, ◌||◌,
  Result, ok, err, Done, if◌then◌else◌, string_ord, ◌==◌, Eq, length, is_blank, show, map,
}
use nausicaa.Prelude.Exec.{Exec, pure, throw, ◌>>=◌, ◌>>◌}
use nausicaa.Prelude.BTreeSet
use nausicaa.Prelude.BTreeSet.{BTreeSet}
use nausicaa.Core.Id.{ThreadId, TurnId, CallId}
use nausicaa.Core.Protocol.{ToolCall, ToolReceipt, TranscriptMessage, assistant, tool}
use nausicaa.Core.Receipt
use nausicaa.Core.Model.{
  ModelResponse, ModelError, StopReason, ToolDefinition, end_turn, tool_use, max_tokens, other,
}
use nausicaa.Core.Context.{CompiledContext, ContextError}
use nausicaa.Core.Event.{
  HookPoint, context_compiled, model_request_started, assistant_message, turn_completed,
  turn_cancelled,
}
use nausicaa.Core.Policy.{CapabilityProjection}
use nausicaa.Core.Hook
use nausicaa.Core.Hook.{HookError, hook_error_text}
use nausicaa.Core.Runtime.{
  AgentRuntime, RuntimeError, Run, Step, TurnOutcome, append, outside, record_receipt,
  record_hook_failure, fail_turn,
}
use nausicaa.Core.Runtime.Errors.{
  model_error_text, context_error_text, incomplete_text, invalid_text,
}
use nausicaa.Core.Runtime.Calls.{handle_tool_call}

abbrev check_call :
    {V : Type 0}
    → ToolCall V
    → BTreeSet CallId
    → BTreeSet CallId
    → Result Done String
    → Result Done String
check_call call previously_seen current rest =
    if is_blank call.id
    then err "model returned a tool call with an empty id"
    else if is_blank call.name
    then err ("tool call `" +++ call.id +++ "` has an empty tool name")
    else if BTreeSet.contains call.id previously_seen || BTreeSet.contains call.id current
    then err ("tool call id `" +++ call.id +++ "` was reused within the same turn")
    else rest

unfoldable pub validate_from :
    {V : Type 0} → List (ToolCall V) → BTreeSet CallId → BTreeSet CallId → Result Done String
validate_from [] previously_seen current = ok tt
validate_from (call ∷ calls) previously_seen current =
    let rest = validate_from calls previously_seen (BTreeSet.insert call.id current) in
    check_call call previously_seen current rest

unfoldable pub validate_tool_calls :
    {V : Type 0} → List (ToolCall V) → BTreeSet CallId → Result Done String
unfolding validate_from
validate_tool_calls calls previously_seen = validate_from calls previously_seen []

-- `seen_call_ids.extend(…)`
unfoldable pub extend_seen : {V : Type 0} → BTreeSet CallId → List (ToolCall V) → BTreeSet CallId
extend_seen seen [] = seen
extend_seen seen (call ∷ calls) = extend_seen (BTreeSet.insert call.id seen) calls

-- the error of a response that stopped early or at odds with its calls, with its text
unfoldable pub stop_error :
    {V : Type 0} → TurnId → StopReason → List (ToolCall V) → Option (RuntimeError × String)
stop_error turn_id max_tokens calls =
    some (
      RuntimeError.incomplete_model_response turn_id max_tokens,
      incomplete_text turn_id max_tokens,
    )
stop_error turn_id other calls =
    some (RuntimeError.incomplete_model_response turn_id other, incomplete_text turn_id other)
stop_error turn_id tool_use [] =
    let reason : String = "tool-use stop has no tool calls" in
    some (RuntimeError.invalid_model_response turn_id reason, invalid_text turn_id reason)
stop_error turn_id end_turn (call ∷ calls) =
    let reason : String = "end-turn stop contains tool calls" in
    some (RuntimeError.invalid_model_response turn_id reason, invalid_text turn_id reason)
stop_error turn_id _ _ = none

-- what is fixed for the whole turn
pub record TurnPlan (V : Type 0) : Type 0 where
  pub thread_id : ThreadId
  pub turn_id : TurnId
  pub projection : CapabilityProjection
  pub visible_names : List String
  pub visible_tools : List (ToolDefinition V)

module _ {V W S : Type 0} ⦃v : Eq V⦄ (rt : AgentRuntime V W S) (plan : TurnPlan V) where
  open plan use {thread_id, turn_id}

  unfoldable pub deny_calls : String → List (ToolCall V) → Step V W S Done
  deny_calls reason [] = pure tt
  deny_calls reason (call ∷ calls) =
      let rest = deny_calls reason calls in
      do
        record_receipt rt thread_id turn_id (Receipt.denied call.id call.name none reason) false
        rest

  unfoldable pub cancel_turn : {A : Type 0} → List (ToolCall V) → Step V W S A
  unfolding deny_calls
  cancel_turn unhandled_calls = do
    deny_calls "turn was cancelled before tool preparation" unhandled_calls
    append rt thread_id (some turn_id) turn_cancelled
    throw (RuntimeError.cancelled turn_id)

  -- append the failure of the turn, and return the error
  unfoldable pub fail_with : {A : Type 0} → String → RuntimeError → Step V W S A
  fail_with text error = do fail_turn rt thread_id turn_id text; throw error

  -- a read of the token, and what is done if it is not set
  abbrev pub cancel_or : {A : Type 0} → Bool → List (ToolCall V) → Step V W S A → Step V W S A
  cancel_or stop unhandled_calls go_on = if stop then cancel_turn unhandled_calls else go_on

  -- the loop over the calls of a response: the receipts, as messages
  unfoldable pub handle_calls : ℕ → List (ToolCall V) → Step V W S (List (TranscriptMessage V))
  handle_calls iteration [] = pure []
  handle_calls iteration (call ∷ calls) =
      let rest = handle_calls iteration calls in
      do
        stop ← outside rt rt.is_cancelled
        cancel_or stop (call ∷ calls) (do
          receipt ← handle_tool_call rt thread_id turn_id iteration call plan.projection
          messages ← rest
          pure (tool receipt ∷ messages))

  abbrev pub complete_or_call :
      ℕ
      → ModelResponse V
      → List (ToolCall V)
      → (List (TranscriptMessage V) → Step V W S TurnOutcome)
      → Step V W S TurnOutcome
  complete_or_call iteration response [] again = do
    append rt thread_id (some turn_id) (turn_completed response.content)
    pure (record {
      thread_id = thread_id;
      turn_id = turn_id;
      content = response.content;
      model_iterations = iteration + 1;
    })
  complete_or_call iteration response (call ∷ calls) again = do
    messages ← handle_calls iteration (call ∷ calls)
    again messages

  abbrev pub after_message :
      ℕ
      → ModelResponse V
      → Option (RuntimeError × String)
      → (List (TranscriptMessage V) → Step V W S TurnOutcome)
      → Step V W S TurnOutcome
  after_message iteration response (some (error, text)) again = do
    deny_calls text response.tool_calls
    fail_with text error
  after_message iteration response none again = do
    stop ← outside rt rt.is_cancelled
    cancel_or stop response.tool_calls
        (complete_or_call iteration response response.tool_calls again)

  unfoldable pub accept_response :
      ℕ
      → ModelResponse V
      → (List (TranscriptMessage V) → Step V W S TurnOutcome)
      → Step V W S TurnOutcome
  unfolding stop_error
  accept_response iteration response again = do
    append rt thread_id (some turn_id)
        (assistant_message response.content response.tool_calls response.stop_reason response.usage)
    after_message iteration response (stop_error turn_id response.stop_reason response.tool_calls)
        again

  abbrev pub after_validation :
      ℕ
      → ModelResponse V
      → Result Done String
      → (List (TranscriptMessage V) → Step V W S TurnOutcome)
      → Step V W S TurnOutcome
  after_validation iteration response (err reason) again =
      fail_with reason (RuntimeError.invalid_model_response turn_id reason)
  after_validation iteration response (ok _) again = accept_response iteration response again

  -- what goes on with the transcript and the call ids seen
  abbrev pub Again : Type 0
  Again = List (TranscriptMessage V) → BTreeSet CallId → Step V W S TurnOutcome

  abbrev pub after_model :
      ℕ
      → List (TranscriptMessage V)
      → BTreeSet CallId
      → Again
      → Result (ModelResponse V) ModelError
      → Step V W S TurnOutcome
  after_model iteration transcript seen again (err error) = do
    stop ← outside rt rt.is_cancelled
    cancel_or stop [] (fail_with (model_error_text error) (RuntimeError.model error))
  after_model iteration transcript seen again (ok response) =
      after_validation iteration response (validate_tool_calls response.tool_calls seen) λ messages.
        again (transcript ++ assistant response.content response.tool_calls ∷ messages)
          (extend_seen seen response.tool_calls)

  unfoldable pub request_model :
      ℕ
      → List (TranscriptMessage V)
      → BTreeSet CallId
      → Again
      → CompiledContext V
      → Step V W S TurnOutcome
  request_model iteration transcript seen again compiled = do
    append rt thread_id (some turn_id) (
        context_compiled iteration (length compiled.prompt) (length compiled.messages)
          plan.visible_names)
    append rt thread_id (some turn_id) (model_request_started iteration)
    answer ← outside rt (
        rt.model (record {
          thread_id = thread_id;
          turn_id = turn_id;
          iteration = iteration;
          context = compiled;
          tools = plan.visible_tools;
        }))
    after_model iteration transcript seen again answer

  abbrev pub after_model_hook :
      ℕ
      → List (TranscriptMessage V)
      → BTreeSet CallId
      → Again
      → CompiledContext V
      → Result Done HookError
      → Step V W S TurnOutcome
  after_model_hook iteration transcript seen again compiled (err error) = do
    record_hook_failure rt thread_id turn_id HookPoint.before_model error
    fail_with (hook_error_text error) (RuntimeError.hook error)
  after_model_hook iteration transcript seen again compiled (ok _) =
      request_model iteration transcript seen again compiled

  abbrev pub after_compile :
      ℕ
      → List (TranscriptMessage V)
      → BTreeSet CallId
      → Again
      → Result (CompiledContext V) ContextError
      → Step V W S TurnOutcome
  after_compile iteration transcript seen again (err error) =
      fail_with (context_error_text error) (RuntimeError.context error)
  after_compile iteration transcript seen again (ok compiled) = do
    hooked ← outside rt (
        Hook.before_model rt.hooks
          (record { thread_id = thread_id; turn_id = turn_id; iteration = iteration }) compiled)
    after_model_hook iteration transcript seen again compiled hooked

  -- one round of the loop
  unfoldable pub iterate :
      ℕ → List (TranscriptMessage V) → BTreeSet CallId → Again → Step V W S TurnOutcome
  iterate iteration transcript seen again = do
    stop ← outside rt rt.is_cancelled
    cancel_or stop [] (do
      compiled ← outside rt (
          rt.compiler
            (record { thread_id = thread_id; turn_id = turn_id; transcript = transcript }))
      after_compile iteration transcript seen again compiled)

  -- `for iteration in 0..max_model_iterations`, by the rounds that are left
  unfoldable pub turn_loop :
      ℕ → ℕ → List (TranscriptMessage V) → BTreeSet CallId → Step V W S TurnOutcome
  turn_loop zero iteration transcript seen =
      fail_with
        ("maximum model iterations (" +++ show rt.config.max_model_iterations +++ ") exceeded")
        (RuntimeError.max_model_iterations turn_id rt.config.max_model_iterations)
  turn_loop (suc rounds) iteration transcript seen =
      let again : Again = λ messages ids. turn_loop rounds (iteration + 1) messages ids in
      iterate iteration transcript seen again
