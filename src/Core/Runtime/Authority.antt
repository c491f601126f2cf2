-- ===== src/Core/Runtime/Authority.antt =====
-- crates/harness-core/src/runtime.rs: what the runtime executes, and what its observers see.
use nausicaa.Prelude.{
  ℕ, String, ◌≡◌, ◌≢◌, refl, true, not, Option, none, some, List, [], ◌∷◌, ◌||◌, Result, ok, err,
  Done, Eq, ◌⊎◌, inl, inr, Bool-cases, ap, sym, ◌∙◌, arith, In, In-append_right, ◌==◌, ==_iff,
  string_ord,
}
use nausicaa.Prelude.Exec.{pure, continue}
use nausicaa.Core.Id.{ThreadId, TurnId}
use nausicaa.Core.Protocol.{
  ToolCall, ToolReceipt, PreparedToolCall, CanonicalAction, action_eq_sound,
}
use nausicaa.Core.Event.{
  RuntimeEvent, EventEnvelope, tool_execution_started, approval_requested, approval_resolved,
}
use nausicaa.Core.Approval.{ApprovalDecision, approved, denied}
use nausicaa.Core.Hook.{HookContext, HookError}
use nausicaa.Core.Policy.{Access, CapabilityProjection, access, is_denied}
use nausicaa.Core.Tool.{Tool, ToolError, ToolExecutionContext, get_tool}
use nausicaa.Core.Recovery.Log.{Logged, Logged-append_left, Logged-append_right}
use nausicaa.Core.Runtime.{
  AgentRuntime, RuntimeError, Run, Effect, notified, executed, append, outside,
}
use nausicaa.Core.Runtime.Calls.{
  close_with, call_executor, after_execution, execute_prepared, denial_of, request_of, ask_approval,
  after_answer, approve_and_execute, after_hook, run_prepared, after_prepare, with_tool,
  handle_tool_call,
}
use nausicaa.Core.Runtime.Keeps.{
  Keeps, Keeps-pure, Keeps-throw, Keeps-bind, append_cases, Stored, Refused, Keeps-record_receipt,
  Keeps-record_hook_failure, Keeps-fail_turn, Keeps-close_with,
}

module _ {V : Type 0} (projection : CapabilityProjection) (turn : TurnId) where
  abbrev pub IsLogged : RuntimeEvent V → List (EventEnvelope V) → Type 0
  IsLogged event = Logged (λ e. e ≡ event) turn

  -- What may be done when `log` is durable. An action is executed only if its tool is not denied,
  -- its start is logged, and, where the tool wants approval, the approval of exactly that action is
  -- logged. An event is shown only once it is logged.
  abbrev pub Justified : Effect V → Type 0
  Justified (notified env log) = In env log
  Justified (executed p log) =
      (access projection p.action.tool_name ≢ Access.deny)
      × IsLogged (tool_execution_started p) log
      × (access projection p.action.tool_name ≡ Access.ask
          → IsLogged (approval_resolved p.call_id (approved p.action)) log)

  abbrev pub AllJustified : List (Effect V) → Type 0
  AllJustified [] = Unit
  AllJustified (effect ∷ trace) = Justified effect × AllJustified trace

module _ {V W S : Type 0} ⦃v : Eq V⦄ (rt : AgentRuntime V W S) (projection : CapabilityProjection)
    (thread : ThreadId) (turn : TurnId) where
  abbrev pub Good : Run V W S → Type 0
  Good r = AllJustified projection turn r.trace

  pub Good-append :
      (t : ThreadId) (u : Option TurnId) (e : RuntimeEvent V) → Keeps Good (append rt t u e)
  Good-append t u e = record { at = λ r h. go r h (append_cases rt t u e r) }
    where
      go :
          (r : Run V W S)
          → Good r
          → Stored rt t u e r ⊎ Refused rt t u e r
          → Good (append rt t u e r).1
      go r h (inl s) =
          rw (s.result, s.traced)
            (rw s.grown (In-append_right s.env (rt.store.view r.store) (s.env ∷ []) (inl refl)), h)
      go r h (inr s) = rw (s.result, s.traced) h

  pub Good-outside : (A : Type 0) (call : W → A × W) → Keeps Good (outside rt call)
  unfolding outside
  Good-outside A call = record { at = λ r h. h }

  abbrev log : Run V W S → List (EventEnvelope V)
  log r = rt.store.view r.store

  -- what was appended is logged
  Stored-IsLogged :
      (e : RuntimeEvent V) {r : Run V W S} (s : Stored rt thread (some turn) e r)
      → IsLogged projection turn e (log s.after)
  Stored-IsLogged e {r} s =
      rw s.grown (Logged-append_right _ turn (log r) (s.env ∷ []) (inl (s.turn, s.event)))

  -- what was logged stays logged
  Stored-keeps :
      {e : RuntimeEvent V} {r : Run V W S} (s : Stored rt thread (some turn) e r)
      (e' : RuntimeEvent V)
      → IsLogged projection turn e' (log r)
      → IsLogged projection turn e' (log s.after)
  Stored-keeps {r = r} s e' h = rw s.grown (Logged-append_left _ turn (log r) (s.env ∷ []) h)

  Stored-Good :
      {e : RuntimeEvent V} {r : Run V W S} (s : Stored rt thread (some turn) e r)
      → Good r
      → Good s.after
  Stored-Good {e} {r} s h =
      ap_Good (ap (λ x. x.1) s.result) ((Good-append thread (some turn) e).at r h)
    where
      ap_Good : {x y : Run V W S} → x ≡ y → Good x → Good y
      ap_Good p g = rw (sym p) g

  Keeps-after_execution :
      (receipt : ToolReceipt V) (hooked : Result Done HookError)
      → Keeps Good (after_execution rt thread turn receipt hooked)
  Keeps-after_execution receipt (ok _) = Keeps-pure receipt
  Keeps-after_execution receipt (err error) =
      Keeps-bind _ _ (Keeps-record_hook_failure rt Good-append Good-outside _ _ _ _)
        λ _. Keeps-bind _ _ (Keeps-fail_turn rt Good-append Good-outside _ _ _) (λ _. Keeps-throw _)

  execute_prepared-Good :
      (hook_context : HookContext) (tool : Tool V W) (p : PreparedToolCall V)
      (context : ToolExecutionContext) (r : Run V W S)
      → access projection p.action.tool_name ≢ Access.deny
      → (access projection p.action.tool_name ≡ Access.ask
          → IsLogged projection turn (approval_resolved p.call_id (approved p.action)) (log r))
      → Good r
      → Good (execute_prepared rt thread turn hook_context tool p context r).1
  unfolding execute_prepared call_executor
  execute_prepared-Good hook_context tool p context r allowed asked good =
      go (append_cases rt thread (some turn) (tool_execution_started p) r)
    where
      go :
          Stored rt thread (some turn) (tool_execution_started p) r
            ⊎ Refused rt thread (some turn) (tool_execution_started p) r
          → Good (execute_prepared rt thread turn hook_context tool p context r).1
      go (inr s) = rw s.result (rw s.traced good)
      go (inl s) = rw s.result (
          (Keeps-bind _ _ (Keeps-record_receipt rt Good-append Good-outside thread turn _ true)
              (λ _. Keeps-bind _ _ (Good-outside _ _) (Keeps-after_execution _))).at
            _
            (
              (
                allowed,
                Stored-IsLogged (tool_execution_started p) s,
                λ a. Stored-keeps s _ (asked a),
              ),
              Stored-Good s good,
            ))

  denial_of-none :
      (p : CanonicalAction V) (d : ApprovalDecision V) → denial_of rt p d ≡ none → d ≡ approved p
  unfolding denial_of
  denial_of-none p (approved a) h = ap approved (action_eq_sound a p (ground arith))
  denial_of-none p (denied reason) h = cc

  -- an answer that lets the call go on is the logged approval of exactly its action
  ask_approval-Good :
      (call : ToolCall V) (p : PreparedToolCall V) (r : Run V W S)
      → Good r
      → let (result, r') = ask_approval rt thread turn call p r in
        Good r'
        × (result ≡ ok none
            → IsLogged projection turn (approval_resolved call.id (approved p.action)) (log r'))
  unfolding ask_approval outside
  ask_approval-Good call p r good = first (append_cases rt thread (some turn) _ r)
    where
      resolve :
          (d : ApprovalDecision V) (r : Run V W S)
          → Good r
          → Stored rt thread (some turn) (approval_resolved call.id d) r
            ⊎ Refused rt thread (some turn) (approval_resolved call.id d) r
          → let (result, r') =
              continue
                (append rt thread (some turn) (approval_resolved call.id d) r)
                (λ _. pure (denial_of rt p.action d)) in
            Good r'
            × (result ≡ ok none
                → IsLogged projection turn (approval_resolved call.id (approved p.action)) (log r'))
      resolve d r good (inr s) = rw s.result (rw s.traced good, λ e. cc)
      resolve d r good (inl s) = rw s.result (
        Stored-Good s good,
        λ e.
            let exact : d ≡ approved p.action = denial_of-none p.action d (ground arith) in
            rw (← exact) (Stored-IsLogged (approval_resolved call.id d) s),
      )

      first :
          Stored rt thread (some turn) (approval_requested (request_of thread turn call p)) r
            ⊎ Refused rt thread (some turn) (approval_requested (request_of thread turn call p)) r
          → let (result, r') = ask_approval rt thread turn call p r in
            Good r'
            × (result ≡ ok none
                → IsLogged projection turn (approval_resolved call.id (approved p.action)) (log r'))
      first (inr s) = rw s.result (rw s.traced good, λ e. cc)
      first (inl s) =
          rw s.result (resolve _ _ (Stored-Good s good) (append_cases rt thread (some turn) _ _))

  module _ (hook_context : HookContext) (call : ToolCall V) (tool : Tool V W)
      (p : PreparedToolCall V) (context : ToolExecutionContext) (same_id : p.call_id ≡ call.id)
      (same_name : p.action.tool_name ≡ call.name)
      (allowed : access projection call.name ≢ Access.deny) where
    allowed_here : access projection p.action.tool_name ≢ Access.deny
    allowed_here = rw same_name allowed

    executed-Good :
        (r : Run V W S)
        → (access projection call.name ≡ Access.ask
            → IsLogged projection turn (approval_resolved call.id (approved p.action)) (log r))
        → Good r
        → Good (execute_prepared rt thread turn hook_context tool p context r).1
    executed-Good r asked good =
        execute_prepared-Good hook_context tool p context r allowed_here
          (λ a. simp same_id (asked (ap (access projection) (sym same_name) ∙ a))) good

    answered-Good :
        (x : Result (Option String) RuntimeError × Run V W S)
        → Good x.1
        → (x.0 ≡ ok none
            → IsLogged projection turn (approval_resolved call.id (approved p.action)) (log x.1))
        → Good
            (continue x λ denial.
              after_answer rt thread turn call p denial
                (execute_prepared rt thread turn hook_context tool p context)).1
    answered-Good (err e, r) good h = good
    answered-Good (ok none, r) good h = executed-Good r (λ _. h refl) good
    answered-Good (ok (some reason), r) good h =
        (Keeps-close_with rt Good-append Good-outside thread turn _).at r good

    approve_and_execute-Good :
        (granted : Access)
        → granted ≡ access projection call.name
        → Keeps Good (approve_and_execute rt granted thread turn hook_context call tool p context)
    unfolding approve_and_execute
    approve_and_execute-Good Access.ask g = record {
      at = λ r good.
          let (kept, logged) = ask_approval-Good call p r good in
          answered-Good (ask_approval rt thread turn call p r) kept logged;
    }
    approve_and_execute-Good Access.allow g = record {
      at = λ r good. executed-Good r (λ a. absurd (ground arith)) good;
    }
    approve_and_execute-Good Access.deny g = record {
      at = λ r good. executed-Good r (λ a. absurd (ground arith)) good;
    }

    run_prepared-Good :
        Keeps Good (
          run_prepared rt
            (access projection call.name)
            thread
            turn
            hook_context
            call
            tool
            p
            context)
    unfolding run_prepared
    run_prepared-Good =
        Keeps-bind _ _ (Good-append _ _ _) λ _. Keeps-bind _ _ (Good-outside _ _) hooked
      where
        hooked :
            (x : Result Done HookError)
            → Keeps Good (
                after_hook rt
                  (access projection call.name)
                  thread
                  turn
                  hook_context
                  call
                  tool
                  p
                  context
                  x)
        hooked (ok _) = approve_and_execute-Good (access projection call.name) refl
        hooked (err error) =
            Keeps-bind _ _ (Keeps-record_hook_failure rt Good-append Good-outside _ _ _ _)
              λ _. Keeps-close_with rt Good-append Good-outside thread turn _

  pub handle_tool_call-Good :
      (iteration : ℕ) (call : ToolCall V)
      → Keeps Good (handle_tool_call rt thread turn iteration call projection)
  unfolding handle_tool_call
  handle_tool_call-Good iteration call = found (get_tool rt.tools call.name)
    where
      closed : (receipt : ToolReceipt V) → Keeps Good (close_with rt thread turn receipt)
      closed receipt = Keeps-close_with rt Good-append Good-outside thread turn receipt

      prepared :
          (tool : Tool V W) (hook_context : HookContext) (context : ToolExecutionContext)
          → access projection call.name ≢ Access.deny
          → (x : Result (PreparedToolCall V) ToolError)
          → Keeps Good (
              after_prepare rt
                (access projection call.name)
                thread
                turn
                hook_context
                call
                tool
                context
                x)
      prepared tool hook_context context allowed (err error) = closed _
      prepared tool hook_context context allowed (ok p) =
          elim (Bool-cases (not (p.call_id == call.id) || not (p.action.tool_name == call.name))) [
            | inl changed ↦ rw changed (closed _)
            | inr same ↦ rw same (
                run_prepared-Good hook_context call tool p context
                  (ground (arith, ==_iff p.call_id call.id))
                  (ground (arith, ==_iff p.action.tool_name call.name)) allowed)
          ]

      found :
          (o : Option (Tool V W))
          → Keeps Good (with_tool rt thread turn iteration call (access projection call.name) o)
      found none = closed _
      found (some tool) = elim (Bool-cases (is_denied (access projection call.name))) [
        | inl d ↦ rw d (closed _)
        | inr d ↦ rw d (Keeps-bind _ _ (Good-outside _ _) (prepared tool _ _ (λ e. ground arith)))
      ]

  -- Whatever the tool, the hooks, the approver and the executor answer, handling a call keeps a
  -- justified trace justified: an action is executed only with its start logged in this turn, its tool
  -- not denied, and, where the tool wants approval, the approval of exactly this action logged in this
  -- turn; and observers are shown only what is logged.
  pub handle_tool_call-AllJustified :
      (iteration : ℕ) (call : ToolCall V) (r : Run V W S)
      → AllJustified projection turn r.trace
      → AllJustified projection turn
          (handle_tool_call rt thread turn iteration call projection r).1.trace
  handle_tool_call-AllJustified iteration call = (handle_tool_call-Good iteration call).at
