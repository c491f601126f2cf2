-- ===== src/Core/Runtime/Receipts.antt =====
-- crates/harness-core/src/runtime.rs: the receipt that handling a call returns.
use nausicaa.Prelude.{
  ℕ, String, ◌≡◌, refl, Bool, true, false, not, Option, none, some, [], ◌∷◌, ◌||◌, Result, ok, err,
  Done, if◌then◌else◌, Eq, ◌⊎◌, inl, inr, Bool-cases, ap, ◌∙◌, arith, ◌==◌, ==_iff, string_ord,
}
use nausicaa.Prelude.Exec.{Exec, pure, throw, ◌>>=◌, ◌>>◌, continue_ok}
use nausicaa.Core.Id.{ThreadId, TurnId}
use nausicaa.Core.Protocol.{ToolCall, ToolReceipt, PreparedToolCall}
use nausicaa.Core.Receipt
use nausicaa.Core.Event.{HookPoint, tool_execution_started, tool_prepared, tool_receipt_recorded}
use nausicaa.Core.Hook
use nausicaa.Core.Hook.{HookContext, HookError, hook_error_text}
use nausicaa.Core.Policy.{Access, CapabilityProjection, access, is_denied}
use nausicaa.Core.Tool.{
  Tool, ToolError, ToolOutput, ToolExecutionContext, outcome_unknown, get_tool,
}
use nausicaa.Core.Recovery.Log.{Logged, Logged-append_right}
use nausicaa.Core.Runtime.{
  AgentRuntime, RuntimeError, Run, Step, append, outside, record_receipt, record_hook_failure,
  fail_turn,
}
use nausicaa.Core.Runtime.Calls.{
  close_with, call_executor, receipt_of, after_execution, execute_prepared, ask_approval, is_ask,
  after_answer, approve_and_execute, after_hook, run_prepared, after_prepare, with_tool,
  handle_tool_call,
}
use nausicaa.Core.Runtime.Keeps.{append_cases, Stored, Refused}

-- what `m` returns, where it returns something, satisfies `Q` in the state that it leaves
pub record Gives {S E A : Type 0} (Q : A → S → Type 0) (m : Exec S E A) : Type 0 where
  pub at : (s : S) (a : A) (t : S) → m s ≡ (ok a, t) → Q a t

module _ {S E A : Type 0} {Q : A → S → Type 0} where
  Gives-throw : (e : E) → Gives Q (throw {S = S} {A = A} e)
  Gives-throw e = record { at = λ s a t h. cc }

  Gives-if : (b : Bool) (m n : Exec S E A) → Gives Q m → Gives Q n → Gives Q (if b then m else n)
  Gives-if true m n gm gn = gm
  Gives-if false m n gm gn = gn

  Gives-bind :
      {B : Type 0} (m : Exec S E B) (f : B → Exec S E A)
      → ((b : B) → Gives Q (f b))
      → Gives Q (m >>= f)
  Gives-bind m f g = record {
    at = λ s a t h. let (b, u, p, q) = continue_ok (m s) f h in (g b).at u a t q;
  }

receipt_of-call :
    {V W S : Type 0} ⦃v : Eq V⦄ (rt : AgentRuntime V W S) (p : PreparedToolCall V)
    (x : Result (ToolOutput V) ToolError)
    → ((receipt_of rt p x).call_id ≡ p.call_id)
      × ((receipt_of rt p x).tool_name ≡ p.action.tool_name)
unfolding receipt_of Receipt.succeeded Receipt.unknown Receipt.failed
receipt_of-call rt p (ok output) = (refl, refl)
receipt_of-call rt p (err (outcome_unknown reason)) = (refl, refl)
receipt_of-call rt p (err _) = (refl, refl)

module _ {V W S : Type 0} ⦃v : Eq V⦄ (rt : AgentRuntime V W S) (thread : ThreadId) (turn : TurnId)
    (call : ToolCall V) where
  -- a receipt of the call, which is in the log of its turn
  abbrev pub IsRecorded : ToolReceipt V → Run V W S → Type 0
  IsRecorded receipt r =
      (receipt.call_id ≡ call.id)
      × (receipt.tool_name ≡ call.name)
      × Logged (λ e. e ≡ tool_receipt_recorded receipt) turn (rt.store.view r.store)

  abbrev Records : Step V W S (ToolReceipt V) → Type 0
  Records m = Gives IsRecorded m

  recorded :
      (receipt : ToolReceipt V) (crossed : Bool) (r s : Run V W S) {d : Done}
      → record_receipt rt thread turn receipt crossed r ≡ (ok d, s)
      → Logged (λ e. e ≡ tool_receipt_recorded receipt) turn (rt.store.view s.store)
  unfolding record_receipt
  recorded receipt crossed r s h =
      go (append_cases rt thread (some turn) (tool_receipt_recorded receipt) r)
    where
      go :
          Stored rt thread (some turn) (tool_receipt_recorded receipt) r
            ⊎ Refused rt thread (some turn) (tool_receipt_recorded receipt) r
          → Logged (λ e. e ≡ tool_receipt_recorded receipt) turn (rt.store.view s.store)
      go (inr x) = cc (rw x.result at h)
      go (inl x) =
          let same : x.after ≡ s = ap (λ p. p.1) (rw x.result at h) in
          rw (← same) (
            rw x.grown (
              Logged-append_right _ turn (rt.store.view r.store) (x.env ∷ [])
                (inl (x.turn, x.event))))

  close_with-Records :
      (receipt : ToolReceipt V)
      → receipt.call_id ≡ call.id
      → receipt.tool_name ≡ call.name
      → Records (close_with rt thread turn receipt)
  unfolding close_with
  close_with-Records receipt i n = record {
    at = λ r a t h.
        let (d, u, p, q) =
          continue_ok (record_receipt rt thread turn receipt false r) (λ _. pure receipt) h in
        let same : receipt ≡ a = ground (arith, q) in
        let last : u ≡ t = ap (λ x. x.1) q in
        rw (← same, ← last) (i, n, recorded receipt false r u p);
  }

  after_execution-Records :
      (receipt : ToolReceipt V) (hooked : Result Done HookError) (r : Run V W S)
      → IsRecorded receipt r
      → (a : ToolReceipt V) (t : Run V W S)
      → after_execution rt thread turn receipt hooked r ≡ (ok a, t)
      → IsRecorded a t
  after_execution-Records receipt (ok _) r i a t h =
      let same : receipt ≡ a = ground (arith, h) in
      let last : r ≡ t = ap (λ x. x.1) h in rw (← same, ← last) i
  after_execution-Records receipt (err error) r i a t h =
      (Gives-bind {Q = IsRecorded} (record_hook_failure rt thread turn HookPoint.after_tool error)
          (λ _. fail_turn rt thread turn (hook_error_text error) >> throw (RuntimeError.hook error))
          (λ _.
            Gives-bind (fail_turn rt thread turn (hook_error_text error))
              (λ _. throw (RuntimeError.hook error))
              (λ _. Gives-throw (RuntimeError.hook error)))).at
        r a t h

  module _ (context : HookContext) where
    abbrev finish_execution : ToolReceipt V → Step V W S (ToolReceipt V)
    finish_execution receipt = do
      record_receipt rt thread turn receipt true
      hooked ← outside rt (Hook.after_tool rt.hooks context receipt)
      after_execution rt thread turn receipt hooked

    finish_execution-Records :
        (receipt : ToolReceipt V)
        → receipt.call_id ≡ call.id
        → receipt.tool_name ≡ call.name
        → Records (finish_execution receipt)
    unfolding outside
    finish_execution-Records receipt i n = record {
      at = λ r a t h.
          let (d, u, p, q) =
            continue_ok (record_receipt rt thread turn receipt true r)
              (λ _. outside rt (Hook.after_tool rt.hooks context receipt) >>= λ hooked.
                after_execution rt thread turn receipt hooked)
              h in
          let seen = Hook.after_tool rt.hooks context receipt u.world in
          after_execution-Records receipt seen.0 (record u { world = seen.1 })
            (i, n, recorded receipt true r u p) a t q;
    }

    module _ (tool : Tool V W) (tool_context : ToolExecutionContext) (p : PreparedToolCall V) where
      execute_prepared-Records :
          p.call_id ≡ call.id
          → p.action.tool_name ≡ call.name
          → Records (execute_prepared rt thread turn context tool p tool_context)
      unfolding execute_prepared
      execute_prepared-Records i n =
          Gives-bind (append rt thread (some turn) (tool_execution_started p)) _ (λ _.
            Gives-bind (call_executor rt tool p tool_context) _ (λ result.
              finish_execution-Records (receipt_of rt p result)
                ((receipt_of-call rt p result).0 ∙ i) ((receipt_of-call rt p result).1 ∙ n)))

      after_answer-Records :
          (denial : Option String) (go_on : Step V W S (ToolReceipt V))
          → Records go_on
          → Records (after_answer rt thread turn call p denial go_on)
      unfolding Receipt.denied
      after_answer-Records none go_on g = g
      after_answer-Records (some reason) go_on g = close_with-Records _ refl refl

      after_hook-Records :
          (granted : Access) (hooked : Result Done HookError)
          → p.call_id ≡ call.id
          → p.action.tool_name ≡ call.name
          → Records (after_hook rt granted thread turn context call tool p tool_context hooked)
      unfolding approve_and_execute Receipt.denied
      after_hook-Records granted (ok _) i n =
          Gives-if (is_ask rt granted) _ _
            (Gives-bind (ask_approval rt thread turn call p) _
              (λ denial. after_answer-Records denial _ (execute_prepared-Records i n)))
            (execute_prepared-Records i n)
      after_hook-Records granted (err error) i n =
          Gives-bind (record_hook_failure rt thread turn HookPoint.before_tool error) _
            (λ _. close_with-Records _ refl refl)

      run_prepared-Records :
          (granted : Access)
          → p.call_id ≡ call.id
          → p.action.tool_name ≡ call.name
          → Records (run_prepared rt granted thread turn context call tool p tool_context)
      unfolding run_prepared
      run_prepared-Records granted i n =
          Gives-bind (append rt thread (some turn) (tool_prepared p)) _ (λ _.
            Gives-bind (outside rt (Hook.before_tool rt.hooks context p)) _
              (λ hooked. after_hook-Records granted hooked i n))

    after_prepare-Records :
        (granted : Access) (tool : Tool V W) (tool_context : ToolExecutionContext)
        (x : Result (PreparedToolCall V) ToolError)
        → Records (after_prepare rt granted thread turn context call tool tool_context x)
    unfolding Receipt.malformed
    after_prepare-Records granted tool tool_context (err error) = close_with-Records _ refl refl
    after_prepare-Records granted tool tool_context (ok p) =
        elim (Bool-cases (not (p.call_id == call.id) || not (p.action.tool_name == call.name))) [
          | inl e ↦ rw e (close_with-Records _ refl refl)
          | inr e ↦ rw e (
              run_prepared-Records tool tool_context p granted
                (ground (arith, ==_iff p.call_id call.id))
                (ground (arith, ==_iff p.action.tool_name call.name)))
        ]

  with_tool-Records :
      (iteration : ℕ) (granted : Access) (found : Option (Tool V W))
      → Records (with_tool rt thread turn iteration call granted found)
  unfolding Receipt.denied
  with_tool-Records iteration granted none = close_with-Records _ refl refl
  with_tool-Records iteration granted (some tool) =
      Gives-if (is_denied granted) _ _ (close_with-Records _ refl refl) (
        Gives-bind (outside rt (tool.prepare call _)) _
          (λ prepared. after_prepare-Records _ granted tool _ prepared))

  -- Handling a call that returns a receipt returns one for that call, with its id and its name, and
  -- has recorded exactly that receipt in the log of the turn: this holds of a call that is denied,
  -- malformed, refused by a hook or an approval, executed, failed or of unknown outcome.
  pub handle_tool_call-IsRecorded :
      (iteration : ℕ) (projection : CapabilityProjection) (r s : Run V W S)
      (receipt : ToolReceipt V)
      → handle_tool_call rt thread turn iteration call projection r ≡ (ok receipt, s)
      → IsRecorded receipt s
  unfolding handle_tool_call
  handle_tool_call-IsRecorded iteration projection r s receipt h =
      (with_tool-Records iteration (access projection call.name) (get_tool rt.tools call.name)).at r
        receipt s h
