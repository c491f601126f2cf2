-- ===== src/Task/State.antt =====
-- crates/task/src/lib.rs: `initial_state` and `apply`. A caller of `apply` drops the state that it
-- leaves with an error, so an error stands alone.
use nausicaa.Prelude.{
  ◌+◌, String, Bool, true, false, not, ◌||◌, Option, none, some, List, [], ◌∷◌, ◌++◌, Result, ok,
  err, if◌then◌else◌, any, all, leb, eqb, is_blank, ◌==◌, string_ord,
}
use nausicaa.Prelude.BTreeSet.{BTreeSet, contains, insert}
use nausicaa.Core.Protocol.{ToolReceipt, ReceiptStatus}
use nausicaa.Task.{
  ArtifactRef, Criterion, TaskSpec, CheckEvidence, TaskStatus, TaskState, TaskEvent, TaskError,
  created, attempt_started, attempt_checked, task_blocked, invalid, check,
}

abbrev pub is_open : TaskStatus → Bool
is_open TaskStatus.ready = true
is_open TaskStatus.running = true
is_open TaskStatus.needs_repair = true
is_open _ = false

abbrev pub is_startable : TaskStatus → Bool
is_startable TaskStatus.ready = true
is_startable TaskStatus.needs_repair = true
is_startable _ = false

abbrev pub is_running : TaskStatus → Bool
is_running TaskStatus.running = true
is_running _ = false

abbrev no_criteria : List Criterion → Bool
no_criteria [] = true
no_criteria (c ∷ criteria) = false

unfoldable pub are_valid : BTreeSet String → List Criterion → Bool
are_valid ids [] = true
are_valid ids (c ∷ criteria) =
    let rest = are_valid (insert c.id ids) criteria in
    if is_blank c.id || is_blank c.artifact_id || contains c.id ids then false else rest

abbrev ids_of : List Criterion → List String
ids_of [] = []
ids_of (c ∷ criteria) = c.id ∷ ids_of criteria

abbrev feedback_left : List CheckEvidence → List String
feedback_left [] = []
feedback_left (c ∷ checks) =
    if c.passed then feedback_left checks else c.feedback ∷ feedback_left checks

abbrev reconcile : Bool → List String
reconcile true = "Reconcile unknown tool outcomes with the host; do not replay actions" ∷ []
reconcile false = []

abbrev pub verdict : Bool → Bool → Bool → TaskStatus
verdict unknown passed spent =
    if unknown
    then TaskStatus.blocked
    else if passed
    then TaskStatus.succeeded
    else if spent
    then TaskStatus.budget_exhausted
    else TaskStatus.needs_repair

module _ {V : Type 0} where
  unfoldable pub initial_state : TaskSpec → Result (TaskState V) TaskError
  initial_state spec =
      if is_blank spec.objective || no_criteria spec.criteria || eqb spec.budget.max_attempts 0
      then err (invalid "objective, required criteria and positive attempt budget are mandatory")
      else if are_valid [] spec.criteria
      then ok (record {
        spec = spec;
        status = TaskStatus.ready;
        attempts = 0;
        evidence = [];
        remaining_work = ids_of spec.criteria;
        active_turn = none;
      })
      else err (invalid "criterion IDs must be nonempty and unique; artifact IDs must be nonempty")

  abbrev pub is_unknown : ToolReceipt V → Bool
  is_unknown receipt = elim receipt.status [ ReceiptStatus.unknown ↦ true | _ ↦ false ]

  -- what the attempt that is running becomes
  abbrev pub judged :
      List CheckEvidence
      → List ArtifactRef
      → List (ToolReceipt V)
      → Option String
      → TaskState V
      → Result (TaskState V) TaskError
  judged checks artifacts receipts none state = err (invalid "missing active turn")
  judged checks artifacts receipts (some turn_id) state = ok (record state {
    remaining_work = feedback_left checks ++ reconcile (any is_unknown receipts);
    status =
        verdict (any is_unknown receipts) (all (λ c. c.passed) checks)
          (eqb state.attempts state.spec.budget.max_attempts);
    evidence =
        state.evidence
        ++ record {
          attempt = state.attempts;
          turn_id = turn_id;
          artifacts = artifacts;
          checks = checks;
          receipts = receipts;
        }
          ∷ [];
    active_turn = none;
  })

  -- `attempts` is below the budget, a `u32`, where it grows
  unfoldable pub apply :
      (String → String) → TaskState V → TaskEvent V → Result (TaskState V) TaskError
  unfolding check any all
  apply debug state (created spec) = err (invalid "task specification is immutable")
  apply debug state (attempt_started turn_id) =
      if not (is_startable state.status)
        || leb state.spec.budget.max_attempts state.attempts
        || is_blank turn_id
        || any (λ e. e.turn_id == turn_id) state.evidence
      then err (invalid "attempt requires a ready task, fresh turn ID and remaining budget")
      else ok (record state {
        attempts = state.attempts + 1;
        active_turn = some turn_id;
        status = TaskStatus.running;
      })
  apply debug state (attempt_checked artifacts receipts) =
      if is_running state.status
      then judged (check debug state.spec artifacts) artifacts receipts state.active_turn state
      else err (invalid "verification requires a running attempt")
  apply debug state (task_blocked reason) =
      if not (is_open state.status) || is_blank reason
      then err (invalid "blocking requires a nonterminal task and a reason")
      else ok (record state {
        status = TaskStatus.blocked;
        remaining_work = state.remaining_work ++ reason ∷ [];
      })
