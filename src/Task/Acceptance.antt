-- ===== src/Task/Acceptance.antt =====
-- crates/task/src/lib.rs: what the state machine keeps, and when a task succeeds.
use nausicaa.Prelude.{
  ◌≤◌, ◌≡◌, ◌↔◌, refl, String, true, false, ◌&&◌, List, [], ◌∷◌, ok, err, any, all, arith, ap,
}
use nausicaa.Core.Protocol.{ToolReceipt}
use nausicaa.Task.{
  Criterion, ArtifactRef, TaskStatus, TaskState, TaskEvent, TaskError, created, attempt_started,
  attempt_checked, task_blocked, is_satisfied, check, check_all,
}
use nausicaa.Task.State.{apply, is_open, is_unknown}

all-check_all :
    (debug : String → String) (artifacts : List ArtifactRef) (criteria : List Criterion)
    → all (λ c. c.passed) (check_all debug artifacts criteria)
      ≡ all (is_satisfied artifacts) criteria
unfolding all
all-check_all debug artifacts [] = refl
all-check_all debug artifacts (c ∷ criteria) =
    ap (λ b. is_satisfied artifacts c && b) (all-check_all debug artifacts criteria)

module _ {V : Type 0} (debug : String → String) where
  -- A change of a task keeps its specification, never goes over its budget of attempts where it was
  -- within it, and never takes an attempt back.
  pub apply-budget :
      (state next : TaskState V) (event : TaskEvent V)
      → apply debug state event ≡ ok next
      → state.attempts ≤ state.spec.budget.max_attempts
      → (next.spec ≡ state.spec)
        × (next.attempts ≤ next.spec.budget.max_attempts)
        × (state.attempts ≤ next.attempts)
  unfolding apply
  apply-budget state next (created spec) h b = ground arith
  apply-budget state next (attempt_started turn_id) h b = ground arith
  apply-budget state next (attempt_checked artifacts receipts) h b = ground arith
  apply-budget state next (task_blocked reason) h b = ground arith

  -- A task that has succeeded, is blocked or has no attempt left accepts no event.
  pub apply-is_open :
      (state : TaskState V) (event : TaskEvent V)
      → is_open state.status ≡ false
      → (e : TaskError) × (apply debug state event ≡ err e)
  unfolding apply
  apply-is_open state (created spec) h = (_, refl)
  apply-is_open state (attempt_started turn_id) h = (
    TaskError.invalid "attempt requires a ready task, fresh turn ID and remaining budget",
    ground arith,
  )
  apply-is_open state (attempt_checked artifacts receipts) h =
      (TaskError.invalid "verification requires a running attempt", ground arith)
  apply-is_open state (task_blocked reason) h =
      (TaskError.invalid "blocking requires a nonterminal task and a reason", ground arith)

  -- A verification that is accepted makes the task succeed exactly when no receipt is of unknown
  -- outcome and every criterion has exactly one snapshot, with the expected content.
  pub apply-succeeded :
      (state next : TaskState V) (artifacts : List ArtifactRef) (receipts : List (ToolReceipt V))
      → apply debug state (attempt_checked artifacts receipts) ≡ ok next
      → (next.status ≡ TaskStatus.succeeded) ↔ (
          (any is_unknown receipts ≡ false)
          × (all (is_satisfied artifacts) state.spec.criteria ≡ true))
  unfolding apply check
  apply-succeeded state next artifacts receipts h =
      ground (arith, all-check_all debug artifacts state.spec.criteria)
