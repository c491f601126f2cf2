-- ===== src/Task/Tests.antt =====
-- A task of one criterion, on its last attempt.
mod Journal
use nausicaa.Prelude.{
  ℕ, ◌≤◌, ◌≡◌, ◌↔◌, refl, String, true, false, Option, none, some, List, [], ◌∷◌, ok, err, any, all,
  filter, arith, is_blank,
}
use nausicaa.Task.{
  TaskSpec, ArtifactRef, TaskStatus, TaskState, TaskError, attempt_started, attempt_checked,
  task_blocked, is_satisfied, check, snapshots,
}
use nausicaa.Core.Protocol.{ToolReceipt}
use nausicaa.Task.State.{apply, is_unknown}
use nausicaa.Task.Acceptance.{apply-budget, apply-is_open, apply-succeeded}

abbrev debug : String → String
debug s = s

abbrev spec : TaskSpec
spec = record {
  objective = "write the file";
  criteria = record { id = "content"; artifact_id = "file"; expected = "hello" } ∷ [];
  budget = record { max_attempts = 1 };
}

abbrev state : TaskStatus → ℕ → Option String → TaskState ℕ
state status attempts active_turn = record {
  spec = spec;
  status = status;
  attempts = attempts;
  evidence = [];
  remaining_work = [];
  active_turn = active_turn;
}

abbrev artifacts : List ArtifactRef
artifacts = record { id = "file"; content = "hello" } ∷ []

starts :
    apply debug (state TaskStatus.ready 0 none) (attempt_started "turn")
    ≡ ok (state TaskStatus.running 1 (some "turn"))
unfolding apply is_blank
starts = refl

apply-budget_example : (spec ≡ spec) × (1 ≤ 1) × (0 ≤ 1)
apply-budget_example =
    apply-budget debug (state TaskStatus.ready 0 none) (state TaskStatus.running 1 (some "turn"))
      (attempt_started "turn") starts (omega arith)

apply-is_open_example :
    (e : TaskError) × (apply debug (state TaskStatus.succeeded 1 none) (task_blocked "stop")
      ≡ err e)
apply-is_open_example =
    apply-is_open debug (state TaskStatus.succeeded 1 none) (task_blocked "stop") refl

abbrev accepted : TaskState ℕ
accepted = record (state TaskStatus.succeeded 1 none) {
  evidence =
      record {
        attempt = 1;
        turn_id = "turn";
        artifacts = artifacts;
        checks = check debug spec artifacts;
        receipts = [];
      }
      ∷ [];
}

accepts :
    apply debug (state TaskStatus.running 1 (some "turn")) (attempt_checked artifacts [])
    ≡ ok accepted
unfolding apply check is_satisfied snapshots filter any all
accepts = refl

apply-succeeded_example : (TaskStatus.succeeded ≡ TaskStatus.succeeded) ↔ (
    (any {A = ToolReceipt ℕ} is_unknown [] ≡ false)
    × (all (is_satisfied artifacts) spec.criteria ≡ true))
apply-succeeded_example =
    apply-succeeded debug (state TaskStatus.running 1 (some "turn")) accepted artifacts [] accepts
