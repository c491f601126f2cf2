-- ===== src/Task.antt =====
-- crates/task/src/lib.rs: task acceptance. The data and the gate; `State` is the state machine.
pub mod State
pub mod Acceptance
pub mod Journal
pub mod Contract
pub mod Replayed
pub mod Appended
pub mod Reopened
pub mod Tests
use nausicaa.Prelude.{
  ℕ, suc, String, Bool, true, false, ◌&&◌, Option, none, some, List, [], ◌∷◌, if◌then◌else◌, filter,
  length, show, eqb, ◌==◌, string_ord,
}
use Prim.Native.String.{◌++◌}
use nausicaa.Core.Protocol.{ToolReceipt}

pub record ArtifactRef : Type 0 where
  pub id : String
  pub content : String

pub record Criterion : Type 0 where
  pub id : String
  pub artifact_id : String
  pub expected : String

pub record Budget : Type 0 where
  pub max_attempts : ℕ  -- u32

pub record TaskSpec : Type 0 where
  pub objective : String
  pub criteria : List Criterion
  pub budget : Budget

pub record CheckEvidence : Type 0 where
  pub criterion_id : String
  pub artifact_id : String
  pub passed : Bool
  pub feedback : String

pub data TaskStatus : Type 0 where
  ready running needs_repair succeeded budget_exhausted blocked : TaskStatus

pub record AttemptEvidence (V : Type 0) : Type 0 where
  pub attempt : ℕ  -- u32
  pub turn_id : String
  pub artifacts : List ArtifactRef
  pub checks : List CheckEvidence
  pub receipts : List (ToolReceipt V)

pub record TaskState (V : Type 0) : Type 0 where
  pub spec : TaskSpec
  pub status : TaskStatus
  pub attempts : ℕ  -- u32
  pub evidence : List (AttemptEvidence V)
  pub remaining_work : List String
  pub active_turn : Option String

pub data TaskEvent (V : Type 0) : Type 0 where
  created : TaskSpec → TaskEvent V
  attempt_started : String → TaskEvent V
  attempt_checked : List ArtifactRef → List (ToolReceipt V) → TaskEvent V
  task_blocked : String → TaskEvent V

pub data TaskError : Type 0 where
  io : String → TaskError
  json : String → TaskError
  invalid : String → TaskError

-- exactly one artifact, with the expected content
abbrev pub is_match : String → List ArtifactRef → Bool
is_match expected [] = false
is_match expected (a ∷ []) = a.content == expected
is_match expected (a ∷ b ∷ rest) = false

unfoldable pub snapshots : Criterion → List ArtifactRef → List ArtifactRef
snapshots criterion = filter (λ a. a.id == criterion.artifact_id)

unfoldable pub is_satisfied : List ArtifactRef → Criterion → Bool
unfolding snapshots
is_satisfied artifacts criterion = is_match criterion.expected (snapshots criterion artifacts)

-- `debug` is the `Debug` text of a string
module _ (debug : String → String) where
  abbrev pub feedback_of : Criterion → ℕ → String
  feedback_of criterion found =
      "Repair artifact "
      ++ debug criterion.artifact_id
      ++ " to satisfy criterion "
      ++ debug criterion.id
      ++ ": expected exact content "
      ++ debug criterion.expected
      ++ "; found "
      ++ show found
      ++ " snapshot(s)"

  abbrev pub check_criterion : List ArtifactRef → Criterion → CheckEvidence
  check_criterion artifacts criterion =
      let passed = is_satisfied artifacts criterion in
      record {
        criterion_id = criterion.id;
        artifact_id = criterion.artifact_id;
        passed = passed;
        feedback =
            if passed
            then "exact content verified"
            else feedback_of criterion (length (snapshots criterion artifacts));
      }

  abbrev check_all : List ArtifactRef → List Criterion → List CheckEvidence
  check_all artifacts [] = []
  check_all artifacts (c ∷ criteria) = check_criterion artifacts c ∷ check_all artifacts criteria

  unfoldable pub check : TaskSpec → List ArtifactRef → List CheckEvidence
  check spec artifacts = check_all artifacts spec.criteria
