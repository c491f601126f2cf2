-- ===== src/Core/Approval.antt =====
-- crates/harness-core/src/approval.rs: approval requests, and the provider that denies all.
use Prim.Native.String.{◌++◌}
use nausicaa.Prelude.{String, Result, ok}
use nausicaa.Core.Id.{ThreadId, TurnId, CallId}
use nausicaa.Core.Protocol.{CanonicalAction}

pub record ApprovalRequest (V : Type 0) : Type 0 where
  pub thread_id : ThreadId
  pub turn_id : TurnId
  pub call_id : CallId
  pub action : CanonicalAction V
  pub reason : String

pub data ApprovalDecision (V : Type 0) : Type 0 where
  approved : CanonicalAction V → ApprovalDecision V
  denied : String → ApprovalDecision V

pub record ApprovalError : Type 0 where
  pub message : String

-- an approval provider, over the state `W` of the world
abbrev pub ApprovalProvider : Type 0 → Type 0 → Type 0
ApprovalProvider V W = ApprovalRequest V → W → Result (ApprovalDecision V) ApprovalError × W

unfoldable pub deny_all_approvals : {V W : Type 0} → ApprovalProvider V W
deny_all_approvals request w = (ok (denied "no approval provider is configured"), w)

-- the `#[error]` text
unfoldable pub approval_error_text : String → String
approval_error_text message = "approval provider failed: " ++ message
