-- ===== src/Core/Protocol.antt =====
-- crates/harness-core/src/protocol.rs: calls, canonical actions, receipts and the transcript. `V` is
-- `serde_json::Value`, of which the source uses only the equality.
use nausicaa.Prelude.{
  String, ◌≡◌, Bool, true, false, ◌&&◌, Option, none, some, List, arith, Eq, ◌==◌, ==_iff,
  string_ord,
}
use nausicaa.Core.Id.{CallId}

pub record ToolCall (V : Type 0) : Type 0 where
  pub id : CallId
  pub name : String
  pub arguments : V

pub data EffectKind : Type 0 where
  read_only workspace_write external_side_effect : EffectKind

pub data RetrySafety : Type 0 where
  safe idempotent unsafe : RetrySafety

pub record CanonicalAction (V : Type 0) : Type 0 where
  pub tool_name : String
  pub arguments : V
  pub effect : EffectKind
  pub retry_safety : RetrySafety
  pub scope : Option String

-- the derived `PartialEq` of the enums and of `Option<String>`
abbrev effect_eq : EffectKind → EffectKind → Bool
effect_eq EffectKind.read_only EffectKind.read_only = true
effect_eq EffectKind.workspace_write EffectKind.workspace_write = true
effect_eq EffectKind.external_side_effect EffectKind.external_side_effect = true
effect_eq _ _ = false

abbrev retry_eq : RetrySafety → RetrySafety → Bool
retry_eq RetrySafety.safe RetrySafety.safe = true
retry_eq RetrySafety.idempotent RetrySafety.idempotent = true
retry_eq RetrySafety.unsafe RetrySafety.unsafe = true
retry_eq _ _ = false

abbrev scope_eq : Option String → Option String → Bool
scope_eq none none = true
scope_eq (some a) (some b) = a == b
scope_eq _ _ = false

scope_eq_sound : (a b : Option String) → scope_eq a b ≡ true → a ≡ b
scope_eq_sound none none h = ground arith
scope_eq_sound (some a) (some b) h = ground (arith, ==_iff a b)
scope_eq_sound none (some b) h = cc
scope_eq_sound (some a) none h = cc

module _ {V : Type 0} ⦃v : Eq V⦄ where
  -- the derived `PartialEq` of `CanonicalAction`: field by field
  unfoldable pub action_eq : CanonicalAction V → CanonicalAction V → Bool
  action_eq a b =
      (a.tool_name == b.tool_name)
      && v.equals a.arguments b.arguments
      && effect_eq a.effect b.effect
      && retry_eq a.retry_safety b.retry_safety
      && scope_eq a.scope b.scope

  -- the test that binds an approval to an action accepts that very action and no other
  pub action_eq_sound : (a b : CanonicalAction V) → action_eq a b ≡ true → a ≡ b
  unfolding action_eq
  action_eq_sound a b h = ground (
    arith,
    ==_iff a.tool_name b.tool_name,
    v.equals_iff a.arguments b.arguments,
    scope_eq_sound a.scope b.scope,
  )

pub record PreparedToolCall (V : Type 0) : Type 0 where
  pub call_id : CallId
  pub action : CanonicalAction V

pub data ReceiptStatus : Type 0 where
  succeeded failed denied unknown : ReceiptStatus

pub record ToolReceipt (V : Type 0) : Type 0 where
  pub call_id : CallId
  pub tool_name : String
  pub status : ReceiptStatus
  pub action : Option (CanonicalAction V)
  pub output : Option V
  pub error : Option String

pub data TranscriptMessage (V : Type 0) : Type 0 where
  user : String → TranscriptMessage V
  assistant : String → List (ToolCall V) → TranscriptMessage V
  tool : ToolReceipt V → TranscriptMessage V
