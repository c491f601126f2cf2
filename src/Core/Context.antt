-- ===== src/Core/Context.antt =====
-- crates/harness-core/src/context.rs: prompt segments, the compiler's input and output, and the
-- layered compiler with its character budget. Loading rule files from directories is not modelled.
use nausicaa.Prelude.{
  byte_len, ℕ, ◌+◌, String, Option, none, some, List, [], ◌∷◌, map, Result, ok, err, ltb,
  if◌then◌else◌,
}
use nausicaa.Core.Id.{ThreadId, TurnId}
use nausicaa.Core.Protocol.{TranscriptMessage}

pub data PromptLayer : Type 0 where
  stable rules skills memory compaction volatile : PromptLayer

pub record PromptSegment : Type 0 where
  pub layer : PromptLayer
  pub name : String
  pub text : String

pub record ContextInput (V : Type 0) : Type 0 where
  pub thread_id : ThreadId
  pub turn_id : TurnId
  pub transcript : List (TranscriptMessage V)

pub record CompiledContext (V : Type 0) : Type 0 where
  pub prompt : List PromptSegment
  pub messages : List (TranscriptMessage V)

pub data ContextError : Type 0 where
  too_large : ℕ → ℕ → ContextError
  path : String → ContextError
  read : String → ContextError

pub record LayeredContextCompiler : Type 0 where
  pub segments : List PromptSegment
  pub max_characters : Option ℕ

abbrev pub sum : List ℕ → ℕ
sum [] = 0
sum (n ∷ ns) = n + sum ns

abbrev over_budget : Option ℕ → ℕ → Option ℕ
over_budget none actual = none
over_budget (some maximum) actual = if ltb maximum actual then some maximum else none

-- `encoded_len` is the length of `serde_json::to_string`, or 0 where that fails.
module _ {V : Type 0} (encoded_len : TranscriptMessage V → ℕ) where
  unfoldable pub context_size : LayeredContextCompiler → ContextInput V → ℕ
  context_size compiler input =
      sum (map (λ s. byte_len s.text) compiler.segments) + sum (map encoded_len input.transcript)

  abbrev check_budget : Option ℕ → ℕ → CompiledContext V → Result (CompiledContext V) ContextError
  check_budget none actual context = ok context
  check_budget (some maximum) actual context = err (too_large actual maximum)

  unfoldable pub compile :
      LayeredContextCompiler → ContextInput V → Result (CompiledContext V) ContextError
  compile compiler input =
      let actual = context_size compiler input in
      check_budget (over_budget compiler.max_characters actual) actual
        (record { prompt = compiler.segments; messages = input.transcript })
