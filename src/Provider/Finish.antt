-- ===== src/Provider/Finish.antt =====
-- crates/provider-openai/src/stream.rs: `Decoder::finish`, which turns a complete stream into a
-- response. `from_utf8` is `std::str::from_utf8`.
use nausicaa.Prelude.{
  ℕ, suc, String, Bool, not, ◌&&◌, Option, none, some, List, [], ◌∷◌, ok, err, Done, if◌then◌else◌,
  eqb, length, push as push_back,
}
use nausicaa.Prelude.Exec.{◌>>=◌, ◌>>◌, pure}
use nausicaa.Prelude.BTreeMap.{BTreeMap}
use nausicaa.Prelude.Strings.{is_empty}
use nausicaa.Prelude.LogFile.{Bytes}
use nausicaa.Provider.{StreamJson}
use nausicaa.Provider.Stream.{
  Call, Step, protocol, fail, or_fail, line, dispatch, trim_carriage_returns,
}

module _ {V : Type 0} (json : StreamJson V) (from_utf8 : Bytes → Option String) where
  abbrev pub is_complete : ℕ → ℕ → Call → Bool
  is_complete expected index call =
      eqb index expected
      && not (is_empty call.id)
      && not (is_empty call.name)
      && not (is_empty call.arguments)

  abbrev pub call_value : Call → V
  call_value call = json.object (
      ("id", json.string call.id)
      ∷ ("type", json.string "function")
      ∷ (
        "function",
        json.object
            (("name", json.string call.name) ∷ ("arguments", json.string call.arguments) ∷ []),
      )
      ∷ [])

  unfoldable pub collect : ℕ → BTreeMap ℕ Call → List V → Step json (List V)
  collect expected [] found = pure found
  collect expected ((index, call) ∷ calls) found =
      if is_complete expected index call
      then collect (suc expected) calls (push_back (call_value call) found)
      else fail json "incomplete streamed tool call"

  -- the last line, where the stream did not end it
  abbrev pub last_line : Step json Done
  last_line s =
      let rest =
        (do
          text ← or_fail json (from_utf8 s.pending) "truncated UTF-8 stream"
          line json (trim_carriage_returns text))
          (record s { pending = [] }) in
      if eqb (length s.pending) 0 then (ok tt, s) else rest

  abbrev pub reason_value : Option String → V
  reason_value none = json.null
  reason_value (some reason) = json.string reason

  abbrev pub response : List V → Step json V
  response calls s = (
    ok (
        json.object (
          (
            "choices",
            json.array (
                json.object (
                  (
                    "message",
                    json.object (
                        ("content", json.string s.content) ∷ ("tool_calls", json.array calls) ∷ []),
                  )
                  ∷ ("finish_reason", reason_value s.finish_reason)
                  ∷ [])
                ∷ []),
          )
          ∷ ("usage", s.usage)
          ∷ [])),
    s,
  )

  abbrev pub is_done : Step json Done
  is_done s = if s.done then (ok tt, s) else (err (protocol "incomplete stream: missing [DONE]"), s)

  abbrev pub collected : Step json (List V)
  collected s = collect 0 s.calls [] s

  -- The source drops what `finish` drafts: its decoder is gone, and only the result is left.
  unfoldable pub finish : Step json V
  unfolding line dispatch collect
  finish = do last_line; dispatch json; is_done; calls ← collected; response calls
