-- ===== src/Task/Replayed.antt =====
-- crates/task/src/lib.rs: `open`, as the replay of a journal's records.
use nausicaa.Prelude.{
  ℕ, ◌≡◌, refl, sym, ap, ◌∙◌, String, true, false, none, some, List, [], ◌∷◌, ◌++◌, Result, ok,
  arith, all,
}
use mathlib.Core.Path.{fun_ext}
use nausicaa.Prelude.Results.{◌>>=◌, bind_assoc, bind_pure}
use nausicaa.Prelude.LogFile.{Bytes}
use nausicaa.Task.{TaskState, TaskError}
use nausicaa.Task.Journal.{Record, Replay, decoded, replay_record, replay_lines, open_journal}
use nausicaa.Prelude.Lines.{
  Encodes, ends_with_newline-Encodes, is_inline, split_inclusive, ends_with_newline,
  split_inclusive-line, ends_with_newline-line,
}

-- `serde_json` writes a record on one line, and reads it back
pub record Codec {V : Type 0} (encode : Record V → Result Bytes String)
    (decode : Bytes → Result (Record V) String) : Type 0 where
  pub single_line : (r : Record V) (line : Bytes) → encode r ≡ ok line → all is_inline line ≡ true
  pub round_trip :
      (r : Record V) (line : Bytes) → encode r ≡ ok line → decode (line ++ b'\n' ∷ []) ≡ ok r

module _ {V : Type 0} (debug : String → String) where
  -- the records, one after the other
  unfoldable pub replay : List (Record V) → Replay V → Result (Replay V) TaskError
  replay [] state = ok state
  replay (r ∷ records) state = replay_record debug state r >>= λ after. replay records after

  pub replay-append :
      (records : List (Record V)) (r : Record V) (state : Replay V)
      → replay (records ++ r ∷ []) state
        ≡ (replay records state >>= λ after. replay_record debug after r)
  unfolding replay
  replay-append [] r state = bind_pure (replay_record debug state r)
  replay-append (x ∷ records) r state =
      ap (λ f. replay_record debug state x >>= f) (fun_ext (λ after. replay-append records r after))
      ∙ sym (
          bind_assoc (replay_record debug state x) (replay records)
            (λ after. replay_record debug after r))

  module _ (encode : Record V → Result Bytes String) where
    -- the bytes are a journal whose replay gives the state
    abbrev pub Holds : Bytes → Replay V → Type 0
    Holds bytes state =
        (records : List (Record V)) × Encodes encode records bytes
        × (replay records (none, 0) ≡ ok state)

    module _ (decode : Bytes → Result (Record V) String) (codec : Codec encode decode) where
      replay_lines-Encodes :
          (records : List (Record V)) (bytes : Bytes) (state : Replay V)
          → Encodes encode records bytes
          → replay_lines debug decode (split_inclusive bytes) state ≡ replay records state
      unfolding replay_lines replay split_inclusive
      replay_lines-Encodes [] bytes state e = rw e refl
      replay_lines-Encodes (r ∷ records) bytes state (line, rest, p, q, e) =
          rw
            (
              q,
              split_inclusive-line line rest (codec.single_line r line p),
              replay_lines,
              decoded,
              codec.round_trip r line p,
            )
            (ap (λ f. replay_record debug state r >>= f)
              (fun_ext (λ after. replay_lines-Encodes records rest after e)))

      -- Opening a file that holds a journal restores the state and the next sequence number that the
      -- journal's records give, when they give a state, with no write marked as failed.
      pub open_journal-Holds :
          {F : Type 0} (bytes : Bytes) (file : F) (state : TaskState V) (sequence : ℕ)
          → Holds bytes (some state, sequence)
          → open_journal debug decode (ok bytes) (ok file)
            ≡ ok (record { file = file; state = state; sequence = sequence; write_failed = false })
      unfolding open_journal replay
      open_journal-Holds bytes file state sequence ([], e, h) = ground (arith, h)
      open_journal-Holds bytes file state sequence (r ∷ records, (line, rest, p, q, e), h) =
          let full : ends_with_newline bytes ≡ true =
            rw q (
              ends_with_newline-line line rest ∙ ends_with_newline-Encodes encode records rest e) in
          let read : replay_lines debug decode (split_inclusive bytes) (none, 0)
              ≡ ok (some state, sequence) =
            replay_lines-Encodes (r ∷ records) bytes (none, 0) (line, rest, p, q, e) ∙ h in
          rw (full, read) refl
