-- ===== src/Task/Reopened.antt =====
-- crates/task/src/lib.rs: what a task's journal holds is what `open` restores.
use nausicaa.Prelude.{
  ◌+◌, ◌^◌, ◌<◌, ◌≤◌, ◌≡◌, refl, sym, ap, ◌∙◌, String, true, false, Option, none, some, List, [],
  ◌∷◌, ◌++◌, Result, ok, Done, arith, inl, inr, ◌⊎◌, length,
}
use nausicaa.Prelude.Results.{Result-cases, ◌>>=◌}
use nausicaa.Prelude.Exec.{Outcome-cases}
use nausicaa.Prelude.LogFile.{Appends, LogFile, Bytes}
use nausicaa.Task.{TaskSpec, TaskState, TaskEvent, created}
use nausicaa.Task.State.{initial_state}
use nausicaa.Task.Journal.{
  Record, TaskJournal, append, transition, create, replay_event, replay_record, open_journal,
}
use nausicaa.Prelude.Lines.{Encodes-append}
use nausicaa.Task.Replayed.{Codec, replay, Holds, replay-append, open_journal-Holds}
use nausicaa.Task.Appended.{
  record_of, append-Appended, transition-err, transition-latched, transition-ok,
}

module _ {V : Type 0} (debug : String → String) where
  module _ {F : Type 0} (log : LogFile F) (encode : Record V → Result Bytes String)
      (content : F → Bytes) (appends : Appends log content) where
    pub append-Holds :
        (event : TaskEvent V) (before : Option (TaskState V)) (next : TaskState V)
        (s t : TaskJournal V F) (d : Done)
        → append debug log encode event s ≡ (ok d, t)
        → replay_event debug before event ≡ ok next
        → s.sequence + 1 < 2 ^ 64
        → Holds debug encode (content s.file) (before, s.sequence)
        → Holds debug encode (content t.file) (some next, t.sequence)
    unfolding replay_record
    append-Holds event before next s t d h e bound (records, p, r) =
        let a = append-Appended debug log encode content appends event s t d h in
        let last : replay_record debug (before, s.sequence)
              (record_of debug log encode content appends event s)
            ≡ ok (some next, t.sequence) =
          ground (arith, e, a.next) in
        (
          records ++ record_of debug log encode content appends event s ∷ [],
          rw a.grown (
              Encodes-append encode records (content s.file) a.line
                (record_of debug log encode content appends event s) p a.encoded),
          replay-append debug records (record_of debug log encode content appends event s) (none, 0)
              ∙ (ap
                    (λ m. m >>= λ after.
                      replay_record debug after
                        (record_of debug log encode content appends event s))
                    r
                  ∙ last),
        )

    -- the state and the next sequence number are those of the file, unless a write failed
    abbrev pub IsSaved : TaskJournal V F → Type 0
    IsSaved s =
        (s.write_failed ≡ true) ⊎ Holds debug encode (content s.file) (some s.state, s.sequence)

    transition-IsSaved :
        (event : TaskEvent V) (s : TaskJournal V F)
        → s.sequence + 1 < 2 ^ 64
        → IsSaved s
        → IsSaved (transition debug log encode event s).1
          × ((transition debug log encode event s).1.sequence ≤ s.sequence + 1)
    transition-IsSaved event s bound (inl latched) =
        let (e, p) = transition-latched debug log encode content appends event s latched in
        rw p (inl latched, ground arith)
    transition-IsSaved event s bound (inr saved) =
        elim (Outcome-cases (transition debug log encode event s)) [
          | inl (d, t, h) ↦
              let (next, u, p, q, made) =
                transition-ok debug log encode content appends event s t d h in
              let a = append-Appended debug log encode content appends event s u tt q in
              rw (h, ← made)
                (
                  inr (append-Holds event (some s.state) next s u tt q p bound saved),
                  ground (arith, a.next),
                )
          | inr (e, t, h) ↦
              let (state, sequence, why) =
                transition-err debug log encode content appends event s t e h in
              rw h (elim why [
                | inl same ↦ rw same (inr saved, ground arith)
                | inr latched ↦ (inl latched, ground (arith, sequence))
              ])
        ]

    -- every event in turn, whatever the ones before returned
    abbrev pub run : List (TaskEvent V) → TaskJournal V F → TaskJournal V F
    run [] s = s
    run (event ∷ events) s = run events (transition debug log encode event s).1

    run-IsSaved :
        (events : List (TaskEvent V)) (s : TaskJournal V F)
        → s.sequence + length events < 2 ^ 64
        → IsSaved s
        → IsSaved (run events s)
    run-IsSaved [] s bound saved = saved
    run-IsSaved (event ∷ events) s bound saved =
        let (after, n) = transition-IsSaved event s (ground arith) saved in
        run-IsSaved events (transition debug log encode event s).1 (ground (arith, n)) after

    create-IsSaved :
        (spec : TaskSpec) (file : F) (s : TaskJournal V F)
        → content file ≡ []
        → create debug log encode (ok file) spec ≡ ok s
        → IsSaved s × (s.sequence ≡ 1)
    unfolding create replay
    create-IsSaved spec file s empty h = elim (Result-cases (initial_state {V = V} spec)) [
      | inl (m, p) ↦ absurd (ground (arith, rw (create, p) at h))
      | inr (state, p) ↦
          let fresh : TaskJournal V F = record {
            file = file;
            state = state;
            sequence = 0;
            write_failed = false;
          } in
          elim (Outcome-cases (append debug log encode (created spec) fresh)) [
            | inl (d, u, q) ↦
                let same : u ≡ s = ground (arith, rw (create, p, q) at h) in
                let a =
                  append-Appended debug log encode content appends (created spec) fresh u d q in
                let held =
                  append-Holds (created spec) none state fresh u d q p (ground arith)
                    ([], empty, refl) in
                rw (← same) (inr (rw a.state held), a.next)
            | inr (m, u, q) ↦ absurd (ground (arith, rw (create, p, q) at h))
          ]
    ]

    -- Reopening the file of a journal that was created in an empty file, and then took any sequence
    -- of transitions, of which some may have returned an error, restores the journal: its state and
    -- its next sequence number, with no write marked as failed. This holds when no write failed,
    -- the sequence numbers stay below the largest `usize`, a record is encoded on one line and
    -- decoded back, and the file appends what it is given.
    pub create-run-open_journal :
        (decode : Bytes → Result (Record V) String) (codec : Codec encode decode) (spec : TaskSpec)
        (file : F) (s : TaskJournal V F) (events : List (TaskEvent V))
        → content file ≡ []
        → create debug log encode (ok file) spec ≡ ok s
        → 1 + length events < 2 ^ 64
        → (run events s).write_failed ≡ false
        → open_journal debug decode (ok (content (run events s).file)) (ok (run events s).file)
          ≡ ok (run events s)
    create-run-open_journal decode codec spec file s events empty h bound clear =
        let (saved, one) = create-IsSaved spec file s empty h in
        elim (run-IsSaved events s (ground (arith, one)) saved) [
          | inl latched ↦ absurd (ground (arith, latched, clear))
          | inr held ↦
              let t = run events s in
              open_journal-Holds debug encode decode codec (content t.file) t.file t.state
                t.sequence held
              ∙ ap (λ b. ok (record t { write_failed = b })) (sym clear)
        ]
