-- ===== src/Task/Appended.antt =====
-- crates/task/src/lib.rs: what `append` and `transition` have done, where they return and where they
-- fail.
use nausicaa.Prelude.{
  ◌+◌, ◌%◌, ◌^◌, ◌≡◌, sym, ap, ◌∙◌, String, true, false, [], ◌∷◌, ◌++◌, Result, ok, err, Done,
  arith, Bool-cases, inl, inr, ◌⊎◌,
}
use nausicaa.Prelude.Results.{Result-cases}
use nausicaa.Prelude.Exec.{continue_ok, Outcome-cases}
use nausicaa.Prelude.LogFile.{Appends, LogFile, Bytes}
use nausicaa.Task.{TaskState, TaskEvent, TaskError, invalid, json}
use nausicaa.Task.State.{apply}
use nausicaa.Task.Journal.{Record, TaskJournal, append, transition, write_synced}

module _ {V : Type 0} (debug : String → String) where
  module _ {F : Type 0} (log : LogFile F) (encode : Record V → Result Bytes String)
      (content : F → Bytes) (appends : Appends log content) where
    write_synced-content :
        (bytes : Bytes) (f g : F) (d : Done)
        → write_synced log bytes f ≡ (ok d, g)
        → content g ≡ content f ++ bytes
    write_synced-content bytes f g d h =
        let (a, f', p, q) = continue_ok (log.write_all bytes f) (λ _. log.sync_data) h in
        appends.kept f' g d q ∙ appends.appended bytes f f' a p

    abbrev pub record_of : TaskEvent V → TaskJournal V F → Record V
    record_of event s = record { version = 1; sequence = s.sequence; payload = event }

    -- the journal after the event is written and synced
    pub record Appended (event : TaskEvent V) (s t : TaskJournal V F) : Type 0 where
      pub line : Bytes
      pub encoded : encode (record_of event s) ≡ ok line
      pub grown : content t.file ≡ content s.file ++ (line ++ b'\n' ∷ [])
      pub next : t.sequence ≡ (s.sequence + 1) % 2 ^ 64
      pub state : t.state ≡ s.state
      pub write_failed : t.write_failed ≡ false

    pub append-Appended :
        (event : TaskEvent V) (s t : TaskJournal V F) (d : Done)
        → append debug log encode event s ≡ (ok d, t)
        → Appended event s t
    unfolding append
    append-Appended event s t d h = elim (Bool-cases s.write_failed) [
      | inl latched ↦ absurd (ground (arith, rw (append, latched) at h))
      | inr clear ↦ elim (Result-cases (encode (record_of event s))) [
        | inl (m, e) ↦ absurd (ground (arith, rw (append, clear, e) at h))
        | inr (line, e) ↦ elim (Outcome-cases (write_synced log (line ++ b'\n' ∷ []) s.file)) [
          | inl (d', f, w) ↦
              let made : (
                ok tt,
                record s { file = f; write_failed = false; sequence = (s.sequence + 1) % 2 ^ 64 },
              )
                  ≡ (ok d, t) =
                rw (append, clear, e, w) at h in
              record {
                line = line;
                encoded = e;
                grown =
                    ap (λ x. content (x.1).file) (sym made)
                    ∙ write_synced-content (line ++ b'\n' ∷ []) s.file f d' w;
                next = ap (λ x. (x.1).sequence) (sym made);
                state = ap (λ x. (x.1).state) (sym made);
                write_failed = ap (λ x. (x.1).write_failed) (sym made);
              }
          | inr (m, f, w) ↦ absurd (ground (arith, rw (append, clear, e, w) at h))
        ]
      ]
    ]

    -- the journal has not changed, or a write is marked as failed
    abbrev pub IsStopped : TaskJournal V F → TaskJournal V F → Type 0
    IsStopped s t =
        (t.state ≡ s.state) × (t.sequence ≡ s.sequence) × ((t ≡ s) ⊎ (t.write_failed ≡ true))

    abbrev unchanged : (s t : TaskJournal V F) → s ≡ t → IsStopped s t
    unchanged s t h = (ap (λ x. x.state) (sym h), ap (λ x. x.sequence) (sym h), inl (sym h))

    append-latched :
        (event : TaskEvent V) (s : TaskJournal V F)
        → s.write_failed ≡ true
        → append debug log encode event s
          ≡ (err (invalid "previous write failed; reopen journal"), s)
    unfolding append
    append-latched event s h = ground (arith, h)

    append-unencoded :
        (event : TaskEvent V) (s : TaskJournal V F) (m : String)
        → s.write_failed ≡ false
        → encode (record_of event s) ≡ err m
        → append debug log encode event s ≡ (err (json m), s)
    unfolding append
    append-unencoded event s m h e = ground (arith, h, e)

    append-IsStopped :
        (event : TaskEvent V) (s t : TaskJournal V F) (e : TaskError)
        → append debug log encode event s ≡ (err e, t)
        → IsStopped s t
    unfolding append
    append-IsStopped event s t e h = elim (Bool-cases s.write_failed) [
      | inl latched ↦ unchanged s t (ap (λ x. x.1) (sym (append-latched event s latched) ∙ h))
      | inr clear ↦ elim (Result-cases (encode (record_of event s))) [
        | inl (m, p) ↦ unchanged s t (ap (λ x. x.1) (sym (append-unencoded event s m clear p) ∙ h))
        | inr (line, p) ↦ elim (Outcome-cases (write_synced log (line ++ b'\n' ∷ []) s.file)) [
          | inl (d, f, w) ↦ absurd (ground (arith, rw (append, clear, p, w) at h))
          | inr (m, f, w) ↦
              let made : record s { file = f; write_failed = true } ≡ t =
                ap (λ x. x.1) (rw (append, clear, p, w) at h) in
              (
                ap (λ x. x.state) (sym made),
                ap (λ x. x.sequence) (sym made),
                inr (ap (λ x. x.write_failed) (sym made)),
              )
        ]
      ]
    ]

    -- A transition that returns an error leaves the state and the next sequence number as they were,
    -- and either has changed nothing, or has marked a write as failed.
    pub transition-err :
        (event : TaskEvent V) (s t : TaskJournal V F) (e : TaskError)
        → transition debug log encode event s ≡ (err e, t)
        → IsStopped s t
    unfolding transition
    transition-err event s t e h = elim (Result-cases (apply debug s.state event)) [
      | inl (m, p) ↦ unchanged s t (ap (λ x. x.1) (rw (transition, p) at h))
      | inr (next, p) ↦ elim (Outcome-cases (append debug log encode event s)) [
        | inl (d, u, q) ↦ absurd (ground (arith, rw (transition, p, q) at h))
        | inr (m, u, q) ↦
            let same : u ≡ t = ap (λ x. x.1) (rw (transition, p, q) at h) in
            rw (← same) (append-IsStopped event s u m q)
      ]
    ]

    -- After a write that failed, every transition is refused with an error and changes nothing.
    pub transition-latched :
        (event : TaskEvent V) (s : TaskJournal V F)
        → s.write_failed ≡ true
        → (e : TaskError) × (transition debug log encode event s ≡ (err e, s))
    unfolding transition append
    transition-latched event s h = elim (Result-cases (apply debug s.state event)) [
      | inl (e, p) ↦ (e, ground (arith, p))
      | inr (next, p) ↦ (invalid "previous write failed; reopen journal", ground (arith, p, h))
    ]

    pub transition-ok :
        (event : TaskEvent V) (s t : TaskJournal V F) (d : Done)
        → transition debug log encode event s ≡ (ok d, t)
        → (next : TaskState V) × (u : TaskJournal V F) × (apply debug s.state event ≡ ok next)
          × (append debug log encode event s ≡ (ok tt, u))
          × (record u { state = next } ≡ t)
    unfolding transition
    transition-ok event s t d h = elim (Result-cases (apply debug s.state event)) [
      | inl (e, p) ↦ absurd (ground (arith, rw (transition, p) at h))
      | inr (next, p) ↦ elim (Outcome-cases (append debug log encode event s)) [
        | inl (a, u, q) ↦ (next, u, p, q, ap (λ x. x.1) (rw (transition, p, q) at h))
        | inr (e, u, q) ↦ absurd (ground (arith, rw (transition, p, q) at h))
      ]
    ]
