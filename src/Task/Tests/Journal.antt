-- ===== src/Task/Tests/Journal.antt =====
-- A task's journal in a file that is its bytes, with a codec of two records.
use nausicaa.Prelude.{
  ℕ, ◌≡◌, refl, ap, String, true, false, none, some, [], ◌∷◌, ◌++◌, Result, ok, err, arith,
  Bool-cases, inl, inr, ◌⊎◌, ◌==◌, ==_iff, string_ord, is_blank, any, all, eqb, if◌then◌else◌,
}
use native.Mathlib.Decide.{ℕ_discrete}
use nausicaa.Prelude.BTreeSet.{contains}
use nausicaa.Prelude.LogFile.{Appends, LogFile, Bytes}
use nausicaa.Task.{TaskStatus, TaskError, created, attempt_started}
use nausicaa.Task.State.{apply, initial_state, are_valid}
use nausicaa.Task.Journal.{Record, TaskJournal, create, append, transition, open_journal}
use nausicaa.Task.Replayed.{Codec}
use nausicaa.Prelude.Lines.{is_inline}
use nausicaa.Task.Appended.{transition-err}
use nausicaa.Task.Reopened.{run, create-run-open_journal}
use nausicaa.Task.Tests.{debug, spec}

String_discrete : Discrete String
String_discrete a b = elim (Bool-cases (a == b)) [
  | inl h ↦ yes ((==_iff a b).0 h)
  | inr h ↦ no (λ e. absurd (ground (arith, h, (==_iff a b).1 e)))
]

Record-discrete : Discrete (Record ℕ)
Record-discrete = hlevel (ℕ_discrete, String_discrete)

abbrev first : Record ℕ
first = record { version = 1; sequence = 0; payload = created spec }

abbrev second : Record ℕ
second = record { version = 1; sequence = 1; payload = attempt_started "turn" }

abbrev code : {r : Record ℕ} → Dec (r ≡ first) → Dec (r ≡ second) → Result Bytes String
code (yes e) d = ok (48 ∷ [])
code (no n) (yes e) = ok (49 ∷ [])
code (no n) (no m) = err "not one of the two"

unfoldable encode : Record ℕ → Result Bytes String
encode r = code (Record-discrete r first) (Record-discrete r second)

unfoldable decode : Bytes → Result (Record ℕ) String
decode (kind ∷ rest) = if eqb kind 48 then ok first else ok second
decode _ = err "syntax"

code-first : (d : Dec (first ≡ first)) (e : Dec (first ≡ second)) → code d e ≡ ok (48 ∷ [])
code-first (yes p) e = refl
code-first (no n) e = absurd (n refl)

code-second : (d : Dec (second ≡ first)) (e : Dec (second ≡ second)) → code d e ≡ ok (49 ∷ [])
code-second (yes p) e = absurd (ground (arith, ap (λ r. r.sequence) p))
code-second (no n) (yes p) = refl
code-second (no n) (no m) = absurd (m refl)

encode-first : encode first ≡ ok (48 ∷ [])
unfolding encode
encode-first = code-first (Record-discrete first first) (Record-discrete first second)

encode-second : encode second ≡ ok (49 ∷ [])
unfolding encode
encode-second = code-second (Record-discrete second first) (Record-discrete second second)

code-single_line :
    (r : Record ℕ) (line : Bytes) (d : Dec (r ≡ first)) (e : Dec (r ≡ second))
    → code d e ≡ ok line
    → all is_inline line ≡ true
unfolding all
code-single_line r line (yes p) e h = ground (arith, h)
code-single_line r line (no n) (yes p) h = ground (arith, h)
code-single_line r line (no n) (no m) h = absurd (ground (arith, h))

code-decode :
    (r : Record ℕ) (line : Bytes) (d : Dec (r ≡ first)) (e : Dec (r ≡ second))
    → code d e ≡ ok line
    → decode (line ++ b'\n' ∷ []) ≡ ok r
unfolding decode
code-decode r line (yes p) e h =
    let same : 48 ∷ [] ≡ line = ground (arith, h) in rw (← same, p) refl
code-decode r line (no n) (yes p) h =
    let same : 49 ∷ [] ≡ line = ground (arith, h) in rw (← same, p) refl
code-decode r line (no n) (no m) h = absurd (ground (arith, h))

codec : Codec encode decode
unfolding encode
codec = record {
  single_line =
      λ r line. code-single_line r line (Record-discrete r first) (Record-discrete r second);
  round_trip = λ r line. code-decode r line (Record-discrete r first) (Record-discrete r second);
}

abbrev disk : LogFile Bytes
disk = record {
  write_all = λ bytes f. (ok tt, f ++ bytes);
  flush = λ f. (ok tt, f);
  sync_data = λ f. (ok tt, f);
}

disk-Appends : Appends disk (λ f. f)
disk-Appends = record {
  appended = λ bytes f g d h. ground (arith, h);
  flushed = λ f g d h. ground (arith, h);
  kept = λ f g d h. ground (arith, h);
}

abbrev opened : TaskJournal ℕ Bytes
opened = record {
  file = 48 ∷ 10 ∷ [];
  state = record {
    spec = spec;
    status = TaskStatus.ready;
    attempts = 0;
    evidence = [];
    remaining_work = "content" ∷ [];
    active_turn = none;
  };
  sequence = 1;
  write_failed = false;
}

abbrev started : TaskJournal ℕ Bytes
started = record {
  file = 48 ∷ 10 ∷ 49 ∷ 10 ∷ [];
  state = record opened.state {
    status = TaskStatus.running;
    attempts = 1;
    active_turn = some "turn";
  };
  sequence = 2;
  write_failed = false;
}

creates : create debug disk encode (ok []) spec ≡ ok opened
unfolding create append initial_state are_valid is_blank contains
creates = rw encode-first refl

starts : transition debug disk encode (attempt_started "turn") opened ≡ (ok tt, started)
unfolding transition append apply is_blank any
starts = rw encode-second refl

-- a disk that writes a part, and fails
abbrev full_disk : LogFile Bytes
full_disk = record disk { write_all = λ bytes f. (err "no space", f ++ b'{' ∷ []) }

full_disk-Appends : Appends full_disk (λ f. f)
full_disk-Appends = record {
  appended = λ bytes f g d h. absurd (ground (arith, h));
  flushed = λ f g d h. ground (arith, h);
  kept = λ f g d h. ground (arith, h);
}

abbrev torn : TaskJournal ℕ Bytes
torn = record opened { file = opened.file ++ b'{' ∷ []; write_failed = true }

fails :
    transition debug full_disk encode (attempt_started "turn") opened
    ≡ (err (TaskError.io "no space"), torn)
unfolding transition append apply is_blank any
fails = rw encode-second refl

transition-err_example :
    (torn.state ≡ opened.state)
    × (torn.sequence ≡ opened.sequence)
    × ((torn ≡ opened) ⊎ (torn.write_failed ≡ true))
transition-err_example =
    transition-err debug full_disk encode (λ f. f) full_disk-Appends (attempt_started "turn") opened
      torn (TaskError.io "no space") fails

abbrev after : TaskJournal ℕ Bytes
after = run debug disk encode (λ f. f) disk-Appends (attempt_started "turn" ∷ []) opened

create-run-open_journal_example :
    open_journal debug decode (ok after.file) (ok after.file) ≡ ok after
create-run-open_journal_example =
    create-run-open_journal debug disk encode (λ f. f) disk-Appends decode codec spec [] opened
      (attempt_started "turn" ∷ []) refl creates (ground arith)
      (ap (λ r. (r.1).write_failed) starts)
