-- ===== src/TaskLedger/Reopened.antt =====
-- crates/task-ledger/src/lib.rs: reopening the journal rebuilds the tasks.
use nausicaa.Prelude.{
  ℕ, suc, ◌+◌, ◌^◌, ◌<◌, ◌≡◌, refl, String, false, List, [], ◌∷◌, ◌++◌, Result, ok, err, Done,
  arith, string_ord, ap, ◌∙◌, sym, is_blank, length,
}
use mathlib.Core.Path.{fun_ext}
use nausicaa.Prelude.Results.{◌>>=◌, bind_assoc, bind_pure}
use nausicaa.Prelude.LogFile.{LogFile, Bytes}
use nausicaa.Prelude.Exec.{◌>>◌, pure, continue_ok}
use nausicaa.TaskLedger.{Operation, LedgerEvent, LedgerEnvelope, Failure, Ledger, LedgerHost}
use nausicaa.TaskLedger.Journal.{
  Replayed, append_locked, replay_lines, replay_envelope, open_ledger, next_after,
}
use nausicaa.TaskLedger.Appended.{append_locked-Appended, envelope_of}

module _ {V : Type 0} where
  -- the envelopes of a journal, applied one after the other
  unfoldable pub replay : List (LedgerEnvelope V) → Replayed V → Result (Replayed V) Failure
  replay [] state = ok state
  replay (envelope ∷ rest) state = replay_envelope state envelope >>= λ after. replay rest after

  replay-append :
      (xs : List (LedgerEnvelope V)) (x : LedgerEnvelope V) (state : Replayed V)
      → replay (xs ++ x ∷ []) state ≡ (replay xs state >>= λ after. replay_envelope after x)
  unfolding replay
  replay-append [] x state = bind_pure (replay_envelope state x)
  replay-append (y ∷ xs) x state =
      ap (λ f. replay_envelope state y >>= f) (fun_ext (λ after. replay-append xs x after))
      ∙ sym (bind_assoc (replay_envelope state y) (replay xs) (λ after. replay_envelope after x))

  -- the journal gives the tasks, the next sequence number and itself
  abbrev pub IsReplayed : {H F : Type 0} → Ledger V H F → Type 0
  IsReplayed s = replay s.written ([], 0, []) ≡ ok (s.tasks, s.next_sequence, s.written)

module _ {V : Type 0} (decode : String → Result (LedgerEnvelope V) String) where
  -- the lines of a file that holds the envelopes, one on a line
  abbrev pub Encodes : List (Result String String) → List (LedgerEnvelope V) → Type 0
  Encodes [] [] = Unit
  Encodes (ok line ∷ lines) (envelope ∷ rest) =
      (is_blank line ≡ false) × (decode line ≡ ok envelope) × Encodes lines rest
  Encodes _ _ = ⊥

  replay_lines-Encodes :
      (index : ℕ) (lines : List (Result String String)) (xs : List (LedgerEnvelope V))
      (state : Replayed V)
      → Encodes lines xs
      → replay_lines decode index lines state ≡ replay xs state
  unfolding replay replay_lines
  replay_lines-Encodes index [] [] state e = refl
  replay_lines-Encodes index (ok line ∷ lines) (x ∷ xs) state (full, d, e) =
      rw (full, d)
        (ap (λ f. replay_envelope state x >>= f)
          (fun_ext (λ after. replay_lines-Encodes (suc index) lines xs after e)))
  replay_lines-Encodes index [] (x ∷ xs) state e = absurd e
  replay_lines-Encodes index (ok line ∷ lines) [] state e = absurd e
  replay_lines-Encodes index (err m ∷ lines) xs state e = absurd e

  -- the lines of a journal that gives the ledger open to it
  open_ledger-IsReplayed :
      {H F G K : Type 0} (s : Ledger V H F) (lines : List (Result String String)) (file : G)
      (host : K)
      → IsReplayed s
      → Encodes lines s.written
      → (t : Ledger V K G) × (open_ledger decode lines file host ≡ ok t)
        × (t.tasks ≡ s.tasks)
        × (t.next_sequence ≡ s.next_sequence)
        × (t.written ≡ s.written)
  unfolding open_ledger
  open_ledger-IsReplayed s lines file host r e =
      let read : replay_lines decode 0 lines ([], 0, [])
          ≡ ok (s.tasks, s.next_sequence, s.written) =
        replay_lines-Encodes 0 lines s.written ([], 0, []) e ∙ r in
      rw read (_, refl, refl, refl, refl)

module _ {V H F : Type 0} (host : LedgerHost H) (log : LogFile F)
    (encode : LedgerEnvelope V → Result Bytes String) where
  -- An event that is appended keeps a ledger's journal the one that gives its tasks and its next
  -- sequence number, below the largest sequence number.
  pub append_locked-IsReplayed :
      (event : LedgerEvent V) (s t : Ledger V H F) (d : Done)
      → append_locked host log encode event s ≡ (ok d, t)
      → s.next_sequence + 1 < 2 ^ 64
      → IsReplayed s
      → IsReplayed t
  append_locked-IsReplayed event s t d h bound r =
      let a = append_locked-Appended host log encode event s t h in
      let start : Replayed V = (s.tasks, s.next_sequence, s.written) in
      let next : next_after s.next_sequence s.next_sequence ≡ t.next_sequence =
        ground (arith, a.next) in
      let last : replay_envelope start (envelope_of host log encode event s)
          ≡ ok (t.tasks, t.next_sequence, t.written) =
        rw (a.applied, next, a.written) refl in
      ap (λ w. replay w ([], 0, [])) a.written
      ∙ (replay-append s.written (envelope_of host log encode event s) ([], 0, [])
          ∙ (ap (λ m. m >>= λ after. replay_envelope after (envelope_of host log encode event s)) r
              ∙ last))

  -- events appended in turn
  abbrev pub appends : List (LedgerEvent V) → Operation V H F Done
  appends [] = pure tt
  appends (event ∷ events) = append_locked host log encode event >> appends events

  appends-IsReplayed :
      (events : List (LedgerEvent V)) (s t : Ledger V H F) (d : Done)
      → appends events s ≡ (ok d, t)
      → s.next_sequence + length events < 2 ^ 64
      → IsReplayed s
      → IsReplayed t
  appends-IsReplayed [] s t d h bound r = let last : s ≡ t = ap (λ x. x.1) h in rw (← last) r
  appends-IsReplayed (event ∷ events) s t d h bound r =
      let (c, u, p, q) =
        continue_ok (append_locked host log encode event s) (λ _. appends events) h in
      let a = append_locked-Appended host log encode event s u p in
      appends-IsReplayed events u t d q (ground (arith, a.next, bound))
        (append_locked-IsReplayed event s u c p (omega (arith, bound)) r)

  -- A ledger that started empty and took any events, each with success and fewer than 2 ^ 64 of them,
  -- is restored by opening a file that holds the envelopes it synced, one on a line: the opened
  -- ledger has the same tasks, the same next sequence number and the same envelopes.
  pub appends-open_ledger :
      {G K : Type 0} (decode : String → Result (LedgerEnvelope V) String)
      (events : List (LedgerEvent V)) (s t : Ledger V H F) (d : Done)
      (lines : List (Result String String)) (file : G) (host' : K)
      → s.tasks ≡ []
      → s.next_sequence ≡ 0
      → s.written ≡ []
      → length events < 2 ^ 64
      → appends events s ≡ (ok d, t)
      → Encodes decode lines t.written
      → (u : Ledger V K G) × (open_ledger decode lines file host' ≡ ok u)
        × (u.tasks ≡ t.tasks)
        × (u.next_sequence ≡ t.next_sequence)
        × (u.written ≡ t.written)
  unfolding replay
  appends-open_ledger decode events s t d lines file host' tasks next written bound h e =
      let start : IsReplayed s = rw (tasks, next, written) refl in
      open_ledger-IsReplayed decode t lines file host'
        (appends-IsReplayed events s t d h (omega (arith, next, bound)) start) e
