-- ===== src/Memory/Reopened.antt =====
-- crates/memory/src/lib.rs: the stores implement one map from identifiers to records, and reopening
-- the file of the durable one restores it.
use nausicaa.Prelude.{
  ℕ, suc, ◌+◌, ◌%◌, ◌^◌, ◌<◌, ◌≡◌, refl, sym, ap, ◌∙◌, String, true, false, List, [], ◌∷◌, ◌++◌,
  Result, ok, Done, arith, all, inl, inr, string_ord, Bool-cases, is_blank, max,
}
use nausicaa.Prelude.Results.{Result-cases}
use nausicaa.Prelude.Exec.{Outcome-cases}
use nausicaa.Prelude.LogFile.{LogFile, Bytes, Appends, write_line, write_line-content}
use nausicaa.Prelude.Lines.{
  Encodes, Encodes-append, is_inline, split_inclusive, split_inclusive-line, strip_line,
}
use nausicaa.Memory.{MemoryEvent, MemoryEnvelope}
use nausicaa.Memory.Journal.{
  Records, JsonlStore, apply_event, append, replay_lines, replay_envelope, open_store,
}

-- `serde_json` writes an envelope on one line, and reads the line back; the line is UTF-8 and not
-- blank
pub record Codec (encode : MemoryEnvelope → Result Bytes String)
    (from_utf8 : Bytes → Result String String) (decode : String → Result MemoryEnvelope String)
    : Type 0 where
  pub single_line :
      (e : MemoryEnvelope) (line : Bytes) → encode e ≡ ok line → all is_inline line ≡ true
  pub text : MemoryEnvelope → String
  pub is_text :
      (e : MemoryEnvelope) (line : Bytes)
      → encode e ≡ ok line
      → from_utf8 (strip_line (line ++ b'\n' ∷ [])) ≡ ok (text e)
  pub is_full : (e : MemoryEnvelope) → is_blank (text e) ≡ false
  pub round_trip : (e : MemoryEnvelope) (line : Bytes) → encode e ≡ ok line → decode (text e) ≡ ok e

-- the envelopes, one after the other
abbrev replay : List MemoryEnvelope → Records × ℕ → Records × ℕ
replay [] state = state
replay (e ∷ envelopes) state = replay envelopes (replay_envelope state e)

replay-append :
    (envelopes : List MemoryEnvelope) (e : MemoryEnvelope) (state : Records × ℕ)
    → replay (envelopes ++ e ∷ []) state ≡ replay_envelope (replay envelopes state) e
replay-append [] e state = refl
replay-append (x ∷ envelopes) e state = replay-append envelopes e (replay_envelope state x)

module _ {H F : Type 0} (now_ms : H → ℕ × H) (log : LogFile F)
    (encode : MemoryEnvelope → Result Bytes String) (content : F → Bytes)
    (appends : Appends log content) where
  -- the file is a journal that gives the records and the next sequence number
  abbrev pub IsSaved : JsonlStore H F → Type 0
  IsSaved s =
      (envelopes : List MemoryEnvelope) × Encodes encode envelopes (content s.file)
      × (replay envelopes ([], 0) ≡ (s.records, s.next_sequence))

  -- the store after the event is written and applied
  pub record Appended (event : MemoryEvent) (s t : JsonlStore H F) : Type 0 where
    pub envelope : MemoryEnvelope
    pub line : Bytes
    pub encoded : encode envelope ≡ ok line
    pub of_event : envelope.event ≡ event
    pub numbered : envelope.sequence ≡ s.next_sequence
    pub grown : content t.file ≡ content s.file ++ (line ++ b'\n' ∷ [])
    pub next : t.next_sequence ≡ (s.next_sequence + 1) % 2 ^ 64
    pub applied : t.records ≡ apply_event s.records event

  pub append-Appended :
      (event : MemoryEvent) (s t : JsonlStore H F) (d : Done)
      → append now_ms log encode event s ≡ (ok d, t)
      → Appended event s t
  unfolding append
  append-Appended event s t d h =
      let envelope : MemoryEnvelope = record {
        sequence = s.next_sequence;
        at_unix_ms = (now_ms s.host).0;
        event = event;
      } in
      elim (Bool-cases s.is_poisoned) [
        | inl p ↦ absurd (ground (arith, rw (append, p) at h))
        | inr p ↦ elim (Result-cases (encode envelope)) [
          | inl (m, e) ↦ absurd (ground (arith, rw (append, p, e) at h))
          | inr (line, e) ↦ elim (Outcome-cases (write_line log line s.file)) [
            | inr (m, f, w) ↦ absurd (ground (arith, rw (append, p, e, w) at h))
            | inl (d', f, w) ↦
                let made = rw (append, p, e, w) at h in
                record {
                  envelope = envelope;
                  line = line;
                  encoded = e;
                  of_event = refl;
                  numbered = refl;
                  grown =
                      ap (λ x. content (x.1).file) (sym made)
                      ∙ write_line-content log content appends line s.file f d' w;
                  next = ap (λ x. (x.1).next_sequence) (sym made);
                  applied = ap (λ x. (x.1).records) (sym made);
                }
          ]
        ]
      ]

  -- an event that is appended, below the largest sequence number
  pub append-IsSaved :
      (event : MemoryEvent) (s t : JsonlStore H F) (d : Done)
      → append now_ms log encode event s ≡ (ok d, t)
      → s.next_sequence + 1 < 2 ^ 64
      → IsSaved s
      → IsSaved t
  append-IsSaved event s t d h bound (envelopes, p, r) =
      let a = append-Appended event s t d h in
      let number : max s.next_sequence ((s.next_sequence + 1) % 2 ^ 64)
          ≡ (s.next_sequence + 1) % 2 ^ 64 =
        ground (arith, bound) in
      let last : replay_envelope (s.records, s.next_sequence) a.envelope
          ≡ (t.records, t.next_sequence) =
        rw (a.of_event, a.numbered, a.next, a.applied)
          (ap (λ n. (apply_event s.records event, n)) number) in
      (
        envelopes ++ a.envelope ∷ [],
        rw a.grown (Encodes-append encode envelopes (content s.file) a.line a.envelope p a.encoded),
        replay-append envelopes a.envelope ([], 0)
            ∙ (ap (λ state. replay_envelope state a.envelope) r ∙ last),
      )

module _ (encode : MemoryEnvelope → Result Bytes String) (from_utf8 : Bytes → Result String String)
    (decode : String → Result MemoryEnvelope String) (codec : Codec encode from_utf8 decode) where
  replay_lines-Encodes :
      (index : ℕ) (envelopes : List MemoryEnvelope) (bytes : Bytes) (state : Records × ℕ)
      → Encodes encode envelopes bytes
      → replay_lines from_utf8 decode index (split_inclusive bytes) state
        ≡ ok (replay envelopes state)
  unfolding replay_lines split_inclusive
  replay_lines-Encodes index [] bytes state e = rw e refl
  replay_lines-Encodes index (x ∷ envelopes) bytes state (line, rest, p, q, e) =
      rw
        (
          q,
          split_inclusive-line line rest (codec.single_line x line p),
          replay_lines,
          codec.is_text x line p,
          codec.is_full x,
          codec.round_trip x line p,
        )
        (replay_lines-Encodes (suc index) envelopes rest (replay_envelope state x) e)

  -- Reopening the file of a store whose file is a journal of its records restores the records and
  -- the next sequence number, under the codec.
  pub open_store-IsSaved :
      {H F : Type 0} (now_ms : H → ℕ × H) (log : LogFile F) (content : F → Bytes)
      (appends : Appends log content) (s : JsonlStore H F) (host : H)
      → IsSaved now_ms log encode content appends s
      → open_store from_utf8 decode (ok (content s.file)) (ok s.file) host
        ≡ ok (record {
          is_poisoned = false;
          file = s.file;
          next_sequence = s.next_sequence;
          records = s.records;
          host = host;
        })
  unfolding open_store
  open_store-IsSaved now_ms log content appends s host (envelopes, p, r) =
      let read : replay_lines from_utf8 decode 0 (split_inclusive (content s.file)) ([], 0)
          ≡ ok (s.records, s.next_sequence) =
        replay_lines-Encodes 0 envelopes (content s.file) ([], 0) p ∙ ap (λ x. ok x) r in
      rw read refl
