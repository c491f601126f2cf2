-- ===== src/Memory/Journal.antt =====
-- crates/memory/src/lib.rs: `JsonlMemoryStore`. The file is a `LogFile`, the clock a method of the
-- host `H`, which is read under the lock, and `encode`, `from_utf8` and `decode` are the codecs.
use nausicaa.Prelude.{
  ℕ, suc, ◌+◌, ◌%◌, ◌^◌, String, Bool, true, false, List, [], ◌∷◌, Result, ok, err, Done,
  if◌then◌else◌, string_ord, max, is_blank,
}
use nausicaa.Prelude.Results.{◌>>=◌}
use nausicaa.Prelude.Exec.{Exec, continue}
use nausicaa.Prelude.BTreeMap.{BTreeMap, insert, remove, contains_key, values}
use nausicaa.Prelude.LogFile.{LogFile, Bytes, write_line}
use nausicaa.Prelude.Lines.{split_inclusive, strip_line}
use nausicaa.Memory.{
  MemoryRecord, MemoryEvent, MemoryEnvelope, MemoryError, MemoryStore, upserted, forgotten, io,
  serialization, corrupt, poisoned,
}

abbrev pub Records : Type 0
Records = BTreeMap String MemoryRecord

pub record JsonlStore (H F : Type 0) : Type 0 where
  pub is_poisoned : Bool
  pub file : F
  pub next_sequence : ℕ  -- u64
  pub records : Records
  pub host : H

unfoldable pub apply_event : Records → MemoryEvent → Records
apply_event records (upserted r) = insert r.id r records
apply_event records (forgotten id) = remove id records

module _ {H F : Type 0} (now_ms : H → ℕ × H) (log : LogFile F)
    (encode : MemoryEnvelope → Result Bytes String) where
  abbrev pub applied :
      MemoryEvent → Result Done String → JsonlStore H F → Result Done MemoryError × JsonlStore H F
  applied event (err message) s = (err (io message), s)
  applied event (ok _) s = (
    ok tt,
    record s {
      next_sequence = (s.next_sequence + 1) % 2 ^ 64;
      records = apply_event s.records event;
    },
  )

  abbrev pub write_envelope :
      MemoryEvent → Result Bytes String → JsonlStore H F → Result Done MemoryError × JsonlStore H F
  write_envelope event (err message) s = (err (serialization message), s)
  write_envelope event (ok bytes) s =
      let (result, f) = write_line log bytes s.file in applied event result (record s { file = f })

  unfoldable pub append : MemoryEvent → Exec (JsonlStore H F) MemoryError Done
  unfolding apply_event
  append event s =
      let (now, h) = now_ms s.host in
      let envelope : MemoryEnvelope = record {
        sequence = s.next_sequence;
        at_unix_ms = now;
        event = event;
      } in
      if s.is_poisoned
      then (err poisoned, s)
      else write_envelope event (encode envelope) (record s { host = h })

  unfoldable pub upsert : MemoryRecord → Exec (JsonlStore H F) MemoryError Done
  unfolding append
  upsert r s =
      let (now, h) = now_ms s.host in
      append (upserted (record r { updated_at_unix_ms = now })) (record s { host = h })

  unfoldable pub forget : String → Exec (JsonlStore H F) MemoryError Bool
  unfolding append
  forget id s =
      let forgotten_ = continue (append (forgotten id) s) (λ _ t. (ok true, t)) in
      if s.is_poisoned
      then (err poisoned, s)
      else if contains_key id s.records
      then forgotten_
      else (ok false, s)

  unfoldable pub list : Exec (JsonlStore H F) MemoryError (List MemoryRecord)
  list s = if s.is_poisoned then (err poisoned, s) else (ok (values s.records), s)

  abbrev pub jsonl_store : MemoryStore (JsonlStore H F)
  jsonl_store = record { upsert = upsert; forget = forget; list = list }

abbrev pub replay_envelope : Records × ℕ → MemoryEnvelope → Records × ℕ
replay_envelope (records, next_sequence) envelope =
    (apply_event records envelope.event, max next_sequence ((envelope.sequence + 1) % 2 ^ 64))

module _ (from_utf8 : Bytes → Result String String)
    (decode : String → Result MemoryEnvelope String) where
  abbrev pub text_of : Result String String → Result String MemoryError
  text_of (ok text) = ok text
  text_of (err message) = err (io message)

  abbrev pub envelope_of : ℕ → Result MemoryEnvelope String → Result MemoryEnvelope MemoryError
  envelope_of line (ok envelope) = ok envelope
  envelope_of line (err message) = err (corrupt line message)

  -- the loop of `open`, from a line's index on
  unfoldable pub replay_lines : ℕ → List Bytes → Records × ℕ → Result (Records × ℕ) MemoryError
  replay_lines index [] state = ok state
  replay_lines index (line ∷ lines) state = text_of (from_utf8 (strip_line line)) >>= λ text.
      (let skip = replay_lines (suc index) lines state in
        let go = envelope_of (suc index) (decode text) >>= λ envelope.
        replay_lines (suc index) lines (replay_envelope state envelope) in
        if is_blank text then skip else go)

  abbrev pub with_file : {F : Type 0} → Result F String → Result F MemoryError
  with_file (ok file) = ok file
  with_file (err message) = err (io message)

  -- `open`: `bytes` is what reading the file gives, `file` is it opened again to append
  unfoldable pub open_store :
      {H F : Type 0}
      → Result Bytes String
      → Result F String
      → H
      → Result (JsonlStore H F) MemoryError
  unfolding replay_lines
  open_store (err message) file host = err (io message)
  open_store (ok bytes) file host =
      replay_lines 0 (split_inclusive bytes) ([], 0) >>= λ (records, next_sequence).
      with_file file >>= λ f. ok (record {
        is_poisoned = false;
        file = f;
        next_sequence = next_sequence;
        records = records;
        host = host;
      })
