-- ===== src/Memory/Stores.antt =====
-- crates/memory/src/lib.rs: both stores refine the map; the durable one restores it from its file.
use nausicaa.Prelude.{
  ℕ, suc, ◌+◌, ◌^◌, ◌<◌, ◌≡◌, sym, ap, ◌∙◌, String, refl, Bool, true, false, List, Result, ok, Done,
  arith, length, string_ord, Bool-cases, inl, inr, ◌⊎◌,
}
use nausicaa.Prelude.Exec.{pure, continue, continue_ok}
use nausicaa.Prelude.BTreeMap.{insert, remove, contains_key}
use nausicaa.Prelude.LogFile.{LogFile, Bytes, Appends}
use nausicaa.Memory.{MemoryRecord, MemoryEvent, MemoryEnvelope, upserted, forgotten}
use nausicaa.Memory.Refined.{
  Contents, Represents, Command, upsert_record, forget_id, stamped, clocked, plain, all_of, Refines,
  perform, run, run-all_of, Represents-insert, Represents-remove, contains_key-none,
  contains_key-some,
}
use nausicaa.Memory.InMemory.{InMemoryStore, in_memory_store, upsert, forget}
use nausicaa.Memory.Journal.{
  JsonlStore, jsonl_store, append, upsert as jsonl_upsert, forget as jsonl_forget, apply_event,
  open_store,
}
use nausicaa.Memory.Reopened.{Codec, IsSaved, append-Appended, append-IsSaved, open_store-IsSaved}

in_memory-step :
    (command : Command) (contents : Contents) (s t : InMemoryStore) (d : Done)
    → perform in_memory_store command s ≡ (ok d, t)
    → Represents s.records contents
    → Represents t.records (plain command (contents, tt)).0
unfolding upsert forget
in_memory-step (upsert_record r) contents s t d h p =
    let made : insert r.id r s.records ≡ t.records = ground (arith, h) in
    rw (← made) (Represents-insert s.records contents r p)
in_memory-step (forget_id id) contents s t d h p =
    let made : remove id s.records ≡ t.records = ground (arith, h) in
    rw (← made) (Represents-remove s.records contents id p)

plain-host : (command : Command) (contents : Contents) → tt ≡ (plain command (contents, tt)).1
plain-host (upsert_record r) contents = refl
plain-host (forget_id id) contents = refl

in_memory-Refines : Refines in_memory_store plain (λ s. s.records) (λ s. tt) (λ n s. Unit)
in_memory-Refines = record {
  step = λ n command contents s t d h fits r.
      (in_memory-step command contents s t d h r, plain-host command contents, tt);
}

module _ {H F : Type 0} (now_ms : H → ℕ × H) (log : LogFile F)
    (encode : MemoryEnvelope → Result Bytes String) (content : F → Bytes)
    (appends : Appends log content) where
  -- the file is the journal of the records, with sequence numbers for `n` events more
  abbrev pub Fits : ℕ → JsonlStore H F → Type 0
  Fits n s = (s.next_sequence + n < 2 ^ 64) × IsSaved now_ms log encode content appends s

  append-host :
      (event : MemoryEvent) (s t : JsonlStore H F) {d : Done}
      → append now_ms log encode event s ≡ (ok d, t)
      → t.host ≡ (now_ms s.host).1
  unfolding append
  append-host event s t h = ground arith

  append-step :
      (n : ℕ) (event : MemoryEvent) (s t : JsonlStore H F) (d : Done)
      → append now_ms log encode event s ≡ (ok d, t)
      → Fits (suc n) s
      → Fits n t × (t.records ≡ apply_event s.records event) × (t.host ≡ (now_ms s.host).1)
  append-step n event s t d h (bound, saved) =
      let a = append-Appended now_ms log encode content appends event s t d h in
      (
        (
          ground (arith, a.next, bound),
          append-IsSaved now_ms log encode content appends event s t d h (omega (arith, bound))
              saved,
        ),
        a.applied,
        append-host event s t h,
      )

  forget-present :
      (id : String) (s : JsonlStore H F)
      → s.is_poisoned ≡ false
      → contains_key id s.records ≡ true
      → jsonl_forget now_ms log encode id s
        ≡ continue (append now_ms log encode (forgotten id) s) (λ _ t. (ok true, t))
  unfolding jsonl_forget
  forget-present id s p h = ground (arith, p, h)

  forget-absent :
      (id : String) (s : JsonlStore H F)
      → s.is_poisoned ≡ false
      → contains_key id s.records ≡ false
      → jsonl_forget now_ms log encode id s ≡ (ok false, s)
  unfolding jsonl_forget
  forget-absent id s p h = ground (arith, p, h)

  -- a `forget` that succeeds has appended, or the record was not there
  forget-ok :
      (id : String) (s t : JsonlStore H F) (b : Bool)
      → jsonl_forget now_ms log encode id s ≡ (ok b, t)
      → ((contains_key id s.records ≡ true)
          × (d : Done) × (append now_ms log encode (forgotten id) s ≡ (ok d, t)))
        ⊎ ((contains_key id s.records ≡ false) × (s ≡ t))
  unfolding jsonl_forget
  forget-ok id s t b h = elim (Bool-cases s.is_poisoned) [
    | inl p ↦ absurd (ground (arith, rw (jsonl_forget, p) at h))
    | inr p ↦ elim (Bool-cases (contains_key id s.records)) [
      | inr absent ↦ inr (absent, ap (λ x. x.1) (sym (forget-absent id s p absent) ∙ h))
      | inl present ↦
          let (d, u, e, end) =
            continue_ok (append now_ms log encode (forgotten id) s) (λ _ u. (ok true, u))
              (sym (forget-present id s p present) ∙ h) in
          let state : u ≡ t = ap (λ x. x.1) end in inl (present, d, rw (← state) e)
    ]
  ]

  jsonl-step :
      (n : ℕ) (command : Command) (contents : Contents) (s t : JsonlStore H F) (d : Done)
      → perform (jsonl_store now_ms log encode) command s ≡ (ok d, t)
      → Fits (suc n) s
      → Represents s.records contents
      → Represents t.records (clocked now_ms command (contents, s.host)).0
        × (t.host ≡ (clocked now_ms command (contents, s.host)).1)
        × Fits n t
  unfolding jsonl_upsert jsonl_forget apply_event
  jsonl-step n (upsert_record r) contents s t d h fits p =
      let new : MemoryRecord = stamped now_ms r s.host in
      let (fits', made, host) =
        append-step n (upserted new) (record s { host = (now_ms s.host).1 }) t d h fits in
      (rw made (Represents-insert s.records contents new p), host, fits')
  jsonl-step n (forget_id id) contents s t d h fits p =
      let (b, u, q, end) = continue_ok (jsonl_forget now_ms log encode id s) (λ _. pure tt) h in
      let state : u ≡ t = ap (λ x. x.1) end in
      elim (forget-ok id s u b q) [
        | inl (present, d', e) ↦
            let (fits', made, host) = append-step n (forgotten id) s u d' e fits in
            let (r, found) = contains_key-some id s.records present in
            rw (← state, sym (p id) ∙ found)
              (rw made (Represents-remove s.records contents id p), host, fits')
        | inr (absent, e) ↦
            let (bound, saved) = fits in
            rw (← state, ← e, sym (p id) ∙ contains_key-none id s.records absent)
              (p, refl, (omega (arith, bound), saved))
      ]

  jsonl-Refines :
      Refines (jsonl_store now_ms log encode) (clocked now_ms) (λ s. s.records) (λ s. s.host) Fits
  jsonl-Refines = record { step = jsonl-step }

  -- A durable store carries out any commands as the map of its records does. An upsert stores the
  -- record with the time that the clock gives then, a forget removes the record or, where there is
  -- none, does nothing, and the clock is read as often as that: once for each record stored and once
  -- for each event written. The file that the store leaves reopens to a store with the same records
  -- and the same next sequence number. This holds where every command succeeds, the file was the
  -- journal of the records before, an envelope is encoded on one line and decoded back, the file
  -- appends what it is given, and the sequence numbers stay below the largest `u64`.
  pub jsonl-run-clocked :
      (from_utf8 : Bytes → Result String String) (decode : String → Result MemoryEnvelope String)
      (codec : Codec encode from_utf8 decode) (commands : List Command) (contents : Contents)
      (s t : JsonlStore H F) (d : Done) (host : H)
      → run (jsonl_store now_ms log encode) commands s ≡ (ok d, t)
      → Fits (length commands) s
      → Represents s.records contents
      → Represents t.records (all_of (clocked now_ms) commands (contents, s.host)).0
        × (t.host ≡ (all_of (clocked now_ms) commands (contents, s.host)).1)
        × (open_store from_utf8 decode (ok (content t.file)) (ok t.file) host
            ≡ ok (record {
              is_poisoned = false;
              file = t.file;
              next_sequence = t.next_sequence;
              records = t.records;
              host = host;
            }))
  jsonl-run-clocked from_utf8 decode codec commands contents s t d host h fits r =
      let (r', clock, (bound, saved)) =
        run-all_of (jsonl_store now_ms log encode) (clocked now_ms) (λ s. s.records) (λ s. s.host)
          Fits jsonl-Refines commands contents s.host s t d h fits r refl in
      (
        r',
        clock,
        open_store-IsSaved encode from_utf8 decode codec now_ms log content appends t host saved,
      )

-- the store in memory carries out any commands as the map of its records does
in_memory-run-plain :
    (commands : List Command) (contents : Contents) (s t : InMemoryStore) (d : Done)
    → run in_memory_store commands s ≡ (ok d, t)
    → Represents s.records contents
    → Represents t.records (all_of plain commands (contents, tt)).0
in_memory-run-plain commands contents s t d h r =
    let (r', _, _) =
      run-all_of in_memory_store plain (λ s. s.records) (λ s. tt) (λ n s. Unit) in_memory-Refines
        commands contents tt s t d h tt r refl in
    r'
