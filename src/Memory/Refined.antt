-- ===== src/Memory/Refined.antt =====
-- crates/memory/src/lib.rs: the stores implement one map from identifiers to records.
use nausicaa.Prelude.{
  ℕ, suc, ◌≡◌, refl, ap, String, true, false, Option, none, some, List, [], ◌∷◌, ok, Done, arith,
  length, string_ord, Bool-cases, inl, inr, if◌then◌else◌, ◌==◌,
}
use nausicaa.Prelude.Exec.{Exec, ◌>>◌, pure, continue_ok}
use nausicaa.Prelude.BTreeMap.{get, insert, remove, get-insert, get-remove, contains_key}
use nausicaa.Memory.{MemoryRecord, MemoryError, MemoryStore}
use nausicaa.Memory.Journal.{Records}

-- what a store is for: a record for some identifiers
abbrev pub Contents : Type 0
Contents = String → Option MemoryRecord

abbrev pub with_record : MemoryRecord → Contents → Contents
with_record r contents id = if r.id == id then some r else contents id

abbrev pub without : String → Contents → Contents
without gone contents id = if gone == id then none else contents id

-- the map is that of the records
abbrev pub Represents : Records → Contents → Type 0
Represents records contents = (id : String) → get id records ≡ contents id

-- the calls of a client that change a store
pub data Command : Type 0 where
  upsert_record : MemoryRecord → Command
  forget_id : String → Command

-- What a command does to the map, for a store whose clock is `now_ms` over a host: a record is stored
-- with the time of the clock, and each event that is written reads the clock once more. Forgetting a
-- record that is not there writes none.
module _ {H : Type 0} (now_ms : H → ℕ × H) where
  abbrev pub stamped : MemoryRecord → H → MemoryRecord
  stamped r host = record r { updated_at_unix_ms = (now_ms host).0 }

  abbrev pub forget_found : Option MemoryRecord → String → Contents × H → Contents × H
  forget_found none id (contents, host) = (contents, host)
  forget_found (some r) id (contents, host) = (without id contents, (now_ms host).1)

  abbrev pub clocked : Command → Contents × H → Contents × H
  clocked (upsert_record r) (contents, host) =
      (with_record (stamped r host) contents, (now_ms (now_ms host).1).1)
  clocked (forget_id id) (contents, host) = forget_found (contents id) id (contents, host)

-- what a command does to the map, for a store that takes a record as it is
abbrev pub plain : Command → Contents × Done → Contents × Done
plain (upsert_record r) (contents, d) = (with_record r contents, d)
plain (forget_id id) (contents, d) = (without id contents, d)

-- the commands in turn
abbrev pub all_of :
    {H : Type 0}
    → (Command → Contents × H → Contents × H)
    → List Command
    → Contents × H
    → Contents × H
all_of effect [] state = state
all_of effect (command ∷ commands) state = all_of effect commands (effect command state)

module _ {S : Type 0} (methods : MemoryStore S) where
  abbrev pub perform : Command → Exec S MemoryError Done
  perform (upsert_record r) = methods.upsert r
  perform (forget_id id) = methods.forget id >> pure tt

  abbrev pub run : List Command → Exec S MemoryError Done
  run [] = pure tt
  run (command ∷ commands) = perform command >> run commands

pub Represents-insert :
    (records : Records) (contents : Contents) (r : MemoryRecord)
    → Represents records contents
    → Represents (insert r.id r records) (with_record r contents)
Represents-insert records contents r h id = ground (arith, get-insert r.id id r records, h id)

pub Represents-remove :
    (records : Records) (contents : Contents) (gone : String)
    → Represents records contents
    → Represents (remove gone records) (without gone contents)
Represents-remove records contents gone h id = ground (arith, get-remove gone id records, h id)

-- A store refines the map where every command that succeeds has its effect. `Fits n s` is what the
-- store keeps, with room for `n` commands, and `host_of` the host that its clock reads.
pub record Refines {S H : Type 0} (methods : MemoryStore S)
    (effect : Command → Contents × H → Contents × H) (records_of : S → Records) (host_of : S → H)
    (Fits : ℕ → S → Type 0) : Type 0 where
  pub step :
      (n : ℕ) (command : Command) (contents : Contents) (s t : S) (d : Done)
      → perform methods command s ≡ (ok d, t)
      → Fits (suc n) s
      → Represents (records_of s) contents
      → Represents (records_of t) (effect command (contents, host_of s)).0
        × (host_of t ≡ (effect command (contents, host_of s)).1)
        × Fits n t

pub run-all_of :
    {S H : Type 0} (methods : MemoryStore S) (effect : Command → Contents × H → Contents × H)
    (records_of : S → Records) (host_of : S → H) (Fits : ℕ → S → Type 0)
    (refines : Refines methods effect records_of host_of Fits) (commands : List Command)
    (contents : Contents) (host : H) (s t : S) (d : Done)
    → run methods commands s ≡ (ok d, t)
    → Fits (length commands) s
    → Represents (records_of s) contents
    → host_of s ≡ host
    → Represents (records_of t) (all_of effect commands (contents, host)).0
      × (host_of t ≡ (all_of effect commands (contents, host)).1)
      × Fits 0 t
run-all_of methods effect records_of host_of Fits refines [] contents host s t d h fits r same =
    let state : s ≡ t = ap (λ x. x.1) h in rw (← state) (r, same, fits)
run-all_of methods effect records_of host_of Fits refines (command ∷ commands) contents host s t d h
      fits r same =
    let (d', u, p, q) = continue_ok (perform methods command s) (λ _. run methods commands) h in
    let (r', host', fits') = refines.step (length commands) command contents s u d' p fits r in
    let between = effect command (contents, host) in
    run-all_of methods effect records_of host_of Fits refines commands between.0 between.1 u t d q
      fits' (rw same at r') (rw same at host')

pub contains_key-none :
    (id : String) (records : Records) → contains_key id records ≡ false → get id records ≡ none
unfolding contains_key get
contains_key-none id [] h = refl
contains_key-none id ((j, r) ∷ records) h = ground (arith, h, contains_key-none id records)

pub contains_key-some :
    (id : String) (records : Records)
    → contains_key id records ≡ true
    → (r : MemoryRecord) × (get id records ≡ some r)
unfolding contains_key get
contains_key-some id [] h = absurd (ground (arith, h))
contains_key-some id ((j, r) ∷ records) h = elim (Bool-cases (j == id)) [
  | inl e ↦ rw e (r, refl)
  | inr e ↦ rw e (contains_key-some id records (rw e at h))
]
