-- ===== src/Memory/InMemory.antt =====
-- crates/memory/src/lib.rs: `InMemoryStore`, its mutex and the records behind it.
use nausicaa.Prelude.{
  String, Bool, true, false, Option, none, some, List, ok, err, Done, if◌then◌else◌, string_ord,
}
use nausicaa.Prelude.Exec.{Exec}
use nausicaa.Prelude.BTreeMap.{BTreeMap, get, insert, remove, values}
use nausicaa.Memory.{MemoryRecord, MemoryError, MemoryStore, poisoned}

pub record InMemoryStore : Type 0 where
  pub is_poisoned : Bool
  pub records : BTreeMap String MemoryRecord

-- `lock`, with the error of a mutex that a panic left poisoned
abbrev pub locked :
    {A : Type 0} → Exec InMemoryStore MemoryError A → Exec InMemoryStore MemoryError A
locked body s = let result = body s in if s.is_poisoned then (err poisoned, s) else result

abbrev pub is_some : {A : Type 0} → Option A → Bool
is_some none = false
is_some (some a) = true

unfoldable pub upsert : MemoryRecord → Exec InMemoryStore MemoryError Done
upsert r = locked (λ s. (ok tt, record s { records = insert r.id r s.records }))

unfoldable pub forget : String → Exec InMemoryStore MemoryError Bool
forget id =
    locked (λ s. (ok (is_some (get id s.records)), record s { records = remove id s.records }))

unfoldable pub list : Exec InMemoryStore MemoryError (List MemoryRecord)
list = locked (λ s. (ok (values s.records), s))

abbrev pub in_memory_store : MemoryStore InMemoryStore
in_memory_store = record { upsert = upsert; forget = forget; list = list }
