-- ===== src/Memory.antt =====
-- crates/memory/src/lib.rs: records, events and errors, the interface of a store, and lexical recall.
-- What Unicode says of a character is a parameter: `is_alphanumeric` and `to_lowercase`.
pub mod InMemory
pub mod Journal
pub mod Snapshots
pub mod Cache
pub mod Frozen
pub mod Reopened
pub mod Refined
pub mod Stores
pub mod Recalled
pub mod Tests
use Prim.Native.Char.{Char}
use Prim.Native.String.{◌++◌}
use Prim.Native.Nat.{Ordering}
use nausicaa.Prelude.{
  ℕ, ◌+◌, ◌*◌, String, Bool, true, false, not, ◌&&◌, ◌||◌, Option, none, some, List, [], ◌∷◌,
  Result, ok, err, Done, if◌then◌else◌, ltb, length, filter, map, is_blank, ◌==◌, string_ord, then,
  compare,
}
use nausicaa.Prelude.Exec.{Exec, ◌>>=◌, pure}
use nausicaa.Prelude.BTreeSet.{BTreeSet, contains, insert}
use nausicaa.Prelude.Strings.{trim, join, is_substring, is_empty}
use nausicaa.Prelude.Sorting.{sort_by, take}

pub record MemoryRecord : Type 0 where
  pub id : String
  pub text : String
  pub tags : BTreeSet String
  pub source : Option String
  pub created_at_unix_ms : ℕ  -- u64
  pub updated_at_unix_ms : ℕ  -- u64

-- `new`, from the clock and a fresh identifier
unfoldable pub new_record : ℕ → String → String → MemoryRecord
new_record now fresh text = record {
  id = "memory_" ++ fresh;
  text = text;
  tags = [];
  source = none;
  created_at_unix_ms = now;
  updated_at_unix_ms = now;
}

unfoldable pub with_tag : String → MemoryRecord → MemoryRecord
with_tag tag r = record r { tags = insert tag r.tags }

pub data MemoryEvent : Type 0 where
  upserted : MemoryRecord → MemoryEvent
  forgotten : String → MemoryEvent

pub record MemoryEnvelope : Type 0 where
  pub sequence : ℕ  -- u64
  pub at_unix_ms : ℕ  -- u64
  pub event : MemoryEvent

pub data MemoryError : Type 0 where
  io : String → MemoryError
  serialization : String → MemoryError
  corrupt : ℕ → String → MemoryError
  poisoned : MemoryError

-- the methods that a store has to give
pub record MemoryStore (S : Type 0) : Type 0 where
  pub upsert : MemoryRecord → Exec S MemoryError Done
  pub forget : String → Exec S MemoryError Bool
  pub list : Exec S MemoryError (List MemoryRecord)

pub record Unicode : Type 0 where
  pub is_alphanumeric : Char → Bool
  pub to_lowercase : String → String

-- the highest score first, then the latest update, then the identifier
unfoldable pub rank : ℕ × MemoryRecord → ℕ × MemoryRecord → Ordering
rank (left_score, left) (right_score, right) = (then) (compare right_score left_score) (
    (then) (compare right.updated_at_unix_ms left.updated_at_unix_ms)
      (string_ord.cmp left.id right.id))

module _ (unicode : Unicode) where
  abbrev prepend : Char → List String → List String
  prepend c [] = String.◌∷◌ c String.[] ∷ []
  prepend c (piece ∷ pieces) = String.◌∷◌ c piece ∷ pieces

  unfoldable pub split : String → List String
  split String.[] = String.[] ∷ []
  split (String.◌∷◌ c s) =
      let pieces = split s in
      if unicode.is_alphanumeric c then prepend c pieces else String.[] ∷ pieces

  abbrev lowered : List String → BTreeSet String → BTreeSet String
  lowered [] found = found
  lowered (piece ∷ pieces) found =
      lowered pieces (if is_empty piece then found else insert (unicode.to_lowercase piece) found)

  unfoldable pub tokens : String → BTreeSet String
  unfolding split
  tokens text = lowered (split text) []

  -- how many of the first are in the second
  abbrev intersection : BTreeSet String → BTreeSet String → ℕ
  intersection found others = length (filter (λ token. contains token others) found)

  unfoldable pub score : String → MemoryRecord → ℕ
  unfolding tokens
  score query r =
      let bonus =
        not (is_blank query)
        && is_substring (unicode.to_lowercase (trim query)) (unicode.to_lowercase r.text) in
      intersection (tokens query) (tokens (r.text ++ " " ++ join " " r.tags))
      + (if bonus then 1 else 0) * 4

  abbrev no_tokens : BTreeSet String → Bool
  no_tokens [] = true
  no_tokens (token ∷ rest) = false

  unfoldable pub is_recalled : String → MemoryRecord → Bool
  unfolding score tokens
  is_recalled query r = ltb 0 (score query r) || no_tokens (tokens query)

  unfoldable pub scored : String → List MemoryRecord → List (ℕ × MemoryRecord)
  unfolding is_recalled
  scored query [] = []
  scored query (r ∷ records) =
      let rest = scored query records in
      if is_recalled query r then (score query r, r) ∷ rest else rest

  unfoldable pub recall_from : String → ℕ → List MemoryRecord → List MemoryRecord
  unfolding scored rank
  recall_from query limit records =
      map (λ p. p.1) (take limit (sort_by rank (scored query records)))

  -- the method that every store shares
  unfoldable pub recall :
      {S : Type 0} → MemoryStore S → String → ℕ → Exec S MemoryError (List MemoryRecord)
  recall store query limit = do records ← store.list; pure (recall_from query limit records)
