-- ===== src/Memory/Tests.antt =====
-- Stores with one record, and a compiler over them.
use nausicaa.Prelude.{
  ℕ, suc, ◌≤◌, ◌≡◌, refl, sym, ap, String, true, false, none, List, [], ◌∷◌, ◌++◌, Result, ok, err,
  arith, length, In, inl, inr, ◌⊎◌, Bool-cases, ◌==◌, ==_iff, string_ord, pair_ord, is_blank, all,
  filter,
}
use native.Mathlib.Decide.{ℕ_discrete}
use nausicaa.Prelude.BTreeMap.{get, insert}
use nausicaa.Prelude.BTreeSet.{contains, insert as insert_token}
use nausicaa.Prelude.Strings.{is_substring, is_prefix}
use nausicaa.Prelude.Sorting.{sort_by, place}
use nausicaa.Prelude.LogFile.{LogFile, Bytes, Appends, write_line}
use nausicaa.Core.Protocol.{user}
use nausicaa.Core.Context.{ContextInput, CompiledContext, ContextError}
use nausicaa.Memory.{
  MemoryRecord, MemoryEnvelope, Unicode, upserted, recall_from, recall, scored, rank, score, tokens,
  split, is_recalled,
}
use nausicaa.Memory.InMemory.{InMemoryStore, in_memory_store, list}
use nausicaa.Memory.Journal.{
  JsonlStore, jsonl_store, append, apply_event, open_store, upsert as jsonl_upsert,
}
use nausicaa.Memory.Snapshots.{
  MemoryCompiler, new_compiler, memories_of, compile, finished, query_of, remember, evict,
}
use nausicaa.Memory.Frozen.{IsKept, run as run_compiles, compile-IsKept, compile-frozen}
use nausicaa.Memory.Reopened.{Codec}
use nausicaa.Memory.Refined.{Contents, Represents, upsert_record, clocked, all_of, run}
use nausicaa.Memory.Stores.{jsonl-run-clocked}
use nausicaa.Memory.Recalled.{AreNotAfter, recall_from-In, recall_from-best}

abbrev unicode : Unicode
unicode = record { is_alphanumeric = λ c. true; to_lowercase = λ s. s }

abbrev tea : MemoryRecord
tea = record {
  id = "a";
  text = "tea";
  tags = [];
  source = none;
  created_at_unix_ms = 1;
  updated_at_unix_ms = 1;
}

abbrev ink : MemoryRecord
ink = record tea { id = "b"; text = "ink" }

recalls : recall_from unicode "tea" 1 (ink ∷ tea ∷ []) ≡ tea ∷ []
unfolding recall_from scored is_recalled score tokens split rank sort_by place is_blank is_substring
    is_prefix contains insert_token filter
recalls = refl

tea-is_recalled : is_recalled unicode "tea" tea ≡ true
unfolding is_recalled score tokens split is_blank is_substring is_prefix contains insert_token
    filter
tea-is_recalled = refl

ink-is_recalled : is_recalled unicode "" ink ≡ true
unfolding is_recalled score tokens split is_blank is_substring is_prefix contains insert_token
    filter
ink-is_recalled = refl

recall_from-In_example :
    In tea (ink ∷ tea ∷ [])
    × (is_recalled unicode "tea" tea ≡ true)
    × (length (recall_from unicode "tea" 1 (ink ∷ tea ∷ [])) ≤ 1)
recall_from-In_example = recall_from-In unicode "tea" 1 (ink ∷ tea ∷ []) tea (rw recalls (inl refl))

recall_from-best_example :
    In ink (recall_from unicode "" 1 (tea ∷ ink ∷ []))
    ⊎ ((length (recall_from unicode "" 1 (tea ∷ ink ∷ [])) ≡ 1)
        × AreNotAfter unicode "" ink (recall_from unicode "" 1 (tea ∷ ink ∷ [])))
recall_from-best_example =
    recall_from-best unicode "" 1 (tea ∷ ink ∷ []) ink (inr (inl refl)) ink-is_recalled

-- a compiler over a store that holds one record
abbrev store : InMemoryStore
store = record { is_poisoned = false; records = ("a", tea) ∷ [] }

abbrev compiler : MemoryCompiler InMemoryStore
compiler = record {
  store = store;
  recall_limit = 8;
  maximum_snapshots = 128;
  is_poisoned = false;
  snapshots = record { order = []; entries = [] };
}

is_new : new_compiler store ≡ compiler
unfolding new_compiler
is_new = refl

abbrev inner : ContextInput ℕ → Result (CompiledContext ℕ) ContextError
inner input = ok (record { prompt = []; messages = input.transcript })

abbrev input : ContextInput ℕ
input = record { thread_id = "thread"; turn_id = "turn"; transcript = user "tea" ∷ [] }

compiler-IsKept : IsKept unicode in_memory_store inner compiler
unfolding get
compiler-IsKept = record {
  unique = tt;
  covers = λ key i e. absurd i;
  listed = λ key i. refl;
  bounded = omega arith;
}

compile-IsKept_example :
    IsKept unicode in_memory_store inner (compile unicode in_memory_store inner input compiler).1
compile-IsKept_example =
    compile-IsKept unicode in_memory_store inner input compiler refl compiler-IsKept

abbrev compiled : MemoryCompiler InMemoryStore
compiled = record compiler {
  snapshots = record {
    order = ("thread", "turn") ∷ [];
    entries = (("thread", "turn"), tea ∷ []) ∷ [];
  };
}

takes : memories_of unicode in_memory_store inner input compiler ≡ (ok (tea ∷ []), compiled)
unfolding memories_of get recall list recall_from scored is_recalled score tokens split rank sort_by
    place is_blank is_substring is_prefix contains insert_token filter query_of remember evict
    insert
takes = refl

-- another store in between, and a compile of another turn
abbrev steps : List ((InMemoryStore → InMemoryStore) × ContextInput ℕ)
steps = (λ s. record s { records = [] }, record input { turn_id = "next" }) ∷ []

compile-frozen_example :
    compile unicode in_memory_store inner input
      (run_compiles unicode in_memory_store inner steps compiled)
    ≡ finished unicode in_memory_store inner
        (tea ∷ [])
        (inner input)
        (run_compiles unicode in_memory_store inner steps compiled)
unfolding get
compile-frozen_example =
    compile-frozen unicode in_memory_store inner input input compiler compiled (tea ∷ []) steps refl
      compiler-IsKept refl takes (omega arith) refl

abbrev nothing : Contents
nothing id = none

empty-Represents : Represents [] nothing
unfolding get
empty-Represents id = refl

-- the durable store over a file that is its bytes, with a codec of one envelope
String_discrete : Discrete String
String_discrete a b = elim (Bool-cases (a == b)) [
  | inl h ↦ yes ((==_iff a b).0 h)
  | inr h ↦ no (λ e. absurd (ground (arith, h, (==_iff a b).1 e)))
]

MemoryEnvelope-discrete : Discrete MemoryEnvelope
MemoryEnvelope-discrete = hlevel (ℕ_discrete, String_discrete)

abbrev envelope : MemoryEnvelope
envelope = record {
  sequence = 0;
  at_unix_ms = 8;
  event = upserted (record tea { updated_at_unix_ms = 7 });
}

abbrev code : {e : MemoryEnvelope} → Dec (e ≡ envelope) → Result Bytes String
code (yes p) = ok (b'x' ∷ [])
code (no n) = err "not the envelope"

unfoldable encode : MemoryEnvelope → Result Bytes String
encode e = code (MemoryEnvelope-discrete e envelope)

code-envelope : (d : Dec (envelope ≡ envelope)) → code d ≡ ok (b'x' ∷ [])
code-envelope (yes p) = refl
code-envelope (no n) = absurd (n refl)

code-ok :
    (e : MemoryEnvelope) (line : Bytes) (d : Dec (e ≡ envelope))
    → code d ≡ ok line
    → (e ≡ envelope) × (line ≡ b'x' ∷ [])
code-ok e line (yes p) h = (p, ground (arith, h))
code-ok e line (no n) h = absurd (ground (arith, h))

abbrev from_utf8 : Bytes → Result String String
from_utf8 bytes = ok "x"

abbrev decode : String → Result MemoryEnvelope String
decode text = ok envelope

codec : Codec encode from_utf8 decode
unfolding encode all is_blank
codec = record {
  single_line =
      λ e line h. let (p, q) = code-ok e line (MemoryEnvelope-discrete e envelope) h in rw q refl;
  text = λ e. "x";
  is_text = λ e line h. refl;
  is_full = λ e. refl;
  round_trip = λ e line h.
      let (p, q) = code-ok e line (MemoryEnvelope-discrete e envelope) h in ap (λ x. ok x) (sym p);
}

abbrev disk : LogFile Bytes
disk = record {
  write_all = λ bytes f. (ok tt, f ++ bytes);
  flush = λ f. (ok tt, f);
  sync_data = λ f. (ok tt, f);
}

disk-Appends : Appends disk (λ f. f)
disk-Appends = record {
  appended = λ bytes f g d h. ground (arith, h);
  flushed = λ f g d h. ground (arith, h);
  kept = λ f g d h. ground (arith, h);
}

abbrev tick : ℕ → ℕ × ℕ
tick now = (now, suc now)

abbrev blank : JsonlStore ℕ Bytes
blank = record { is_poisoned = false; file = []; next_sequence = 0; records = []; host = 7 }

abbrev filled : JsonlStore ℕ Bytes
filled = record {
  is_poisoned = false;
  file = b'x' ∷ b'\n' ∷ [];
  next_sequence = 1;
  records = ("a", record tea { updated_at_unix_ms = 7 }) ∷ [];
  host = 9;
}

encode_envelope : encode envelope ≡ ok (b'x' ∷ [])
unfolding encode
encode_envelope = code-envelope (MemoryEnvelope-discrete envelope envelope)

fills : run (jsonl_store tick disk encode) (upsert_record tea ∷ []) blank ≡ (ok tt, filled)
unfolding jsonl_upsert append apply_event insert write_line
fills = rw encode_envelope refl

jsonl-run-clocked_example :
    Represents filled.records (all_of (clocked tick) (upsert_record tea ∷ []) (nothing, 7)).0
    × (filled.host ≡ (all_of (clocked tick) (upsert_record tea ∷ []) (nothing, 7)).1)
    × (open_store from_utf8 decode (ok filled.file) (ok filled.file) 9 ≡ ok filled)
jsonl-run-clocked_example =
    jsonl-run-clocked tick disk encode (λ f. f) disk-Appends from_utf8 decode codec
      (upsert_record tea ∷ []) nothing blank filled tt 9 fills (omega arith, ([], refl, refl))
      empty-Represents
