-- ===== src/Memory/Frozen.antt =====
-- crates/memory/src/lib.rs: what a turn is given of the memory is the same in all its compiles.
use nausicaa.Prelude.{
  ℕ, suc, ◌+◌, ◌<◌, ◌≤◌, ◌≡◌, refl, sym, ap, ◌∙◌, false, none, some, List, [], ◌∷◌, Result, ok,
  arith, length, inl, inr, Option-cases, string_ord, pair_ord,
}
use nausicaa.Prelude.Results.{Result-cases}
use nausicaa.Prelude.Exec.{Outcome-cases}
use nausicaa.Prelude.BTreeMap.{get}
use nausicaa.Core.Context.{ContextInput, CompiledContext, ContextError}
use nausicaa.Memory.{MemoryRecord, MemoryStore, Unicode, recall}
use nausicaa.Memory.Snapshots.{
  SnapshotKey, MemoryCompiler, memories_of, compile, finished, query_of, remember,
}
use nausicaa.Memory.Cache.{
  IsCache, Retains, remember-IsCache, remember-Retains, remember-Retains_new,
}

module _ {S V : Type 0} (unicode : Unicode) (methods : MemoryStore S)
    (inner : ContextInput V → Result (CompiledContext V) ContextError) where
  abbrev pub key_of : ContextInput V → SnapshotKey
  key_of input = (input.thread_id, input.turn_id)

  abbrev pub IsKept : MemoryCompiler S → Type 0
  IsKept s = IsCache s.maximum_snapshots s.snapshots

  memories_of-hit :
      (input : ContextInput V) (s : MemoryCompiler S) (memories : List MemoryRecord)
      → s.is_poisoned ≡ false
      → get (key_of input) s.snapshots.entries ≡ some memories
      → memories_of unicode methods inner input s ≡ (ok memories, s)
  unfolding memories_of
  memories_of-hit input s memories clear h = ground (arith, clear, h)

  -- the compiler after a compile: its store may be another, and it may have taken a snapshot
  data Stepped (input : ContextInput V) (s : MemoryCompiler S) : MemoryCompiler S → Type 0 where
    same : (u : S) → Stepped input s (record s { store = u })
    taken :
        (u : S) (memories : List MemoryRecord)
        → get (key_of input) s.snapshots.entries ≡ none
        → Stepped input s (record s {
          store = u;
          snapshots = remember s.maximum_snapshots (key_of input) memories s.snapshots;
        })

  memories_of-Stepped :
      (input : ContextInput V) (s : MemoryCompiler S)
      → s.is_poisoned ≡ false
      → Stepped input s (memories_of unicode methods inner input s).1
  unfolding memories_of
  memories_of-Stepped input s clear = elim (Option-cases (get (key_of input) s.snapshots.entries)) [
    | inr (existing, h) ↦ rw (memories_of-hit input s existing clear h) (Stepped.same s.store)
    | inl h ↦
        elim (Outcome-cases
          (recall unicode methods (query_of input.transcript "") s.recall_limit s.store)) [
            | inl (memories, u, e) ↦ rw (clear, h, e) (Stepped.taken u memories h)
            | inr (m, u, e) ↦ rw (clear, h, e) (Stepped.same u)
          ]
  ]

  compile-memories_of :
      (input : ContextInput V) (s : MemoryCompiler S)
      → (compile unicode methods inner input s).1 ≡ (memories_of unicode methods inner input s).1
  unfolding compile
  compile-memories_of input s = elim (Outcome-cases (memories_of unicode methods inner input s)) [
    | inl (memories, t, h) ↦ elim (Result-cases (inner input)) [
      | inl (e, p) ↦ rw (h, p) refl
      | inr (compiled, p) ↦ rw (h, p) refl
    ]
    | inr (e, t, h) ↦ rw h refl
  ]

  Stepped-IsKept :
      (input : ContextInput V) (s t : MemoryCompiler S) → Stepped input s t → IsKept s → IsKept t
  Stepped-IsKept input s t (Stepped.same u) kept = kept
  Stepped-IsKept input s t (Stepped.taken u memories h) kept =
      remember-IsCache s.maximum_snapshots (key_of input) memories s.snapshots kept h

  -- A compile keeps the cache within the maximum number of snapshots: its order lists no more turns
  -- than the maximum and none twice, and there is a snapshot for every turn in the order and for no
  -- other. The compiler is not poisoned, and its cache is so before.
  pub compile-IsKept :
      (input : ContextInput V) (s : MemoryCompiler S)
      → s.is_poisoned ≡ false
      → IsKept s
      → IsKept (compile unicode methods inner input s).1
  compile-IsKept input s clear kept =
      rw (compile-memories_of input s)
        (Stepped-IsKept input s _ (memories_of-Stepped input s clear) kept)

  -- what is kept of a turn's snapshot, while `n` compiles at most came after it
  record Holding (n maximum : ℕ) (key : SnapshotKey) (memories : List MemoryRecord)
      (s : MemoryCompiler S) : Type 0 where
    kept : IsKept s
    clear : s.is_poisoned ≡ false
    maximal : s.maximum_snapshots ≡ maximum
    retained : Retains n key memories s.snapshots

  Stepped-Holding :
      (n maximum : ℕ) (key : SnapshotKey) (memories : List MemoryRecord) (input : ContextInput V)
      (s t : MemoryCompiler S)
      → Stepped input s t
      → suc (suc n) ≤ maximum
      → Holding n maximum key memories s
      → Holding (suc n) maximum key memories t
  Stepped-Holding n maximum key memories input s t (Stepped.same u) bound h =
      let (pre, post, p, q, r) = h.retained in
      record {
        kept = h.kept;
        clear = h.clear;
        maximal = h.maximal;
        retained = (pre, post, p, omega (arith, q), r);
      }
  Stepped-Holding n maximum key memories input s t (Stepped.taken u others absent) bound h =
      record {
        kept = remember-IsCache s.maximum_snapshots (key_of input) others s.snapshots h.kept absent;
        clear = h.clear;
        maximal = h.maximal;
        retained =
            remember-Retains s.maximum_snapshots n key (key_of input) memories others s.snapshots
              h.kept absent (ground (arith, bound, h.maximal)) h.retained;
      }

  -- compiles of any inputs, each after any change of the store by others
  abbrev pub run : List ((S → S) × ContextInput V) → MemoryCompiler S → MemoryCompiler S
  run [] s = s
  run ((change, input) ∷ rest) s =
      run rest (compile unicode methods inner input (record s { store = change s.store })).1

  run-Holding :
      (n maximum : ℕ) (key : SnapshotKey) (memories : List MemoryRecord)
      (steps : List ((S → S) × ContextInput V)) (s : MemoryCompiler S)
      → n + length steps < maximum
      → Holding n maximum key memories s
      → (m : ℕ) × Holding m maximum key memories (run steps s)
  run-Holding n maximum key memories [] s bound h = (n, h)
  run-Holding n maximum key memories ((change, input) ∷ rest) s bound h =
      let changed : MemoryCompiler S = record s { store = change s.store } in
      let before : Holding n maximum key memories changed = record {
        kept = h.kept;
        clear = h.clear;
        maximal = h.maximal;
        retained = h.retained;
      } in
      let after =
        Stepped-Holding n maximum key memories input changed _
          (memories_of-Stepped input changed h.clear) (omega (arith, bound)) before in
      run-Holding (suc n) maximum key memories rest (compile unicode methods inner input changed).1
        (omega (arith, bound)) (rw (compile-memories_of input changed) after)

  memories_of-miss :
      (input : ContextInput V) (s : MemoryCompiler S) (found : List MemoryRecord) (u : S)
      → s.is_poisoned ≡ false
      → get (key_of input) s.snapshots.entries ≡ none
      → recall unicode methods (query_of input.transcript "") s.recall_limit s.store ≡ (ok found, u)
      → memories_of unicode methods inner input s ≡ (
        ok found,
        record s {
          store = u;
          snapshots = remember s.maximum_snapshots (key_of input) found s.snapshots;
        },
      )
  unfolding memories_of
  memories_of-miss input s found u clear absent e = ground (arith, clear, absent, e)

  memories_of-fresh :
      (input : ContextInput V) (s t : MemoryCompiler S) (memories : List MemoryRecord)
      → s.is_poisoned ≡ false
      → get (key_of input) s.snapshots.entries ≡ none
      → memories_of unicode methods inner input s ≡ (ok memories, t)
      → IsKept s
      → 1 ≤ s.maximum_snapshots
      → Holding 0 s.maximum_snapshots (key_of input) memories t
  unfolding memories_of
  memories_of-fresh input s t memories clear absent h kept bound =
      elim (Outcome-cases
        (recall unicode methods (query_of input.transcript "") s.recall_limit s.store)) [
          | inr (m, u, e) ↦ absurd (ground (arith, rw (memories_of, clear, absent, e) at h))
          | inl (found, u, e) ↦
              let made : (
                ok found,
                record s {
                  store = u;
                  snapshots = remember s.maximum_snapshots (key_of input) found s.snapshots;
                },
              )
                  ≡ (ok memories, t) =
                sym (memories_of-miss input s found u clear absent e) ∙ h in
              let kind : found ≡ memories = ground (arith, made) in
              let state = ap (λ x. x.1) made in
              rw (← state, ← kind)
                (record {
                  kept =
                      remember-IsCache s.maximum_snapshots (key_of input) found s.snapshots kept
                        absent;
                  clear = clear;
                  maximal = refl;
                  retained =
                      remember-Retains_new s.maximum_snapshots (key_of input) found s.snapshots kept
                        absent bound;
                })
        ]

  -- After a compile took a turn's snapshot, every compile of that turn is given the memories of the
  -- snapshot and changes nothing, whatever was compiled and written to the store in between, while
  -- fewer compiles than the maximum number of snapshots came in between. The compiler is not
  -- poisoned, and its cache is as its compiles keep it.
  pub compile-frozen :
      (input again : ContextInput V) (s t : MemoryCompiler S) (memories : List MemoryRecord)
      (steps : List ((S → S) × ContextInput V))
      → s.is_poisoned ≡ false
      → IsKept s
      → get (key_of input) s.snapshots.entries ≡ none
      → memories_of unicode methods inner input s ≡ (ok memories, t)
      → length steps < s.maximum_snapshots
      → key_of again ≡ key_of input
      → compile unicode methods inner again (run steps t)
        ≡ finished unicode methods inner memories (inner again) (run steps t)
  unfolding compile
  compile-frozen input again s t memories steps clear kept absent h bound turn =
      let fresh = memories_of-fresh input s t memories clear absent h kept (omega (arith, bound)) in
      let (m, after) =
        run-Holding 0 s.maximum_snapshots (key_of input) memories steps t (omega (arith, bound))
          fresh in
      let (pre, post, p, q, r) = after.retained in
      rw (memories_of-hit again (run steps t) memories after.clear (rw turn r)) refl
