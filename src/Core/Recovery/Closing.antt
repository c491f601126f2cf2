-- ===== src/Core/Recovery/Closing.antt =====
-- crates/harness-core/src/recovery.rs: what a recovery that succeeds leaves in the log.
use nausicaa.Prelude.{
  ◌≡◌, refl, Bool, true, false, none, some, List, [], ◌∷◌, ◌++◌, ◌==◌, ==_iff, if◌then◌else◌,
  string_ord, pair_ord, ◌⊎◌, inl, inr, arith, ap, ◌∙◌, Bool-cases, Option-cases, sym, ok,
  append_assoc, append-nil, filter,
}
use nausicaa.Prelude.Exec.{continue_ok, pure}
use nausicaa.Prelude.BTreeSet
use nausicaa.Core.Id.{ThreadId, TurnId, CallId}
use nausicaa.Core.Protocol.{ToolReceipt}
use nausicaa.Core.Event.{EventEnvelope, tool_receipt_recorded}
use nausicaa.Core.Store.{EventStore, thread_events}
use nausicaa.Core.Recovery.{Key, Scan, receipt_for, recover_calls}
use nausicaa.Core.Recovery.Log.{Logged, IsRequested, open_turn, open_after, of_turn}

module _ {V S : Type 0} (store : EventStore V S) (thread_id : ThreadId) where
  open store use {view}

  -- an event of the thread that neither asks for a call nor opens a turn is in the log
  pub record Appended (new : List (EventEnvelope V)) : Type 0 where
    pub same_thread : thread_events thread_id new ≡ new
    pub quiet : (turn : TurnId) (c : CallId) → IsRequested turn c new → ⊥

  pub record Received (scan : Scan V) (keys : List Key) (s s' : S) : Type 0 where
    pub new : List (EventEnvelope V)
    pub grown : view s' ≡ view s ++ new
    pub appended : Appended new
    pub still : (turn : TurnId) (b : Bool) → open_turn turn b new ≡ b
    pub received :
        (k : Key) (r : ToolReceipt V)
        → BTreeSet.contains k keys ≡ true
        → BTreeSet.contains k scan.completed ≡ false
        → receipt_for scan k ≡ some r
        → Logged (λ e. e ≡ tool_receipt_recorded r) k.0 new

  -- one more event in front
  Received-cons :
      (scan : Scan V) (key : Key) (keys : List Key) (r : ToolReceipt V) (s s₁ s' : S)
      (env : EventEnvelope V)
      → receipt_for scan key ≡ some r
      → view s₁ ≡ view s ++ env ∷ []
      → env.thread_id ≡ thread_id
      → env.turn_id ≡ some key.0
      → env.event ≡ tool_receipt_recorded r
      → Received scan keys s₁ s'
      → Received scan (key ∷ keys) s s'
  unfolding thread_events filter open_turn BTreeSet.contains
  Received-cons scan key keys r s s₁ s' env rf g th tu ev rest = record {
    new = env ∷ rest.new;
    grown = rest.grown ∙ ap (λ l. l ++ rest.new) g ∙ append_assoc (view s) (env ∷ []) rest.new;
    appended = record {
      same_thread = ground (arith, ==_iff env.thread_id thread_id, rest.appended.same_thread);
      quiet = quiet;
    };
    still = λ turn b.
        rest.still turn (if of_turn env.turn_id turn then open_after env.event b else b)
        ∙ ground arith;
    received = received;
  }
    where
      quiet : (turn : TurnId) (c : CallId) → IsRequested turn c (env ∷ rest.new) → ⊥
      quiet turn c (inl (t, m)) = rw ev at m
      quiet turn c (inr h) = rest.appended.quiet turn c h

      received :
          (k : Key) (r' : ToolReceipt V)
          → BTreeSet.contains k (key ∷ keys) ≡ true
          → BTreeSet.contains k scan.completed ≡ false
          → receipt_for scan k ≡ some r'
          → Logged (λ e. e ≡ tool_receipt_recorded r') k.0 (env ∷ rest.new)
      received k r' i d e = elim (Bool-cases (key == k)) [
        | inl p ↦
            let q = (==_iff key k).0 p in inl (ground (arith, q, tu), ground (arith, q, e, rf, ev))
        | inr p ↦ inr (rest.received k r' (ground arith) d e)
      ]

  -- a key that needs no receipt is passed over
  Received-skip :
      (scan : Scan V) (key : Key) (keys : List Key) (s s' : S)
      → (BTreeSet.contains key scan.completed ≡ true) ⊎ (receipt_for scan key ≡ none)
      → Received scan keys s s'
      → Received scan (key ∷ keys) s s'
  unfolding BTreeSet.contains
  Received-skip scan key keys s s' why rest = record {
    new = rest.new;
    grown = rest.grown;
    appended = rest.appended;
    still = rest.still;
    received = λ k r i d e. rest.received k r (ground (arith, ==_iff key k, why, i, d, e)) d e;
  }

  pub recover_calls_lem :
      (scan : Scan V) (keys : List Key) (s : S) {rs : List (ToolReceipt V)} {s' : S}
      → recover_calls store thread_id scan keys s ≡ (ok rs, s')
      → Received scan keys s s'
  unfolding recover_calls thread_events filter BTreeSet.contains open_turn
  recover_calls_lem scan [] s {s' = s'} h = record {
    new = [];
    grown = ap view (ap (λ p. p.1) (sym h)) ∙ sym (append-nil (view s));
    appended = record { same_thread = refl; quiet = λ turn c q. q };
    still = λ turn b. refl;
    received = λ k r i d e. cc;
  }
  recover_calls_lem scan (key ∷ keys) s {rs} {s'} h =
      elim (Bool-cases (BTreeSet.contains key scan.completed)) [
        | inl done ↦
            Received-skip scan key keys s s' (inl done)
              (recover_calls_lem scan keys s (rw done at h))
        | inr pending ↦ elim (Option-cases (receipt_for scan key)) [
          | inl absent ↦
              Received-skip scan key keys s s' (inr absent)
                (recover_calls_lem scan keys s (rw (pending, absent) at h))
          | inr (r, found) ↦
              let (env, s₁, stored, h₁) = continue_ok _ _ (rw (pending, found) at h) in
              let (rs₁, s₂, rest, h₂) =
                continue_ok (recover_calls store thread_id scan keys s₁)
                  (λ receipts. pure (r ∷ receipts)) h₁ in
              let (grown, th, tu, ev) =
                store.append_ok thread_id (some key.0) (tool_receipt_recorded r) s stored in
              let last : s₂ ≡ s' = ap (λ p. p.1) h₂ in
              Received-cons scan key keys r s s₁ s' env found grown th tu ev
                (recover_calls_lem scan keys s₁ (rw last at rest))
        ]
      ]
