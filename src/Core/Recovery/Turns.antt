-- ===== src/Core/Recovery/Turns.antt =====
-- crates/harness-core/src/recovery.rs: the last loop marks the open turns failed.
use nausicaa.Prelude.{
  ◌≡◌, refl, Bool, false, some, List, [], ◌∷◌, ◌++◌, ==_iff, if◌then◌else◌, string_ord, inl, inr,
  arith, ap, ◌∙◌, sym, ok, append_assoc, append-nil, filter, String,
}
use nausicaa.Prelude.Exec.{continue_ok, pure}
use nausicaa.Prelude.BTreeSet
use nausicaa.Core.Id.{ThreadId, TurnId, CallId}
use nausicaa.Core.Event.{EventEnvelope, turn_failed}
use nausicaa.Core.Store.{EventStore, thread_events}
use nausicaa.Core.Recovery.{fail_turns}
use nausicaa.Core.Recovery.Log.{IsRequested, open_turn, open_after, of_turn}
use nausicaa.Core.Recovery.Closing.{Appended}

module _ {V S : Type 0} (store : EventStore V S) (thread_id : ThreadId) where
  open store use {view}

  pub record Failed (turns : List TurnId) (s s' : S) : Type 0 where
    pub new : List (EventEnvelope V)
    pub grown : view s' ≡ view s ++ new
    pub appended : Appended store thread_id new
    pub shut :
        (turn : TurnId) (b : Bool)
        → open_turn turn b new ≡ (if BTreeSet.contains turn turns then false else b)

  Failed-cons :
      (t : TurnId) (turns : List TurnId) (s s₁ s' : S) (env : EventEnvelope V) {error : String}
      → view s₁ ≡ view s ++ env ∷ []
      → env.thread_id ≡ thread_id
      → env.turn_id ≡ some t
      → env.event ≡ turn_failed error
      → Failed turns s₁ s'
      → Failed (t ∷ turns) s s'
  unfolding thread_events filter open_turn BTreeSet.contains
  Failed-cons t turns s s₁ s' env g th tu ev rest = record {
    new = env ∷ rest.new;
    grown = rest.grown ∙ ap (λ l. l ++ rest.new) g ∙ append_assoc (view s) (env ∷ []) rest.new;
    appended = record {
      same_thread = ground (arith, ==_iff env.thread_id thread_id, rest.appended.same_thread);
      quiet = quiet;
    };
    shut = λ turn b.
        rest.shut turn (if of_turn env.turn_id turn then open_after env.event b else b)
        ∙ ground arith;
  }
    where
      quiet : (turn : TurnId) (c : CallId) → IsRequested turn c (env ∷ rest.new) → ⊥
      quiet turn c (inl (t, m)) = rw ev at m
      quiet turn c (inr h) = rest.appended.quiet turn c h

  pub fail_turns_lem :
      (turns : List TurnId) (s : S) {ts : List TurnId} {s' : S}
      → fail_turns store thread_id turns s ≡ (ok ts, s')
      → Failed turns s s'
  unfolding fail_turns thread_events filter open_turn BTreeSet.contains
  fail_turns_lem [] s {s' = s'} h = record {
    new = [];
    grown = ap view (ap (λ p. p.1) (sym h)) ∙ sym (append-nil (view s));
    appended = record { same_thread = refl; quiet = λ turn c q. q };
    shut = λ turn b. refl;
  }
  fail_turns_lem (t ∷ turns) s {ts} {s'} h =
      let (env, s₁, stored, h₁) = continue_ok _ _ h in
      let (ts₁, s₂, rest, h₂) =
        continue_ok (fail_turns store thread_id turns s₁) (λ failed. pure (t ∷ failed)) h₁ in
      let (grown, th, tu, ev) = store.append_ok thread_id (some t) _ s stored in
      let last : s₂ ≡ s' = ap (λ p. p.1) h₂ in
      Failed-cons t turns s s₁ s' env grown th tu ev (fail_turns_lem turns s₁ (rw last at rest))
