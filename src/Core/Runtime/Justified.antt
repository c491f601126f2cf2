-- ===== src/Core/Runtime/Justified.antt =====
-- crates/harness-core/src/runtime.rs: a whole turn, from the check of its thread to the end of its
-- loop, executes and shows only what is justified.
use nausicaa.Prelude.{
  ℕ, String, ◌≡◌, refl, Bool, true, false, List, [], ◌∷◌, Result, ok, err, Eq, inl, inr, Bool-cases,
  arith, In, string_ord, filter, leb,
}
use nausicaa.Prelude.Exec.{Exec, pure, continue}
use nausicaa.Core.Id.{ThreadId, TurnId}
use nausicaa.Core.Event.{EventEnvelope}
use nausicaa.Core.Store.{StoreError, thread_events}
use nausicaa.Core.Recovery.{RecoveryReport}
use nausicaa.Core.Runtime.{
  AgentRuntime, RuntimeError, Run, Step, notify, lift_store, load_thread, capabilities,
}
use nausicaa.Core.Runtime.Turn.Thread.{
  ensure_thread, ensure_turn_unused, acquire_thread, release_thread, while_active, notify_from,
  next_after, recover_exclusive, plan_turn, turn_body, run_turn, publish, changed, notify_if,
}
use nausicaa.Core.Runtime.Keeps.{
  Keeps, Keeps-pure, Keeps-throw, Keeps-if, Keeps-bind, Keeps-turn_loop,
}
use nausicaa.Core.Runtime.Authority.{AllJustified, Good-append, Good-outside, handle_tool_call-Good}

In-filter : {A : Type 0} (p : A → Bool) (a : A) (xs : List A) → In a (filter p xs) → In a xs
unfolding filter
In-filter p a [] h = h
In-filter p a (x ∷ xs) h = elim (Bool-cases (p x)) [
  | inl e ↦ kept (In-filter p a xs) (rw e at h)
  | inr e ↦ inr (In-filter p a xs (rw e at h))
]
  where
    kept : (In a (filter p xs) → In a xs) → In a (x ∷ filter p xs) → In a (x ∷ xs)
    kept rec (inl e) = inl e
    kept rec (inr e) = inr (rec e)

module _ {V W S : Type 0} ⦃v : Eq V⦄ (rt : AgentRuntime V W S) (thread : ThreadId)
    (turn : TurnId) where
  abbrev Justly : Run V W S → Type 0
  Justly r = AllJustified (capabilities rt) turn r.trace

  abbrev Kept : {A : Type 0} → Step V W S A → Type 0
  Kept m = Keeps Justly m

  Justly-lift_store : {A : Type 0} (m : Exec S StoreError A) → Kept (lift_store rt m)
  unfolding lift_store
  Justly-lift_store m = record { at = λ r h. h }

  Justly-load_thread : (t : ThreadId) → Kept (load_thread rt t)
  unfolding load_thread
  Justly-load_thread t = Justly-lift_store _

  -- events that are in the store may be shown
  notify_from-Justly :
      (before : ℕ) (events : List (EventEnvelope V)) (r : Run V W S)
      → ((e : EventEnvelope V) → In e events → In e (rt.store.view r.store))
      → Justly r
      → Justly (notify_from rt before events r)
  unfolding notify_from notify
  notify_from-Justly before [] r stored h = h
  notify_from-Justly before (event ∷ events) r stored h =
      next (leb before event.sequence) (notify_from-Justly before events)
    where
      next :
          (b : Bool)
          → ((r : Run V W S)
              → ((e : EventEnvelope V) → In e events → In e (rt.store.view r.store))
              → Justly r
              → Justly (notify_from rt before events r))
          → Justly (notify_from rt before events (notify_if rt b event r))
      next true rec = rec (notify rt event r) (λ x i. stored x (inr i)) (stored event (inl refl), h)
      next false rec = rec r (λ x i. stored x (inr i)) h

  shown-Justly :
      (before : ℕ) (report : RecoveryReport V) (r : Run V W S)
      → Justly r
      → Justly (publish rt thread before report r).1
  unfolding load_thread publish filter thread_events
  shown-Justly before report r h = go (rt.store.load_thread thread r.store) refl
    where
      go :
          (x : Result (List (EventEnvelope V)) StoreError)
          → rt.store.load_thread thread r.store ≡ x
          → Justly
              (continue
                (elim x [ ok a ↦ ok a | err e ↦ err (RuntimeError.store e) ], r)
                λ recovered s. (ok report, notify_from rt before recovered s)).1
      go (err e) p = h
      go (ok events) p =
          notify_from-Justly before events r
            (λ e i.
              In-filter _ e (rt.store.view r.store)
                (rw (rt.store.load_thread_ok thread r.store p) at i))
            h

  recover_exclusive-Justly : Kept (recover_exclusive rt thread)
  unfolding recover_exclusive
  recover_exclusive-Justly = Keeps-bind _ _ (Justly-load_thread thread) λ events.
      Keeps-bind _ _ (Justly-lift_store _) λ report.
        Keeps-if (changed report) (publish rt thread (next_after 0 events) report) (pure report)
          (record { at = shown-Justly (next_after 0 events) report }) (Keeps-pure report)

  turn_body-Justly : (input : String) → Kept (turn_body rt thread turn input)
  unfolding turn_body ensure_turn_unused plan_turn
  turn_body-Justly input =
      let appended = Good-append rt (capabilities rt) thread turn in
      Keeps-bind _ _
        (Keeps-bind _ _ (Justly-load_thread thread)
          λ events. Keeps-if _ _ _ (Keeps-throw _) (Keeps-pure tt))
        λ _. Keeps-bind _ _ recover_exclusive-Justly λ _. Keeps-bind _ _ (appended _ _ _) λ _.
          Keeps-bind _ _ (appended _ _ _) λ _. Keeps-bind _ _ (Justly-load_thread thread) λ events.
            Keeps-turn_loop rt appended (Good-outside rt (capabilities rt) thread turn)
              (plan_turn rt thread turn)
              (λ i c. handle_tool_call-Good rt (capabilities rt) thread turn i c) _ _ _ _

  trace-acquire_thread : (r : Run V W S) → (acquire_thread rt thread r).1.trace ≡ r.trace
  unfolding acquire_thread
  trace-acquire_thread r = ground arith

  trace-release_thread : (r : Run V W S) → (release_thread rt thread r).trace ≡ r.trace
  unfolding release_thread
  trace-release_thread r = ground arith

  while_active-Justly : {A : Type 0} (m : Step V W S A) → Kept m → Kept (while_active rt thread m)
  unfolding while_active
  while_active-Justly m k =
      Keeps-bind (acquire_thread rt thread) _ (record { at = λ r h. rw (trace-acquire_thread r) h })
        λ _. record { at = λ r h. rw (trace-release_thread (m r).1) (k.at r h) }

  -- A turn that starts with an empty trace, however it ends, has executed only actions of tools that
  -- are not denied, whose start was logged in this turn before, and, where the tool wants approval,
  -- whose approval, of exactly that action, was logged in this turn before; and its observers were
  -- shown only events that were in the store.
  pub run_turn-AllJustified :
      (input : String) (r : Run V W S)
      → r.trace ≡ []
      → AllJustified (capabilities rt) turn (run_turn rt thread turn input r).1.trace
  unfolding run_turn ensure_thread
  run_turn-AllJustified input r empty =
      (Keeps-bind _ _
          (Keeps-bind _ _ (Justly-load_thread thread)
            λ events. Keeps-if _ _ _ (Keeps-pure tt) (Keeps-throw _))
          λ _. while_active-Justly _ (turn_body-Justly input)).at
        r (rw empty tt)
