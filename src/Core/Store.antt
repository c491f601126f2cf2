-- ===== src/Core/Store.antt =====
-- crates/harness-core/src/store.rs: the contract of an event store. The two stores that meet it are
-- in the modules below.
pub mod Memory
pub mod Jsonl
use nausicaa.Prelude.{
  ℕ, String, ◌≡◌, Option, List, [], ◌∷◌, ◌++◌, Result, ok, err, filter, ◌==◌, string_ord,
}
use nausicaa.Core.Id.{ThreadId, TurnId, EventId}
use nausicaa.Core.Event.{RuntimeEvent, EventEnvelope}

pub data StoreError : Type 0 where
  io : String → StoreError
  serialization : String → StoreError
  corrupt : ℕ → String → StoreError
  poisoned : StoreError

-- `load_thread`'s filter
unfoldable pub thread_events :
    {V : Type 0} → ThreadId → List (EventEnvelope V) → List (EventEnvelope V)
thread_events thread_id = filter (λ event. event.thread_id == thread_id)

-- The trait, with its documented contract over what is durable, `view`: an append that succeeds has
-- added its event at the end, one that fails has added nothing, and a load returns the events of its
-- thread in order.
pub record EventStore (V S : Type 0) : Type 0 where
  pub append :
      ThreadId → Option TurnId → RuntimeEvent V → S → Result (EventEnvelope V) StoreError × S
  pub load_thread : ThreadId → S → Result (List (EventEnvelope V)) StoreError
  pub view : S → List (EventEnvelope V)
  pub append_ok :
      (t : ThreadId) (u : Option TurnId) (e : RuntimeEvent V) (s : S) {env : EventEnvelope V}
      {s' : S}
      → append t u e s ≡ (ok env, s')
      → (view s' ≡ view s ++ env ∷ []) × (env.thread_id ≡ t) × (env.turn_id ≡ u) × (env.event ≡ e)
  pub append_err :
      (t : ThreadId) (u : Option TurnId) (e : RuntimeEvent V) (s : S) {x : StoreError} {s' : S}
      → append t u e s ≡ (err x, s')
      → view s' ≡ view s
  pub load_thread_ok :
      (t : ThreadId) (s : S) {es : List (EventEnvelope V)}
      → load_thread t s ≡ ok es
      → es ≡ thread_events t (view s)

-- the clock and the generator of event ids, over the state `H` of the host
pub record Host (H : Type 0) : Type 0 where
  pub now : H → ℕ × H
  pub fresh_event_id : H → EventId × H

module _ {V H : Type 0} (host : Host H) where
  unfoldable pub make_envelope :
      ℕ → ThreadId → Option TurnId → RuntimeEvent V → H → EventEnvelope V × H
  make_envelope sequence thread_id turn_id event h =
      let (at_unix_ms, h') = host.now h in
      let (id, h'') = host.fresh_event_id h' in
      (
        record {
          id = id;
          sequence = sequence;
          at_unix_ms = at_unix_ms;
          thread_id = thread_id;
          turn_id = turn_id;
          event = event;
        },
        h'',
      )
