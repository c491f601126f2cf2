-- ===== src/Core/Store/Memory.antt =====
-- crates/harness-core/src/store.rs: `MemoryEventStore`. Its lock is poisoned when a holder panicked.
use nausicaa.Prelude.{
  ℕ, ◌+◌, ◌%◌, ◌^◌, ◌≡◌, Bool, Option, List, [], ◌∷◌, ◌++◌, Result, ok, err, arith, if◌then◌else◌,
}
use nausicaa.Core.Id.{ThreadId, TurnId}
use nausicaa.Core.Event.{RuntimeEvent, EventEnvelope}
use nausicaa.Core.Store.{StoreError, EventStore, Host, make_envelope, thread_events}

pub record MemoryEventStore (V H : Type 0) : Type 0 where
  pub is_poisoned : Bool
  pub next_sequence : ℕ  -- u64
  pub events : List (EventEnvelope V)
  pub host : H

module _ {V H : Type 0} (host : Host H) where
  unfoldable pub append :
      ThreadId
      → Option TurnId
      → RuntimeEvent V
      → MemoryEventStore V H
      → Result (EventEnvelope V) StoreError × MemoryEventStore V H
  unfolding make_envelope
  append thread_id turn_id event s =
      let (envelope, h) = make_envelope host s.next_sequence thread_id turn_id event s.host in
      if s.is_poisoned then (err StoreError.poisoned, s) else (
        ok envelope,
        record s {
          next_sequence = (s.next_sequence + 1) % 2 ^ 64;
          events = s.events ++ envelope ∷ [];
          host = h;
        },
      )

  unfoldable pub load_thread :
      ThreadId → MemoryEventStore V H → Result (List (EventEnvelope V)) StoreError
  load_thread thread_id s =
      if s.is_poisoned then err StoreError.poisoned else ok (thread_events thread_id s.events)

  pub append_ok :
      (t : ThreadId) (u : Option TurnId) (e : RuntimeEvent V) (s : MemoryEventStore V H)
      {env : EventEnvelope V} {s' : MemoryEventStore V H}
      → append t u e s ≡ (ok env, s')
      → (s'.events ≡ s.events ++ env ∷ [])
        × (env.thread_id ≡ t)
        × (env.turn_id ≡ u)
        × (env.event ≡ e)
  unfolding append
  append_ok t u e s h = ground arith

  pub append_err :
      (t : ThreadId) (u : Option TurnId) (e : RuntimeEvent V) (s : MemoryEventStore V H)
      {x : StoreError} {s' : MemoryEventStore V H}
      → append t u e s ≡ (err x, s')
      → s'.events ≡ s.events
  unfolding append
  append_err t u e s h = ground arith

  pub load_thread_ok :
      (t : ThreadId) (s : MemoryEventStore V H) {es : List (EventEnvelope V)}
      → load_thread t s ≡ ok es
      → es ≡ thread_events t s.events
  unfolding load_thread
  load_thread_ok t s h = ground arith

  -- the memory store keeps the contract of an event store
  unfoldable pub memory_store : EventStore V (MemoryEventStore V H)
  memory_store = record {
    append = append;
    load_thread = load_thread;
    view = λ s. s.events;
    append_ok = append_ok;
    append_err = append_err;
    load_thread_ok = load_thread_ok;
  }
