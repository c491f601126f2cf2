-- ===== src/Core/Store/Jsonl.antt =====
-- crates/harness-core/src/store.rs: `JsonlEventStore::append` and `load_thread`. The file, the
-- encoder (`serde_json::to_vec`) and the host are parameters. Opening a file is not modelled.
use nausicaa.Prelude.{
  ℕ, ◌+◌, ◌%◌, ◌^◌, ◌≡◌, String, Bool, true, false, Option, List, [], ◌∷◌, ◌++◌, Result, ok, err,
  arith, if◌then◌else◌,
}
use nausicaa.Prelude.LogFile.{LogFile, Bytes, write_line}
use nausicaa.Core.Id.{ThreadId, TurnId}
use nausicaa.Core.Event.{RuntimeEvent, EventEnvelope}
use nausicaa.Core.Store.{StoreError, EventStore, Host, make_envelope, thread_events}

pub record JsonlEventStore (V H F : Type 0) : Type 0 where
  pub is_poisoned : Bool
  pub file : F
  pub next_sequence : ℕ  -- u64
  pub events : List (EventEnvelope V)
  pub write_failed : Bool
  pub host : H

module _ {V H F : Type 0} (host : Host H) (log : LogFile F)
    (encode : EventEnvelope V → Result Bytes String) where
  abbrev store_envelope :
      EventEnvelope V
      → Result Bytes String
      → JsonlEventStore V H F
      → Result (EventEnvelope V) StoreError × JsonlEventStore V H F
  store_envelope envelope (err message) s = (err (StoreError.serialization message), s)
  store_envelope envelope (ok bytes) s =
      let (r, f) = write_line log bytes s.file in
      elim r [
        | err message ↦ (err (StoreError.io message), record s { write_failed = true; file = f })
        | ok _ ↦ (
          ok envelope,
          record s {
            write_failed = false;
            file = f;
            next_sequence = (s.next_sequence + 1) % 2 ^ 64;
            events = s.events ++ envelope ∷ [];
          },
        )
      ]

  unfoldable pub append :
      ThreadId
      → Option TurnId
      → RuntimeEvent V
      → JsonlEventStore V H F
      → Result (EventEnvelope V) StoreError × JsonlEventStore V H F
  unfolding make_envelope
  append thread_id turn_id event s =
      let (envelope, h) = make_envelope host s.next_sequence thread_id turn_id event s.host in
      if s.is_poisoned
      then (err StoreError.poisoned, s)
      else if s.write_failed
      then (
        err (StoreError.io "a previous append failed; reopen the event store before writing"),
        s,
      )
      else store_envelope envelope (encode envelope) (record s { host = h })

  unfoldable pub load_thread :
      ThreadId → JsonlEventStore V H F → Result (List (EventEnvelope V)) StoreError
  load_thread thread_id s =
      if s.is_poisoned then err StoreError.poisoned else ok (thread_events thread_id s.events)

  pub append_ok :
      (t : ThreadId) (u : Option TurnId) (e : RuntimeEvent V) (s : JsonlEventStore V H F)
      {env : EventEnvelope V} {s' : JsonlEventStore V H F}
      → append t u e s ≡ (ok env, s')
      → (s'.events ≡ s.events ++ env ∷ [])
        × (env.thread_id ≡ t)
        × (env.turn_id ≡ u)
        × (env.event ≡ e)
  unfolding append
  append_ok t u e s h = ground arith

  pub append_err :
      (t : ThreadId) (u : Option TurnId) (e : RuntimeEvent V) (s : JsonlEventStore V H F)
      {x : StoreError} {s' : JsonlEventStore V H F}
      → append t u e s ≡ (err x, s')
      → s'.events ≡ s.events
  unfolding append
  append_err t u e s h = ground arith

  pub load_thread_ok :
      (t : ThreadId) (s : JsonlEventStore V H F) {es : List (EventEnvelope V)}
      → load_thread t s ≡ ok es
      → es ≡ thread_events t s.events
  unfolding load_thread
  load_thread_ok t s h = ground arith

  pub jsonl_store : EventStore V (JsonlEventStore V H F)
  jsonl_store = record {
    append = append;
    load_thread = load_thread;
    view = λ s. s.events;
    append_ok = append_ok;
    append_err = append_err;
    load_thread_ok = load_thread_ok;
  }
