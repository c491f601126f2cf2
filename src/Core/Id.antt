-- ===== src/Core/Id.antt =====
-- crates/harness-core/src/id.rs: the identifiers, which are transparent wrappers of a string. How a
-- fresh one is generated (time, process, counter) is left to the world.
use nausicaa.Prelude.{String}

abbrev pub ThreadId : Type 0
ThreadId = String

abbrev pub TurnId : Type 0
TurnId = String

abbrev pub CallId : Type 0
CallId = String

abbrev pub EventId : Type 0
EventId = String
