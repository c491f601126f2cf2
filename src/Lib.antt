-- ===== src/Lib.antt =====
-- A model of Nausicaa, a harness for coding agents: a runtime that lets a model call tools under a
-- policy and keeps a durable log of what was asked, approved, started and answered, with a ledger of
-- background tasks beside it.
--
-- crates/harness-core:
--   - protocol.rs, event.rs, model.rs, approval.rs: Core/Protocol, Core/Receipt, Core/Event,
--     Core/Model and Core/Approval hold the types. A JSON value is a type `V` of which only the
--     equality is used.
--   - policy.rs: Core/Policy, with Core/Policy/Projection for what a projection permits.
--   - tool.rs, executor.rs: Core/Tool, with Core/Tool/Registry. A tool is a record of its methods.
--   - hook.rs: Core/Hook. context.rs: Core/Context.
--   - store.rs: Core/Store holds the contract of an event store as a record of operations and laws;
--     Core/Store/Memory and Core/Store/Jsonl hold `append` and `load_thread` of the two stores and
--     show that they meet it.
--   - recovery.rs: Core/Recovery holds `recover_thread` over any store. Its children say what a log
--     holds (Log), what the pass collects (Collected, Keys), what the receipts and the failed turns do
--     to the log (Closing, Turns), and what holds of the result (Recovered, Outcome).
--   - runtime.rs: Core/Runtime holds the runtime and its steps over the store, Core/Runtime/Calls
--     `handle_tool_call`, Core/Runtime/Turn the loop of `run_turn` with `validate_tool_calls`, and
--     Core/Runtime/Turn/Thread what is around the loop. Keeps is the logic of invariants; Authority,
--     Justified, Receipts and Validation are about the steps.
-- crates/task-ledger/src/lib.rs: TaskLedger holds the data, TaskLedger/Journal `apply_event`,
-- `append_locked` and `open`, TaskLedger/Operations the operations of `JsonlTaskLedger`. Appended,
-- Submitting, Fencing, Ended and Expiry are about the operations, Reopened and Indexed about `open`.
-- crates/task/src/lib.rs: Task holds the data and `CompletionGate::check`, Task/State `initial_state` and
-- `apply`, Task/Journal `TaskJournal`, and Task/Contract `TaskContextCompiler`. Acceptance is about
-- the state machine; Replayed, Appended and Reopened are about the journal. The `Debug` text of a
-- string is a parameter.
-- crates/memory/src/lib.rs: Memory holds the data, the interface `MemoryStore` and `recall`,
-- Memory/InMemory and Memory/Journal the two stores, Memory/Snapshots `MemoryContextCompiler`. Recalled
-- is about recall, Refined and Stores compare the stores with a map from identifiers to records and a
-- clock, Reopened is about the file, Cache and Frozen about the snapshots. What Unicode says of letters is a
-- parameter.
-- crates/executor-process: lib.rs is Process (arguments and paths), Process/Files (`ReadFileTool`,
-- `WriteFileTool`) and Process/Pipe (`CapturedPipe`); editing.rs is Process/Editing (what its tools
-- share), Process/Pages (`ReadFilePageTool`), Process/Patch (`ApplyPatchTool`) and Process/Search
-- (`SearchFilesTool`). Slices is about positions in a text; Paged, Patched, Execution, Searched, Captured
-- and Inside about the tools. JSON, paths and the file system are records of what the tools call.
-- crates/provider-openai/src/stream.rs: Provider is what the decoder uses of JSON, Provider/Stream the
-- `Decoder` with its `push`, `line` and `dispatch`, Provider/Finish its `finish`. Drafts is about
-- the text that is shown while a response arrives.
-- crates/tui/src/progress.rs: Tui/Progress is `ModelProgressBuffer`, Tui/Previews about its bounds.
--
-- A method that changes its object is a function from the state to a result and the state after it
-- (Prelude/Exec): what was changed before an error stays changed. Whatever lies outside the process
-- (the model, the compiler, the approver, the executor, the tools, the hooks, the observers, the
-- cancellation token, the clock and the identifiers) is a parameter over a state of the world, so
-- that it may answer anything at each call. Files are a parameter too (Prelude/LogFile): each write
-- may fail. Numbers are natural numbers with the wrap of their width written out. The loop of a turn
-- is structural in the number of iterations that are left, `max_model_iterations` at the start, and
-- the others go through lists, so no fuel is added. The client that reads a file page by page has
-- fuel, one more than the bytes of the file, which is enough since every page but the last moves on;
-- the search for the start of a preview has the bytes that are left, and Tui/Previews shows that it
-- ends at the boundary of a character. The runtime carries a trace, which the source has
-- not: what was executed and shown to observers, each with the log at that moment. The ledger carries
-- the envelopes that were synced.
--
-- Not modelled: asynchronous scheduling (one step of a runtime at a time), the opening of the event
-- store's file, rule files, the processes and the sandbox of the process executor, and the crates for
-- filesystem context, the transport and the requests of the provider, the app server, the screen of the
-- terminal and evaluation.
pub mod Prelude
pub mod Core
pub mod TaskLedger
pub mod Tui
pub mod Task
pub mod Memory
pub mod Process
pub mod Provider
