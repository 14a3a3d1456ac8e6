-- ===== src/Lib.antt =====
-- Rayo: the Rust core of a Python web framework, verified.
--
-- A request goes through these parts. The server (crates/server) accepts connections and asks the
-- service (crates/core) for a response. The service looks the path up (crates/router), converts the
-- path parameters to keyword arguments, and runs the handler: a sync one on a blocking thread, an
-- async one as a task on one of several asyncio event loops (crates/dispatch), each with a thread.
-- The task steps the handler's coroutine, parks on the futures that it awaits, and sends the
-- response through a channel. Return values become bytes through the serializer (crates/schema).
--
-- The files, and the code that they model:
--
-- - Schema: crates/schema/src/lib.rs. Value is the Python objects that the serializer tells apart,
--   Escape is `write_json_string`, Write is `write_json` and `write_json_sequence`. Read is a
--   reader of JSON strings, and Json a reader of JSON texts, both independent of the code, for the
--   round trips. Accepts says which values are serialized.
-- - Dispatch: crates/dispatch/src/lib.rs. Types has the records and enums (TaskState, HandlerTask,
--   StepOutcome, ParkOutcome, CompletionKind, ResponseChannel; LoopHandles and EventLoop are one
--   record), Channel the response channel with the in-flight gauge, Respond the responses of return
--   values and errors, Traverse `__traverse__`, Finish `finish` and `dispose`, Step `start`,
--   `park_on_future` and `step_once`, Cancel the cancellation, Turn `__call__`, Accessors the rest of the task protocol,
--   Loop `EventLoop::schedule`, `cancel_in_flight`, `stop` and `DispatchedRequest`, and Pool the
--   `EventLoopPool`. Later, Acts, Progress and Soundness are the proofs: Later has the
--   order in which a loop's states may follow each other, Acts what other code may do in between,
--   Progress goes through the operations, and Soundness is about histories of them.
--   Turn/Throws is about the turn behind a cancellation, and Trace has an interpreter that writes
--   down the calls that the crate makes (Grows, Started and Thrown lead to what that turn throws).
-- - Router: crates/router/src/lib.rs.
-- - Core: crates/core/src/lib.rs. Params has the parameter kinds, the parsers and the 422, Kwargs
--   `convert_and_insert` and `build_kwargs`, Service `AppService::handle`, Startup `start_server`
--   (Registered, Routed and Serves follow a route from there to a request), Shutdown
--   `shutdown_impl` and the ways into it.
-- - Server: crates/server/src/lib.rs, the accept loop and the wait for the connections.
-- - Base: what the others share. Examples: runs of the model, and the theorems at concrete inputs.
--
-- How state and effects are modelled. An event loop is a record with its tasks (by a number in place
-- of the pointer), its registry, its gauge and the state of the Python interpreter; the code's
-- methods are functions in a state monad on it, one call or one lock section after the other. Each
-- call of Python is a parameter (`Python` in Dispatch/Python.antt): any object, any exception, and
-- any change of the loop that other code can make through the crate's own entry points, at their
-- lock sections (`Lawful` in Dispatch/Acts.antt). So a handler that cancels its own or another task,
-- a callback that schedules requests, and other threads that interleave are all included. While a
-- loop's thread is being joined it may take any number of further turns.
--
-- Bounds and fuel. A `usize` wraps at 2 ^ 64 and the `u32` cancellation counter at 2 ^ 32, as in a
-- release build. The scan of the pool takes as many rounds as there are loops. All recursion is on
-- lists or trees but that of the reader, whose fuel is more than the text is long, and of the
-- decimal print, which is well founded.
--
-- What is a parameter: CPython and asyncio (as above), the `matchit` radix tree (`Matchit` in
-- Router.antt, with two facts: an empty tree finds nothing, and an insertion adds no other handler;
-- `StaticFirst` in Router/Static.antt has what it documents of routes without parameters),
-- the class of the exception that PyO3 makes for a cancellation (`MakesCancelled` in
-- Dispatch/Turn/Throws.antt), the parser and the printer of floats, the Tokio runtime's waits and
-- the conversion of seconds to a duration (`Runtime` in Core/Shutdown.antt; the wait for a signal may
-- have no end), hyper-util's `GracefulShutdown` (`is_drained` in Server.antt), and what the system
-- answers at start-up (`Host`, `Network`). The standard library's `parse::<i64>` and decimal print
-- are written out.
--
-- What is not modelled: the text of log and error messages other than the 422's and the router's,
-- HTTP itself (hyper), the module's registration with PyO3, and the Python package.
pub mod Base
pub mod Schema
pub mod Dispatch
pub mod Router
pub mod Core
pub mod Server
pub mod Examples
