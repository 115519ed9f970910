-- ===== src/Lib.antt =====
-- A model of pilot-langgraph: LangGraph handlers that run on remote peers over the streams of a
-- local Pilot daemon. A worker (src/pilot_langgraph/server.py) accepts streams, checks each call
-- against the ACL and the limits of its handler, runs it through middleware and answers in frames;
-- checkpoint handlers (src/pilot_langgraph/checkpoint_worker.py) are registered on such a worker.
-- Both ends speak to the daemon over one socket (src/pilot_langgraph/asyncio_client.py) in the
-- binary protocol of src/pilot_langgraph/_ipc.py.
--
-- Prelude: the shared names of the libraries, tests on numbers, lists measured by native numbers,
-- Python's dict (Prelude/Dicts), exceptions as values (Prelude/Result).
--
-- Ipc (src/pilot_langgraph/_ipc.py): Bytes holds the parts of `bytes` and `struct` that the code
-- uses; Address is `Addr`; Encode the commands and the encoders; Parse the parsers; Events
-- `encode_event` and `split_events`. A byte string is a list of numbers, and `struct.error` is a
-- value. UTF-8 is a parameter, the record Utf8, of which only decode(encode(t)) = t is used. The
-- loop of `split_events` runs on the length of the buffer as fuel, and takes at least six bytes in
-- each turn; the digits of a number run on the number itself as fuel.
--
-- Json: the JSON values of the wire, with natural numbers.
--
-- Server (src/pilot_langgraph/server.py): Types holds contexts, handlers, registrations and
-- frames; Stats is `_Stats`; RateLimiter is `_RateLimiter`; Invoke is `_invoke_handler`,
-- `_through_middleware` and `_drive`; Registry is the table of handlers of `WorkerServer`, with
-- registrations in a heap, since a call in flight keeps one that the table has dropped; Request is
-- the loop of `_handle_one` that reads the request; Dispatch is `_handle_one` from the parsed
-- request on, as `admit` (up to the semaphore), `run_drive` (the frames that the handler's part
-- sends) and `finish` (the counters and the error frame); Calls interleaves the calls of a worker,
-- each a `let_in` or `turn_away` step and an `end_call` step, with registrations and reloads. User
-- code is any function from a payload to a result, an exception or the values of a generator;
-- middleware is any coroutine function, which may call the next one any number of times, or a
-- function that cannot await it. The fuel of `next` is one more than the number of middleware, and
-- every call of it moves the shared index. Times are whole ticks and latencies whole microseconds,
-- so `percentile` is in hundredths of a millisecond.
--
-- Checkpoint (src/pilot_langgraph/checkpoint_worker.py): Requests are the payloads with their
-- fields read out; Memory is `_CheckpointStore`; Sqlite is `_SqliteCheckpointStore`, its tables as
-- rows in the order of `seq` and its queries as SQLite documents them; Agree relates the two;
-- Retry is about repeated requests.
--
-- Client (src/pilot_langgraph/asyncio_client.py): Connection holds the tables of `PilotConnection`
-- and what its read loop and its callers do to them, Connection/Loop the framing and the loop over
-- the bytes of the socket (each frame takes five bytes at least, so a fuel above their number is
-- enough); Stream is `Stream.write` and `Stream.read_until_eof`. The chunks of `write` run on the
-- length of the data as fuel, of which each chunk takes some. Runnable
-- (src/pilot_langgraph/runnables.py) is what a call of a remote handler reads and how it retries,
-- with `json.loads` as a parameter; its loop over lines runs on the length of the buffer as fuel,
-- and each line takes its newline. Errors is src/pilot_langgraph/errors.py. Saver
-- (src/pilot_langgraph/checkpoint.py) is what the checkpoint saver sends and reads, with the
-- serializer as a parameter.
--
-- Streaming is `PilotRemoteRunnable.astream`; Calls is its `ainvoke` around the attempts, with
-- callbacks and validation, and the fan-out; Pool is the registry of connections; Discover is
-- `adiscover`; Echo is the peers and the echo. All five are of src/pilot_langgraph/runnables.py.
--
-- Channel (src/pilot_langgraph/channel.py): subscriptions, publishers and the event source. What a
-- stream still gives is a list of reads: bytes, a silence or a deadline that has passed.
--
-- Server/Lifecycle is `serve_forever` with its drain and periodic tasks, as a machine over the
-- events that the event loop brings, the loss of the daemon among them. A call that the drain has
-- cancelled is waited for until it ends; a periodic task is taken to end when it is cancelled.
-- Server/Introspect is the answers of `_health` and `_handlers`.
--
-- Worker: the start and the reload of src/pilot_langgraph/worker.py, the rendering of
-- src/pilot_langgraph/metrics.py, the helper of src/pilot_langgraph/testing.py, the trust
-- bootstrap of src/pilot_langgraph/trust.py, and the router and the answers of `pilotctl` of
-- src/pilot_langgraph/transport.py, with src/pilot_langgraph/wire.py.
--
-- Examples applies the theorems to concrete inputs.
--
-- Not modelled: sockets, event loops and threads, logging and tracing, the texts of error replies
-- (they are values with the data that they show), `pilotctl` and its processes, and the command
-- line.
pub mod Prelude
pub mod Ipc
pub mod Json
pub mod Server
pub mod Checkpoint
pub mod Examples
pub mod Client
pub mod Channel
pub mod Worker
