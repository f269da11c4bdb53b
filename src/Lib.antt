-- ===== src/Lib.antt =====
-- bullmq-rs, a Redis-backed job queue: producers add jobs (queue.rs, flow_producer.rs), workers take
-- them, run a handler and give them back (worker.rs), and all of them talk to Redis by commands and by
-- Lua scripts (scripts/). This library models the client's side: which requests it sends, in which
-- order, how it reads the answers, and what it does with every answer and every error.
--
-- Redis. An asynchronous function of the source is a function from an environment and the log of the
-- requests sent so far to a result and the longer log. The environment answers each request as it
-- likes, from the whole log: it stands for the server with its scripts (lua/), for other clients and
-- for the connection. Nothing is assumed of it but where a theorem says so. The clock, the Debug
-- printing of replies and the client library's conversions are fields of the environment; serde_json
-- is a record of encoders and decoders; the cron parser and the calendar are the record Cron.
--
-- The files and the code (paths from the repository's root):
--   Error               src/error.rs: BullmqError and Display; the Result type
--   Types               src/types.rs: State (JobState, its text), Options, Backoff (delays on 64-bit
--                       words, products wrapping as in a release build), Worker (worker options), Wire
--                       (the JSON form of job options, written and read, by the serde attributes),
--                       Builders (of options)
--   Redis               requests, replies, the Io type; Redis/Ends: postconditions for Io
--   Connection          src/connection.rs
--   Dict                std's HashMap and HashSet, as association lists and lists
--   Scripts             src/scripts/mod.rs and src/scripts/commands: one function for each command, with
--                       its keys and arguments, and one for the reading of its reply (Active, Finish,
--                       Adds, Upkeep, Locks, Schedulers, Repeats); Added (which requests add a job);
--                       Includes (resolve_includes), Loader (ScriptLoader::new)
--   Job                 src/job.rs: the record, Job::new; Job/Hash: to_redis_hash and from_redis_hash
--                       (Back, Restored: a job through its hash);
--                       Job/Active: the methods of a job with a connection (Place: where it is found,
--                       Told: what listeners learn); Job/Waiting: wait_until_finished, cleanup_job
--   Flow                src/flow_producer.rs: the tree and its counts; Prepare (prepare_node), Insert
--                       (queue_insert and the checks), Build (build_flow_node), Add (FlowProducer::add), Builder;
--                       Distinct and Accepted are about the preparation, Transaction, Atomic and Safety about the
--                       transaction, Tree about the tree that is returned
--   Repeat              src/repeat.rs
--   Worker              src/worker.rs: Machine (the main loop and its tasks as steps, see below), Fetch
--                       (a round of the fetch path, the background rounds), Handle (WorkerHandle,
--                       WorkerBuilder), Schedule (schedule_next_repeatable_job), Settle (the task of a
--                       job from its handler's outcome on), Departures (which requests give a job back),
--                       Pickup (what is made of a result, up to the job)
--   QueueEvents         src/queue_events.rs: the events and their parsing; Listen (the background loop),
--                       Stream (the loop over a stream), Encoded (the replies of XREAD);
--                       src/queue_events_producer.rs: Producer; Published (from producer to listener)
--   Queue               src/queue.rs: States (normalize_job_states), Add (add, dispatch_add, add_bulk),
--                       Loops (retry_jobs, promote_jobs, clean, pause, resume, obliterate),
--                       Listing (get_job_ids, get_job, get_jobs and its shorthands; Slices: ids as
--                       positions), Counts, Control (remove, drain, limits, logs, get_next_job),
--                       Scheduling (job schedulers, metrics) with Scheduling/Listed
--                       (get_job_schedulers), Builder (QueueBuilder)
--   Witnesses           concrete runs
--   Prelude, Text       shared names, lists, integers; the texts of numbers, lines and trimming
--
-- Numbers are natural numbers, with the wrap-around of machine words written out where the source
-- multiplies or counts without a check (products, attempts, the count of a scheduler), as in a release
-- build; a timestamp plus a delay is taken not to pass 64 bits. Recursion is
-- structural, and on accessibility for decimal digits. The loops of queue.rs run on fuel and tell when
-- it runs out: clean has fuel for as many rounds as jobs may be removed, and one more; the other loops
-- take theirs as an argument, since only the server's answers bound their rounds.
--
-- Worker/Machine has one step for each piece of the loop and of a task between two points where another
-- task can run: the reading of a flag, an attempt to receive or to send, an access to the set under its
-- lock, an atomic operation, an answer of the server. Steps of the loop, of all tasks and of the handle
-- interleave in any order. What the server may hand out is a relation on the worker's state. Semaphore
-- permits that acquire_many has collected one by one are taken as free until it has them all. A worker's
-- concurrency is taken to be below 2 ^ 61, as tokio's semaphore demands; acquire_many is asked for its
-- low 32 bits. A handle that is dropped closes both watch channels, which ends the waits on the shutdown
-- without its flag. The test of pause reads the counter and the permits in two states. The server may hand
-- out a job that this worker still holds: the scripts put a job back before its task unregisters it.
--
-- Not modelled: the Lua scripts (they run inside the server), the user's callbacks, the broadcast
-- channels (what is sent to them is a list), the grace period of a cancelled handler, lock expiry over
-- time, the debug-build hook of the flow producer, logging, and what the client library
-- does to open a connection, which is one request. A score that comes as a floating-point number is
-- read by a parameter. A JSON object has each name once, and an array in the place of an object, which
-- serde would read by positions, is a value of another kind, which is refused.
pub mod Connection
pub mod Prelude
pub mod Text
pub mod Error
pub mod Redis
pub mod Types
pub mod Dict
pub mod Scripts
pub mod Job
pub mod Flow
pub mod Repeat
pub mod Queue
pub mod Worker
pub mod QueueEvents
pub mod Witnesses
