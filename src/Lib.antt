-- ===== src/Lib.antt =====
-- A verification library for fanzloud: a control plane for coding sessions that run as Codex Cloud
-- tasks. It models the logic of its crates, and states what their users rely on.
--
-- The program. crates/codebox-domain has the events of a session and the reducer that replays them.
-- crates/codebox-agent-codex runs Codex Cloud tasks and keeps the durable lifecycle of the current
-- submit. crates/codebox-session-runtime keeps one session at run time: a worker thread starts and
-- polls the cloud task, callers start and cancel turns, and every change is an event that
-- subscribers replay and then receive live. apps/control-plane serves that over HTTP and WebSocket.
--
-- The files.
--   Base, Base/Lists, Base/Outcome, Base/Tests: notation, results that carry an error, Boolean
--     tests, and the lemmas the parts share.
--   Domain/Sequence and Domain/Event: sequence.rs, id.rs, error.rs and event.rs of the domain.
--   Domain/Path: path.rs, the normalization of a workspace path, on its bytes; Path/Normal, Path/Again
--     and Path/Drive hold the proofs.
--   Domain/Reducer: reducer.rs, a function from a reducer and an event to a reducer or an error.
--     Reducer/Invariant, Reducer/Machine and Reducer/Replay hold the proofs.
--   Cloud/Lifecycle: the lifecycle values of cloud_lifecycle_types.rs, which the runtime receives.
--   Cloud/TaskId: the task identifiers of cloud.rs. Cloud/Ledger and Ledger/Check: the durable record of
--     cloud_lifecycle_ledger.rs, its methods, and `validate` and `lifecycle`. The
--     proofs are on its validity (Ledger/Validity, Transitions), on what it stands for
--     (Ledger/Projected), and on how its changes look to the runtime (Ledger/Accepted).
--   Session/Types, Session/Error, Session/Config: types.rs, error.rs and config.rs of the runtime.
--   Session/State to Session/Monitor: runtime.rs of the runtime. `RuntimeState` is the state under
--     the mutex. Each section that the code runs under the lock is one function on it: `start_turn`,
--     `cancel_begin` and `cancel_resume` for `cancel_turn`, `reconcile_begin` and
--     `reconcile_finish`, `resolve_begin` and `resolve_finish`, `subscribe`, `receive`, `shutdown`
--     (Session/Calls, Subscribe, Cancel); `next_worker_action`, `admit_start`,
--     `handle_start_result`, `handle_monitor_result` and `commit_worker_cancel` for the worker
--     (Session/Worker, Monitor).
--   Session/System: the interleavings of these sections as a step relation.
--   Session/Stream, Projection, Admission and Races: the proofs on the event stream, on the
--     lifecycle of a turn, on the acceptance of turns, and on two races. Stream/Laws says what of the
--     stream a section keeps, Stream/Methods, Thread and Observe that each does, for whatever property
--     `append_event` and `close_subscribers` keep; Stream/Writes and Sound have the whole stream as such
--     a property, and Stream/Backlog, Stream/Turns and Session/Watch what one receiver has yet to get.
--   Cloud/Prompt: the prompts of cloud.rs.
--   Control/Request: what apps/control-plane/src/types.rs, transport.rs and error.rs say of requests,
--     cached responses and errors. Control/Entries and Control/Registry: idempotency.rs there, the
--     registry of requests that are served once for a key; the proofs are in Control/Entries/Lookup,
--     Registry/Invariant, Eviction, Survival, Retained, Operations, System, Admission and Completion.
--   Control/Bytes, Cookie, HttpConfig, ApiErrors and Transport: the comparison of secrets and the
--     cookie header of state.rs there, and its config.rs, error.rs and transport.rs.
--   Control/AppSessions: the operator's sessions of state.rs, `AppSessionRegistry` and the methods
--     that work on it; AppSessions/Issue has `create_app_session`, and AppSessions/Calls any sequence
--     of these methods. The proofs are in Sound, Methods, Pruned, Access, Logout and Grant.
--   Control/Lifecycle: `Lifecycle` and the shutdown of state.rs, whose callers are a list of places
--     at which each of them waits, with what the condition variable has notified; the proofs are in
--     Lifecycle/Counts, Phases, Orderly, Heard, Moves, Ended and Drained.
--   Control/Mutation: `execute_mutation` of state.rs over the ports.
--   Control/Http and Control/Routes: routes.rs, the checks of a request and the handlers, which take
--     the state to a state and a response; Routes/Run has `run_prepared` and Routes/Handlers the
--     handlers. Routes/Admitted, Routes/Executed and Routes/Settled hold
--     the proofs.
--   Control/WebSocket: websocket.rs and the subscription of ports.rs. `run_socket` takes what one
--     socket meets, a `Meeting`, to the frames that it sends: WebSocket/Replay prepares the replay,
--     WebSocket/Live streams it and what follows, and WebSocket/Serve is what comes before and after.
--     The proofs are in Live/Order, Live/Delivery, Live/Watch, Serve/Request, Serve/Farewell and
--     Serve/Granted.
--
-- How the code is read. Identifiers are natural numbers, and a fresh one is an argument; times are
-- nanoseconds, and the time that the code reads is an argument. What a lower call of the cloud
-- adapter returns is an argument too, so that the theorems hold whatever it returns. A `u64`
-- counter is a natural number with the code's checked addition written out. A subscriber's channel
-- is its queue with the two ends' flags: the sender's is `registered`, the receiver's `receiving`;
-- a subscriber that the code removes from its map stays in the list, not registered, since its
-- receiver still reads the queue. The loop of `cancel_turn` on the lower call has a step for each
-- round. The two loops of the registry that remove entries run on fuel, one more than the entries,
-- which is enough since each round removes one. The registry's map is a list of pairs.
--
-- A socket's waits, its writes and the turns of its loop are lists of what each meets, and where such
-- a list ends the socket is still being served.
--
-- Third parties are parameters: the encoding of JSON and of base64, the decoding of bodies and
-- frames, the parsers of URLs and UUIDs, which bytes a header may hold, and the source of entropy.
-- The login broker is behind a record of operations, `Ports`.
--
-- The condition variable of the control plane's lifecycle is modelled: a caller that waits is notified
-- by `notify_all`, and wakes only then, or spuriously by an event of its own. Those of the session, and
-- the waking of requests that wait for a response, are not: their waits are steps that may come at
-- any time.
--
-- Not modelled: poisoned locks, the join of the worker thread
-- in `shutdown`, the clearing of the tables at the end of a shutdown, the constructors that wire the
-- cloud adapter and the control plane, the binding to axum and the upgrade of a request, formatting,
-- and the parts that the manifest lists as not modelled, among them the cloud adapter's processes,
-- the ledgers' files and the login broker.
mod Base
pub mod Domain
pub mod Cloud
pub mod Session
pub mod Control
