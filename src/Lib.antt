-- ===== src/Lib.antt =====
-- A model of hyprland-agent, a desktop agent for the Hyprland compositor: a daemon takes tasks,
-- asks a language model for actions, and executes them behind safety gates.
--
-- The parts and their files:
-- - Schemas: the data types of `src/agent/schemas.py`.
-- - Safety: `src/agent/safety`. RateLimit is `RateLimiter` (`rate_limit.py`); Sanitize and Pattern
--   are `sanitize_command` with its regular expressions (`rate_limit.py`); Allowlist and Glob are
--   `is_allowed` (`allowlist.py`); Confirm is `is_destructive_dispatch` (`confirm.py`).
-- - Config: `src/agent/config.py`, with Yaml for the values of the file, Providers and Sections for
--   the sections and Load for the whole; Router is `src/agent/brain/router.py` with `build_brain`
--   of `src/agent/brain/openai_brain.py`, which takes the configuration.
-- - Brain: `src/agent/brain`. Compact is `_common.py`; ActionMap is `_action_map.py`; Tools and
--   Calls are the tool tables and the tool calls of `claude.py` and `openai_brain.py`, whose
--   actions the handlers of Orchestrator take; Claude and Compatible are the loops of the two.
-- - Integrations: the registry of `src/agent/integrations/__init__.py`.
-- - Orchestrator: `src/agent/orchestrator.py`. Processes and Tree are `_process_tree_contains`;
--   Actions and Perform are `_execute_action`; Run is `_build_state`, `plan` and `run`, and Course the
--   loop of `run` over the actions. It calls
--   the gates of Safety and the detector of Awareness.
-- - Awareness: `src/agent/awareness`, the loop detector, the verifier and the working memory.
-- - Daemon: `src/agent/daemon`. PubSub is the bus (`pubsub.py`); Store is the run store
--   (`store.py`), its tables and its cache, and Learned its tables on learning; Executor is
--   `RunExecutor` (`run_executor.py`), which writes to the store; Rules is the rule runner
--   (`rule_runner.py`); Server is the connection handler (`server.py`) with the version test of
--   `src/agent/ipc/protocol.py`, and it subscribes to the bus. The reader is modelled up to what it
--   puts on the outbound queue; the writer is seen only by the stop event that it sets.
-- - Learning: `src/agent/learning`. Api is `api.py`, on the tables of Daemon.Learned; Miner is
--   `AllowlistMiner` (`allowlist.py`), from the misses of Safety.Allowlist to these tables.
-- - Voice: `src/agent/voice`. RingBuffer is `ring_buffer.py`; Pipeline is the state machine of
--   `pipeline.py`, with Reach for its steps as a relation. The audio thread and the event loop share
--   its fields without a lock: a callback may come between two writes of a coroutine, but here no
--   write falls into the middle of a callback.
-- - Prelude: lists, texts, dicts and bounded queues that the parts share.
--
-- Conventions. A text is the list of its code points; a time is a number of nanoseconds; a dict is
-- the list of its entries in insertion order. State is passed explicitly. What the outside answers
-- (the clock, the compositor, tools, files, the user, the brain, the stop flag) is an argument:
-- `Answers` for one action, `Session` for a run, `Desk` for a tool call of the model. The client of
-- the model is a function from the number of the request and its messages. An exception is a value
-- of `Reply`, and a `KeyError` or an integrity error of the database is `none`. The loop over the
-- process tree has fuel two more than the number of processes, which is proved to be enough; all
-- other loops are structural, the loop of the brain on its 20 iterations. Coordinates and amounts
-- are whole numbers, a real number of the configuration is a NaN, infinite or a number of billionths, and the scale factor of the screenshots is 2.
--
-- Not modelled: terminal programs, the text interface, the client and the command line, the texts
-- of prompts, speech and audio devices, the embedding model and the vector queries, the desktop
-- programs, diagnostics and packaging: they are input and output or calls of other libraries.
-- Logging, printing and pauses have no counterpart. The matching of `fnmatch` is modelled after the
-- documentation of the standard library, and lower case is that of the ASCII letters.
pub mod Awareness
pub mod Brain
pub mod Config
pub mod Daemon
pub mod Integrations
pub mod Learning
pub mod Orchestrator
pub mod Prelude
pub mod Safety
pub mod Schemas
pub mod Voice
