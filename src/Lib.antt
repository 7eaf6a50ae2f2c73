-- ===== src/Lib.antt =====
-- lucyd is a daemon that runs an AI agent over a message queue. A message is taken off the inbox
-- (lucyd.py), passes the guardrails (guardrails.py) and the pipeline (pipeline.py), which finds the
-- contact's session (session.py), adds the text, runs the agentic loop (agentic.py) with a provider
-- (providers/) and the tools (tools/), persists what the loop added, and now and then compacts or
-- closes the session.
--
-- Which file models which part:
--
--   Base, Base/*: shared names; lists by native numbers, dicts as association lists, strings as
--     lists of code points.
--   Message: messages.py and the shared types of providers/__init__.py.
--   Store, Store/Rows: the tables sessions.sessions, sessions.messages and sessions.events as
--     lists of rows, and the SQL statements that session.py runs on them.
--   Session: class Session of session.py. Each method is a function from the tables and the
--     session to both. Session/Sync: rows against messages. Session/Repair: the repair after a
--     crash. Session/Turns: which lists of messages _validate_turn_structure accepts.
--     Session/Isolation: one session against the others. Session/Compact, Session/Compact/*:
--     SessionManager.compact_session.
--   Manager, Manager/*: class SessionManager of session.py: the loaded sessions and the tables are
--     the record World.
--   Agentic/Retry, Agentic/Retry/Attempts: _call_provider_with_retry and is_transient_error of
--     agentic.py.
--   Agentic/Env, Agentic/Loop and their children: run_agentic_loop and run_single_shot of
--     agentic.py.
--   Pipeline, Pipeline/Rollback, Pipeline/Budget, Pipeline/Budget/Checked: the steps of class
--     MessagePipeline of pipeline.py that change a session. Pipeline/Reply: what is answered, and
--     which replies are silent. Pipeline/Process: process_message, the composition of the steps,
--     with its children Synced, Rolled and Kept on what it leaves of a session.
--   Knowledge, Knowledge/Keys, Knowledge/Unique, Knowledge/Forget: the facts of consolidation.py
--     and tools/memory_write.py. Knowledge/Harvest and its children: harvest_conversation of
--     operations.py, its watermark and the text it makes.
--   Indexer, Indexer/Cover: chunk_file of tools/indexer.py. Indexer/Tables and its children:
--     update_chunks, remove_stale_files and index_workspace.
--   Channels, Channels/Chunks: chunk_text of channels/telegram.py.
--   Providers, Providers/Events, Providers/Trace: format_messages of providers/_openai_wire.py and
--     providers/anthropic.py.
--   Files, Files/Confined, Files/Edits: write and edit of tools/filesystem.py, over a list of
--     files by their resolved paths.
--   Pdf, Pdf/Pages: _parse_page_range of tools/pdf.py.
--   Api, Api/Hits, Api/Window: the rate limiter of api.py.
--   Api/Requests, Api/Handlers, Api/Handled: the bodies and the handlers of api.py that feed the
--     queues. Api/Server, Api/Guarded: its middlewares.
--   Daemon and its children: the message loop of lucyd.py, with the resets.
--   Operations and its children: handle_compact, handle_session_reset and handle_maintain of
--     operations.py with maintain_state.py, and the harvest with process_message as its turn.
--   Web and its children: web_fetch of tools/web.py. Gdpr, Gdpr/Rows, Gdpr/Framed: gdpr_redact of
--     tools/gdpr.py.
--   Queue, Queue/Tiers: PriorityMessageQueue of lucyd.py.
--   Guardrails: guardrails.py.
--   Context: the cap on the system prompt of context.py. Recall, Recall/Chosen: inject_recall of
--     memory.py.
--   Tools, Tools/Truncate, Tools/Dispatch, Tools/Fitting: tools/__init__.py.
--   Examples, Examples/*: concrete inputs.
--
-- Loops: the rounds of the agentic loop and of the retries run on the number of rounds that Python's
-- range gives them. The binary search of _truncate_json runs on fuel, two more than the number of
-- items, and each round takes at least one size off the interval. The budget check makes the two
-- attempts of its range. chunk_file runs on the number of lines, since each round begins at least
-- one line further, and the cut of a long rest in chunk_text on its length. decimal runs on fuel one
-- above its number, which is more than its digits.
--
-- Parameters: the answers of the provider and of the tools, the metering of a call, float arithmetic
-- (costs, `int(n * 0.7)`), Python's str, int, float, repr and json on values, the tokenizer, the
-- clock, the texts of the configuration, the identifiers of new sessions, the predicates of the
-- guardrails, SHA-256, str.splitlines, the parsing and resolving of URLs, HTML parsing and the
-- servers, the resolution of paths and the permissions of files and the embedding API.
-- process_message takes the preprocessors and attachments, and harvest_conversation, as functions;
-- harvest_conversation takes its turn of the agent as one. The limiter's clock counts in natural
-- numbers. The message loop takes what the queues give in each of its turns; it and the operations
-- take process_message as a function, except in Operations/Harvested.
--
-- Not modelled: exceptions that process_message lets out of the database (they end the message loop;
-- of a harvest they are a parameter), the ValueError of the strict zip in cache_embeddings, logging,
-- metrics, timing and backoff, locks (each message holds the lock of its session), close callbacks,
-- the building of the system prompt, the monitor and the events of a stream, the rest of the daemon,
-- the read-only handlers and the streams of the HTTP API, the mechanical maintenance, the network
-- side of the channels, plugins, memory search, episodes, the SDK calls of the providers and the
-- other tools, which are I/O or calls of libraries.
pub mod Base
pub mod Message
pub mod Store
pub mod Session
pub mod Manager
pub mod Agentic
pub mod Pipeline
pub mod Queue
pub mod Guardrails
pub mod Context
pub mod Recall
pub mod Tools
pub mod Knowledge
pub mod Channels
pub mod Indexer
pub mod Providers
pub mod Api
pub mod Files
pub mod Daemon
pub mod Operations
pub mod Web
pub mod Gdpr
pub mod Pdf
pub mod Examples
