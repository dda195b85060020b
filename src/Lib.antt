-- ===== src/Lib.antt =====
-- A model of the core of the OpenHands SDK (openhands-sdk/openhands/sdk): what an agent's LLM sees
-- of the history of a conversation, how that history is condensed, when an action needs a
-- confirmation, what a step of the agent does, how a conversation runs and ends, when an agent
-- counts as stuck, the lock that guards a conversation, and the history that the file editor keeps.
--
-- The parts, and how they interact. A conversation is a list of events (event/), guarded by a lock
-- (conversation/fifo_lock.py). Before each LLM call the history becomes a view (context/view.py):
-- condensations in the history are applied, and events are dropped so that the actions of one
-- response stay together and calls match their results. A condenser (context/condenser) then
-- hands the view on, or makes a condensation, which is appended to the history and takes effect
-- in the next view. A step of the agent executes the actions that are pending, or asks the LLM and
-- executes the actions of its response or leaves them pending for a confirmation. The run loop
-- takes steps until the conversation is finished, paused, stuck or waiting; between two steps the
-- stuck detector reads the history, and other threads send messages, pause or reject.
--
-- - Security, Security/Laws: security/risk.py and security/confirmation_policy.py.
-- - Event, Event/Distinct: the event classes of event/, one constructor each, with the fields
--   that the modelled code reads. Contents (texts, thinking blocks, actions, observations) are
--   a type parameter.
-- - Condensation: `Condensation.apply` of event/condenser.py.
-- - View/Batch, View/Filter, View/Build: `ActionBatch`, `_enforce_batch_atomicity`,
--   `_filter_unmatched_tool_calls` and `from_events` of context/view.py. Python's sets are lists
--   that are only asked for membership, its dictionaries are association lists.
-- - View/Indices: `manipulation_indices` and `find_next_manipulation_index`. The loops over
--   ranges are recursion; the tool loop's recursion has the number of ranges as fuel, and each
--   round takes a range off the list.
-- - Condenser/Tokens: the binary search of context/condenser/utils.py, on fuel: the length of
--   the list, which bounds the distance of the two ends. The token count is a parameter.
-- - Condenser/Rolling: `RollingCondenser.condense`; Python's exceptions are values of a result
--   type. Condenser/Pipeline: `PipelineCondenser` and `NoOpCondenser`.
-- - Condenser/Summarizing: `LLMSummarizingCondenser`. Its LLM is a parameter, a function from the
--   forgotten events to a response or an exception, and so are the agent's token count and the
--   id of the new event. Token counts that raise are left out: `get_total_token_count` does when
--   `events_to_messages` finds a thought behind the first action of a response.
-- - Stuck: conversation/stuck_detector.py. Pydantic's `==` on events is a parameter. Stuck/Same,
--   Stuck/Last, Stuck/Monologue and Stuck/Alternation describe the patterns apart from the code:
--   by equations between events, the last entries of a kind, and a split of the events.
-- - Fifo: conversation/fifo_lock.py. A function stands for what a thread does under the mutex, from
--   a call or from waking up to the return or the next wait; Fifo/Steps has the step relation,
--   in which the threads take such steps in any order and wake up at any time.
-- - Truncate: `maybe_truncate` of utils/truncate.py.
-- - Conversation: the state and `get_unmatched_actions` of conversation/state.py; Conversation/Pending
--   has what is pending as a definition of its own.
-- - Agent: `step` of agent/agent.py and all that it calls there, with the event callback of
--   hooks/conversation_hooks.py. What is outside (the LLM, the tools, the hook scripts, json,
--   pydantic, fresh ids) is the record `Env` of Agent/Env: functions of the events so far, so
--   that each call may answer differently; what is made of a user message by a hook's context is
--   defined there. Tools and hooks do not change the conversation. A method returns the
--   state, with a mark when an exception left it.
-- - LocalConversation: `run` of conversation/impl/local_conversation.py and the methods that other
--   threads call meanwhile. The lock serves them between two turns of the loop, so a schedule
--   gives, for each turn, the requests served before it. The loop is on fuel, one unit for a turn;
--   LocalConversation/Ends shows which fuel is enough. `condense` is not among the requests: its
--   step would be one more step of the agent inside the loop. The handler of an
--   exception does not hold the lock: requests are served before it and within it.
-- - FileCache: FileCache of openhands-tools/openhands/tools/file_editor/utils/file_cache.py. The
--   directory is a list of files in the order of their times, the JSON size is a parameter; the
--   eviction loop has the number of files as fuel, and each round removes one.
-- - FileHistory: FileHistoryManager of utils/history.py beside it, which keeps the contents that an
--   edit replaces in such a cache. FileHistory/Entries and FileHistory/Stack read a cache as one
--   list of contents for each file.
-- - Paging: `page_iterator` of utils/paging.py, on fuel with one unit for a page, and the search and
--   the count of events in openhands-agent-server/openhands/agent_server/event_service.py.
-- - EventLog: `append`, `_scan_and_build_index` and `_sync_from_disk` of
--   conversation/event_store.py. A directory is the list of its files in the order in which they
--   were written, and any number of logs may write it, each under the lock.
-- - Tests: concrete histories, views and runs.
--
-- Not modelled: critics, logging and tracing, `ConversationState.__setattr__` (an assignment to a
-- field persists it, and calls a callback by which the agent server appends a
-- ConversationStateUpdateEvent to the events), rendering of events,
-- conversion to LLM messages, prompt templates, and the parts of the repository around the SDK
-- (the rest of the agent server, the workspaces, the other tools, the application under app/),
-- which serve the SDK over HTTP or call external programs.
pub mod Prelude
pub mod Security
pub mod Event
pub mod Condensation
pub mod View
pub mod Condenser
pub mod Stuck
pub mod Fifo
pub mod Truncate
pub mod Conversation
pub mod Agent
pub mod LocalConversation
pub mod FileCache
pub mod FileHistory
pub mod Paging
pub mod EventLog
pub mod Tests
