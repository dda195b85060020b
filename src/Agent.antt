-- ===== src/Agent.antt =====
-- openhands-sdk/openhands/sdk/agent/agent.py and the event callback of hooks/conversation_hooks.py:
-- one step of the agent. What the agent calls (the LLM, the tools, the hook scripts, pydantic and
-- json) is a record of functions; a call may depend on the events so far, since no two calls see
-- the same ones. Critics, logging and tracing are left out.
pub mod Env
pub mod Calls
pub mod Execute
pub mod Sample
pub mod Stored
pub mod Results
pub mod Called
pub mod Waiting
pub mod Errors
