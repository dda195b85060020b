-- ===== src/Agent/Execute.antt =====
-- `_execute_action_event` and `_execute_actions` of agent.py.
use codex_latest.Prelude.{
  String, Bool, true, false, Option, none, some, List, [], ◌∷◌, lookup, string_eq, ◌==◌,
}
use codex_latest.Event.{Event, ActionEvent, Source, observation, user_reject, agent_error}
use codex_latest.Conversation.{State, finished, with_status, pop_blocked_action}
use codex_latest.Agent.Env.{Env, Tool, ToolResult, observed, value_error, crashed, on_event}

-- The state when a method returns, or when an exception leaves it.
pub data Stepped (X : Type 0) : Type 0 where
  ok raised : State X → Stepped X

module _ {X : Type 0} where
  abbrev pub then_do : (State X → Stepped X) → Stepped X → Stepped X
  then_do f (ok s) = f s
  then_do f (raised s) = raised s

module _ {X : Type 0} (env : Env X) where
  abbrev pub rejection : ActionEvent X → String → List (Event X) → Event X
  rejection a reason events = user_reject (record {
    id = env.new_id events;
    source = Source.environment;
    tool_name = a.tool_name;
    tool_call_id = a.tool_call_id;
    rejection_reason = reason;
    action_id = a.id;
  })

  -- The code reads the id of the call from `action_event.tool_call`; where an action is made, it is
  -- that of the field `tool_call_id` too.
  abbrev pub result : ActionEvent X → X → List (Event X) → Event X
  result a content events = observation (record {
    id = env.new_id events;
    source = Source.environment;
    tool_name = a.tool_name;
    tool_call_id = a.tool_call_id;
    observation = content;
    action_id = a.id;
  })

  abbrev pub execution_error : ActionEvent X → String → List (Event X) → Event X
  execution_error a text events = agent_error (record {
    id = env.new_id events;
    source = Source.agent;
    tool_name = a.tool_name;
    tool_call_id = a.tool_call_id;
    error = text;
  })

  abbrev pub finish_if : Bool → State X → State X
  finish_if true s = with_status finished s
  finish_if false s = s

  -- What follows the call of the tool.
  unfoldable pub record_result : ActionEvent X → ToolResult X → State X → Stepped X
  record_result a (observed content) s =
      ok (finish_if (a.tool_name == "finish") (on_event env (result a content s.events) s))
  record_result a (value_error text) s = ok (on_event env (execution_error a text s.events) s)
  record_result a crashed s = raised s

  unfoldable pub run_tool : ActionEvent X → Option (Tool X) → State X → Stepped X
  unfolding record_result
  run_tool a none s = raised s
  run_tool a (some tool) s = record_result a (tool.call a s.events) s

  unfoldable pub unless_blocked : ActionEvent X → Option String × State X → Stepped X
  unfolding run_tool
  unless_blocked a (some reason, s) = ok (on_event env (rejection a reason s.events) s)
  unless_blocked a (none, s) = run_tool a (lookup env.tools a.tool_name) s

  unfoldable pub execute_action_event : ActionEvent X → State X → Stepped X
  unfolding unless_blocked
  execute_action_event a s = unless_blocked a (pop_blocked_action a.id s)

  unfoldable pub execute_actions : List (ActionEvent X) → State X → Stepped X
  unfolding execute_action_event
  execute_actions [] s = ok s
  execute_actions (a ∷ actions) s =
      then_do (λ t. execute_actions actions t) (execute_action_event a s)
