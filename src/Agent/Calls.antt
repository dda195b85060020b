-- ===== src/Agent/Calls.antt =====
-- `_get_action_event` of agent.py: a tool call of the LLM becomes an action, or an error.
use codex_latest.Prelude.{
  String, Bool, true, false, Option, none, some, List, [], ◌∷◌, Dict, lookup, string_eq, ◌==◌,
  if◌then◌else◌,
}
use codex_latest.Event.{Event, ActionEvent, Source, action, agent_error}
use codex_latest.Security.{SecurityRisk, unknown, low, medium, high}
use codex_latest.Conversation.{State, Analyzer, remove_key}
use codex_latest.Agent.Env.{
  Env, Tool, ToolCall, Json, null, string, decode_error, no_object, object, on_event,
}

-- `risk.SecurityRisk(raw)`; `none` is a `ValueError`.
unfoldable pub parse_risk : Json → Option SecurityRisk
parse_risk (string raw) =
    if raw == "UNKNOWN"
    then some unknown
    else if raw == "LOW"
    then some low
    else if raw == "MEDIUM"
    then some medium
    else if raw == "HIGH"
    then some high
    else none
parse_risk raw = none

-- `arguments.pop("security_risk", None)`, as the value that is not `None`.
abbrev pub present : Option Json → Option Json
present (some null) = none
present raw = raw

unfoldable pub extract_security_risk :
    (read_only requires_sr : Bool) (raw : Option Json) → Option SecurityRisk
unfolding parse_risk
extract_security_risk true requires_sr raw = some unknown
extract_security_risk false true none = none
extract_security_risk false false none = some unknown
extract_security_risk false requires_sr (some raw) = parse_risk raw

-- A call that is parsed: an action and its risk, one of the exceptions that are handled, or one
-- that is not.
pub data Parsed (X : Type 0) : Type 0 where
  valid : X → SecurityRisk → Parsed X
  invalid unhandled : Parsed X

-- What only the first action of a response carries.
pub record Thought (X : Type 0) : Type 0 where
  pub thought : List X
  pub thinking_blocks : List X

-- What the calls of a response have led to: actions and a state, or an exception.
pub data Called (X : Type 0) : Type 0 where
  called : List (ActionEvent X) → State X → Called X
  broken : State X → Called X

module _ {X : Type 0} (env : Env X) where
  abbrev pub requires_security_risk : Option (Analyzer X) → Bool
  requires_security_risk none = false
  requires_security_risk (some analyzer) = analyzer.is_llm_analyzer

  -- The `try` block, from the arguments to the action and its risk.
  unfoldable pub validate : Bool → Tool X → Dict String Json → Parsed X
  unfolding extract_security_risk
  validate requires_sr tool arguments =
      let rest = remove_key "summary" (remove_key "security_risk" arguments) in
      let raw = present (lookup arguments "security_risk") in
      elim (extract_security_risk tool.read_only requires_sr raw) [
        | none ↦ invalid
        | some risk ↦ elim (tool.validated rest) [
          | none ↦ invalid
          | some content ↦ valid content risk
        ]
      ]

  -- A value that is no object has no `pop`: the exception is not handled.
  unfoldable pub parse_call : Bool → ToolCall → Parsed X
  unfolding validate
  parse_call requires_sr c = elim (lookup env.tools c.name) [
    | none ↦ invalid
    | some tool ↦ elim (env.loads c.arguments) [
      | decode_error ↦ invalid
      | no_object ↦ unhandled
      | object arguments ↦ validate requires_sr tool arguments
    ]
  ]

  abbrev pub action_event :
      String → Thought X → ToolCall → Option X → SecurityRisk → List (Event X) → ActionEvent X
  action_event llm_response_id t c content risk events = record {
    id = env.new_id events;
    source = Source.agent;
    thought = t.thought;
    thinking_blocks = t.thinking_blocks;
    action = content;
    tool_name = c.name;
    tool_call_id = c.id;
    llm_response_id = llm_response_id;
    security_risk = risk;
  }

  abbrev pub error_event : ToolCall → List (Event X) → Event X
  error_event c events = agent_error (record {
    id = env.new_id events;
    source = Source.agent;
    tool_name = c.name;
    tool_call_id = c.id;
    error = env.error_text c;
  })

  -- What a parsed call leaves. One that is not valid leaves its action, without content, and an
  -- error; `none` is the exception that is not handled, which leaves nothing.
  unfoldable pub record_call :
      String → Thought X → ToolCall → Parsed X → State X → Option (Option (ActionEvent X) × State X)
  record_call llm_response_id t c invalid s =
      let called =
        on_event env (action (action_event llm_response_id t c none unknown s.events)) s in
      some (none, on_event env (error_event c called.events) called)
  record_call llm_response_id t c unhandled s = none
  record_call llm_response_id t c (valid content risk) s =
      let a = action_event llm_response_id t c (some content) risk s.events in
      some (some a, on_event env (action a) s)

  unfoldable pub get_action_event :
      String → Thought X → ToolCall → State X → Option (Option (ActionEvent X) × State X)
  unfolding parse_call record_call
  get_action_event llm_response_id t c s =
      record_call llm_response_id t c (parse_call (requires_security_risk s.security_analyzer) c) s

  abbrev pub cons_event : Option (ActionEvent X) → Called X → Called X
  cons_event none r = r
  cons_event (some a) (called actions s) = called (a ∷ actions) s
  cons_event (some a) (broken s) = broken s

  -- The loop over the tool calls; the thought goes to the first one.
  unfoldable pub get_action_events : String → Thought X → List ToolCall → State X → Called X
  unfolding get_action_event
  get_action_events llm_response_id t [] s = called [] s
  get_action_events llm_response_id t (c ∷ calls) s =
      elim (get_action_event llm_response_id t c s) [
        | none ↦ broken s
        | some (a, next) ↦ cons_event a (
            get_action_events llm_response_id (record { thought = []; thinking_blocks = [] }) calls
              next)
      ]
