-- ===== src/Tests/Agents.antt =====
-- The theorems about agent.py and conversation_hooks.py at a concrete agent.
use codex_latest.Prelude.{
  ℕ, ◌+◌, String, ◌≡◌, refl, true, false, none, some, List, [], ◌∷◌, ◌++◌, contains, lookup, all,
  reverse, string_eq, ◌==◌, if◌then◌else◌,
}
use codex_latest.Event.{Event, MessageEvent, action, message}
use codex_latest.Security.{
  always_confirm, never_confirm, ConfirmationPolicy, Checked, should_confirm,
}
use codex_latest.Conversation.{
  State, Status, running, waiting_for_confirmation, get_unmatched_actions, pop_blocked_message,
  pop_blocked_action, scan,
}
use codex_latest.Conversation.Pending.{pending, get_unmatched_actions-pending}
use codex_latest.Agent.Env.{
  Env, Tool, object, string, LlmResponse, response, observed, value_error, on_event,
}
use codex_latest.Agent.Calls.{get_action_events, parse_risk}
use codex_latest.Agent.Execute.{
  Stepped, ok, raised, execution_error, execute_action_event, execute_actions,
}
use codex_latest.Agent.Results.{AreResultsOf, KeepsOrFinishes, execute_actions-AreResultsOf}
use codex_latest.Agent.Called.{is_call_event, executables}
use codex_latest.Agent.Sample.{
  is_exempt_action, any_confirm, risks, last_user_message, requires_user_confirmation, step,
}
use codex_latest.Agent.Waiting.{step-Asks}
use codex_latest.Agent.Errors.{step_value_error-pending, pop_blocked_message-on_event}
use codex_latest.Tests.Histories.{a1, a2, a3, msg, before_cut}

-- The terminal finds no file for the call c3, and works for any other one.
abbrev pub terminal : Tool ℕ
terminal = record {
  read_only = false;
  validated = λ arguments. some 1;
  call = λ a events. if a.tool_call_id == "c3" then value_error "no such file" else observed 2;
}

-- The LLM calls the terminal once, and a tool that is not there.
abbrev pub calling : LlmResponse ℕ
calling = record {
  id = "r9";
  message = 7;
  thought = [];
  thinking_blocks = [];
  has_content = true;
  tool_calls =
      record { id = "c9"; name = "terminal"; arguments = "ls" }
      ∷ record { id = "c8"; name = "editor"; arguments = "ls" }
      ∷ [];
}

-- An id is made of the number of events.
abbrev pub id_after : List (Event ℕ) → String
id_after [] = "e0"
id_after (a ∷ []) = "e1"
id_after (a ∷ b ∷ []) = "e2"
id_after _ = "e3"

abbrev pub agent : Env ℕ
agent = record {
  tools = ("terminal", terminal) ∷ [];
  condenser = none;
  llm = λ history events. response calling;
  loads = λ text. object (("security_risk", string "LOW") ∷ []);
  is_exempt = λ content. false;
  emits_token_ids = false;
  new_id = id_after;
  pre_tool_use = λ a. none;
  user_prompt_submit = λ m.
      if m.id == "m9"
      then record { blocked = some "not now"; additional_context = some 4 }
      else record { blocked = none; additional_context = none };
  with_context = λ content context. content + context;
  extended_id = λ m. "m9x";
  error_text = λ c. "no such tool";
}

abbrev pub state : ConfirmationPolicy → Status → List (Event ℕ) → State ℕ
state policy status events = record {
  execution_status = status;
  events = events;
  blocked_actions = ("a2", "not allowed") ∷ [];
  blocked_messages = [];
  confirmation_policy = policy;
  security_analyzer =
      some (record { security_risk = λ a. some a.security_risk; is_llm_analyzer = true });
}

-- Two actions are pending; the hooks block the second one.
abbrev pub two_pending : List (Event ℕ)
two_pending = message (msg "m1") ∷ action a1 ∷ action a2 ∷ []

get_unmatched_actions-pending_example : get_unmatched_actions before_cut ≡ pending before_cut
get_unmatched_actions-pending_example = get_unmatched_actions-pending before_cut

abbrev pub two_running : State ℕ
two_running = state always_confirm running two_pending

abbrev pub state_of : Stepped ℕ → State ℕ
state_of (ok s) = s
state_of (raised s) = s

abbrev executed : State ℕ
executed = state_of (execute_actions agent (a1 ∷ a2 ∷ []) two_running)

executes : execute_actions agent (a1 ∷ a2 ∷ []) two_running ≡ ok executed
unfolding execute_actions execute_action_event pop_blocked_action lookup on_event
executes = refl

execute_actions-AreResultsOf_example :
    (new : List (Event ℕ)) × (executed.events ≡ two_pending ++ new)
    × AreResultsOf (a1 ∷ a2 ∷ []) new
    × KeepsOrFinishes two_running executed
execute_actions-AreResultsOf_example =
    execute_actions-AreResultsOf agent (a1 ∷ a2 ∷ []) two_running executed executes

-- The two calls are made, and the policy asks to confirm the one that is valid.
abbrev asking : State ℕ
asking = state always_confirm running (message (msg "m1") ∷ [])

abbrev asked : State ℕ
asked = state_of (step agent asking)

asks : step agent asking ≡ ok asked
unfolding step get_unmatched_actions scan last_user_message pop_blocked_message lookup
    get_action_events parse_risk is_exempt_action any_confirm risks on_event should_confirm
asks = refl

waits : asked.execution_status ≡ waiting_for_confirmation
unfolding step get_unmatched_actions scan last_user_message pop_blocked_message lookup
    get_action_events parse_risk is_exempt_action any_confirm risks on_event should_confirm
waits = refl

step-Asks_example :
    (get_unmatched_actions asking.events ≡ [])
    × ((new : List (Event ℕ)) × (asked.events ≡ asking.events ++ new)
        × (all is_call_event new ≡ true)
        × (get_unmatched_actions asked.events ≡ executables new)
        × (requires_user_confirmation agent asked (executables new) ≡ Checked.ok true))
step-Asks_example = step-Asks agent asking asked asks (λ p. cc p) waits

-- The terminal does not find the file of the third action.
abbrev pub failing : State ℕ
failing = state never_confirm running (message (msg "m1") ∷ action a3 ∷ [])

fails : get_unmatched_actions failing.events ≡ a3 ∷ []
unfolding get_unmatched_actions scan contains
fails = refl

not_blocked : lookup failing.blocked_actions "a3" ≡ none
unfolding lookup
not_blocked = refl

found : lookup agent.tools "terminal" ≡ some terminal
unfolding lookup
found = refl

step_value_error-pending_example :
    (t : State ℕ) × (step agent failing ≡ ok t)
    × (t.events ≡ failing.events ++ execution_error agent a3 "no such file" failing.events ∷ [])
    × (get_unmatched_actions t.events ≡ a3 ∷ [])
step_value_error-pending_example =
    step_value_error-pending agent a3 terminal "no such file" failing fails not_blocked found refl

free : lookup two_running.blocked_messages "m9x" ≡ none
unfolding lookup
free = refl

pop_blocked_message-on_event_example :
    let t = on_event agent (message (msg "m9")) two_running in
    (n : MessageEvent ℕ) × (last_user_message (reverse t.events) ≡ some n)
    × (n.llm_message ≡ (msg "m9").llm_message + 4)
    × (lookup t.blocked_messages "m9" ≡ some "not now")
    × ((pop_blocked_message n.id t).0 ≡ none)
pop_blocked_message-on_event_example =
    pop_blocked_message-on_event agent (msg "m9") "not now" 4 two_running refl refl refl free
