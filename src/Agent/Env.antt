-- ===== src/Agent/Env.antt =====
-- What the agent is made of and calls, and the callback that stores an event.
use codex_latest.Prelude.{String, Bool, Option, none, some, List, Dict, if◌then◌else◌}
use codex_latest.Event.{Event, ActionEvent, MessageEvent, Source, action, message}
use codex_latest.Stuck.{same_source}
use codex_latest.Condenser.Pipeline.{Condenser}
use codex_latest.Conversation.{State, append_event, block_action, block_message}

-- What a tool's executor does: it returns, or raises a `ValueError` or another exception.
pub data ToolResult (X : Type 0) : Type 0 where
  observed : X → ToolResult X
  value_error : String → ToolResult X
  crashed : ToolResult X

-- A JSON value of the arguments of a call: `null`, a string, or the text of another one.
pub data Json : Type 0 where
  null : Json
  string : String → Json
  json : String → Json

-- What `json.loads` makes of the arguments: a `JSONDecodeError`, a value that is no object, or an
-- object.
pub data Loaded : Type 0 where
  decode_error no_object : Loaded
  object : Dict String Json → Loaded

-- `validated` is `action_from_arguments` behind `fix_malformed_tool_arguments`; it does not see
-- the security risk and the summary.
pub record Tool (X : Type 0) : Type 0 where
  pub read_only : Bool
  pub validated : Dict String Json → Option X
  pub call : ActionEvent X → List (Event X) → ToolResult X

pub record ToolCall : Type 0 where
  pub id : String
  pub name : String
  pub arguments : String

pub record LlmResponse (X : Type 0) : Type 0 where
  pub id : String
  pub message : X
  pub thought : List X
  pub thinking_blocks : List X
  pub has_content : Bool
  pub tool_calls : List ToolCall

pub data Completion (X : Type 0) : Type 0 where
  response : LlmResponse X → Completion X
  malformed_call : X → Completion X
  context_window_exceeded : Completion X
  failed : Completion X

-- What the hooks say of a user message: why it is blocked, and the context that they add to it.
pub record PromptHooks (X : Type 0) : Type 0 where
  pub blocked : Option String
  pub additional_context : Option X

-- `is_exempt` tells a `FinishAction` or a `ThinkAction`; `loads` is `json.loads`; `new_id` is the
-- id of an event made after the given ones, and `extended_id` that of the event made in place of a
-- message, a fresh uuid4; `with_context` puts a context behind the extended content of a message.
-- `llm` gets the events so far and those of the view.
pub record Env (X : Type 0) : Type 0 where
  pub tools : Dict String (Tool X)
  pub condenser : Option (Condenser X)
  pub llm : (history events : List (Event X)) → Completion X
  pub loads : String → Loaded
  pub is_exempt : X → Bool
  pub emits_token_ids : Bool
  pub new_id : List (Event X) → String
  pub pre_tool_use : ActionEvent X → Option String
  pub user_prompt_submit : MessageEvent X → PromptHooks X
  pub with_context : (content context : X) → X
  pub extended_id : MessageEvent X → String
  pub error_text : ToolCall → String

module _ {X : Type 0} (env : Env X) where
  abbrev pub blocked_if : (String → State X → State X) → Option String → State X → State X
  blocked_if block none s = s
  blocked_if block (some reason) s = block reason s

  -- The message to store: itself, or a new one with the context. The new one takes over what the
  -- old one carries, save its id.
  unfoldable pub inject_context : MessageEvent X → Option X → MessageEvent X
  inject_context m none = m
  inject_context m (some context) = record {
    id = env.extended_id m;
    source = m.source;
    llm_message = env.with_context m.llm_message context;
  }

  -- `_handle_pre_tool_use` and `_handle_user_prompt_submit`, and the event to store.
  unfoldable pub run_hooks : Event X → State X → State X
  run_hooks (action a) s = elim a.action [
    | none ↦ s
    | some content ↦ blocked_if (block_action a.id) (env.pre_tool_use a) s
  ]
  run_hooks (message m) s =
      if same_source m.source Source.user
      then blocked_if (block_message m.id) ((env.user_prompt_submit m).blocked) s
      else s
  run_hooks e s = s

  unfoldable pub callback_event : Event X → Event X
  unfolding inject_context
  callback_event (message m) =
      if same_source m.source Source.user
      then message (inject_context m ((env.user_prompt_submit m).additional_context))
      else message m
  callback_event e = e

  -- `on_event`, with the hooks and the callback that stores the event.
  unfoldable pub on_event : Event X → State X → State X
  unfolding run_hooks callback_event
  on_event e s = append_event (callback_event e) (run_hooks e s)
