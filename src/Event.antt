-- ===== src/Event.antt =====
-- openhands-sdk/openhands/sdk/event: the events of a conversation. A constructor stands for a
-- class, and carries the fields that the modelled code reads. `X` is the type of the content
-- models (text blocks, thinking blocks, actions, observations, messages), whose equality the
-- model classes define; where the code compares them, an `Eq X` is assumed.
pub mod Distinct
use codex_latest.Prelude.{Bool, true, false, ℕ, String, Option, none, some, List}
use codex_latest.Prelude.{◌≡◌, map, Memᴰ}
use codex_latest.Security.{SecurityRisk}

pub data Source : Type 0 where
  agent user environment : Source

pub record ActionEvent (X : Type 0) : Type 0 where
  pub id : String
  pub source : Source
  pub thought : List X
  pub thinking_blocks : List X
  pub action : Option X
  pub tool_name : String
  pub tool_call_id : String
  pub llm_response_id : String
  pub security_risk : SecurityRisk

pub record ObservationEvent (X : Type 0) : Type 0 where
  pub id : String
  pub source : Source
  pub tool_name : String
  pub tool_call_id : String
  pub observation : X
  pub action_id : String

pub record UserRejectObservation : Type 0 where
  pub id : String
  pub source : Source
  pub tool_name : String
  pub tool_call_id : String
  pub rejection_reason : String
  pub action_id : String

pub record AgentErrorEvent : Type 0 where
  pub id : String
  pub source : Source
  pub tool_name : String
  pub tool_call_id : String
  pub error : String

pub record MessageEvent (X : Type 0) : Type 0 where
  pub id : String
  pub source : Source
  pub llm_message : X

pub record SystemPromptEvent (X : Type 0) : Type 0 where
  pub id : String
  pub source : Source
  pub system_prompt : X

pub record CondensationSummaryEvent : Type 0 where
  pub id : String
  pub source : Source
  pub summary : String

pub record Condensation : Type 0 where
  pub id : String
  pub source : Source
  pub forgotten_event_ids : List String
  pub summary : Option String
  pub summary_offset : Option ℕ
  pub llm_response_id : String

-- `CondensationRequest`, and the events that only track state (`PauseEvent`, `TokenEvent`,
-- `ConversationStateUpdateEvent`, `ConversationErrorEvent`, `LLMCompletionLogEvent`), by class
-- name.
pub record PlainEvent : Type 0 where
  pub id : String
  pub source : Source
  pub class_name : String

pub data Event (X : Type 0) : Type 0 where
  action : ActionEvent X → Event X
  observation : ObservationEvent X → Event X
  user_reject : UserRejectObservation → Event X
  agent_error : AgentErrorEvent → Event X
  message : MessageEvent X → Event X
  system_prompt : SystemPromptEvent X → Event X
  summary : CondensationSummaryEvent → Event X
  condensation : Condensation → Event X
  condensation_request : PlainEvent → Event X
  other : PlainEvent → Event X

module _ {X : Type 0} where
  abbrev pub event_id : Event X → String
  event_id (action e) = e.id
  event_id (observation e) = e.id
  event_id (user_reject e) = e.id
  event_id (agent_error e) = e.id
  event_id (message e) = e.id
  event_id (system_prompt e) = e.id
  event_id (summary e) = e.id
  event_id (condensation e) = e.id
  event_id (condensation_request e) = e.id
  event_id (other e) = e.id

  -- `isinstance(event, ActionEvent)`, with the event as that class.
  abbrev pub as_action : Event X → Option (ActionEvent X)
  as_action (action e) = some e
  as_action _ = none

  -- `isinstance(event, ObservationBaseEvent)`, with the field that its callers read:
  -- `tool_call_id`, which the class requires.
  abbrev pub as_observation : Event X → Option String
  as_observation (observation e) = some e.tool_call_id
  as_observation (user_reject e) = some e.tool_call_id
  as_observation (agent_error e) = some e.tool_call_id
  as_observation _ = none

  -- `isinstance(event, LLMConvertibleEvent)`
  abbrev pub is_llm_convertible : Event X → Bool
  is_llm_convertible (condensation e) = false
  is_llm_convertible (condensation_request e) = false
  is_llm_convertible (other e) = false
  is_llm_convertible _ = true

  abbrev pub event_ids : List (Event X) → List String
  event_ids = map event_id

  -- Among `events` an id names one event, and a tool call id one action.
  pub record IsWellIdentified (events : List (Event X)) : Type 0 where
    pub by_id : (e f : Event X) → Memᴰ e events → Memᴰ f events → event_id e ≡ event_id f → e ≡ f
    pub by_call :
        (a b : ActionEvent X)
        → Memᴰ (action a) events
        → Memᴰ (action b) events
        → a.tool_call_id ≡ b.tool_call_id
        → a ≡ b
