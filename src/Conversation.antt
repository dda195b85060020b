-- ===== src/Conversation.antt =====
-- openhands-sdk/openhands/sdk/conversation/state.py: the state of a conversation that the agent, the
-- run loop and the hooks change. The lock is that of Fifo, the persistence of the fields is left out.
pub mod Pending
use codex_latest.Prelude.{
  String, Bool, true, false, not, ◌&&◌, Option, none, some, List, [], ◌∷◌, ◌++◌, reverse, filter,
  contains, Dict, lookup, assign, string_eq, ◌==◌, if◌then◌else◌,
}
use codex_latest.Event.{Event, ActionEvent, action, observation, user_reject}
use codex_latest.Security.{SecurityRisk, ConfirmationPolicy}

-- `ConversationExecutionStatus`
pub data Status : Type 0 where
  idle running paused waiting_for_confirmation finished error stuck deleting : Status

-- A security analyzer: its `security_risk`, where `none` is an exception, and whether it is the one
-- that reads the risk that the LLM gives.
pub record Analyzer (X : Type 0) : Type 0 where
  pub security_risk : ActionEvent X → Option SecurityRisk
  pub is_llm_analyzer : Bool

pub record State (X : Type 0) : Type 0 where
  pub execution_status : Status
  pub events : List (Event X)
  pub blocked_actions : Dict String String
  pub blocked_messages : Dict String String
  pub confirmation_policy : ConfirmationPolicy
  pub security_analyzer : Option (Analyzer X)

-- `updated.pop(key)`
unfoldable pub remove_key {ℓ} : {V : Type ℓ} → String → Dict String V → Dict String V
remove_key {V = V} k entries = filter (λ (e : String × V). not (e.0 == k)) entries

module _ {X : Type 0} where
  abbrev pub with_status : Status → State X → State X
  with_status status s = record s { execution_status = status }

  abbrev pub append_event : Event X → State X → State X
  append_event e s = record s { events = s.events ++ e ∷ [] }

  unfoldable pub block_action : String → String → State X → State X
  block_action action_id reason s = record s {
    blocked_actions = assign action_id reason s.blocked_actions;
  }

  -- The reason, if the action is blocked, and the state without it.
  unfoldable pub pop_blocked_action : String → State X → Option String × State X
  pop_blocked_action action_id s = elim (lookup s.blocked_actions action_id) [
    | none ↦ (none, s)
    | some reason ↦
        (some reason, record s { blocked_actions = remove_key action_id s.blocked_actions })
  ]

  unfoldable pub block_message : String → String → State X → State X
  block_message message_id reason s = record s {
    blocked_messages = assign message_id reason s.blocked_messages;
  }

  unfoldable pub pop_blocked_message : String → State X → Option String × State X
  pop_blocked_message message_id s = elim (lookup s.blocked_messages message_id) [
    | none ↦ (none, s)
    | some reason ↦
        (some reason, record s { blocked_messages = remove_key message_id s.blocked_messages })
  ]

  -- `event.action is not None`: the action was validated.
  abbrev pub is_executable : ActionEvent X → Bool
  is_executable a = elim a.action [ none ↦ false | some content ↦ true ]

  abbrev pub is_pending : List String → ActionEvent X → Bool
  is_pending observed_action_ids a = is_executable a && not (contains observed_action_ids a.id)

  -- The loop of `get_unmatched_actions`, over the reversed events.
  unfoldable pub scan : List (Event X) → List String → List (ActionEvent X) → List (ActionEvent X)
  scan [] observed_action_ids unmatched_actions = unmatched_actions
  scan (observation o ∷ events) observed_action_ids unmatched_actions =
      scan events (o.action_id ∷ observed_action_ids) unmatched_actions
  scan (user_reject o ∷ events) observed_action_ids unmatched_actions =
      scan events (o.action_id ∷ observed_action_ids) unmatched_actions
  scan (action a ∷ events) observed_action_ids unmatched_actions =
      scan events observed_action_ids
        (if is_pending observed_action_ids a then a ∷ unmatched_actions else unmatched_actions)
  scan (e ∷ events) observed_action_ids unmatched_actions =
      scan events observed_action_ids unmatched_actions

  unfoldable pub get_unmatched_actions : List (Event X) → List (ActionEvent X)
  get_unmatched_actions events = scan (reverse events) [] []
