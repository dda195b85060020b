-- ===== src/View/Filter.antt =====
-- `View._filter_unmatched_tool_calls` of view.py: no tool call goes to the LLM without its result,
-- and no result without its call.
pub mod Matched
pub mod Answered
use mathlib.Core.Option
use codex_latest.Prelude.{
  filter_map, if◌then◌else◌, String, Bool, true, false, not, Option, none, some, List, filter,
  contains, Dict, string_eq,
}
use codex_latest.Event.{Event, as_action, as_observation, event_id, event_ids}
use codex_latest.View.Batch.{ActionBatch, from_events, enforce_batch_atomicity}

module _ {X : Type 0} where
  -- The `tool_call_id` of an event that is an action.
  abbrev pub action_call : Event X → Option String
  action_call event = Option.map (λ a. a.tool_call_id) (as_action event)

  -- A set of ids is the list of its members in the order of insertion.
  unfoldable pub get_action_tool_call_ids : List (Event X) → List String
  get_action_tool_call_ids events = filter_map action_call events

  unfoldable pub get_observation_tool_call_ids : List (Event X) → List String
  get_observation_tool_call_ids events = filter_map as_observation events

  unfoldable pub should_keep_event : List String → List String → Event X → Bool
  should_keep_event action_tool_call_ids observation_tool_call_ids event =
      elim (as_observation event) [
        | some t ↦ contains action_tool_call_ids t
        | none ↦ elim (as_action event) [
          | some a ↦ contains observation_tool_call_ids a.tool_call_id
          | none ↦ true
        ]
      ]

  -- The first pass.
  unfoldable pub keep_paired : List (Event X) → List (Event X)
  unfolding should_keep_event
  keep_paired view_events =
      filter
        (should_keep_event (get_action_tool_call_ids view_events)
          (get_observation_tool_call_ids view_events))
        view_events

-- The call of an action that is gone.
abbrev pub gone_call : List String → String × String → Option String
gone_call kept_event_ids (action_id, tool_call_id) =
    if contains kept_event_ids action_id then none else some tool_call_id

unfoldable pub tool_call_ids_to_remove : List String → Dict String String → List String
tool_call_ids_to_remove kept_event_ids calls = filter_map (gone_call kept_event_ids) calls

module _ {X : Type 0} where
  unfoldable pub answers_one_of : List String → Event X → Bool
  answers_one_of tool_call_ids event = elim (as_observation event) [
    | none ↦ false
    | some t ↦ contains tool_call_ids t
  ]

  -- The third pass.
  unfoldable pub drop_orphans : List (Event X) → List (Event X) → List (Event X)
  unfolding answers_one_of
  drop_orphans kept_events all_events =
      let gone =
        tool_call_ids_to_remove (event_ids kept_events)
          (from_events all_events).action_id_to_tool_call_id in
      filter (λ e. not (answers_one_of gone e)) kept_events

  unfoldable pub filter_unmatched_tool_calls : List (Event X) → List (Event X) → List (Event X)
  filter_unmatched_tool_calls view_events all_events =
      drop_orphans (enforce_batch_atomicity (keep_paired view_events) all_events) all_events
