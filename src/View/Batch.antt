-- ===== src/View/Batch.antt =====
-- `ActionBatch` and `View._enforce_batch_atomicity` of view.py: the actions of one LLM response
-- stay in the view together or leave it together.
pub mod Laws
pub mod Collect
pub mod Atomic
use codex_latest.Prelude.{
  String, Bool, not, Option, none, some, List, [], ◌∷◌, ◌++◌, filter, contains, any, Dict, lookup,
  assign, string_eq, if◌then◌else◌,
}
use codex_latest.Event.{Event, ActionEvent, as_action, event_id, event_ids}

pub record ActionBatch : Type 0 where
  pub batches : Dict String (List String)
  pub action_id_to_response_id : Dict String String
  pub action_id_to_tool_call_id : Dict String String

abbrev pub no_actions : ActionBatch
no_actions = record { batches = []; action_id_to_response_id = []; action_id_to_tool_call_id = [] }

-- What a `defaultdict(list)` holds at a key.
abbrev pub or_empty : Option (List String) → List String
or_empty none = []
or_empty (some ids) = ids

module _ {X : Type 0} where
  -- The body of the loop of `from_events`, for an event that is an action.
  unfoldable pub add_action : ActionEvent X → ActionBatch → ActionBatch
  add_action e b = record {
    batches =
        assign e.llm_response_id (or_empty (lookup b.batches e.llm_response_id) ++ e.id ∷ [])
          b.batches;
    action_id_to_response_id = assign e.id e.llm_response_id b.action_id_to_response_id;
    action_id_to_tool_call_id = assign e.id e.tool_call_id b.action_id_to_tool_call_id;
  }

  unfoldable pub add_event : Option (ActionEvent X) → ActionBatch → ActionBatch
  add_event none b = b
  add_event (some e) b = add_action e b

  unfoldable pub add_events : List (Event X) → ActionBatch → ActionBatch
  add_events [] b = b
  add_events (e ∷ events) b = add_events events (add_event (as_action e) b)

  abbrev pub from_events : List (Event X) → ActionBatch
  from_events events = add_events events no_actions

-- `any(event_id not in view_event_ids for event_id in batch_event_ids)`
unfoldable pub is_partial : List String → List String → Bool
is_partial view_event_ids batch_event_ids =
    any (λ i. not (contains view_event_ids i)) batch_event_ids

-- The loop that fills `ids_to_remove`.
unfoldable pub ids_to_remove : List String → Dict String (List String) → List String
ids_to_remove view_event_ids [] = []
ids_to_remove view_event_ids ((r, batch_event_ids) ∷ batches) =
    let rest = ids_to_remove view_event_ids batches in
    if is_partial view_event_ids batch_event_ids then batch_event_ids ++ rest else rest

module _ {X : Type 0} where
  unfoldable pub without_ids : List String → List (Event X) → List (Event X)
  without_ids ids events = filter (λ e. not (contains ids (event_id e))) events

  unfoldable pub enforce : Dict String (List String) → List (Event X) → List (Event X)
  enforce [] view_events = view_events
  enforce (batch ∷ batches) view_events =
      without_ids (ids_to_remove (event_ids view_events) (batch ∷ batches)) view_events

  unfoldable pub enforce_batch_atomicity : List (Event X) → List (Event X) → List (Event X)
  unfolding enforce
  enforce_batch_atomicity view_events all_events =
      enforce (from_events all_events).batches view_events
