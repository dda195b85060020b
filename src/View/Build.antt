-- ===== src/View/Build.antt =====
-- `View` and `View.from_events` of view.py: the view is built from the history event by event,
-- and then cleaned of partial batches and unmatched tool calls.
pub mod Request
pub mod Sound
pub mod Forgotten
use codex_latest.Prelude.{Bool, true, false, List, [], ◌∷◌, ◌++◌, reverse, if◌then◌else◌}
use codex_latest.Event.{Event, Condensation, condensation, condensation_request, is_llm_convertible}
use codex_latest.Condensation.{apply}
use codex_latest.View.Batch.{enforce_batch_atomicity}
use codex_latest.View.Filter.{filter_unmatched_tool_calls}

pub record View (X : Type 0) : Type 0 where
  pub events : List (Event X)
  pub unhandled_condensation_request : Bool
  pub condensations : List Condensation

-- The two lists that the loop of `from_events` fills.
pub record Building (X : Type 0) : Type 0 where
  pub output : List (Event X)
  pub condensations : List Condensation

module _ {X : Type 0} where
  -- The body of the loop: a condensation is applied to the output so far, an event for the LLM
  -- is appended, and any other event is skipped.
  unfoldable pub step : Building X → Event X → Building X
  step b (condensation c) = record {
    output = apply c b.output;
    condensations = b.condensations ++ c ∷ [];
  }
  step b e = if is_llm_convertible e then record b { output = b.output ++ e ∷ [] } else b

  unfoldable pub run : Building X → List (Event X) → Building X
  run b [] = b
  run b (e ∷ events) = run (step b e) events

  abbrev pub empty : Building X
  empty = record { output = []; condensations = [] }

  -- The loop of `unhandled_condensation_request_exists`, over the reversed history.
  unfoldable pub request_first : List (Event X) → Bool
  request_first [] = false
  request_first (condensation c ∷ events) = false
  request_first (condensation_request r ∷ events) = true
  request_first (e ∷ events) = request_first events

  unfoldable pub unhandled_condensation_request_exists : List (Event X) → Bool
  unhandled_condensation_request_exists events = request_first (reverse events)

  unfoldable pub from_events : List (Event X) → View X
  from_events events =
      let built = run empty events in
      record {
        events = filter_unmatched_tool_calls (enforce_batch_atomicity built.output events) events;
        unhandled_condensation_request = unhandled_condensation_request_exists events;
        condensations = built.condensations;
      }
