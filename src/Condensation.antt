-- ===== src/Condensation.antt =====
-- openhands-sdk/openhands/sdk/event/condenser.py: applying a condensation to a list of events.
pub mod Laws
use Prim.Native.String.{◌++◌ as append}
use codex_latest.Prelude.{
  ℕ, String, Bool, true, false, not, Option, none, some, List, filter, contains, insert_at,
  string_eq,
}
use codex_latest.Event.{Event, Condensation, CondensationSummaryEvent, summary, event_id}

-- `summary_event`; the caller has checked that there is a summary, and passes its text.
unfoldable pub summary_event : Condensation → String → CondensationSummaryEvent
summary_event c text = record { id = append c.id "-summary"; source = c.source; summary = text }

module _ {X : Type 0} where
  unfoldable pub forget : Condensation → List (Event X) → List (Event X)
  forget c events = filter (λ e. not (contains c.forgotten_event_ids (event_id e))) events

  -- The summary goes in only if both its text and its offset are present.
  unfoldable pub insert_summary :
      Condensation → Option String → Option ℕ → List (Event X) → List (Event X)
  insert_summary c (some text) (some offset) output =
      insert_at offset (summary (summary_event c text)) output
  insert_summary c _ _ output = output

  unfoldable pub apply : Condensation → List (Event X) → List (Event X)
  unfolding forget insert_summary
  apply c events = insert_summary c c.summary c.summary_offset (forget c events)
