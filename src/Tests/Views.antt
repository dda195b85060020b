-- ===== src/Tests/Views.antt =====
-- The theorems about view.py at concrete histories.
use codex_latest.Prelude.{
  ℕ, ◌≡◌, ◌↔◌, refl, true, false, some, List, [], ◌∷◌, ◌++◌, Memᴰ, head, tail, filter, any,
  filter_map, contains, insert_at, lookup, assign, string_eq, mem-map, not_mem_of_contains,
}
use codex_latest.Event.{
  Event, ActionEvent, message, action, observation, condensation, summary, event_id, event_ids,
  as_observation, IsWellIdentified,
}
use codex_latest.Event.Distinct.{are_distinct, IsWellIdentified-of_distinct}
use codex_latest.Condensation.{apply, forget, insert_summary, summary_event}
use codex_latest.View.Batch.{
  enforce_batch_atomicity, add_events, add_event, add_action, without_ids, ids_to_remove,
  is_partial, enforce,
}
use codex_latest.View.Batch.Atomic.{IsWhole, mem-enforce_batch_atomicity}
use codex_latest.View.Filter.{
  filter_unmatched_tool_calls, drop_orphans, keep_paired, answers_one_of, get_action_tool_call_ids,
  get_observation_tool_call_ids, should_keep_event, tool_call_ids_to_remove,
}
use codex_latest.View.Build.{from_events, run, step}
use codex_latest.View.Build.Sound.{
  with_summaries, from_events-observation, from_events-action, from_events-together,
}
use codex_latest.View.Build.Request.{IsPending, unhandled_condensation_request-IsPending}
use codex_latest.View.Build.Forgotten.{IsRemembered, forgotten-not-mem, remembered-mem}
use codex_latest.Tests.Histories.{
  a1, a2, a3, obs, cut_history, before_cut, after_cut, plain_history, cut, msg,
}

cut_history-IsWellIdentified : IsWellIdentified (with_summaries cut_history)
unfolding are_distinct contains filter_map summary_event
cut_history-IsWellIdentified = IsWellIdentified-of_distinct (with_summaries cut_history) refl refl

-- The condensation breaks the first pair, and with it the batch.
view_events :
    (from_events cut_history).events
    ≡ summary (summary_event cut "short")
      ∷ action a3
      ∷ observation (obs "o3" "c3" "a3")
      ∷ message (msg "m2")
      ∷ []
unfolding from_events run step apply forget insert_summary summary_event insert_at filter contains
    enforce_batch_atomicity enforce add_events add_event add_action assign lookup without_ids
    ids_to_remove is_partial any filter_map filter_unmatched_tool_calls drop_orphans keep_paired
    answers_one_of get_action_tool_call_ids get_observation_tool_call_ids should_keep_event
    tool_call_ids_to_remove
view_events = refl

third-mem : Memᴰ (observation (obs "o3" "c3" "a3")) (from_events cut_history).events
third-mem = rw view_events (tail (tail (head refl)))

second-mem : Memᴰ (action a3) (from_events cut_history).events
second-mem = rw view_events (tail (head refl))

from_events-observation_example :
    (a : ActionEvent ℕ) × Memᴰ (action a) (from_events cut_history).events × (a.tool_call_id ≡ "c3")
from_events-observation_example =
    from_events-observation cut_history cut_history-IsWellIdentified
      (observation (obs "o3" "c3" "a3")) "c3" third-mem refl

from_events-action_example :
    (o : Event ℕ) × Memᴰ o (from_events cut_history).events × (as_observation o ≡ some "c3")
from_events-action_example =
    from_events-action cut_history cut_history-IsWellIdentified a3 second-mem

plain_history-IsWellIdentified : IsWellIdentified (with_summaries plain_history)
unfolding are_distinct contains filter_map
plain_history-IsWellIdentified =
    IsWellIdentified-of_distinct (with_summaries plain_history) refl refl

plain_events : (from_events plain_history).events ≡ plain_history
unfolding from_events run step filter contains enforce_batch_atomicity enforce add_events add_event
    add_action assign lookup without_ids ids_to_remove is_partial any filter_map
    filter_unmatched_tool_calls drop_orphans keep_paired answers_one_of get_action_tool_call_ids
    get_observation_tool_call_ids should_keep_event tool_call_ids_to_remove
plain_events = refl

from_events-together_example : Memᴰ (action a2) (from_events plain_history).events
from_events-together_example =
    from_events-together plain_history plain_history-IsWellIdentified a1 a2
      (tail (tail (head refl))) refl (rw plain_events (tail (head refl)))

IsPending_example :
    ((from_events cut_history).unhandled_condensation_request ≡ true) ↔ IsPending cut_history
IsPending_example = unhandled_condensation_request-IsPending cut_history

-- To tell from the ids that an event is not in a list.
absent :
    (e : Event ℕ) (events : List (Event ℕ))
    → contains (event_ids events) (event_id e) ≡ false
    → ¬ Memᴰ e events
absent e events h m =
    not_mem_of_contains (event_ids events) (event_id e) h (mem-map event_id events m)

forgotten-not-mem_example :
    ¬ Memᴰ
      (observation (obs "o1" "c1" "a1"))
      (from_events (before_cut ++ condensation cut ∷ after_cut)).events
unfolding contains summary_event
forgotten-not-mem_example =
    forgotten-not-mem before_cut after_cut cut (observation (obs "o1" "c1" "a1")) refl
      (absent _ (with_summaries (condensation cut ∷ [])) refl)
      (absent _ (with_summaries after_cut) refl)

abbrev short_history : List (Event ℕ)
short_history = message (msg "m1") ∷ message (msg "m2") ∷ condensation cut ∷ []

short-IsRemembered : IsRemembered (message (msg "m2")) short_history
unfolding contains
short-IsRemembered c (head p) = absurd (cc p)
short-IsRemembered c (tail (head p)) = absurd (cc p)
short-IsRemembered c (tail (tail (head p))) = let q : c ≡ cut = cc p in rw q refl
short-IsRemembered c (tail (tail (tail m))) = elim m [ ]

short-IsWellIdentified : IsWellIdentified (with_summaries short_history)
unfolding are_distinct contains filter_map summary_event
short-IsWellIdentified = IsWellIdentified-of_distinct (with_summaries short_history) refl refl

remembered-mem_example : Memᴰ (message (msg "m2")) (from_events short_history).events
remembered-mem_example =
    remembered-mem short_history (message (msg "m2")) short-IsWellIdentified (tail (head refl)) refl
      refl refl short-IsRemembered

mem-enforce_batch_atomicity_example :
    Memᴰ (action a1) (enforce_batch_atomicity (action a1 ∷ []) plain_history) ↔ (
      Memᴰ (action a1) (action a1 ∷ [])
      × IsWhole (action a1 ∷ []) plain_history (event_id (action a1)))
mem-enforce_batch_atomicity_example =
    mem-enforce_batch_atomicity (action a1 ∷ []) plain_history (action a1)
