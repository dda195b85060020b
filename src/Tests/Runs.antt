-- ===== src/Tests/Runs.antt =====
-- The theorems about local_conversation.py at a concrete conversation.
use codex_latest.Prelude.{
  ℕ, ◌+◌, ◌*◌, ◌≡◌, ◌≢◌, refl, Bool, true, Option, none, some, List, [], ◌∷◌, ◌++◌, lookup,
  string_eq, contains, nat_eq, ◌==◌,
}
use codex_latest.Event.{Event, Source, event_id, message, condensation_request}
use codex_latest.Security.{always_confirm, never_confirm}
use codex_latest.Condenser.Pipeline.{no_op}
use codex_latest.Conversation.{
  State, idle, stuck, waiting_for_confirmation, get_unmatched_actions, pop_blocked_action, scan,
}
use codex_latest.Agent.Env.{on_event}
use codex_latest.Agent.Execute.{Stepped, ok, execute_action_event, execute_actions}
use codex_latest.Agent.Results.{AreResultsOf}
use codex_latest.Agent.Sample.{step}
use codex_latest.LocalConversation.{
  LocalConversation, denied, Request, send_message, serve_all, on_reject, condense, run,
}
use codex_latest.LocalConversation.Turns.{Ended}
use codex_latest.LocalConversation.Ends.{run-Ended}
use codex_latest.LocalConversation.Requests.{
  get_unmatched_actions-on_reject, condense-AreResultsOf, run-stuck,
}
use codex_latest.Tests.Histories.{a1, a2, msg}
use codex_latest.Tests.Agents.{agent, state, state_of, two_pending}

abbrev same_id : Event ℕ → Event ℕ → Bool
same_id a b = event_id a == event_id b

-- The agent has a condenser that handles requests; the stop hooks never allow it to stop.
abbrev conversation : LocalConversation ℕ
conversation = record {
  agent = record agent { condenser = some (record no_op { handles_condensation_requests = true }) };
  thresholds = none;
  run_stop = λ events. denied (some 8);
  max_iteration_per_run = 3;
}

-- Before each turn somebody sends a message.
abbrev messages : ℕ → List (Request ℕ)
messages n = send_message 5 ∷ []

abbrev fresh : State ℕ
fresh = state never_confirm idle (message (msg "m1") ∷ [])

run-Ended_example :
    (r : Stepped ℕ) × (run same_id conversation (2 * 3 + 3) messages fresh ≡ some r)
    × Ended conversation r
run-Ended_example = run-Ended same_id conversation messages fresh

abbrev waiting : State ℕ
waiting = state always_confirm waiting_for_confirmation two_pending

get_unmatched_actions-on_reject_example :
    let t = on_reject conversation "no" two_pending waiting in
    (get_unmatched_actions t.events ≡ []) × (t.execution_status ≢ waiting_for_confirmation)
get_unmatched_actions-on_reject_example = get_unmatched_actions-on_reject conversation "no" waiting

abbrev state_if : Option (Stepped ℕ) → State ℕ
state_if none = waiting
state_if (some r) = state_of r

abbrev forced : State ℕ
forced = state_if (condense conversation waiting)

condenses : condense conversation waiting ≡ some (ok forced)
unfolding condense step get_unmatched_actions scan execute_actions execute_action_event
    pop_blocked_action lookup on_event contains
condenses = refl

two_unmatched : get_unmatched_actions waiting.events ≡ a1 ∷ a2 ∷ []
unfolding get_unmatched_actions scan contains
two_unmatched = refl

condense-AreResultsOf_example :
    (new : List (Event ℕ)) × (forced.events
      ≡ two_pending
        ++ condensation_request
            (record { id = "e3"; source = Source.environment; class_name = "CondensationRequest" })
          ∷ new)
    × AreResultsOf (a1 ∷ a2 ∷ []) new
condense-AreResultsOf_example =
    condense-AreResultsOf conversation a1 (a2 ∷ []) waiting forced two_unmatched condenses

abbrev hopeless : State ℕ
hopeless = state never_confirm stuck two_pending

run-stuck_example :
    (run same_id conversation 9 messages hopeless
      ≡ some (ok (serve_all conversation (messages 0) hopeless)))
    × ((serve_all conversation (messages 0) hopeless).execution_status ≡ stuck)
run-stuck_example = run-stuck same_id conversation 8 messages hopeless refl
