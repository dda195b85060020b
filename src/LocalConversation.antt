-- ===== src/LocalConversation.antt =====
-- openhands-sdk/openhands/sdk/conversation/impl/local_conversation.py: the run loop, and the
-- requests that other threads make while it runs. Plugins, secrets, titles and `ask_agent`, which
-- leaves the state as it is, are left out; an exception that no step raises does not occur here.
pub mod Rounds
pub mod Turns
pub mod Ends
pub mod Requests
use codex_latest.Prelude.{
  ℕ, zero, suc, ◌+◌, ◌*◌, String, Bool, true, false, not, ◌||◌, Option, none, some, List, [], ◌∷◌,
  map, leb, Eq, if◌then◌else◌,
}
use codex_latest.Event.{
  Event, ActionEvent, PlainEvent, MessageEvent, Source, message, user_reject, condensation_request,
  other,
}
use codex_latest.Security.{SecurityRisk, ConfirmationPolicy}
use codex_latest.Stuck.{Thresholds, is_stuck}
use codex_latest.Conversation.{
  Analyzer, State, Status, idle, running, paused, waiting_for_confirmation, finished, error, stuck,
  deleting, with_status, get_unmatched_actions,
}
use codex_latest.Agent.Env.{Env, on_event}
use codex_latest.Agent.Execute.{Stepped, ok, raised, rejection}
use codex_latest.Agent.Sample.{message_event, plain, handles_requests, step}

-- What the stop hooks say when the agent has finished; the feedback carries its prefix.
pub data StopHooks (X : Type 0) : Type 0 where
  allowed : StopHooks X
  denied : Option X → StopHooks X

-- Without hooks, `run_stop` is always `allowed`; without a stuck detector there are no thresholds.
pub record LocalConversation (X : Type 0) : Type 0 where
  pub agent : Env X
  pub thresholds : Option Thresholds
  pub run_stop : List (Event X) → StopHooks X
  pub max_iteration_per_run : ℕ

-- A call of another thread. Before it has the lock, `reject_pending_actions` reads the events.
pub data Request (X : Type 0) : Type 0 where
  send_message : X → Request X
  pause : Request X
  reject_pending_actions : (reason : String) → (seen : List (Event X)) → Request X
  set_confirmation_policy : ConfirmationPolicy → Request X
  set_security_analyzer : Option (Analyzer X) → Request X

-- What one turn of the loop leads to: the next one, with its iteration, the end, or an exception
-- that leaves the loop and the lock.
pub data Round (X : Type 0) : Type 0 where
  next : ℕ → State X → Round X
  stop : Stepped X → Round X
  failing : State X → Round X

module _ {X : Type 0} (c : LocalConversation X) where
  abbrev pub environment_event : Source → String → List (Event X) → Event X
  environment_event source class_name events =
      other (record { id = c.agent.new_id events; source = source; class_name = class_name })

  -- A new message wakes a finished conversation. What the skills add to it is in its content.
  abbrev pub woken : State X → State X
  woken s = elim s.execution_status [ finished ↦ with_status idle s | _ ↦ s ]

  unfoldable pub on_send_message : X → State X → State X
  on_send_message content s =
      on_event c.agent (message_event c.agent Source.user content s.events) (woken s)

  abbrev pub paused_at : State X → State X
  paused_at s =
      let t = with_status paused s in
      on_event c.agent (environment_event Source.user "PauseEvent" t.events) t

  unfoldable pub on_pause : State X → State X
  on_pause s = elim s.execution_status [ idle ↦ paused_at s | running ↦ paused_at s | _ ↦ s ]

  -- One rejection for each pending action.
  unfoldable pub reject_all : String → List (ActionEvent X) → State X → State X
  reject_all reason [] s = s
  reject_all reason (a ∷ actions) s =
      reject_all reason actions (on_event c.agent (rejection c.agent a reason s.events) s)

  abbrev pub cleared : State X → State X
  cleared s = elim s.execution_status [ waiting_for_confirmation ↦ with_status idle s | _ ↦ s ]

  unfoldable pub on_reject : String → List (Event X) → State X → State X
  unfolding reject_all
  on_reject reason seen s = reject_all reason (get_unmatched_actions seen) (cleared s)

  abbrev pub on_set_confirmation_policy : ConfirmationPolicy → State X → State X
  on_set_confirmation_policy policy s = record s { confirmation_policy = policy }

  abbrev pub on_set_security_analyzer : Option (Analyzer X) → State X → State X
  on_set_security_analyzer analyzer s = record s { security_analyzer = analyzer }

  -- The method that a request calls.
  unfoldable pub serve : Request X → State X → State X
  unfolding on_send_message on_pause on_reject
  serve (send_message content) s = on_send_message content s
  serve pause s = on_pause s
  serve (reject_pending_actions reason seen) s = on_reject reason seen s
  serve (set_confirmation_policy policy) s = on_set_confirmation_policy policy s
  serve (set_security_analyzer analyzer) s = on_set_security_analyzer analyzer s

  -- The requests that get the lock before the loop does, in order.
  unfoldable pub serve_all : List (Request X) → State X → State X
  unfolding serve
  serve_all [] s = s
  serve_all (r ∷ requests) s = serve_all requests (serve r s)

  -- `condense`; `none` is the `ValueError`.
  unfoldable pub condense : State X → Option (Stepped X)
  condense s =
      if handles_requests c.agent c.agent.condenser
      then some (
          step c.agent (
            on_event c.agent (condensation_request (plain c.agent "CondensationRequest" s.events))
              s))
      else none

  -- The status when `run` has the lock for the first time.
  abbrev pub started : State X → State X
  started s = elim s.execution_status [
    | idle ↦ with_status running s
    | paused ↦ with_status running s
    | error ↦ with_status running s
    | _ ↦ s
  ]

  -- The event of an error of the conversation.
  abbrev pub report_error : State X → State X
  report_error s =
      on_event c.agent (environment_event Source.environment "ConversationErrorEvent" s.events) s

  -- At the iteration limit the loop ends with an error of the conversation.
  unfoldable pub failed_with : State X → State X
  failed_with s = report_error (with_status error s)

  -- The `except` clause, which does not hold the lock: other threads are served before the status
  -- is set, and again before the event is stored.
  unfoldable pub recover : (before between : List (Request X)) → State X → State X
  unfolding serve_all
  recover before between s =
      report_error (serve_all between (with_status error (serve_all before s)))

  unfoldable pub after_step : ℕ → Stepped X → Round X
  unfolding failed_with
  after_step iteration (raised s) = failing s
  after_step iteration (ok s) = elim s.execution_status [
    | waiting_for_confirmation ↦ stop (ok s)
    | _ ↦
        if leb c.max_iteration_per_run (suc iteration)
        then stop (ok (failed_with s))
        else next (suc iteration) s
  ]

  -- The user has approved what waits for a confirmation.
  abbrev pub approved : State X → State X
  approved s = elim s.execution_status [ waiting_for_confirmation ↦ with_status running s | _ ↦ s ]

  abbrev pub feedback_to : Option X → State X → State X
  feedback_to none s = s
  feedback_to (some content) s =
      on_event c.agent (message_event c.agent Source.user content s.events) s

  unfoldable pub after_finish : ℕ → StopHooks X → State X → Round X
  after_finish iteration allowed s = stop (ok s)
  after_finish iteration (denied feedback) s =
      next iteration (with_status running (feedback_to feedback s))

module _ {X : Type 0} ⦃e : Eq X⦄ (model_eq : Event X → Event X → Bool)
    (c : LocalConversation X) where
  abbrev pub detects_stuck : List (Event X) → Bool
  detects_stuck events = elim c.thresholds [ none ↦ false | some t ↦ is_stuck model_eq t events ]

  -- The body of the loop, under the lock.
  unfoldable pub round : ℕ → State X → Round X
  unfolding after_step after_finish
  round iteration s = elim s.execution_status [
    | paused ↦ stop (ok s)
    | stuck ↦ stop (ok s)
    | finished ↦ after_finish c iteration (c.run_stop s.events) s
    | _ ↦
        if detects_stuck s.events
        then next iteration (with_status stuck s)
        else after_step c iteration (step c.agent (approved c s))
  ]

  -- The loop on fuel; `schedule n` is served before the n-th turn from now, or what stands in its
  -- place after an exception.
  unfoldable pub run_loop : (fuel : ℕ) → (ℕ → List (Request X)) → ℕ → State X → Option (Stepped X)
  unfolding round serve_all recover
  run_loop zero schedule iteration s = none
  run_loop (suc fuel) schedule iteration s = elim (round iteration (serve_all c (schedule 0) s)) [
    | stop r ↦ some r
    | failing t ↦ some (raised (recover c (schedule 1) (schedule 2) t))
    | next i t ↦ run_loop fuel (λ n. schedule (suc n)) i t
  ]

  unfoldable pub run : (fuel : ℕ) → (ℕ → List (Request X)) → State X → Option (Stepped X)
  unfolding run_loop
  run fuel schedule s = run_loop fuel schedule 0 (started c s)
