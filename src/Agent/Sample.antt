-- ===== src/Agent/Sample.antt =====
-- `step` of agent.py, with `prepare_llm_messages` of agent/utils.py.
use codex_latest.Prelude.{
  String, Bool, true, false, Option, none, some, List, [], ◌∷◌, map, reverse, if◌then◌else◌,
}
use codex_latest.Event.{
  Event, ActionEvent, MessageEvent, PlainEvent, Source, message, condensation, condensation_request,
  other,
}
use codex_latest.Security.{
  SecurityRisk, unknown, high, ConfirmationPolicy, Checked, value_error, should_confirm,
}
use codex_latest.Stuck.{same_source}
use codex_latest.View.Build.{from_events}
use codex_latest.Condenser.Rolling.{Attempt, Condensed, kept, condensed}
use codex_latest.Condenser.Pipeline.{Condenser}
use codex_latest.Conversation.{
  State, Analyzer, waiting_for_confirmation, finished, with_status, get_unmatched_actions,
  pop_blocked_message,
}
use codex_latest.Agent.Env.{
  Env, Completion, response, malformed_call, context_window_exceeded, failed, LlmResponse, on_event,
}
use codex_latest.Agent.Calls.{Called, called, broken, get_action_events}
use codex_latest.Agent.Execute.{Stepped, ok, raised, execute_actions}

-- `any(policy.should_confirm(risk) for risk in risks)`, which stops at the first that is true.
unfoldable pub any_confirm : ConfirmationPolicy → List SecurityRisk → Checked Bool
any_confirm policy [] = Checked.ok false
any_confirm policy (risk ∷ risks) =
    let rest = any_confirm policy risks in
    elim (should_confirm policy risk) [
      | value_error ↦ value_error
      | Checked.ok b ↦ if b then Checked.ok true else rest
    ]

abbrev pub or_high : Option SecurityRisk → SecurityRisk
or_high none = high
or_high (some risk) = risk

module _ {X : Type 0} where
  -- `analyze_pending_actions` of security/analyzer.py; without an analyzer the risks are unknown.
  unfoldable pub risks : Option (Analyzer X) → List (ActionEvent X) → List SecurityRisk
  risks none actions = map (λ a. unknown) actions
  risks (some analyzer) actions = map (λ a. or_high (analyzer.security_risk a)) actions

  -- The last message of the user, in the reversed events.
  unfoldable pub last_user_message : List (Event X) → Option (MessageEvent X)
  last_user_message [] = none
  last_user_message (message m ∷ events) =
      let rest = last_user_message events in
      if same_source m.source Source.user then some m else rest
  last_user_message (e ∷ events) = last_user_message events

module _ {X : Type 0} (env : Env X) where
  unfoldable pub is_exempt_action : ActionEvent X → Bool
  is_exempt_action a = elim a.action [ none ↦ false | some content ↦ env.is_exempt content ]

  -- `_requires_user_confirmation`, but for the change of the status.
  unfoldable pub requires_user_confirmation : State X → List (ActionEvent X) → Checked Bool
  requires_user_confirmation s [] = Checked.ok false
  requires_user_confirmation s (a ∷ []) =
      if is_exempt_action a
      then Checked.ok false
      else any_confirm s.confirmation_policy (risks s.security_analyzer (a ∷ []))
  requires_user_confirmation s (a ∷ b ∷ actions) =
      any_confirm s.confirmation_policy (risks s.security_analyzer (a ∷ b ∷ actions))

  abbrev pub plain : String → List (Event X) → PlainEvent
  plain class_name events = record {
    id = env.new_id events;
    source = Source.environment;
    class_name = class_name;
  }

  abbrev pub message_event : Source → X → List (Event X) → Event X
  message_event source content events =
      message (record { id = env.new_id events; source = source; llm_message = content })

  -- `_maybe_emit_vllm_tokens`
  unfoldable pub emit_token_ids : State X → State X
  emit_token_ids s =
      if env.emits_token_ids
      then on_event env
          (other
            (record { id = env.new_id s.events; source = Source.agent; class_name = "TokenEvent" }))
          s
      else s

  abbrev pub emit_after : Stepped X → Stepped X
  emit_after (ok s) = ok (emit_token_ids s)
  emit_after (raised s) = raised s

  -- The actions are executed, unless they wait for a confirmation.
  unfoldable pub execute_or_wait : List (ActionEvent X) → Checked Bool → State X → Stepped X
  execute_or_wait actions value_error s = raised s
  execute_or_wait actions (Checked.ok true) s = ok (with_status waiting_for_confirmation s)
  execute_or_wait actions (Checked.ok false) s = emit_after (execute_actions env actions s)

  unfoldable pub execute_called : Called X → Stepped X
  unfolding execute_or_wait requires_user_confirmation
  execute_called (broken s) = raised s
  execute_called (called actions s) =
      execute_or_wait actions (requires_user_confirmation s actions) s

  unfoldable pub take_calls : LlmResponse X → State X → Stepped X
  unfolding execute_called
  take_calls r s = execute_called (
      get_action_events env r.id
        (record { thought = r.thought; thinking_blocks = r.thinking_blocks }) r.tool_calls s)

  unfoldable pub take_message : LlmResponse X → State X → Stepped X
  unfolding emit_token_ids
  take_message r s =
      let told = emit_token_ids (on_event env (message_event Source.agent r.message s.events) s) in
      ok (if r.has_content then with_status finished told else told)

  abbrev pub handles_requests : Option (Condenser X) → Bool
  handles_requests none = false
  handles_requests (some c) = c.handles_condensation_requests

  unfoldable pub take_completion : Completion X → State X → Stepped X
  unfolding take_calls take_message
  take_completion (malformed_call content) s =
      ok (on_event env (message_event Source.user content s.events) s)
  take_completion context_window_exceeded s =
      if handles_requests env.condenser
      then ok (on_event env (condensation_request (plain "CondensationRequest" s.events)) s)
      else raised s
  take_completion failed s = raised s
  take_completion (response r) s = elim r.tool_calls [
    | [] ↦ take_message r s
    | c ∷ calls ↦ take_calls r s
  ]

  -- `prepare_llm_messages`: the events for the LLM, or a condensation.
  unfoldable pub prepare_llm_messages : List (Event X) → Attempt (Condensed X)
  prepare_llm_messages events = elim env.condenser [
    | none ↦ Attempt.ok (kept (from_events events))
    | some c ↦ c.condense (from_events events)
  ]

  unfoldable pub sample : Attempt (Condensed X) → State X → Stepped X
  unfolding take_completion
  sample (Attempt.raise e) s = raised s
  sample (Attempt.ok (condensed k)) s = ok (on_event env (condensation k) s)
  sample (Attempt.ok (kept view)) s = take_completion (env.llm s.events view.events) s

  unfoldable pub unless_message_blocked : Option String × State X → Stepped X
  unfolding sample prepare_llm_messages
  unless_message_blocked (some reason, s) = ok (with_status finished s)
  unless_message_blocked (none, s) = sample (prepare_llm_messages s.events) s

  unfoldable pub sample_unless_blocked : Option (MessageEvent X) → State X → Stepped X
  unfolding unless_message_blocked
  sample_unless_blocked none s = unless_message_blocked (none, s)
  sample_unless_blocked (some m) s = unless_message_blocked (pop_blocked_message m.id s)

  -- Pending actions come first; then a blocked message; then the LLM.
  unfoldable pub step_pending : List (ActionEvent X) → State X → Stepped X
  unfolding sample_unless_blocked
  step_pending [] s = sample_unless_blocked (last_user_message (reverse s.events)) s
  step_pending (a ∷ actions) s = execute_actions env (a ∷ actions) s

  unfoldable pub step : State X → Stepped X
  unfolding step_pending
  step s = step_pending (get_unmatched_actions s.events) s
