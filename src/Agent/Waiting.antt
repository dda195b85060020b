-- ===== src/Agent/Waiting.antt =====
-- A step that asks for a confirmation executes nothing.
use codex_latest.Prelude.{
  String, ◌≡◌, ◌≢◌, refl, sym, ap, ◌∙◌, subst, ◌⊎◌, inl, inr, Bool, true, false, not, Option, none,
  some, List, [], ◌∷◌, ◌++◌, any, all, filter, lookup, string_eq, Bool-cases, Option-cases,
  if◌then◌else◌, reverse,
}
use codex_latest.Event.{
  Event, ActionEvent, MessageEvent, Source, condensation, condensation_request, other,
}
use codex_latest.Security.{Checked, value_error}
use codex_latest.Condenser.Rolling.{Attempt, Condensed, kept, condensed}
use codex_latest.Conversation.{
  State, Status, finished, waiting_for_confirmation, with_status, get_unmatched_actions,
  pop_blocked_message,
}
use codex_latest.Conversation.Pending.{
  answers, pending, pending-append, get_unmatched_actions-pending,
}
use codex_latest.Agent.Env.{
  Env, ToolCall, Completion, response, malformed_call, context_window_exceeded, failed, LlmResponse,
  on_event,
}
use codex_latest.Agent.Calls.{Thought, Called, called, broken, get_action_events}
use codex_latest.Agent.Execute.{Stepped, ok, raised, execute_actions}
use codex_latest.Agent.Stored.{status-on_event}
use codex_latest.Agent.Called.{
  is_call_event, executables, pending-calls, Calls, get_action_events-Calls,
}
use codex_latest.Agent.Results.{
  KeepsOrFinishes, keeps_trans, ok-injective, execute_actions-AreResultsOf,
}
use codex_latest.Agent.Sample.{
  requires_user_confirmation, execute_or_wait, emit_token_ids, emit_after, execute_called,
  take_calls, take_message, message_event, plain, handles_requests, take_completion, sample,
  prepare_llm_messages, unless_message_blocked, sample_unless_blocked, last_user_message,
  step_pending, step,
}

module _ {X : Type 0} (env : Env X) where
  -- The step stored only the events of calls, and asks for a confirmation of their actions.
  abbrev pub Asks : State X → State X → Type 0
  Asks s t =
      (new : List (Event X)) × (t.events ≡ s.events ++ new)
      × (all is_call_event new ≡ true)
      × (requires_user_confirmation env t (executables new) ≡ Checked.ok true)

  abbrev KeepsOrAsks : State X → State X → Type 0
  KeepsOrAsks s t = KeepsOrFinishes s t ⊎ Asks s t

  requires-with_status :
      (status : Status) (s : State X) (actions : List (ActionEvent X))
      → requires_user_confirmation env (with_status status s) actions
        ≡ requires_user_confirmation env s actions
  unfolding requires_user_confirmation
  requires-with_status status s [] = refl
  requires-with_status status s (a ∷ []) = refl
  requires-with_status status s (a ∷ b ∷ actions) = refl

  stored-Keeps : (e : Event X) (s t : State X) → on_event env e s ≡ t → KeepsOrFinishes s t
  stored-Keeps e s t p = subst (KeepsOrFinishes s) p (inl (status-on_event env e s))

  emit-Keeps : (s : State X) → KeepsOrFinishes s (emit_token_ids env s)
  unfolding emit_token_ids
  emit-Keeps s = elim (Bool-cases env.emits_token_ids) [
    | inl y ↦ simp y (
        inl (
          status-on_event env
            (other (record {
              id = env.new_id s.events;
              source = Source.agent;
              class_name = "TokenEvent";
            }))
            s))
    | inr n ↦ simp n (inl refl)
  ]

  emit_after-Keeps :
      (s t : State X) (r : Stepped X)
      → ((u : State X) → r ≡ ok u → KeepsOrFinishes s u)
      → emit_after env r ≡ ok t
      → KeepsOrFinishes s t
  emit_after-Keeps s t (ok u) h p =
      subst (KeepsOrFinishes s) (ok-injective p)
        (keeps_trans s u (emit_token_ids env u) (h u refl) (emit-Keeps u))
  emit_after-Keeps s t (raised u) h p = absurd (cc p)

  execute_or_wait-KeepsOrAsks :
      (actions : List (ActionEvent X)) (asks : Checked Bool) (s u t : State X)
      → Calls env s u actions
      → requires_user_confirmation env u actions ≡ asks
      → execute_or_wait env actions asks u ≡ ok t
      → KeepsOrAsks s t
  unfolding execute_or_wait
  execute_or_wait-KeepsOrAsks actions value_error s u t c h p = absurd (cc p)
  execute_or_wait-KeepsOrAsks actions (Checked.ok true) s u t (new, q, calls, es, status) h p =
      subst (KeepsOrAsks s) (ok-injective p) (
        inr (
          new,
          q,
          calls,
          requires-with_status waiting_for_confirmation u (executables new)
              ∙ ap (requires_user_confirmation env u) es
              ∙ h,
        ))
  execute_or_wait-KeepsOrAsks actions (Checked.ok false) s u t (new, q, calls, es, status) h p =
      inl (
        keeps_trans s u t (inl status) (
          emit_after-Keeps u t (execute_actions env actions u)
            (λ v k. (execute_actions-AreResultsOf env actions u v k).3) p))

  execute_called-KeepsOrAsks :
      (r : Called X) (s t : State X)
      → ((actions : List (ActionEvent X)) (u : State X)
          → r ≡ called actions u
          → Calls env s u actions)
      → execute_called env r ≡ ok t
      → KeepsOrAsks s t
  unfolding execute_called
  execute_called-KeepsOrAsks (broken u) s t h p = absurd (cc p)
  execute_called-KeepsOrAsks (called actions u) s t h p =
      execute_or_wait-KeepsOrAsks actions (requires_user_confirmation env u actions) s u t
        (h actions u refl) refl p

  take_calls-KeepsOrAsks :
      (r : LlmResponse X) (s t : State X) → take_calls env r s ≡ ok t → KeepsOrAsks s t
  unfolding take_calls
  take_calls-KeepsOrAsks r s t p =
      let thought : Thought X = record {
        thought = r.thought;
        thinking_blocks = r.thinking_blocks;
      } in
      execute_called-KeepsOrAsks (get_action_events env r.id thought r.tool_calls s) s t
        (λ actions u q. get_action_events-Calls env r.id thought r.tool_calls s u actions q) p

  finish-Keeps :
      (b : Bool) (s t : State X)
      → KeepsOrFinishes s t
      → KeepsOrFinishes s (if b then with_status finished t else t)
  finish-Keeps true s t h = inr refl
  finish-Keeps false s t h = h

  returned : (b : Bool) (s t u : State X) → (if b then ok s else raised u) ≡ ok t → s ≡ t
  returned true s t u p = ok-injective p
  returned false s t u p = absurd (cc p)

  take_message-Keeps :
      (r : LlmResponse X) (s t : State X) → take_message env r s ≡ ok t → KeepsOrFinishes s t
  unfolding take_message
  take_message-Keeps r s t p =
      let stored = on_event env (message_event env Source.agent r.message s.events) s in
      let told = emit_token_ids env stored in
      subst (KeepsOrFinishes s) (ok-injective p) (
        finish-Keeps r.has_content s told (
          keeps_trans s stored told
            (inl (status-on_event env (message_event env Source.agent r.message s.events) s))
            (emit-Keeps stored)))

  calls_or_message :
      (calls : List ToolCall) (r : LlmResponse X) (s t : State X)
      → elim calls [ [] ↦ take_message env r s | c ∷ rest ↦ take_calls env r s ] ≡ ok t
      → KeepsOrAsks s t
  calls_or_message [] r s t p = inl (take_message-Keeps r s t p)
  calls_or_message (c ∷ calls) r s t p = take_calls-KeepsOrAsks r s t p

  take_completion-KeepsOrAsks :
      (c : Completion X) (s t : State X) → take_completion env c s ≡ ok t → KeepsOrAsks s t
  unfolding take_completion
  take_completion-KeepsOrAsks (malformed_call content) s t p =
      inl (stored-Keeps (message_event env Source.user content s.events) s t (ok-injective p))
  take_completion-KeepsOrAsks context_window_exceeded s t p =
      let request = condensation_request (plain env "CondensationRequest" s.events) in
      inl (
        stored-Keeps request s t
          (returned (handles_requests env env.condenser) (on_event env request s) t s p))
  take_completion-KeepsOrAsks failed s t p = absurd (cc p)
  take_completion-KeepsOrAsks (response r) s t p = calls_or_message r.tool_calls r s t p

  sample-KeepsOrAsks :
      (prepared : Attempt (Condensed X)) (s t : State X)
      → sample env prepared s ≡ ok t
      → KeepsOrAsks s t
  unfolding sample
  sample-KeepsOrAsks (Attempt.raise e) s t p = absurd (cc p)
  sample-KeepsOrAsks (Attempt.ok (condensed k)) s t p =
      inl (stored-Keeps (condensation k) s t (ok-injective p))
  sample-KeepsOrAsks (Attempt.ok (kept view)) s t p =
      take_completion-KeepsOrAsks (env.llm s.events view.events) s t p

  unless_message_blocked-KeepsOrAsks :
      (reason : Option String) (s t : State X)
      → unless_message_blocked env (reason, s) ≡ ok t
      → KeepsOrAsks s t
  unfolding unless_message_blocked
  unless_message_blocked-KeepsOrAsks (some reason) s t p =
      inl (inr (ap (λ (u : State X). u.execution_status) (sym (ok-injective p))))
  unless_message_blocked-KeepsOrAsks none s t p =
      sample-KeepsOrAsks (prepare_llm_messages env s.events) s t p

  sample_unless_blocked-KeepsOrAsks :
      (m : Option (MessageEvent X)) (s t : State X)
      → sample_unless_blocked env m s ≡ ok t
      → KeepsOrAsks s t
  unfolding sample_unless_blocked pop_blocked_message
  sample_unless_blocked-KeepsOrAsks none s t p = unless_message_blocked-KeepsOrAsks none s t p
  sample_unless_blocked-KeepsOrAsks (some m) s t p =
      elim (Option-cases (lookup s.blocked_messages m.id)) [
        | inl n ↦ unless_message_blocked-KeepsOrAsks none s t (rw (n, pop_blocked_message) at p)
        | inr (reason, y) ↦
            unless_message_blocked-KeepsOrAsks (some reason) _ t (rw (y, pop_blocked_message) at p)
      ]

  step_pending-KeepsOrAsks :
      (actions : List (ActionEvent X)) (s t : State X)
      → step_pending env actions s ≡ ok t
      → KeepsOrFinishes s t ⊎ ((actions ≡ []) × Asks s t)
  unfolding step_pending
  step_pending-KeepsOrAsks [] s t p =
      elim (sample_unless_blocked-KeepsOrAsks (last_user_message (reverse s.events)) s t p) [
        | inl h ↦ inl h
        | inr h ↦ inr (refl, h)
      ]
  step_pending-KeepsOrAsks (a ∷ actions) s t p =
      inl ((execute_actions-AreResultsOf env (a ∷ actions) s t p).3)

  not_kept :
      (s t : State X)
      → s.execution_status ≢ waiting_for_confirmation
      → t.execution_status ≡ waiting_for_confirmation
      → ¬ (KeepsOrFinishes s t)
  not_kept s t n w (inl k) = n (sym k ∙ w)
  not_kept s t n w (inr f) = absurd (cc (sym f ∙ w))

  -- A step that ends waiting for a confirmation found no pending action and executed nothing: it
  -- stored only actions and the errors of calls that are not valid. What is pending then are
  -- exactly its validated actions, and the policy asks to confirm them.
  pub step-Asks :
      (s t : State X)
      → step env s ≡ ok t
      → s.execution_status ≢ waiting_for_confirmation
      → t.execution_status ≡ waiting_for_confirmation
      → (get_unmatched_actions s.events ≡ [])
        × ((new : List (Event X)) × (t.events ≡ s.events ++ new)
            × (all is_call_event new ≡ true)
            × (get_unmatched_actions t.events ≡ executables new)
            × (requires_user_confirmation env t (executables new) ≡ Checked.ok true))
  unfolding step pending filter
  step-Asks s t p n w = elim (step_pending-KeepsOrAsks (get_unmatched_actions s.events) s t p) [
    | inl k ↦ absurd (not_kept s t n w k)
    | inr (none_pending, (new, q, calls, asks)) ↦ (
      none_pending,
      (
        new,
        q,
        calls,
        get_unmatched_actions-pending t.events
            ∙ ap pending q
            ∙ pending-append s.events new
            ∙ ap (λ l. filter (λ a. not (any (answers a.id) new)) l ++ pending new)
                (sym (get_unmatched_actions-pending s.events) ∙ none_pending)
            ∙ pending-calls new calls,
        asks,
      ),
    )
  ]
