-- ===== src/Agent/Errors.antt =====
-- A tool that raises a `ValueError` leaves its action pending.
use codex_latest.Prelude.{
  String, ◌≡◌, refl, ap, ◌∙◌, true, false, none, some, List, [], ◌∷◌, ◌++◌, lookup, assign,
  lookup-assign, reverse, string_eq, ◌==◌,
}
use mathlib.Core.List.{reverse-append}
use codex_latest.Stuck.{same_source}
use codex_latest.Event.{Event, ActionEvent, MessageEvent, Source, message}
use codex_latest.Conversation.{
  State, pop_blocked_message, block_message, pop_blocked_action, get_unmatched_actions,
}
use codex_latest.Conversation.Pending.{pending, get_unmatched_actions-unanswered}
use codex_latest.Agent.Env.{
  Env, Tool, value_error, on_event, run_hooks, callback_event, inject_context,
}
use codex_latest.Agent.Execute.{
  ok, execution_error, record_result, run_tool, unless_blocked, execute_action_event,
  execute_actions,
}
use codex_latest.Agent.Stored.{events-on_event}
use codex_latest.Agent.Sample.{last_user_message, step_pending, step}

module _ {X : Type 0} (env : Env X) where
  -- When the one pending action is not blocked and its tool raises a `ValueError`, the step
  -- stores the error of its call, and the action is still pending after it.
  pub step_value_error-pending :
      (a : ActionEvent X) (tool : Tool X) (text : String) (s : State X)
      → get_unmatched_actions s.events ≡ a ∷ []
      → lookup s.blocked_actions a.id ≡ none
      → lookup env.tools a.tool_name ≡ some tool
      → tool.call a s.events ≡ value_error text
      → (t : State X) × (step env s ≡ ok t)
        × (t.events ≡ s.events ++ execution_error env a text s.events ∷ [])
        × (get_unmatched_actions t.events ≡ a ∷ [])
  unfolding step step_pending execute_actions execute_action_event unless_blocked run_tool
      record_result pop_blocked_action callback_event pending
  step_value_error-pending a tool text s p blocked found raises =
      let e = execution_error env a text s.events in
      (
        on_event env e s,
        rw
            (
              p, step_pending, execute_actions, execute_action_event, blocked, pop_blocked_action,
              unless_blocked, run_tool, found, raises, record_result,
            )
            refl,
        events-on_event env e s,
        ap get_unmatched_actions (events-on_event env e s)
            ∙ get_unmatched_actions-unanswered s.events e (λ i. refl) refl
            ∙ p,
      )

module _ {X : Type 0} where
  last-append :
      (m : MessageEvent X) (events : List (Event X))
      → same_source m.source Source.user ≡ true
      → last_user_message (reverse (events ++ message m ∷ [])) ≡ some m
  unfolding last_user_message
  last-append m events h = rw (reverse-append events (message m ∷ []), h) refl

module _ {X : Type 0} (env : Env X) where
  -- What blocks the message is recorded under its own id; what is stored is the new message.
  on_event-inject_context :
      (m : MessageEvent X) (reason : String) (context : X) (s : State X)
      → same_source m.source Source.user ≡ true
      → env.user_prompt_submit m
        ≡ record { blocked = some reason; additional_context = some context }
      → on_event env (message m) s ≡ record s {
        events = s.events ++ message (inject_context env m (some context)) ∷ [];
        blocked_messages = assign m.id reason s.blocked_messages;
      }
  unfolding on_event run_hooks callback_event block_message inject_context
  on_event-inject_context m reason context s user hooks = simp (user, hooks) refl

  not_blocked :
      (i : String) (s : State X)
      → lookup s.blocked_messages i ≡ none
      → (pop_blocked_message i s).0 ≡ none
  unfolding pop_blocked_message
  not_blocked i s h = rw (h, pop_blocked_message) refl

  -- When the hooks block a user message and add a context to it, and the id of the new event is
  -- neither that of the message nor one that is blocked: the new event, with the context, is what
  -- is stored as the last user message, the block stands under the id of the message, and the step
  -- that looks it up under the id of the stored event does not see it.
  pub pop_blocked_message-on_event :
      (m : MessageEvent X) (reason : String) (context : X) (s : State X)
      → m.source ≡ Source.user
      → env.user_prompt_submit m
        ≡ record { blocked = some reason; additional_context = some context }
      → (m.id == env.extended_id m) ≡ false
      → lookup s.blocked_messages (env.extended_id m) ≡ none
      → let t = on_event env (message m) s in
        (n : MessageEvent X) × (last_user_message (reverse t.events) ≡ some n)
        × (n.llm_message ≡ env.with_context m.llm_message context)
        × (lookup t.blocked_messages m.id ≡ some reason)
        × ((pop_blocked_message n.id t).0 ≡ none)
  unfolding inject_context
  pop_blocked_message-on_event m reason context s user hooks other free =
      let n = inject_context env m (some context) in
      let is_user : (x : Source) → x ≡ Source.user → same_source x Source.user ≡ true =
        λ x p. ap (λ y. same_source y Source.user) p in
      let stored = on_event-inject_context m reason context s (is_user m.source user) hooks in
      (
        n,
        rw stored (last-append n s.events (is_user m.source user)),
        refl,
        rw stored (
            lookup-assign m.id m.id reason s.blocked_messages
            ∙ rw ((string_eq.reflects m.id m.id).1 refl) refl),
        rw stored (
            not_blocked n.id _ (lookup-assign m.id n.id reason s.blocked_messages ∙ rw other free)),
      )
