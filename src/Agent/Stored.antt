-- ===== src/Agent/Stored.antt =====
-- What `on_event` does to the state: it stores one event, and leaves the status.
use codex_latest.Prelude.{
  String, ◌≡◌, refl, ap, Option, none, some, [], ◌∷◌, ◌++◌, inl, inr, Bool-cases,
}
use codex_latest.Event.{
  Event, Source, action, observation, user_reject, agent_error, message, system_prompt, summary,
  condensation, condensation_request, other,
}
use codex_latest.Stuck.{same_source}
use codex_latest.Conversation.{State, block_action, block_message}
use codex_latest.Agent.Env.{Env, blocked_if, run_hooks, callback_event, on_event}

module _ {X : Type 0} (env : Env X) where
  -- The hooks leave the events and the status.
  abbrev Keeps : State X → State X → Type 0
  Keeps s t = (t.events ≡ s.events) × (t.execution_status ≡ s.execution_status)

  blocked_if-Keeps :
      (block : String → State X → State X)
      → ((reason : String) (s : State X) → Keeps s (block reason s))
      → (reason : Option String) (s : State X) → Keeps s (blocked_if env block reason s)
  blocked_if-Keeps block h none s = (refl, refl)
  blocked_if-Keeps block h (some reason) s = h reason s

  run_hooks-Keeps : (e : Event X) (s : State X) → Keeps s (run_hooks env e s)
  unfolding run_hooks block_action block_message
  run_hooks-Keeps (action a) s =
      elim a.action
        as (λ o. Keeps s (elim o [
          | none ↦ s
          | some content ↦ blocked_if env (block_action a.id) (env.pre_tool_use a) s
        ])) [
          | none ↦ (refl, refl)
          | some content ↦
              blocked_if-Keeps (block_action a.id) (λ r t. (refl, refl)) (env.pre_tool_use a) s
        ]
  run_hooks-Keeps (message m) s = elim (Bool-cases (same_source m.source Source.user)) [
    | inl y ↦ rw y (
        blocked_if-Keeps (block_message m.id) (λ r t. (refl, refl))
          ((env.user_prompt_submit m).blocked) s)
    | inr n ↦ rw n (refl, refl)
  ]
  run_hooks-Keeps (observation o) s = (refl, refl)
  run_hooks-Keeps (user_reject o) s = (refl, refl)
  run_hooks-Keeps (agent_error o) s = (refl, refl)
  run_hooks-Keeps (system_prompt o) s = (refl, refl)
  run_hooks-Keeps (summary o) s = (refl, refl)
  run_hooks-Keeps (condensation o) s = (refl, refl)
  run_hooks-Keeps (condensation_request o) s = (refl, refl)
  run_hooks-Keeps (other o) s = (refl, refl)

  pub events-on_event :
      (e : Event X) (s : State X)
      → (on_event env e s).events ≡ s.events ++ callback_event env e ∷ []
  unfolding on_event
  events-on_event e s = ap (λ l. l ++ callback_event env e ∷ []) (run_hooks-Keeps e s).0

  pub status-on_event :
      (e : Event X) (s : State X) → (on_event env e s).execution_status ≡ s.execution_status
  unfolding on_event
  status-on_event e s = (run_hooks-Keeps e s).1
