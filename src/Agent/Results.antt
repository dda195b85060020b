-- ===== src/Agent/Results.antt =====
-- Executing actions stores one result for each, in order.
use codex_latest.Prelude.{
  String, ◌≡◌, refl, sym, ap, ◌∙◌, subst, ◌⊎◌, inl, inr, Bool, true, false, Option, none, some,
  List, [], ◌∷◌, ◌++◌, lookup, string_eq, ◌==◌, Option-cases,
}
use mathlib.Core.List.{append_assoc, append-nil}
use codex_latest.Event.{Event, ActionEvent, observation, user_reject, agent_error}
use codex_latest.Conversation.{State, finished, pop_blocked_action}
use codex_latest.Agent.Env.{
  Env, Tool, ToolResult, observed, value_error, crashed, on_event, callback_event,
}
use codex_latest.Agent.Execute.{
  Stepped, ok, raised, result, rejection, execution_error, finish_if, record_result, run_tool,
  unless_blocked, execute_action_event, then_do, execute_actions,
}
use codex_latest.Agent.Stored.{events-on_event, status-on_event}

module _ {X : Type 0} where
  -- The event is the observation, the rejection or the error of the call of the action.
  abbrev pub IsResultOf : ActionEvent X → Event X → Type 0
  IsResultOf a (observation o) = (o.action_id ≡ a.id) × (o.tool_call_id ≡ a.tool_call_id)
  IsResultOf a (user_reject o) = (o.action_id ≡ a.id) × (o.tool_call_id ≡ a.tool_call_id)
  IsResultOf a (agent_error o) = o.tool_call_id ≡ a.tool_call_id
  IsResultOf a _ = ⊥

  -- One result for each action, in order.
  abbrev pub AreResultsOf : List (ActionEvent X) → List (Event X) → Type 0
  AreResultsOf [] [] = Unit
  AreResultsOf (a ∷ actions) (e ∷ events) = IsResultOf a e × AreResultsOf actions events
  AreResultsOf _ _ = ⊥

  -- The status is as before, or the conversation is finished.
  abbrev pub KeepsOrFinishes : State X → State X → Type 0
  KeepsOrFinishes s t = (t.execution_status ≡ s.execution_status) ⊎ (t.execution_status ≡ finished)

  pub keeps_trans :
      (r s t : State X) → KeepsOrFinishes r s → KeepsOrFinishes s t → KeepsOrFinishes r t
  keeps_trans r s t (inl p) (inl q) = inl (q ∙ p)
  keeps_trans r s t (inr p) (inl q) = inr (q ∙ p)
  keeps_trans r s t h (inr q) = inr q

  pub then_do-ok :
      (f : State X → Stepped X) (r : Stepped X) {t : State X}
      → then_do f r ≡ ok t
      → (u : State X) × (r ≡ ok u) × (f u ≡ ok t)
  then_do-ok f (ok u) p = (u, refl, p)
  then_do-ok f (raised u) p = absurd (cc p)

  pub ok-injective : {s t : State X} → ok s ≡ ok t → s ≡ t
  ok-injective p = cc p

module _ {X : Type 0} (env : Env X) where
  -- `t` is `s` with one more event, a result of the action.
  abbrev Adds : ActionEvent X → State X → State X → Type 0
  Adds a s t =
      (e : Event X) × (t.events ≡ s.events ++ e ∷ []) × IsResultOf a e × KeepsOrFinishes s t

  finish-Adds :
      (b : Bool) (a : ActionEvent X) (e : Event X) (s : State X)
      → IsResultOf a (callback_event env e)
      → Adds a s (finish_if env b (on_event env e s))
  finish-Adds true a e s h = (callback_event env e, events-on_event env e s, h, inr refl)
  finish-Adds false a e s h =
      (callback_event env e, events-on_event env e s, h, inl (status-on_event env e s))

  record_result-Adds :
      (a : ActionEvent X) (r : ToolResult X) (s t : State X)
      → record_result env a r s ≡ ok t
      → Adds a s t
  unfolding record_result callback_event
  record_result-Adds a (observed content) s t p =
      subst (Adds a s) (ok-injective p)
        (finish-Adds (a.tool_name == "finish") a (result env a content s.events) s (refl, refl))
  record_result-Adds a (value_error text) s t p =
      subst (Adds a s) (ok-injective p)
        (finish-Adds false a (execution_error env a text s.events) s refl)
  record_result-Adds a crashed s t p = absurd (cc p)

  run_tool-Adds :
      (a : ActionEvent X) (tool : Option (Tool X)) (s t : State X)
      → run_tool env a tool s ≡ ok t
      → Adds a s t
  unfolding run_tool
  run_tool-Adds a none s t p = absurd (cc p)
  run_tool-Adds a (some tool) s t p = record_result-Adds a (tool.call a s.events) s t p

  unless_blocked-Adds :
      (a : ActionEvent X) (reason : Option String) (s t : State X)
      → unless_blocked env a (reason, s) ≡ ok t
      → Adds a s t
  unfolding unless_blocked callback_event
  unless_blocked-Adds a none s t p = run_tool-Adds a (lookup env.tools a.tool_name) s t p
  unless_blocked-Adds a (some reason) s t p =
      subst (Adds a s) (ok-injective p)
        (finish-Adds false a (rejection env a reason s.events) s (refl, refl))

  pop-keeps :
      (i : String) (s : State X)
      → ((pop_blocked_action i s).1.events ≡ s.events)
        × ((pop_blocked_action i s).1.execution_status ≡ s.execution_status)
  unfolding pop_blocked_action
  pop-keeps i s = elim (Option-cases (lookup s.blocked_actions i)) [
    | inl n ↦ rw (n, pop_blocked_action) (refl, refl)
    | inr (reason, y) ↦ rw (y, pop_blocked_action) (refl, refl)
  ]

  execute_action_event-Adds :
      (a : ActionEvent X) (s t : State X) → execute_action_event env a s ≡ ok t → Adds a s t
  unfolding execute_action_event
  execute_action_event-Adds a s t p =
      let (e, q, r, k) =
        unless_blocked-Adds a (pop_blocked_action a.id s).0 (pop_blocked_action a.id s).1 t p in
      let (kept, status) = pop-keeps a.id s in
      (
        e,
        q ∙ ap (λ l. l ++ e ∷ []) kept,
        r,
        keeps_trans s (pop_blocked_action a.id s).1 t (inl status) k,
      )

  -- Executing actions without an exception stores exactly one result for each of them, in order,
  -- under the tool call id of its action; the status is kept, or the conversation is finished.
  pub execute_actions-AreResultsOf :
      (actions : List (ActionEvent X)) (s t : State X)
      → execute_actions env actions s ≡ ok t
      → (new : List (Event X)) × (t.events ≡ s.events ++ new)
        × AreResultsOf actions new
        × KeepsOrFinishes s t
  unfolding execute_actions
  execute_actions-AreResultsOf [] s t p =
      let same = ok-injective p in
      (
        [],
        ap (λ (u : State X). u.events) (sym same) ∙ sym (append-nil s.events),
        tt,
        inl (ap (λ (u : State X). u.execution_status) (sym same)),
      )
  execute_actions-AreResultsOf (a ∷ actions) s t p =
      let (u, q, r) =
        then_do-ok (λ v. execute_actions env actions v) (execute_action_event env a s) p in
      let (e, added, is_result, k) = execute_action_event-Adds a s u q in
      let (new, more, are_results, l) = execute_actions-AreResultsOf actions u t r in
      (
        e ∷ new,
        more ∙ ap (λ l. l ++ new) added ∙ append_assoc s.events (e ∷ []) new,
        (is_result, are_results),
        keeps_trans s u t k l,
      )
