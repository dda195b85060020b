-- ===== src/Agent/Called.antt =====
-- What the calls of a response leave: their actions and the errors of those that are not valid.
use codex_latest.Prelude.{
  String, ◌≡◌, refl, sym, ap, subst, ◌∙◌, inl, inr, Bool, true, false, not, ◌&&◌, Option, none,
  some, List, [], ◌∷◌, ◌++◌, any, all, string_eq, Option-cases, if◌then◌else◌, arith,
}
use mathlib.Core.List.{append_assoc, append-nil}
use codex_latest.Event.{
  Event, ActionEvent, action, observation, user_reject, agent_error, message, system_prompt,
  summary, condensation, condensation_request, other,
}
use codex_latest.Security.{unknown}
use codex_latest.Conversation.{State, is_executable}
use codex_latest.Conversation.Pending.{answers, pending}
use codex_latest.Agent.Env.{Env, ToolCall, on_event, callback_event}
use codex_latest.Agent.Calls.{
  Thought, parse_call, requires_security_risk, action_event, error_event, get_action_event,
  get_action_events, cons_event, Parsed, valid, invalid, unhandled, record_call, Called, called,
  broken,
}
use codex_latest.Agent.Stored.{events-on_event, status-on_event}

module _ {X : Type 0} where
  -- An action, or the error of a call that is not valid.
  abbrev pub is_call_event : Event X → Bool
  is_call_event (action a) = true
  is_call_event (agent_error e) = true
  is_call_event _ = false

  -- The validated actions among the events.
  unfoldable pub executables : List (Event X) → List (ActionEvent X)
  executables [] = []
  executables (action a ∷ events) =
      let rest = executables events in if is_executable a then a ∷ rest else rest
  executables (e ∷ events) = executables events

  answers-calls :
      (i : String) (events : List (Event X))
      → all is_call_event events ≡ true
      → any (answers i) events ≡ false
  unfolding any all
  answers-calls i [] h = refl
  answers-calls i (action a ∷ events) h = answers-calls i events h
  answers-calls i (agent_error e ∷ events) h = answers-calls i events h
  answers-calls i (_ ∷ events) h = absurd (cc h)

  pub pending-calls :
      (events : List (Event X))
      → all is_call_event events ≡ true
      → pending events ≡ executables events
  unfolding pending executables all
  pending-calls [] h = refl
  pending-calls (action a ∷ events) h =
      rw (answers-calls a.id events h, pending-calls events h)
        (same_if (is_executable a) a (executables events))
    where
      same_if :
          (b : Bool) (a : ActionEvent X) (l : List (ActionEvent X))
          → (if b && not false then a ∷ l else l) ≡ (if b then a ∷ l else l)
      same_if true a l = refl
      same_if false a l = refl
  pending-calls (agent_error e ∷ events) h = pending-calls events h
  pending-calls (_ ∷ events) h = absurd (cc h)

module _ {X : Type 0} (env : Env X) where
  -- `t` is `s` with the events of some calls, whose validated actions are `actions`.
  abbrev pub Calls : State X → State X → List (ActionEvent X) → Type 0
  Calls s t actions =
      (new : List (Event X)) × (t.events ≡ s.events ++ new)
      × (all is_call_event new ≡ true)
      × (executables new ≡ actions)
      × (t.execution_status ≡ s.execution_status)

  abbrev Left : Type 0
  Left = Option (ActionEvent X) × State X

  some-injective : (x y : Left) → some x ≡ some y → x ≡ y
  some-injective x y p = cc p

  -- The same of what the loop over the calls returns.
  abbrev CallsOf : State X → Called X → Type 0
  CallsOf s (called actions t) = Calls s t actions
  CallsOf s (broken t) = Unit

  one_more :
      (s t u : State X) (e f : Event X)
      → t.events ≡ s.events ++ e ∷ []
      → u.events ≡ t.events ++ f ∷ []
      → u.events ≡ s.events ++ e ∷ f ∷ []
  one_more s t u e f p q = q ∙ ap (λ l. l ++ f ∷ []) p ∙ append_assoc s.events (e ∷ []) (f ∷ [])

  record_call-Calls :
      (i : String) (th : Thought X) (c : ToolCall) (parsed : Parsed X) (s u : State X)
      → (a : Option (ActionEvent X)) → record_call env i th c parsed s ≡ some (a, u)
      → Calls s u (elim a [ none ↦ [] | some b ↦ b ∷ [] ])
  unfolding record_call all executables callback_event
  record_call-Calls i th c unhandled s u o p = absurd (cc p)
  record_call-Calls i th c invalid s u o p =
      let a = action_event env i th c none unknown s.events in
      let v = on_event env (action a) s in
      let e = error_event env c v.events in
      let left : Left = (none, on_event env e v) in
      subst (λ (r : Left). Calls s r.1 (elim r.0 [ none ↦ [] | some b ↦ b ∷ [] ]))
        (some-injective left (o, u) p)
        (
          action a ∷ e ∷ [],
          one_more s v (on_event env e v) (action a) e (events-on_event env (action a) s)
              (events-on_event env e v),
          refl,
          refl,
          status-on_event env e v ∙ status-on_event env (action a) s,
        )
  record_call-Calls i th c (valid content risk) s u o p =
      let a = action_event env i th c (some content) risk s.events in
      let left : Left = (some a, on_event env (action a) s) in
      subst (λ (r : Left). Calls s r.1 (elim r.0 [ none ↦ [] | some b ↦ b ∷ [] ]))
        (some-injective left (o, u) p)
        (
          action a ∷ [],
          events-on_event env (action a) s,
          refl,
          refl,
          status-on_event env (action a) s,
        )

  all-append :
      (p : Event X → Bool) (xs ys : List (Event X))
      → all p xs ≡ true
      → all p ys ≡ true
      → all p (xs ++ ys) ≡ true
  unfolding all
  all-append p [] ys h k = k
  all-append p (x ∷ xs) ys h k = ground (arith, all-append p xs ys)

  cons_if :
      (b : Bool) (a : ActionEvent X) (l r : List (ActionEvent X))
      → (if b then a ∷ (l ++ r) else l ++ r) ≡ (if b then a ∷ l else l) ++ r
  cons_if true a l r = refl
  cons_if false a l r = refl

  executables-append :
      (xs ys : List (Event X)) → executables (xs ++ ys) ≡ executables xs ++ executables ys
  unfolding executables
  executables-append [] ys = refl
  executables-append (action a ∷ xs) ys =
      rw (executables-append xs ys) (cons_if (is_executable a) a (executables xs) (executables ys))
  executables-append (observation o ∷ xs) ys = executables-append xs ys
  executables-append (user_reject o ∷ xs) ys = executables-append xs ys
  executables-append (agent_error o ∷ xs) ys = executables-append xs ys
  executables-append (message o ∷ xs) ys = executables-append xs ys
  executables-append (system_prompt o ∷ xs) ys = executables-append xs ys
  executables-append (summary o ∷ xs) ys = executables-append xs ys
  executables-append (condensation o ∷ xs) ys = executables-append xs ys
  executables-append (condensation_request o ∷ xs) ys = executables-append xs ys
  executables-append (other o ∷ xs) ys = executables-append xs ys

  Calls-append :
      (r s t : State X) (xs ys : List (ActionEvent X))
      → Calls r s xs
      → Calls s t ys
      → Calls r t (xs ++ ys)
  Calls-append r s t xs ys (new, p, calls, es, status) (more, q, calls2, fs, status2) = (
    new ++ more,
    q ∙ ap (λ l. l ++ more) p ∙ append_assoc r.events new more,
    all-append is_call_event new more calls calls2,
    executables-append new more ∙ ap (λ l. l ++ executables more) es ∙ ap (λ l. xs ++ l) fs,
    status2 ∙ status,
  )

  cons_event-Calls :
      (a : Option (ActionEvent X)) (s u v : State X) (r : Called X) (actions : List (ActionEvent X))
      → Calls s u (elim a [ none ↦ [] | some b ↦ b ∷ [] ])
      → ((more : List (ActionEvent X)) (t : State X) → r ≡ called more t → Calls u t more)
      → cons_event env a r ≡ called actions v
      → Calls s v actions
  cons_event-Calls none s u v r actions h k p = Calls-append s u v [] actions h (k actions v p)
  cons_event-Calls (some a) s u v (broken t) actions h k p = absurd (cc p)
  cons_event-Calls (some a) s u v (called more t) actions h k p =
      subst (λ (x : Called X). CallsOf s x) p (Calls-append s u t (a ∷ []) more h (k more t refl))

  pub get_action_events-Calls :
      (i : String) (th : Thought X) (calls : List ToolCall) (s u : State X)
      → (actions : List (ActionEvent X)) → get_action_events env i th calls s ≡ called actions u
      → Calls s u actions
  unfolding get_action_events get_action_event all executables
  get_action_events-Calls i th [] s u actions p =
      subst (CallsOf s) p ([], sym (append-nil s.events), refl, refl, refl)
  get_action_events-Calls i th (c ∷ calls) s u actions p =
      let parsed = parse_call env (requires_security_risk env s.security_analyzer) c in
      let thoughtless : Thought X = record { thought = []; thinking_blocks = [] } in
      elim (Option-cases (record_call env i th c parsed s)) [
        | inl n ↦ absurd (cc (rw (n, get_action_event, get_action_events) at p))
        | inr ((a, next), y) ↦
            cons_event-Calls a s next u (get_action_events env i thoughtless calls next) actions
              (record_call-Calls i th c parsed s next a y)
              (λ more t q. get_action_events-Calls i thoughtless calls next t more q)
              (rw (y, get_action_event, get_action_events) at p)
      ]
