-- ===== src/Stuck.antt =====
-- openhands-sdk/openhands/sdk/conversation/stuck_detector.py: whether an agent repeats itself.
-- `model_eq` is pydantic's `==` on two events of one class; the equality of contents is that of
-- the content models. Logging is left out.
pub mod Recent
pub mod Collect
pub mod Last
pub mod Same
pub mod Monologue
pub mod Alternation
pub mod Repeats
use codex_latest.Prelude.{
  ℕ, zero, suc, ◌+◌, ◌-◌, min, max, Bool, true, false, not, ◌&&◌, ◌||◌, String, Option, none, some,
  List, [], ◌∷◌, ◌++◌, reverse, length, take, get_elem?, all, Eq, ◌==◌, nat_eq, string_eq, ltb, leb,
  if◌then◌else◌,
}
use codex_latest.Event.{
  Event, Source, action, observation, user_reject, agent_error, message, system_prompt, summary,
  condensation, condensation_request, other, as_action, as_observation,
}

-- `StuckDetectionThresholds` of conversation/types.py.
pub record Thresholds : Type 0 where
  pub action_observation : ℕ
  pub action_error : ℕ
  pub monologue : ℕ
  pub alternating_pattern : ℕ

-- The bounds `ge=1` of the fields.
unfoldable pub are_positive : Thresholds → Bool
are_positive t =
    leb 1 t.action_observation
    && leb 1 t.action_error
    && leb 1 t.monologue
    && leb 1 t.alternating_pattern

abbrev pub same_source : Source → Source → Bool
same_source Source.agent Source.agent = true
same_source Source.user Source.user = true
same_source Source.environment Source.environment = true
same_source _ _ = false

abbrev is_some {ℓ} : {A : Type ℓ} → Option A → Bool
is_some none = false
is_some (some a) = true

module _ {X : Type 0} where
  -- `type(event)`
  abbrev pub class_name : Event X → String
  class_name (action e) = "ActionEvent"
  class_name (observation e) = "ObservationEvent"
  class_name (user_reject e) = "UserRejectObservation"
  class_name (agent_error e) = "AgentErrorEvent"
  class_name (message e) = "MessageEvent"
  class_name (system_prompt e) = "SystemPromptEvent"
  class_name (summary e) = "CondensationSummaryEvent"
  class_name (condensation e) = "Condensation"
  class_name (condensation_request e) = "CondensationRequest"
  class_name (other e) = e.class_name

  abbrev pub is_user_message : Event X → Bool
  is_user_message (message e) = same_source e.source Source.user
  is_user_message _ = false

  abbrev pub is_action : Event X → Bool
  is_action e = is_some (as_action e)

  abbrev pub is_observation : Event X → Bool
  is_observation e = is_some (as_observation e)

  abbrev pub is_agent_error : Event X → Bool
  is_agent_error (agent_error e) = true
  is_agent_error _ = false

  -- `isinstance(event, (ObservationEvent, AgentErrorEvent))`
  abbrev pub is_observation_or_error : Event X → Bool
  is_observation_or_error (observation e) = true
  is_observation_or_error (agent_error e) = true
  is_observation_or_error _ = false

  -- The events after the last user message; `none` if there is no such message.
  unfoldable pub after_last_user : List (Event X) → Option (List (Event X))
  after_last_user [] = none
  after_last_user (e ∷ events) = elim (after_last_user events) [
    | some recent ↦ some recent
    | none ↦ if is_user_message e then some events else none
  ]

  -- The body of the two loops that collect recent actions and observations, from the last event on.
  unfoldable pub add_recent :
      (Event X → Bool)
      → ℕ
      → Event X
      → List (Event X) × List (Event X)
      → List (Event X) × List (Event X)
  add_recent is_obs n e (actions, observations) =
      if is_action e && ltb (length actions) n
      then (actions ++ e ∷ [], observations)
      else if is_obs e && ltb (length observations) n
      then (actions, observations ++ e ∷ [])
      else (actions, observations)

  -- Those loops; `full` is the test of the `break`.
  unfoldable pub collect :
      (Event X → Bool)
      → (ℕ → Bool)
      → ℕ
      → List (Event X)
      → List (Event X) × List (Event X)
      → List (Event X) × List (Event X)
  collect is_obs full n [] s = s
  collect is_obs full n (e ∷ events) s =
      let next = add_recent is_obs n e s in
      let rest = collect is_obs full n events next in
      if full (length next.0) && full (length next.1) then next else rest

  -- The loop of `_is_stuck_monologue`, over the reversed events.
  unfoldable pub agent_messages : List (Event X) → ℕ
  agent_messages [] = 0
  agent_messages (message e ∷ events) =
      let rest = agent_messages events in
      if same_source e.source Source.agent
      then suc rest
      else if same_source e.source Source.user
      then 0
      else rest
  agent_messages (summary e ∷ events) = agent_messages events
  agent_messages (e ∷ events) = 0

  unfoldable pub is_stuck_monologue : ℕ → List (Event X) → Bool
  is_stuck_monologue threshold events =
      if ltb (length events) threshold
      then false
      else leb threshold (agent_messages (reverse events))

module _ {X : Type 0} ⦃e : Eq X⦄ where
  abbrev same_contents : List X → List X → Bool
  same_contents [] [] = true
  same_contents (x ∷ xs) (y ∷ ys) = x == y && same_contents xs ys
  same_contents _ _ = false

  abbrev same_action : Option X → Option X → Bool
  same_action none none = true
  same_action (some x) (some y) = x == y
  same_action _ _ = false

  -- The comparison of two events of one class.
  unfoldable pub content_eq : (Event X → Event X → Bool) → Event X → Event X → Bool
  content_eq model_eq (action a) (action b) =
      same_source a.source b.source
      && same_contents a.thought b.thought
      && same_action a.action b.action
      && a.tool_name == b.tool_name
  content_eq model_eq (observation a) (observation b) =
      same_source a.source b.source && a.observation == b.observation && a.tool_name == b.tool_name
  content_eq model_eq (agent_error a) (agent_error b) =
      same_source a.source b.source && a.error == b.error
  content_eq model_eq (message a) (message b) =
      same_source a.source b.source && a.llm_message == b.llm_message
  content_eq model_eq a b = model_eq a b

  -- `_event_eq`
  unfoldable pub event_eq : (Event X → Event X → Bool) → Event X → Event X → Bool
  event_eq model_eq a b = if class_name a == class_name b then content_eq model_eq a b else false

module _ {X : Type 0} ⦃e : Eq X⦄ (model_eq : Event X → Event X → Bool) where
  -- `all(self._event_eq(events[0], event) for event in events[:threshold])`
  unfoldable pub all_equal : ℕ → List (Event X) → Bool
  all_equal threshold [] = true
  all_equal threshold (first ∷ events) =
      all (event_eq model_eq first) (take threshold (first ∷ events))

  unfoldable pub is_stuck_repeating_action_observation : ℕ → List (Event X) → List (Event X) → Bool
  is_stuck_repeating_action_observation threshold last_actions last_observations =
      if leb threshold (length last_actions) && leb threshold (length last_observations)
      then all_equal threshold last_actions && all_equal threshold last_observations
      else false

  unfoldable pub is_stuck_repeating_action_error : ℕ → List (Event X) → List (Event X) → Bool
  is_stuck_repeating_action_error threshold last_actions last_observations =
      if ltb (length last_actions) threshold || ltb (length last_observations) threshold
      then false
      else all_equal threshold last_actions && all is_agent_error (take threshold last_observations)

  -- `all(self._event_eq(events[i], events[i + 2]) for i in range(len(events) - 2))`
  unfoldable pub alternates : List (Event X) → Bool
  alternates (a ∷ b ∷ c ∷ events) = event_eq model_eq a c && alternates (b ∷ c ∷ events)
  alternates _ = true

  unfoldable pub is_stuck_alternating_action_observation : ℕ → List (Event X) → Bool
  is_stuck_alternating_action_observation threshold events =
      let (last_actions, last_observations) =
        collect is_observation_or_error (λ k. k == threshold) threshold (reverse events) ([], []) in
      if length last_actions == threshold && length last_observations == threshold
      then alternates last_actions && alternates last_observations
      else false

  -- `is_stuck`, on the events after the last user message. The fifth pattern is never found: its
  -- check returns `False`.
  unfoldable pub is_stuck_recently : Thresholds → List (Event X) → Bool
  is_stuck_recently t events =
      let min_threshold = min (min t.action_observation t.action_error) t.monologue in
      let max_needed = max t.action_observation t.action_error in
      let (last_actions, last_observations) =
        collect is_observation (λ k. leb max_needed k) max_needed (reverse events) ([], []) in
      if ltb (length events) min_threshold
      then false
      else is_stuck_repeating_action_observation t.action_observation last_actions last_observations
        || is_stuck_repeating_action_error t.action_error last_actions last_observations
        || is_stuck_monologue t.monologue events
        || (leb t.alternating_pattern (length events)
            && is_stuck_alternating_action_observation t.alternating_pattern events)

  unfoldable pub is_stuck : Thresholds → List (Event X) → Bool
  is_stuck t events = elim (after_last_user events) [
    | none ↦ false
    | some recent ↦ is_stuck_recently t recent
  ]
