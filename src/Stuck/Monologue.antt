-- ===== src/Stuck/Monologue.antt =====
-- What `_is_stuck_monologue` counts: messages of the agent, with nothing of the user and no action
-- between them.
use codex_latest.Prelude.{
  ℕ, suc, ◌≤◌, ◌≡◌, ◌↔◌, refl, ap, ◌∙◌, Bool, true, false, not, ◌&&◌, List, [], ◌∷◌, ◌++◌, length,
  filter, reverse, all, arith, inl, inr, Bool-cases, length-append, length-filter-le, if◌then◌else◌,
}
use mathlib.Core.List.{reverse-append}
use codex_latest.Event.{
  Event, Source, action, observation, user_reject, agent_error, message, system_prompt, summary,
  condensation, condensation_request, other,
}
use codex_latest.Stuck.{same_source, agent_messages, is_stuck_monologue}

not_user : (x : Source) → same_source x Source.agent ≡ true → same_source x Source.user ≡ false
not_user Source.agent h = refl
not_user Source.user h = absurd (cc h)
not_user Source.environment h = refl

and_parts : (a b : Bool) → (a && b) ≡ true → (a ≡ true) × (b ≡ true)
and_parts a b h = ground arith

module _ {X : Type 0} where
  abbrev pub is_agent_message : Event X → Bool
  is_agent_message (message m) = same_source m.source Source.agent
  is_agent_message _ = false

  -- What a monologue is made of: messages, not of the user, and summaries.
  abbrev pub is_monologue_event : Event X → Bool
  is_monologue_event (message m) = not (same_source m.source Source.user)
  is_monologue_event (summary e) = true
  is_monologue_event _ = false

  -- The events end, the latest first, with messages that are not the user's and summaries, and at
  -- least `n` of these are messages of the agent.
  abbrev pub Monologue : ℕ → List (Event X) → Type 0
  Monologue n events =
      (recent : List (Event X)) × (before : List (Event X)) × (reverse events ≡ recent ++ before)
      × (all is_monologue_event recent ≡ true)
      × (n ≤ length (filter is_agent_message recent))

  agent_messages-cons :
      (e : Event X) (events : List (Event X))
      → agent_messages (e ∷ events) ≡ (
          if is_monologue_event e
          then (if is_agent_message e then suc (agent_messages events) else agent_messages events)
          else 0)
  unfolding agent_messages
  agent_messages-cons (message m) events = elim (Bool-cases (same_source m.source Source.agent)) [
    | inl y ↦ rw (y, not_user m.source y) refl
    | inr n ↦ elim (Bool-cases (same_source m.source Source.user)) [
      | inl u ↦ rw (n, u) refl
      | inr v ↦ rw (n, v) refl
    ]
  ]
  agent_messages-cons (summary a) events = refl
  agent_messages-cons (action a) events = refl
  agent_messages-cons (observation a) events = refl
  agent_messages-cons (user_reject a) events = refl
  agent_messages-cons (agent_error a) events = refl
  agent_messages-cons (system_prompt a) events = refl
  agent_messages-cons (condensation a) events = refl
  agent_messages-cons (condensation_request a) events = refl
  agent_messages-cons (other a) events = refl

  -- The count reaches the messages of the monologue that the events start with, and no more.
  agent_messages-found :
      (events : List (Event X))
      → (recent : List (Event X)) × (before : List (Event X)) × (events ≡ recent ++ before)
        × (all is_monologue_event recent ≡ true)
        × (agent_messages events ≡ length (filter is_agent_message recent))
  unfolding agent_messages all filter
  agent_messages-found [] = ([], [], refl, refl, refl)
  agent_messages-found (e ∷ events) =
      let (recent, before, same, quiet, counted) = agent_messages-found events in
      let c = agent_messages-cons e events in
      elim (Bool-cases (is_monologue_event e)) [
        | inr n ↦ ([], e ∷ events, refl, refl, c ∙ rw n refl)
        | inl y ↦ (e ∷ recent, before, ap (λ l. e ∷ l) same, ground arith, ground arith)
      ]

  agent_messages-prefix :
      (recent before : List (Event X))
      → all is_monologue_event recent ≡ true
      → length (filter is_agent_message recent) ≤ agent_messages (recent ++ before)
  unfolding all filter
  agent_messages-prefix [] before h = omega arith
  agent_messages-prefix (e ∷ recent) before h =
      let c = agent_messages-cons e (recent ++ before) in
      let parts = and_parts (is_monologue_event e) (all is_monologue_event recent) h in
      let r = agent_messages-prefix recent before parts.1 in rw (c, parts.0) (ground arith)

  pub length-reverse : (xs : List (Event X)) → length (reverse xs) ≡ length xs
  length-reverse [] = refl
  length-reverse (x ∷ xs) =
      ap length (reverse-append (x ∷ []) xs)
      ∙ omega (arith, length-append (reverse xs) (x ∷ []), length-reverse xs)

  pub is_stuck_monologue_iff :
      (n : ℕ) (events : List (Event X)) → (is_stuck_monologue n events ≡ true) ↔ Monologue n events
  unfolding is_stuck_monologue
  is_stuck_monologue_iff n events =
      let (recent, before, same, quiet, counted) = agent_messages-found (reverse events) in
      (
        λ h. (recent, before, same, quiet, ground arith),
        λ m.
            let (part, rest, p, q, enough) = m in
            let reached = agent_messages-prefix part rest q in
            let within = length-filter-le is_agent_message part in
            let parts = length-append part rest in
            let whole = ap length p in
            let whole' = length-reverse events in
            let counted' = ap agent_messages p in ground arith,
      )
