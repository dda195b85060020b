-- ===== src/Stuck/Same.antt =====
-- When the stuck detector takes two events for equal: `_event_eq`, described by equations.
use codex_latest.Prelude.{
  ◌≡◌, ◌↔◌, refl, ap, Bool, true, false, ◌&&◌, Option, none, some, List, [], ◌∷◌, Eq, ◌==◌,
  string_eq, Bool-cases, inl, inr,
}
use codex_latest.Event.{
  Event, Source, action, observation, user_reject, agent_error, message, system_prompt, summary,
  condensation, condensation_request, other,
}
use codex_latest.Stuck.{same_source, same_contents, same_action, class_name, content_eq, event_eq}

pub and_iff :
    {P Q : Type 0} (a b : Bool) → (a ≡ true) ↔ P → (b ≡ true) ↔ Q → ((a && b) ≡ true) ↔ (P × Q)
and_iff true b p q = (λ h. (p.0 refl, q.0 h), λ r. q.1 r.1)
and_iff false b p q = (λ h. absurd (cc h), λ r. absurd (cc (p.1 r.0)))

and_three_iff :
    {P Q R : Type 0} (a b c : Bool)
    → (a ≡ true) ↔ P
    → (b ≡ true) ↔ Q
    → (c ≡ true) ↔ R
    → ((a && b && c) ≡ true) ↔ (P × Q × R)
and_three_iff true b c p q r =
    let both = and_iff b c q r in
    (λ h. (p.0 refl, (both.0 h).0, (both.0 h).1), λ z. both.1 (z.1, z.2))
and_three_iff false b c p q r = (λ h. absurd (cc h), λ z. absurd (cc (p.1 z.0)))

and_four_iff :
    {P Q R S : Type 0} (a b c d : Bool)
    → (a ≡ true) ↔ P
    → (b ≡ true) ↔ Q
    → (c ≡ true) ↔ R
    → (d ≡ true) ↔ S
    → ((a && b && c && d) ≡ true) ↔ (P × Q × R × S)
and_four_iff true b c d p q r t =
    let rest = and_three_iff b c d q r t in
    (λ h. (p.0 refl, (rest.0 h).0, (rest.0 h).1, (rest.0 h).2), λ z. rest.1 (z.1, z.2, z.3))
and_four_iff false b c d p q r t = (λ h. absurd (cc h), λ z. absurd (cc (p.1 z.0)))

same_source_iff : (a b : Source) → (same_source a b ≡ true) ↔ (a ≡ b)
same_source_iff Source.agent Source.agent = (λ h. refl, λ h. refl)
same_source_iff Source.agent Source.user = (λ h. absurd (cc h), λ h. absurd (cc h))
same_source_iff Source.agent Source.environment = (λ h. absurd (cc h), λ h. absurd (cc h))
same_source_iff Source.user Source.agent = (λ h. absurd (cc h), λ h. absurd (cc h))
same_source_iff Source.user Source.user = (λ h. refl, λ h. refl)
same_source_iff Source.user Source.environment = (λ h. absurd (cc h), λ h. absurd (cc h))
same_source_iff Source.environment Source.agent = (λ h. absurd (cc h), λ h. absurd (cc h))
same_source_iff Source.environment Source.user = (λ h. absurd (cc h), λ h. absurd (cc h))
same_source_iff Source.environment Source.environment = (λ h. refl, λ h. refl)

module _ {X : Type 0} ⦃e : Eq X⦄ where
  same_contents_iff : (xs ys : List X) → (same_contents xs ys ≡ true) ↔ (xs ≡ ys)
  same_contents_iff [] [] = (λ h. refl, λ h. refl)
  same_contents_iff [] (y ∷ ys) = (λ h. absurd (cc h), λ h. absurd (cc h))
  same_contents_iff (x ∷ xs) [] = (λ h. absurd (cc h), λ h. absurd (cc h))
  same_contents_iff (x ∷ xs) (y ∷ ys) =
      let both = and_iff _ _ (e.reflects x y) (same_contents_iff xs ys) in
      (λ h. cc ((both.0 h).0, (both.0 h).1), λ h. both.1 (cc h, cc h))

  same_action_iff : (x y : Option X) → (same_action x y ≡ true) ↔ (x ≡ y)
  same_action_iff none none = (λ h. refl, λ h. refl)
  same_action_iff none (some y) = (λ h. absurd (cc h), λ h. absurd (cc h))
  same_action_iff (some x) none = (λ h. absurd (cc h), λ h. absurd (cc h))
  same_action_iff (some x) (some y) =
      (λ h. ap some ((e.reflects x y).0 h), λ h. (e.reflects x y).1 (cc h))

module _ {X : Type 0} ⦃e : Eq X⦄ (model_eq : Event X → Event X → Bool) where
  -- What two events that count as equal have in common; ids, tool calls, and thinking blocks may
  -- differ. Events of the other classes are compared by pydantic.
  abbrev pub SameContent : Event X → Event X → Type 0
  SameContent (action a) (action b) =
      (a.source ≡ b.source)
      × (a.thought ≡ b.thought)
      × (a.action ≡ b.action)
      × (a.tool_name ≡ b.tool_name)
  SameContent (observation a) (observation b) =
      (a.source ≡ b.source) × (a.observation ≡ b.observation) × (a.tool_name ≡ b.tool_name)
  SameContent (agent_error a) (agent_error b) = (a.source ≡ b.source) × (a.error ≡ b.error)
  SameContent (message a) (message b) = (a.source ≡ b.source) × (a.llm_message ≡ b.llm_message)
  SameContent a b = model_eq a b ≡ true

  abbrev pub Same : Event X → Event X → Type 0
  Same a b = (class_name a ≡ class_name b) × SameContent a b

  content_eq_iff : (a b : Event X) → (content_eq model_eq a b ≡ true) ↔ SameContent a b
  unfolding content_eq
  content_eq_iff (action a) (action b) =
      and_four_iff _ _ _ _ (same_source_iff a.source b.source)
        (same_contents_iff a.thought b.thought) (same_action_iff a.action b.action)
        (string_eq.reflects a.tool_name b.tool_name)
  content_eq_iff (action a) (observation b) = (λ h. h, λ h. h)
  content_eq_iff (action a) (user_reject b) = (λ h. h, λ h. h)
  content_eq_iff (action a) (agent_error b) = (λ h. h, λ h. h)
  content_eq_iff (action a) (message b) = (λ h. h, λ h. h)
  content_eq_iff (action a) (system_prompt b) = (λ h. h, λ h. h)
  content_eq_iff (action a) (summary b) = (λ h. h, λ h. h)
  content_eq_iff (action a) (condensation b) = (λ h. h, λ h. h)
  content_eq_iff (action a) (condensation_request b) = (λ h. h, λ h. h)
  content_eq_iff (action a) (other b) = (λ h. h, λ h. h)
  content_eq_iff (observation a) (action b) = (λ h. h, λ h. h)
  content_eq_iff (observation a) (observation b) =
      and_three_iff _ _ _ (same_source_iff a.source b.source)
        (e.reflects a.observation b.observation) (string_eq.reflects a.tool_name b.tool_name)
  content_eq_iff (observation a) (user_reject b) = (λ h. h, λ h. h)
  content_eq_iff (observation a) (agent_error b) = (λ h. h, λ h. h)
  content_eq_iff (observation a) (message b) = (λ h. h, λ h. h)
  content_eq_iff (observation a) (system_prompt b) = (λ h. h, λ h. h)
  content_eq_iff (observation a) (summary b) = (λ h. h, λ h. h)
  content_eq_iff (observation a) (condensation b) = (λ h. h, λ h. h)
  content_eq_iff (observation a) (condensation_request b) = (λ h. h, λ h. h)
  content_eq_iff (observation a) (other b) = (λ h. h, λ h. h)
  content_eq_iff (user_reject a) b = (λ h. h, λ h. h)
  content_eq_iff (agent_error a) (action b) = (λ h. h, λ h. h)
  content_eq_iff (agent_error a) (observation b) = (λ h. h, λ h. h)
  content_eq_iff (agent_error a) (user_reject b) = (λ h. h, λ h. h)
  content_eq_iff (agent_error a) (agent_error b) =
      and_iff _ _ (same_source_iff a.source b.source) (string_eq.reflects a.error b.error)
  content_eq_iff (agent_error a) (message b) = (λ h. h, λ h. h)
  content_eq_iff (agent_error a) (system_prompt b) = (λ h. h, λ h. h)
  content_eq_iff (agent_error a) (summary b) = (λ h. h, λ h. h)
  content_eq_iff (agent_error a) (condensation b) = (λ h. h, λ h. h)
  content_eq_iff (agent_error a) (condensation_request b) = (λ h. h, λ h. h)
  content_eq_iff (agent_error a) (other b) = (λ h. h, λ h. h)
  content_eq_iff (message a) (action b) = (λ h. h, λ h. h)
  content_eq_iff (message a) (observation b) = (λ h. h, λ h. h)
  content_eq_iff (message a) (user_reject b) = (λ h. h, λ h. h)
  content_eq_iff (message a) (agent_error b) = (λ h. h, λ h. h)
  content_eq_iff (message a) (message b) =
      and_iff _ _ (same_source_iff a.source b.source) (e.reflects a.llm_message b.llm_message)
  content_eq_iff (message a) (system_prompt b) = (λ h. h, λ h. h)
  content_eq_iff (message a) (summary b) = (λ h. h, λ h. h)
  content_eq_iff (message a) (condensation b) = (λ h. h, λ h. h)
  content_eq_iff (message a) (condensation_request b) = (λ h. h, λ h. h)
  content_eq_iff (message a) (other b) = (λ h. h, λ h. h)
  content_eq_iff (system_prompt a) b = (λ h. h, λ h. h)
  content_eq_iff (summary a) b = (λ h. h, λ h. h)
  content_eq_iff (condensation a) b = (λ h. h, λ h. h)
  content_eq_iff (condensation_request a) b = (λ h. h, λ h. h)
  content_eq_iff (other a) b = (λ h. h, λ h. h)

  pub event_eq_iff : (a b : Event X) → (event_eq model_eq a b ≡ true) ↔ Same a b
  unfolding event_eq
  event_eq_iff a b =
      let c = string_eq.reflects (class_name a) (class_name b) in
      let d = content_eq_iff a b in
      elim (Bool-cases (class_name a == class_name b)) [
        | inl y ↦ rw y (λ h. (c.0 y, d.0 h), λ r. d.1 r.1)
        | inr n ↦ rw n (λ h. absurd (cc h), λ r. absurd (cc (c.1 r.0, n)))
      ]
