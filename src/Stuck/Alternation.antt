-- ===== src/Stuck/Alternation.antt =====
-- What the stuck detector takes for a repetition and for an alternation of events.
use codex_latest.Prelude.{
  ℕ, zero, suc, ◌≤◌, ◌≡◌, ◌↔◌, refl, Bool, true, List, [], ◌∷◌, Eq, length, take, drop, filter,
  reverse, all, arith, nat_eq, length-take, length-filter-le,
}
use codex_latest.Event.{Event}
use codex_latest.Stuck.{
  is_action, is_observation_or_error, event_eq, all_equal, alternates,
  is_stuck_alternating_action_observation,
}
use codex_latest.Stuck.Same.{Same, event_eq_iff, and_iff}
use codex_latest.Stuck.Last.{last_actions, last_results, collect-results}
use codex_latest.Stuck.Monologue.{length-reverse}

module _ {X : Type 0} ⦃e : Eq X⦄ (model_eq : Event X → Event X → Bool) where
  -- `x` counts as equal to every one of the events.
  abbrev pub AllSameAs : Event X → List (Event X) → Type 0
  AllSameAs x [] = Unit
  AllSameAs x (y ∷ events) = Same model_eq x y × AllSameAs x events

  -- The events all count as equal to the first one.
  abbrev pub AllSame : List (Event X) → Type 0
  AllSame [] = Unit
  AllSame (first ∷ events) = AllSameAs first (first ∷ events)

  -- The lists agree entry by entry, as far as both go.
  abbrev pub Pairwise : List (Event X) → List (Event X) → Type 0
  Pairwise [] ys = Unit
  Pairwise (x ∷ xs) [] = Unit
  Pairwise (x ∷ xs) (y ∷ ys) = Same model_eq x y × Pairwise xs ys

  -- Every event counts as equal to the one two places on.
  abbrev pub Alternates : List (Event X) → Type 0
  Alternates events = Pairwise events (drop 2 events)

  -- The last `n` actions are there and alternate, and so do the last `n` observations and errors.
  abbrev pub Alternation : ℕ → List (Event X) → Type 0
  Alternation n events =
      (n ≤ length (last_actions n events))
      × (n ≤ length (last_results n events))
      × Alternates (last_actions n events)
      × Alternates (last_results n events)

  all_same_iff :
      (x : Event X) (events : List (Event X))
      → (all (event_eq model_eq x) events ≡ true) ↔ AllSameAs x events
  unfolding all
  all_same_iff x [] = (λ h. tt, λ h. refl)
  all_same_iff x (y ∷ events) = and_iff _ _ (event_eq_iff model_eq x y) (all_same_iff x events)

  pub all_equal_iff :
      (n : ℕ) (events : List (Event X))
      → 1 ≤ n
      → (all_equal model_eq n events ≡ true) ↔ AllSame (take n events)
  unfolding all_equal
  all_equal_iff zero events pos = absurd (omega arith)
  all_equal_iff (suc n) [] pos = (λ h. tt, λ h. refl)
  all_equal_iff (suc n) (first ∷ events) pos = all_same_iff first (first ∷ take n events)

  alternates_iff :
      (events : List (Event X)) → (alternates model_eq events ≡ true) ↔ Alternates events
  unfolding alternates
  alternates_iff [] = (λ h. tt, λ h. refl)
  alternates_iff (a ∷ []) = (λ h. tt, λ h. refl)
  alternates_iff (a ∷ b ∷ []) = (λ h. tt, λ h. refl)
  alternates_iff (a ∷ b ∷ c ∷ events) =
      and_iff _ _ (event_eq_iff model_eq a c) (alternates_iff (b ∷ c ∷ events))

  pub is_stuck_alternating_iff :
      (n : ℕ) (events : List (Event X))
      → (is_stuck_alternating_action_observation model_eq n events ≡ true) ↔ Alternation n events
  unfolding is_stuck_alternating_action_observation
  is_stuck_alternating_iff n events =
      let actions = last_actions n events in
      let results = last_results n events in
      let a = alternates_iff actions in
      let r = alternates_iff results in
      let a1 = length-take n (filter is_action (reverse events)) in
      let r1 = length-take n (filter is_observation_or_error (reverse events)) in
      rw (collect-results n events, is_stuck_alternating_action_observation) (ground arith)

  -- An alternation of `n` actions takes `n` events.
  pub length-Alternation :
      (n : ℕ) (events : List (Event X)) → Alternation n events → n ≤ length events
  length-Alternation n events h = omega (
    arith,
    h.0,
    length-take n (filter is_action (reverse events)),
    length-filter-le is_action (reverse events),
    length-reverse events,
  )
