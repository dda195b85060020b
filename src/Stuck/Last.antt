-- ===== src/Stuck/Last.antt =====
-- The last actions, observations and results of a history, which the loops of the stuck detector
-- collect.
use codex_latest.Prelude.{
  ℕ, ◌-◌, ◌≤◌, ◌≡◌, refl, Bool, true, false, List, [], take, filter, reverse, arith, leb, leb→le,
  ◌==◌, nat_eq,
}
use codex_latest.Event.{
  Event, action, observation, user_reject, agent_error, message, system_prompt, summary,
  condensation, condensation_request, other,
}
use codex_latest.Stuck.{is_action, is_observation, is_observation_or_error, collect}
use codex_latest.Stuck.Collect.{collect-filled}

module _ {X : Type 0} where
  -- The last `n` actions of the events, the last one first.
  abbrev pub last_actions : ℕ → List (Event X) → List (Event X)
  last_actions n events = take n (filter is_action (reverse events))

  -- The last `n` observations, rejections and errors.
  abbrev pub last_observations : ℕ → List (Event X) → List (Event X)
  last_observations n events = take n (filter is_observation (reverse events))

  -- The last `n` observations and errors, without rejections.
  abbrev pub last_results : ℕ → List (Event X) → List (Event X)
  last_results n events = take n (filter is_observation_or_error (reverse events))

  no_observation : (x : Event X) → is_action x ≡ true → is_observation x ≡ false
  no_observation (action a) h = refl
  no_observation (observation a) h = absurd (cc h)
  no_observation (user_reject a) h = absurd (cc h)
  no_observation (agent_error a) h = absurd (cc h)
  no_observation (message a) h = refl
  no_observation (system_prompt a) h = refl
  no_observation (summary a) h = refl
  no_observation (condensation a) h = refl
  no_observation (condensation_request a) h = refl
  no_observation (other a) h = refl

  no_result : (x : Event X) → is_action x ≡ true → is_observation_or_error x ≡ false
  no_result (action a) h = refl
  no_result (observation a) h = absurd (cc h)
  no_result (user_reject a) h = refl
  no_result (agent_error a) h = absurd (cc h)
  no_result (message a) h = refl
  no_result (system_prompt a) h = refl
  no_result (summary a) h = refl
  no_result (condensation a) h = refl
  no_result (condensation_request a) h = refl
  no_result (other a) h = refl

  -- The loop finds the last `n` actions and the last `n` entries of the other kind.
  collect-take :
      (is_obs : Event X → Bool)
      → ((x : Event X) → is_action x ≡ true → is_obs x ≡ false)
      → (full : ℕ → Bool) (n : ℕ) → ((k : ℕ) → full k ≡ true → n ≤ k)
      → (events : List (Event X))
      → collect is_obs full n (reverse events) ([], [])
        ≡ (last_actions n events, take n (filter is_obs (reverse events)))
  collect-take is_obs apart full n h events =
      let whole : n - 0 ≡ n = omega arith in
      rw whole at (collect-filled is_obs n apart full h (reverse events) [] [])

  pub collect-observations :
      (n : ℕ) (events : List (Event X))
      → collect is_observation (λ k. leb n k) n (reverse events) ([], [])
        ≡ (last_actions n events, last_observations n events)
  collect-observations n =
      collect-take is_observation no_observation (λ k. leb n k) n (λ k h. leb→le n k h)

  pub collect-results :
      (n : ℕ) (events : List (Event X))
      → collect is_observation_or_error (λ k. k == n) n (reverse events) ([], [])
        ≡ (last_actions n events, last_results n events)
  collect-results n =
      collect-take is_observation_or_error no_result (λ k. k == n) n (λ k h. ground arith)
