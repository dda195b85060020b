-- ===== src/Tests/Stuck.antt =====
-- The theorems about stuck_detector.py at concrete histories.
use codex_latest.Prelude.{
  ℕ, ◌≤◌, ◌≡◌, ◌↔◌, refl, Bool, true, List, [], ◌∷◌, some, length, nat_eq, string_eq, ◌==◌,
}
use codex_latest.Event.{Event, event_id, action, observation, message}
use codex_latest.Stuck.{Thresholds, are_positive, after_last_user, is_stuck}
use codex_latest.Stuck.Repeats.{Repeats, is_stuck_iff}
use codex_latest.Tests.Histories.{a1, a3, obs, msg}

abbrev thresholds : Thresholds
thresholds = record {
  action_observation = 2;
  action_error = 2;
  monologue = 3;
  alternating_pattern = 6;
}

abbrev same_id : Event ℕ → Event ℕ → Bool
same_id a b = event_id a == event_id b

-- The same action twice, with the same observation.
abbrev loop : List (Event ℕ)
loop =
    message (msg "m2")
    ∷ action a1
    ∷ observation (obs "o1" "c1" "a1")
    ∷ action a3
    ∷ observation (obs "o3" "c3" "a3")
    ∷ []

positive : are_positive thresholds ≡ true
unfolding are_positive
positive = refl

is_stuck_iff_example : (is_stuck same_id thresholds loop ≡ true) ↔ (
    (recent : List (Event ℕ)) × (after_last_user loop ≡ some recent)
    × (2 ≤ length recent)
    × Repeats same_id thresholds recent)
is_stuck_iff_example = is_stuck_iff same_id thresholds loop positive
