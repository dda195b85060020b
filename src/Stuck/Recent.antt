-- ===== src/Stuck/Recent.antt =====
-- The stuck detector looks only at what follows the last user message.
use codex_latest.Prelude.{
  ◌≡◌, refl, ◌∙◌, sym, ltb, Bool, true, false, some, List, [], ◌∷◌, ◌++◌, Eq, arith, inl, inr,
  Option-cases, min,
}
use codex_latest.Event.{Event}
use codex_latest.Stuck.{
  Thresholds, are_positive, is_user_message, after_last_user, is_stuck_recently, is_stuck,
}

module _ {X : Type 0} where
  after_last_user_of_user :
      (u : Event X) (after : List (Event X))
      → is_user_message u ≡ true
      → (recent : List (Event X)) × (after_last_user (u ∷ after) ≡ some recent)
  unfolding after_last_user
  after_last_user_of_user u after h = elim (Option-cases (after_last_user after)) [
    | inl n ↦ (after, rw (n, h) refl)
    | inr (recent, y) ↦ (recent, rw y refl)
  ]

  only_user : (u : Event X) → is_user_message u ≡ true → after_last_user (u ∷ []) ≡ some []
  unfolding after_last_user
  only_user u h = rw h refl

  after_last_user-append :
      (before : List (Event X)) (u : Event X) (after : List (Event X))
      → is_user_message u ≡ true
      → after_last_user (before ++ u ∷ after) ≡ after_last_user (u ∷ after)
  unfolding after_last_user
  after_last_user-append [] u after h = refl
  after_last_user-append (e ∷ before) u after h =
      let (recent, p) = after_last_user_of_user u after h in
      let q : after_last_user (before ++ u ∷ after) ≡ some recent =
        after_last_user-append before u after h ∙ p in
      rw q (sym p)

module _ {X : Type 0} ⦃e : Eq X⦄ (model_eq : Event X → Event X → Bool) where
  -- What stands before a user message does not change the verdict.
  pub is_stuck-append :
      (t : Thresholds) (before : List (Event X)) (u : Event X) (after : List (Event X))
      → is_user_message u ≡ true
      → is_stuck model_eq t (before ++ u ∷ after) ≡ is_stuck model_eq t (u ∷ after)
  unfolding is_stuck
  is_stuck-append t before u after h = rw (after_last_user-append before u after h, is_stuck) refl

  -- Right after a user message the agent is not stuck, for thresholds that are at least 1.
  pub is_stuck_after_user :
      (t : Thresholds) (events : List (Event X)) (u : Event X)
      → are_positive t ≡ true
      → is_user_message u ≡ true
      → is_stuck model_eq t (events ++ u ∷ []) ≡ false
  unfolding is_stuck is_stuck_recently are_positive
  is_stuck_after_user t events u h p =
      let too_few : ltb 0 (min (min t.action_observation t.action_error) t.monologue) ≡ true =
        ground arith in
      is_stuck-append t events u [] p
      ∙ rw (only_user u p, is_stuck, too_few, is_stuck_recently) refl
