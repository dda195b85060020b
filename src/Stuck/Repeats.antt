-- ===== src/Stuck/Repeats.antt =====
-- What the stuck detector finds: the patterns, described on the last actions and observations.
use codex_latest.Prelude.{
  ℕ, ◌≤◌, ◌≡◌, refl, ap, Bool, true, false, ◌&&◌, ◌||◌, some, List, [], ◌∷◌, Eq, length, take,
  filter, reverse, all, arith, inl, inr, ◌⊎◌, ◌↔◌, zero, suc, length-take, Option-cases, min, max,
  ltb, leb, if◌then◌else◌,
}
use codex_latest.Event.{Event}
use codex_latest.Stuck.{
  Thresholds, are_positive, is_action, is_observation, is_agent_error, after_last_user, all_equal,
  is_stuck_recently, is_stuck_repeating_action_observation, is_stuck_repeating_action_error,
  is_stuck,
}
use codex_latest.Stuck.Last.{last_actions, last_observations, collect-observations}
use codex_latest.Stuck.Monologue.{Monologue, is_stuck_monologue_iff}
use codex_latest.Stuck.Alternation.{
  AllSame, Alternation, all_equal_iff, is_stuck_alternating_iff, length-Alternation,
}

ltb-false : (a b : ℕ) → ltb a b ≡ false → b ≤ a
ltb-false a b h = ground arith

le→leb : (a b : ℕ) → a ≤ b → leb a b ≡ true
le→leb a b h = ground arith

ltb_of_le : (a b : ℕ) → b ≤ a → ltb a b ≡ false
ltb_of_le a b le = ground arith

module _ {A : Type 0} where
  take-take : (t m : ℕ) (xs : List A) → t ≤ m → take t (take m xs) ≡ take t xs
  take-take zero m xs le = refl
  take-take (suc t) zero xs le = absurd (omega arith)
  take-take (suc t) (suc m) [] le = refl
  take-take (suc t) (suc m) (x ∷ xs) le = ap (λ l. x ∷ l) (take-take t m xs (omega arith))

module _ {X : Type 0} ⦃e : Eq X⦄ (model_eq : Event X → Event X → Bool) where
  -- The last `n` actions are there and count as equal, and so do the last `n` observations.
  abbrev pub RepeatsPair : ℕ → List (Event X) → Type 0
  RepeatsPair n events =
      (n ≤ length (last_actions n events))
      × (n ≤ length (last_observations n events))
      × AllSame model_eq (last_actions n events)
      × AllSame model_eq (last_observations n events)

  -- The last `n` actions are there and count as equal, and the last `n` observations are errors.
  abbrev pub RepeatsError : ℕ → List (Event X) → Type 0
  RepeatsError n events =
      (n ≤ length (last_actions n events))
      × (n ≤ length (last_observations n events))
      × AllSame model_eq (last_actions n events)
      × (all is_agent_error (last_observations n events) ≡ true)

  all_equal-take_iff :
      (t m : ℕ) (xs : List (Event X))
      → 1 ≤ t
      → t ≤ m
      → (all_equal model_eq t (take m xs) ≡ true) ↔ AllSame model_eq (take t xs)
  all_equal-take_iff t m xs pos le =
      rw (take-take t m xs le) at (all_equal_iff model_eq t (take m xs) pos)

  RepeatsPair-iff :
      (t m : ℕ) (events : List (Event X))
      → 1 ≤ t
      → t ≤ m
      → (is_stuck_repeating_action_observation model_eq t
            (last_actions m events)
            (last_observations m events)
          ≡ true)
        ↔ RepeatsPair t events
  unfolding is_stuck_repeating_action_observation
  RepeatsPair-iff t m events pos le =
      let actions = filter is_action (reverse events) in
      let observations = filter is_observation (reverse events) in
      let a1 = length-take m actions in
      let a2 = length-take t actions in
      let o1 = length-take m observations in
      let o2 = length-take t observations in
      let a3 = all_equal-take_iff t m actions pos le in
      let o3 = all_equal-take_iff t m observations pos le in ground arith

  RepeatsError-iff :
      (t m : ℕ) (events : List (Event X))
      → 1 ≤ t
      → t ≤ m
      → (is_stuck_repeating_action_error model_eq t
            (last_actions m events)
            (last_observations m events)
          ≡ true)
        ↔ RepeatsError t events
  unfolding is_stuck_repeating_action_error
  RepeatsError-iff t m events pos le =
      let actions = filter is_action (reverse events) in
      let observations = filter is_observation (reverse events) in
      let a1 = length-take m actions in
      let a2 = length-take t actions in
      let o1 = length-take m observations in
      let o2 = length-take t observations in
      let a3 = all_equal-take_iff t m actions pos le in
      let o3 = take-take t m observations le in
      let o4 : all is_agent_error (take t (take m observations))
          ≡ all is_agent_error (take t observations) =
        ap (all is_agent_error) o3 in
      ground arith

  -- One of the four patterns, in the events after the last user message.
  abbrev pub Repeats : Thresholds → List (Event X) → Type 0
  Repeats t events =
      RepeatsPair t.action_observation events
      ⊎ (RepeatsError t.action_error events
          ⊎ (Monologue t.monologue events ⊎ Alternation model_eq t.alternating_pattern events))

  or_iff :
      (few pair error monologue alternating long : Bool) {P Q R S : Type 0}
      → (pair ≡ true) ↔ P
      → (error ≡ true) ↔ Q
      → (monologue ≡ true) ↔ R
      → (alternating ≡ true) ↔ S
      → (S → long ≡ true)
      → ((if few then false else (pair || error || monologue || (long && alternating))) ≡ true)
        ↔ ((few ≡ false) × (P ⊎ (Q ⊎ (R ⊎ S))))
  or_iff few pair error monologue alternating long p q r s enough = ground arith

  recently_iff :
      (t : Thresholds) (events : List (Event X))
      → 1 ≤ t.action_observation
      → 1 ≤ t.action_error
      → (is_stuck_recently model_eq t events ≡ true) ↔ (
          (min (min t.action_observation t.action_error) t.monologue ≤ length events)
          × Repeats t events)
  unfolding is_stuck_recently
  recently_iff t events p q =
      let m = max t.action_observation t.action_error in
      let n = t.alternating_pattern in
      let few = ltb (length events) (min (min t.action_observation t.action_error) t.monologue) in
      let r =
        or_iff few _ _ _ _ (leb n (length events))
          (RepeatsPair-iff t.action_observation m events p (omega arith))
          (RepeatsError-iff t.action_error m events q (omega arith))
          (is_stuck_monologue_iff t.monologue events) (is_stuck_alternating_iff model_eq n events)
          (λ h. le→leb n (length events) (length-Alternation model_eq n events h)) in
      rw (collect-observations m events, is_stuck_recently)
        (λ h. (ltb-false _ _ (r.0 h).0, (r.0 h).1), λ h. r.1 (ltb_of_le _ _ h.0, h.1))

  -- With thresholds that are at least 1, an agent is found stuck exactly when the history has a
  -- user message, at least the least of the first three thresholds of events follow the last one,
  -- and those show one of the patterns, each with as many entries as its threshold: the last
  -- actions equal in content and the last observations too; the last actions equal and the last
  -- observations errors; an end of messages that are not the user's and summaries, with enough
  -- messages of the agent; or actions and results of which each equals the one two places on.
  pub is_stuck_iff :
      (t : Thresholds) (events : List (Event X))
      → are_positive t ≡ true
      → (is_stuck model_eq t events ≡ true) ↔ (
          (recent : List (Event X)) × (after_last_user events ≡ some recent)
          × (min (min t.action_observation t.action_error) t.monologue ≤ length recent)
          × Repeats t recent)
  unfolding is_stuck are_positive
  is_stuck_iff t events h = elim (Option-cases (after_last_user events)) [
    | inl n ↦ (λ s. absurd (cc (rw (n, is_stuck) at s)), λ r. absurd (cc (n, r.1)))
    | inr (recent, y) ↦
        let r = recently_iff t recent (ground arith) (ground arith) in
        (
          λ s. let (enough, found) = r.0 (rw (y, is_stuck) at s) in (recent, y, enough, found),
          λ found.
              let same : recent ≡ found.0 = cc (y, found.1) in
              rw (y, is_stuck) (r.1 (rw same (found.2, found.3))),
        )
  ]
