-- ===== src/View/Indices/Observed.antt =====
-- The observations' places in `View.manipulation_indices` (view.py), and how far a batch extends.
use codex_latest.Prelude.{
  ℕ, zero, suc, ◌+◌, ◌≤◌, ◌<◌, ◌≡◌, ◌≢◌, refl, ap, ◌∙◌, inl, inr, String, Option, none, some, List,
  [], ◌∷◌, Memᴰ, head, tail, length, get_elem?, arith, Bool-cases, Option-cases, ◌==◌, string_eq,
  Dict, lookup, lookup-assign_self, lookup-assign_ne, lookup-assign_cases,
}
use codex_latest.Event.{Event, ActionEvent, action, as_observation}
use codex_latest.View.Indices.{
  add_observation, index_observations, action_at, observed_until, extend,
}

add_observation-ne :
    (o : Option String) (idx : ℕ) (d : Dict String ℕ) (t : String)
    → o ≢ some t
    → lookup (add_observation o idx d) t ≡ lookup d t
unfolding add_observation
add_observation-ne none idx d t h = refl
add_observation-ne (some s) idx d t h = elim (Bool-cases (s == t)) [
  | inl y ↦ absurd (h (ap some ((string_eq.reflects s t).0 y)))
  | inr n ↦ lookup-assign_ne s t idx d n
]

-- Every place is below `n`.
abbrev pub PlacesBelow : ℕ → Dict String ℕ → Type 0
PlacesBelow n d = (t : String) (q : ℕ) → lookup d t ≡ some q → q < n

pub empty-PlacesBelow : (n : ℕ) → PlacesBelow n []
unfolding lookup
empty-PlacesBelow n t q h = absurd (cc)

add_observation-PlacesBelow :
    (o : Option String) (idx : ℕ) (d : Dict String ℕ)
    → PlacesBelow idx d
    → PlacesBelow (suc idx) (add_observation o idx d)
unfolding add_observation
add_observation-PlacesBelow none idx d b t q h = omega (arith, b t q h)
add_observation-PlacesBelow (some s) idx d b t q h = elim (lookup-assign_cases s t idx d h) [
  | inl (p, e) ↦ omega arith
  | inr (n, k) ↦ omega (arith, b t q k)
]

module _ {X : Type 0} where
  -- No event from `k` on answers the call `t`.
  abbrev pub IsSilentFrom : ℕ → String → List (Event X) → Type 0
  IsSilentFrom k t events =
      (j : ℕ) (o : Event X) → k ≤ j → get_elem? events j ≡ some o → as_observation o ≢ some t

  index_observations_silent :
      (events : List (Event X)) (idx : ℕ) (d : Dict String ℕ) (t : String)
      → IsSilentFrom 0 t events
      → lookup (index_observations idx events d) t ≡ lookup d t
  unfolding index_observations
  index_observations_silent [] idx d t h = refl
  index_observations_silent (e ∷ events) idx d t h =
      index_observations_silent events (suc idx) _ t (λ j o le. h (suc j) o (omega arith))
      ∙ add_observation-ne (as_observation e) idx d t (h 0 e (omega arith) refl)

  -- The last observation of a call is the one that the dictionary keeps.
  pub index_observations_last :
      (events : List (Event X)) (idx k : ℕ) (d : Dict String ℕ) (o : Event X) (t : String)
      → get_elem? events k ≡ some o
      → as_observation o ≡ some t
      → IsSilentFrom (suc k) t events
      → lookup (index_observations idx events d) t ≡ some (idx + k)
  unfolding index_observations
  index_observations_last [] idx k d o t h p s = absurd (cc)
  index_observations_last (e ∷ events) idx zero d o t h p s =
      let q : e ≡ o = cc in
      let r : idx ≡ idx + 0 = omega arith in
      index_observations_silent events (suc idx) _ t (λ j x le. s (suc j) x (omega arith))
      ∙ rw (ap as_observation q ∙ p)
          (unfold add_observation in lookup-assign_self t idx d ∙ ap some r)
  index_observations_last (e ∷ events) idx (suc k) d o t h p s =
      let r : suc idx + k ≡ idx + suc k = omega arith in
      index_observations_last events (suc idx) k _ o t h p (λ j x le. s (suc j) x (omega arith))
      ∙ ap some r

  pub index_observations-PlacesBelow :
      (events : List (Event X)) (idx : ℕ) (d : Dict String ℕ)
      → PlacesBelow idx d
      → PlacesBelow (idx + length events) (index_observations idx events d)
  unfolding index_observations
  index_observations-PlacesBelow [] idx d b t q h = omega (arith, b t q h)
  index_observations-PlacesBelow (e ∷ events) idx d b t q h = omega (
    arith,
    index_observations-PlacesBelow events (suc idx) _
        (add_observation-PlacesBelow (as_observation e) idx d b) t q h,
  )

  le-observed_until :
      (d : Dict String ℕ) (o : Option (ActionEvent X)) (m : ℕ) → m ≤ observed_until d o m
  le-observed_until d none m = omega arith
  le-observed_until d (some a) m = ground arith

  pub le-extend :
      (events : List (Event X)) (d : Dict String ℕ) (ids : List ℕ) (m : ℕ)
      → m ≤ extend events d ids m
  unfolding extend
  le-extend events d [] m = omega arith
  le-extend events d (i ∷ ids) m = omega (
    arith,
    le-observed_until d (action_at (get_elem? events i)) m,
    le-extend events d ids (observed_until d (action_at (get_elem? events i)) m),
  )

  -- The range of a batch reaches the observation of each of its actions.
  pub extend_reaches :
      (events : List (Event X)) (d : Dict String ℕ) (ids : List ℕ) (m p q : ℕ) (a : ActionEvent X)
      → Memᴰ p ids
      → get_elem? events p ≡ some (action a)
      → lookup d a.tool_call_id ≡ some q
      → q ≤ extend events d ids m
  unfolding extend
  extend_reaches events d [] m p q a k h l = elim k [ ]
  extend_reaches events d (i ∷ ids) m p q a (head e) h l =
      let reached : q ≤ observed_until d (action_at (get_elem? events i)) m =
        rw (← e, h, l) (omega arith) in
      omega (arith, le-extend events d ids (observed_until d (action_at (get_elem? events i)) m))
  extend_reaches events d (i ∷ ids) m p q a (tail k) h l = extend_reaches events d ids _ p q a k h l

  observed_until-lt :
      (n : ℕ) (d : Dict String ℕ) (o : Option (ActionEvent X)) (m : ℕ)
      → PlacesBelow n d
      → m < n
      → observed_until d o m < n
  observed_until-lt n d none m b h = h
  observed_until-lt n d (some a) m b h = elim (Option-cases (lookup d a.tool_call_id)) [
    | inl e ↦ rw e h
    | inr (q, e) ↦ rw e (omega (arith, b a.tool_call_id q e))
  ]

  pub extend-lt :
      (n : ℕ) (events : List (Event X)) (d : Dict String ℕ) (ids : List ℕ) (m : ℕ)
      → PlacesBelow n d
      → m < n
      → extend events d ids m < n
  unfolding extend
  extend-lt n events d [] m b h = h
  extend-lt n events d (i ∷ ids) m b h =
      extend-lt n events d ids _ b (observed_until-lt n d (action_at (get_elem? events i)) m b h)
