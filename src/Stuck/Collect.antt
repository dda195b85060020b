-- ===== src/Stuck/Collect.antt =====
-- The loops of the stuck detector that go back through the events find the last actions and the
-- last observations.
use codex_latest.Prelude.{
  ℕ, zero, suc, ◌-◌, ◌≤◌, ◌<◌, ◌≡◌, refl, sym, ◌∙◌, ap, Bool, true, false, ◌&&◌, List, [], ◌∷◌,
  ◌++◌, length, take, filter, arith, inl, inr, Bool-cases, ltb, ltb→lt, length-append,
  if◌then◌else◌,
}
use codex_latest.Event.{Event}
use codex_latest.Stuck.{is_action, add_recent, collect}

module _ {A : Type 0} where
  append_nil : (xs : List A) → xs ++ [] ≡ xs
  append_nil [] = refl
  append_nil (x ∷ xs) = ap (λ l. x ∷ l) (append_nil xs)

  append_one : (xs : List A) (x : A) (ys : List A) → (xs ++ x ∷ []) ++ ys ≡ xs ++ x ∷ ys
  append_one [] x ys = refl
  append_one (z ∷ xs) x ys = ap (λ l. z ∷ l) (append_one xs x ys)

  -- What a list of at most `n` entries becomes when more are to come.
  abbrev filled : ℕ → List A → List A → List A
  filled n xs more = xs ++ take (n - length xs) more

  take_none : (n : ℕ) (xs : List A) → n ≡ 0 → take n xs ≡ []
  take_none n xs p = rw p refl

  filled-full : (n : ℕ) (xs more : List A) → n ≤ length xs → filled n xs more ≡ xs
  filled-full n xs more le = rw (take_none (n - length xs) more (omega arith)) (append_nil xs)

  take_step : (m k : ℕ) (x : A) (more : List A) → m ≡ suc k → take m (x ∷ more) ≡ x ∷ take k more
  take_step m k x more p = rw p refl

  filled-step :
      (n : ℕ) (xs : List A) (x : A) (more : List A)
      → length xs < n
      → filled n (xs ++ x ∷ []) more ≡ filled n xs (x ∷ more)
  filled-step n xs x more lt =
      append_one xs x (take (n - length (xs ++ x ∷ [])) more)
      ∙ ap (λ l. xs ++ l)
          (sym (
            take_step (n - length xs) (n - length (xs ++ x ∷ [])) x more
              (omega (arith, length-append xs (x ∷ [])))))

  take_nil : (n : ℕ) → ◌≡◌ {A = List A} (take n []) []
  take_nil zero = refl
  take_nil (suc n) = refl

  filled-nil : (n : ℕ) (xs : List A) → filled n xs [] ≡ xs
  filled-nil n xs = ap (λ l. xs ++ l) (take_nil (n - length xs)) ∙ append_nil xs

  both : {a b c d : A} → a ≡ b → c ≡ d → ◌≡◌ {A = A × A} (a, c) (b, d)
  both p q = rw (p, q) refl

module _ {X : Type 0} (is_obs : Event X → Bool) (n : ℕ) where
  add_recent-filled :
      ((e : Event X) → is_action e ≡ true → is_obs e ≡ false)
      → (e : Event X) (actions observations more others : List (Event X))
      → let next = add_recent is_obs n e (actions, observations) in
        (filled n next.0 more ≡ filled n actions (if is_action e then e ∷ more else more))
        × (filled n next.1 others ≡ filled n observations (if is_obs e then e ∷ others else others))
  unfolding add_recent
  add_recent-filled d e actions observations more others = elim (Bool-cases (is_action e)) [
    | inl y ↦ elim (Bool-cases (ltb (length actions) n)) [
      | inl lt ↦ rw (y, lt, d e y) (filled-step n actions e more (ltb→lt _ _ lt), refl)
      | inr ge ↦
          rw (y, ge, d e y)
            (
              filled-full n actions more (ground arith)
                  ∙ sym (filled-full n actions (e ∷ more) (ground arith)),
              refl,
            )
    ]
    | inr no_action ↦ elim (Bool-cases (is_obs e)) [
      | inr no_obs ↦ rw (no_action, no_obs) (refl, refl)
      | inl y ↦ elim (Bool-cases (ltb (length observations) n)) [
        | inl lt ↦ rw (no_action, y, lt) (refl, filled-step n observations e others (ltb→lt _ _ lt))
        | inr ge ↦
            rw (no_action, y, ge)
              (
                refl,
                filled-full n observations others (ground arith)
                    ∙ sym (filled-full n observations (e ∷ others) (ground arith)),
              )
      ]
    ]
  ]

  -- The two loops find the last `n` actions and the last `n` observations, whatever their order;
  -- stopping early changes nothing.
  pub collect-filled :
      ((e : Event X) → is_action e ≡ true → is_obs e ≡ false)
      → (full : ℕ → Bool) → ((k : ℕ) → full k ≡ true → n ≤ k)
      → (events actions observations : List (Event X))
      → collect is_obs full n events (actions, observations)
        ≡ (filled n actions (filter is_action events), filled n observations (filter is_obs events))
  unfolding collect filter
  collect-filled d full f [] actions observations =
      both (sym (filled-nil n actions)) (sym (filled-nil n observations))
  collect-filled d full f (e ∷ events) actions observations =
      let next = add_recent is_obs n e (actions, observations) in
      let (p, q) =
        add_recent-filled d e actions observations (filter is_action events)
          (filter is_obs events) in
      let rest = collect-filled d full f events next.0 next.1 in
      elim (Bool-cases (full (length next.0) && full (length next.1))) [
        | inl y ↦ rw y (
            both (sym (filled-full n next.0 (filter is_action events) (f _ (ground arith))) ∙ p)
              (sym (filled-full n next.1 (filter is_obs events) (f _ (ground arith))) ∙ q))
        | inr more ↦ rw more (rest ∙ both p q)
      ]
