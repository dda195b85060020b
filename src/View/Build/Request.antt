-- ===== src/View/Build/Request.antt =====
-- When the view of view.py asks for a condensation.
use mathlib.Core.List.{reverse-append, reverse-reverse, append_assoc}
use codex_latest.Prelude.{
  ◌≡◌, refl, sym, ap, ◌∙◌, ◌↔◌, subst, Bool, true, false, List, [], ◌∷◌, ◌++◌, reverse, Memᴰ, head,
  tail, mem-append_cases, inl, inr,
}
use codex_latest.Event.{Event, Condensation, PlainEvent, condensation, condensation_request}
use codex_latest.View.Build.{request_first, unhandled_condensation_request_exists, from_events}

module _ {X : Type 0} where
  abbrev pub HasNoCondensation : List (Event X) → Type 0
  HasNoCondensation events = (c : Condensation) → ¬ Memᴰ (condensation c) events

  -- A request that no condensation follows.
  abbrev pub IsPending : List (Event X) → Type 0
  IsPending events =
      (before : List (Event X)) × (r : PlainEvent) × (after : List (Event X)) × (events
        ≡ before ++ condensation_request r ∷ after)
      × HasNoCondensation after

  -- The same, in a history read from its end.
  abbrev IsFirst : List (Event X) → Type 0
  IsFirst events =
      (after : List (Event X)) × (r : PlainEvent) × (before : List (Event X)) × (events
        ≡ after ++ condensation_request r ∷ before)
      × HasNoCondensation after

  abbrev is_condensation : Event X → Bool
  is_condensation (condensation c) = true
  is_condensation _ = false

  HasNoCondensation-cons :
      (e : Event X) (events : List (Event X))
      → is_condensation e ≡ false
      → HasNoCondensation events
      → HasNoCondensation (e ∷ events)
  HasNoCondensation-cons e events h none_there c (head p) =
      let q : true ≡ false = ap is_condensation p ∙ h in absurd (cc)
  HasNoCondensation-cons e events h none_there c (tail m) = none_there c m

  IsFirst-of_request_first :
      (events : List (Event X)) → request_first events ≡ true → IsFirst events
  unfolding request_first
  IsFirst-of_request_first [] h = absurd (cc)
  IsFirst-of_request_first (condensation c ∷ events) h = absurd (cc)
  IsFirst-of_request_first (condensation_request r ∷ events) h =
      ([], r, events, refl, λ c m. elim m [ ])
  IsFirst-of_request_first (e ∷ events) h =
      let (after, r, before, p, none_there) = IsFirst-of_request_first events h in
      (e ∷ after, r, before, ap (◌∷◌ e) p, HasNoCondensation-cons e after refl none_there)

  request_first_of_first :
      (after : List (Event X)) (r : PlainEvent) (before : List (Event X))
      → HasNoCondensation after
      → request_first (after ++ condensation_request r ∷ before) ≡ true
  unfolding request_first
  request_first_of_first [] r before none_there = refl
  request_first_of_first (condensation c ∷ after) r before none_there =
      absurd (none_there c (head refl))
  request_first_of_first (condensation_request q ∷ after) r before none_there = refl
  request_first_of_first (e ∷ after) r before none_there =
      request_first_of_first after r before (λ c m. none_there c (tail m))

  mem-reverse : (events : List (Event X)) {e : Event X} → Memᴰ e (reverse events) → Memᴰ e events
  mem-reverse [] m = m
  mem-reverse (x ∷ events) {e} m =
      elim (mem-append_cases (reverse events) (x ∷ [])
        (subst (λ l. Memᴰ e l) (reverse-append (x ∷ []) events) m)) [
          | inl k ↦ tail (mem-reverse events k)
          | inr (head p) ↦ head p
          | inr (tail k) ↦ elim k [ ]
        ]

  reverse_middle :
      (xs ys : List (Event X)) (e : Event X) → reverse (xs ++ e ∷ ys) ≡ reverse ys ++ e ∷ reverse xs
  reverse_middle xs ys e =
      reverse-append xs (e ∷ ys)
      ∙ rw (reverse-append (e ∷ []) ys) (append_assoc (reverse ys) (e ∷ []) (reverse xs))

  -- The view reports an unhandled request exactly when the history holds a condensation request
  -- that no condensation follows.
  pub unhandled_condensation_request-IsPending :
      (events : List (Event X))
      → ((from_events events).unhandled_condensation_request ≡ true) ↔ IsPending events
  unfolding from_events unhandled_condensation_request_exists
  unhandled_condensation_request-IsPending events = (to, from)
    where
      to : request_first (reverse events) ≡ true → IsPending events
      to h =
          let (after, r, before, p, none_there) = IsFirst-of_request_first (reverse events) h in
          (
            reverse before,
            r,
            reverse after,
            sym (reverse-reverse events)
                ∙ ap reverse p
                ∙ reverse_middle after before (condensation_request r),
            λ c m. none_there c (mem-reverse after m),
          )

      from : IsPending events → request_first (reverse events) ≡ true
      from (before, r, after, p, none_there) =
          rw (ap reverse p ∙ reverse_middle before after (condensation_request r)) (
            request_first_of_first (reverse after) r (reverse before)
              (λ c m. none_there c (mem-reverse after m)))
