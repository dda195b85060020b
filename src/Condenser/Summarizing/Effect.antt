-- ===== src/Condenser/Summarizing/Effect.antt =====
-- What a condensation of condenser/llm_summarizing_condenser.py does to the view that it is made
-- for: it replaces a run of events, behind the first `keep_first`, by the summary.
use codex_latest.Prelude.{
  ℕ, zero, suc, ◌-◌, ◌≤◌, min, ◌≡◌, refl, ap, String, true, false, not, List, [], ◌∷◌, ◌++◌, Memᴰ,
  head, tail, length, take, drop, filter, contains, ◌==◌, insert_at, contains_of_mem,
  mem_of_contains, mem-map, mem_of_mem-map, string_eq, arith, inl, inr, Bool-cases, length-take,
  length-drop,
}
use codex_latest.Event.Distinct.{HasDistinctIds, HasDistinctIds-head, HasDistinctIds-tail}
use codex_latest.Event.{Event, event_id, event_ids}
use codex_latest.Condenser.Summarizing.{slice}

module _ {ℓ} {A : Type ℓ} where
  mem-take : (n : ℕ) (xs : List A) {a : A} → Memᴰ a (take n xs) → Memᴰ a xs
  mem-take zero xs m = elim m [ ]
  mem-take (suc n) [] m = m
  mem-take (suc n) (x ∷ xs) (head e) = head e
  mem-take (suc n) (x ∷ xs) (tail m) = tail (mem-take n xs m)

  mem-drop : (n : ℕ) (xs : List A) {a : A} → Memᴰ a (drop n xs) → Memᴰ a xs
  mem-drop zero xs m = m
  mem-drop (suc n) [] m = m
  mem-drop (suc n) (x ∷ xs) m = tail (mem-drop n xs m)

  mem-slice : (start end : ℕ) (xs : List A) {a : A} → Memᴰ a (slice start end xs) → Memᴰ a xs
  mem-slice start end xs m = mem-take end xs (mem-drop start (take end xs) m)

  pub length-slice :
      (start end : ℕ) (xs : List A) → length (slice start end xs) ≡ min end (length xs) - start
  length-slice start end xs = omega (arith, length-drop start (take end xs), length-take end xs)

  pub insert_at-take :
      (n : ℕ) (a : A) (xs ys : List A)
      → n ≤ length xs
      → insert_at n a (take n xs ++ ys) ≡ take n xs ++ a ∷ ys
  unfolding insert_at
  insert_at-take zero a xs ys le = refl
  insert_at-take (suc n) a [] ys le = absurd (omega arith)
  insert_at-take (suc n) a (x ∷ xs) ys le = ap (λ l. x ∷ l) (insert_at-take n a xs ys (omega arith))

module _ {X : Type 0} where
  abbrev pub without : List String → List (Event X) → List (Event X)
  without ids events = filter (λ e. not (contains ids (event_id e))) events

  without_none : (events : List (Event X)) → without [] events ≡ events
  unfolding filter contains
  without_none [] = refl
  without_none (e ∷ events) = ap (λ l. e ∷ l) (without_none events)

  without_absent :
      (a : String) (ids : List String) (events : List (Event X))
      → ¬ Memᴰ a (event_ids events)
      → without (a ∷ ids) events ≡ without ids events
  unfolding filter contains
  without_absent a ids [] n = refl
  without_absent a ids (e ∷ events) n =
      let other : (a == event_id e) ≡ false = elim (Bool-cases (a == event_id e)) [
        | inl y ↦ absurd (n (head ((string_eq.reflects a (event_id e)).0 y)))
        | inr k ↦ k
      ] in
      rw (other, without_absent a ids events (λ m. n (tail m)))

  ids-slice :
      (start end : ℕ) (events : List (Event X)) {a : String}
      → Memᴰ a (event_ids (slice start end events))
      → Memᴰ a (event_ids events)
  ids-slice start end events {a} m =
      let (e, k, p) = mem_of_mem-map event_id (slice start end events) m in
      rw p (mem-map event_id events (mem-slice start end events k))

  pub without-slice :
      (start end : ℕ) (events : List (Event X))
      → HasDistinctIds events
      → start ≤ end
      → without (event_ids (slice start end events)) events ≡ take start events ++ drop end events
  unfolding filter contains
  without-slice zero zero events d le = without_none events
  without-slice (suc start) zero events d le = absurd (omega arith)
  without-slice zero (suc end) [] d le = refl
  without-slice (suc start) (suc end) [] d le = refl
  without-slice zero (suc end) (e ∷ events) d le =
      let here : contains (event_ids (e ∷ take end events)) (event_id e) ≡ true =
        contains_of_mem (event_ids (e ∷ take end events)) (head refl) in
      rw
        (
          here,
          without_absent (event_id e) (event_ids (take end events)) events
              (HasDistinctIds-head e events d),
        )
        (without-slice zero end events (HasDistinctIds-tail e events d) (omega arith))
  without-slice (suc start) (suc end) (e ∷ events) d le =
      elim (Bool-cases (contains (event_ids (slice start end events)) (event_id e))) [
        | inl y ↦
            absurd (
              (HasDistinctIds-head e events d) (ids-slice start end events (mem_of_contains _ _ y)))
        | inr n ↦ rw n (
            ap (λ l. e ∷ l)
              (without-slice start end events (HasDistinctIds-tail e events d) (omega arith)))
      ]
