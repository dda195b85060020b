-- ===== src/Paging/Lists.antt =====
-- Filtering and sorting keep the ids apart, and the number of events.
use codex_latest.Prelude.{
  suc, ◌≡◌, refl, sym, ap, ◌∙◌, inl, inr, Bool, false, ◌||◌, List, [], ◌∷◌, length, any, filter,
  string_eq, ◌==◌, Bool-cases, arith,
}
use codex_latest.Paging.{
  Fields, Query, SortOrder, is_match, is_before, insert_event, sort_events, count_events,
}

module _ {E : Type 0} (f : Fields E) where
  -- No two events share an id, and none has the empty one.
  abbrev pub AreIdentified : List E → Type 0
  AreIdentified [] = Unit
  AreIdentified (e ∷ l) =
      ((f.id e == "") ≡ false) × (any (λ a. f.id a == f.id e) l ≡ false) × AreIdentified l

  any-insert_event :
      (p : E → Bool) (order : SortOrder) (e : E) (l : List E)
      → any p (insert_event f order e l) ≡ (p e || any p l)
  unfolding any insert_event
  any-insert_event p order e [] = refl
  any-insert_event p order e (a ∷ l) = elim (Bool-cases (is_before f order a e)) [
    | inl y ↦ rw y (ground (arith, any-insert_event p order e l))
    | inr n ↦ rw n refl
  ]

  any-sort_events :
      (p : E → Bool) (order : SortOrder) (l : List E) → any p (sort_events f order l) ≡ any p l
  unfolding any sort_events
  any-sort_events p order [] = refl
  any-sort_events p order (e ∷ l) =
      any-insert_event p order e (sort_events f order l)
      ∙ ap (λ b. p e || b) (any-sort_events p order l)

  any-filter : (p q : E → Bool) (l : List E) → any p l ≡ false → any p (filter q l) ≡ false
  unfolding any filter
  any-filter p q [] h = refl
  any-filter p q (e ∷ l) h = elim (Bool-cases (q e)) [
    | inl y ↦ rw y (ground (arith, any-filter p q l, h))
    | inr n ↦ rw n (any-filter p q l (ground (arith, h)))
  ]

  filter-AreIdentified : (q : E → Bool) (l : List E) → AreIdentified l → AreIdentified (filter q l)
  unfolding filter
  filter-AreIdentified q [] h = tt
  filter-AreIdentified q (e ∷ l) h = elim (Bool-cases (q e)) [
    | inl y ↦ rw y (h.0, any-filter (λ a. f.id a == f.id e) q l h.1, filter-AreIdentified q l h.2)
    | inr n ↦ rw n (filter-AreIdentified q l h.2)
  ]

  insert_event-AreIdentified :
      (order : SortOrder) (e : E) (l : List E)
      → (f.id e == "") ≡ false
      → any (λ a. f.id a == f.id e) l ≡ false
      → AreIdentified l
      → AreIdentified (insert_event f order e l)
  unfolding insert_event any
  insert_event-AreIdentified order e [] h k r = (h, refl, tt)
  insert_event-AreIdentified order e (a ∷ l) h k r = elim (Bool-cases (is_before f order a e)) [
    | inl y ↦ rw y (
      r.0,
      any-insert_event (λ b. f.id b == f.id a) order e l
          ∙ ground (
            arith,
            k,
            r.1,
            string_eq.reflects (f.id a) (f.id e),
            string_eq.reflects (f.id e) (f.id a),
          ),
      insert_event-AreIdentified order e l h (ground (arith, k)) r.2,
    )
    | inr n ↦ rw n (h, k, r)
  ]

  sort_events-AreIdentified :
      (order : SortOrder) (l : List E) → AreIdentified l → AreIdentified (sort_events f order l)
  unfolding sort_events
  sort_events-AreIdentified order [] h = tt
  sort_events-AreIdentified order (e ∷ l) h =
      insert_event-AreIdentified order e (sort_events f order l) h.0
        (any-sort_events (λ a. f.id a == f.id e) order l ∙ h.1)
        (sort_events-AreIdentified order l h.2)

  pub found-AreIdentified :
      (order : SortOrder) (q : Query) (l : List E)
      → AreIdentified l
      → AreIdentified (sort_events f order (filter (is_match f q) l))
  found-AreIdentified order q l h =
      sort_events-AreIdentified order (filter (is_match f q) l)
        (filter-AreIdentified (is_match f q) l h)

  length-insert_event :
      (order : SortOrder) (e : E) (l : List E) → length (insert_event f order e l) ≡ suc (length l)
  unfolding insert_event
  length-insert_event order e [] = refl
  length-insert_event order e (a ∷ l) = elim (Bool-cases (is_before f order a e)) [
    | inl y ↦ rw y (omega (arith, length-insert_event order e l))
    | inr n ↦ rw n refl
  ]

  length-sort_events : (order : SortOrder) (l : List E) → length (sort_events f order l) ≡ length l
  unfolding sort_events
  length-sort_events order [] = refl
  length-sort_events order (e ∷ l) =
      length-insert_event order e (sort_events f order l) ∙ ap suc (length-sort_events order l)

  count_events-filter :
      (q : Query) (l : List E) → count_events f q l ≡ length (filter (is_match f q) l)
  unfolding count_events filter
  count_events-filter q [] = refl
  count_events-filter q (e ∷ l) = elim (Bool-cases (is_match f q e)) [
    | inl y ↦ rw y (ap suc (count_events-filter q l))
    | inr n ↦ rw n (count_events-filter q l)
  ]

  -- The count is the number of the events that a search finds.
  pub count_events-length :
      (order : SortOrder) (q : Query) (l : List E)
      → count_events f q l ≡ length (sort_events f order (filter (is_match f q) l))
  count_events-length order q l =
      count_events-filter q l ∙ sym (length-sort_events order (filter (is_match f q) l))
