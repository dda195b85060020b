-- ===== src/Event/Distinct.antt =====
-- Events with different ids, from a test on their ids.
use codex_latest.Prelude.{
  ◌≡◌, refl, sym, ap, ◌∙◌, String, Bool, true, not, ◌&&◌, List, [], ◌∷◌, Memᴰ, head, tail, map,
  mem-map, filter_map, mem-filter_map, contains, contains_of_mem, string_eq, arith,
}
use codex_latest.Event.{Event, ActionEvent, as_action, event_id, event_ids, IsWellIdentified}

-- No text stands twice.
unfoldable pub are_distinct : List String → Bool
are_distinct [] = true
are_distinct (s ∷ ss) = not (contains ss s) && are_distinct ss

are_distinct-tail :
    (s : String) (ss : List String) → are_distinct (s ∷ ss) ≡ true → are_distinct ss ≡ true
unfolding are_distinct
are_distinct-tail s ss h = ground arith

are_distinct-head : (s : String) (ss : List String) → are_distinct (s ∷ ss) ≡ true → ¬ Memᴰ s ss
unfolding are_distinct
are_distinct-head s ss h m = ground (arith, contains_of_mem ss m)

injective_of_distinct :
    {A : Type 0} (f : A → String) (xs : List A)
    → are_distinct (map f xs) ≡ true
    → (a b : A) → Memᴰ a xs
    → Memᴰ b xs
    → f a ≡ f b
    → a ≡ b
injective_of_distinct f [] h a b m n p = elim m [ ]
injective_of_distinct f (x ∷ xs) h a b (head q) (head r) p = q ∙ sym r
injective_of_distinct f (x ∷ xs) h a b (head q) (tail n) p =
    absurd (are_distinct-head (f x) (map f xs) h (rw⁻¹ (ap f q) (rw p (mem-map f xs n))))
injective_of_distinct f (x ∷ xs) h a b (tail m) (head r) p =
    absurd (are_distinct-head (f x) (map f xs) h (rw⁻¹ (ap f r) (rw⁻¹ p (mem-map f xs m))))
injective_of_distinct f (x ∷ xs) h a b (tail m) (tail n) p =
    injective_of_distinct f xs (are_distinct-tail (f x) (map f xs) h) a b m n p

module _ {X : Type 0} where
  abbrev call_id : ActionEvent X → String
  call_id a = a.tool_call_id

  pub IsWellIdentified-of_distinct :
      (events : List (Event X))
      → are_distinct (event_ids events) ≡ true
      → are_distinct (map call_id (filter_map as_action events)) ≡ true
      → IsWellIdentified events
  IsWellIdentified-of_distinct events h k = record {
    by_id = λ e f m n p. injective_of_distinct event_id events h e f m n p;
    by_call = λ a b m n p.
        injective_of_distinct call_id (filter_map as_action events) k a b
          (mem-filter_map as_action events m refl) (mem-filter_map as_action events n refl) p;
  }

  -- No two events of the list have the same id.
  abbrev pub HasDistinctIds : List (Event X) → Type 0
  HasDistinctIds events = are_distinct (event_ids events) ≡ true

  pub HasDistinctIds-head :
      (e : Event X) (events : List (Event X))
      → HasDistinctIds (e ∷ events)
      → ¬ Memᴰ (event_id e) (event_ids events)
  HasDistinctIds-head e events = are_distinct-head (event_id e) (event_ids events)

  pub HasDistinctIds-tail :
      (e : Event X) (events : List (Event X)) → HasDistinctIds (e ∷ events) → HasDistinctIds events
  HasDistinctIds-tail e events = are_distinct-tail (event_id e) (event_ids events)
