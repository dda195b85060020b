-- ===== src/View/Indices/Positions.antt =====
-- Where the dictionaries of `View.manipulation_indices` (view.py) put the events of a view.
use codex_latest.Prelude.{
  ℕ, zero, suc, ◌+◌, ◌≤◌, ◌<◌, ◌≡◌, refl, ap, ◌∙◌, inl, inr, subst, String, Option, none, some,
  List, [], ◌∷◌, ◌++◌, Memᴰ, head, length, get_elem?, arith, Bool-cases, Option-cases, ◌==◌,
  string_eq, mem-cons_cases, Dict, lookup, IsDistinct, lookup-assign, lookup-assign_self,
  lookup-assign_ne, lookup-assign_cases, assign-IsDistinct, mem-append_left, mem-append_right,
  mem-append_cases,
}
use codex_latest.Event.{Event, ActionEvent, action, as_action}
use codex_latest.View.Indices.{indices_or_empty, minimum, maximum, add_index, index_batches}

pub minimum-le : (xs : List ℕ) {x : ℕ} → Memᴰ x xs → minimum xs ≤ x
minimum-le [] m = elim m [ ]
minimum-le (y ∷ []) m = elim (mem-cons_cases m) [ inl p ↦ omega arith | inr k ↦ elim k [ ] ]
minimum-le (y ∷ z ∷ xs) m = elim (mem-cons_cases m) [
  | inl p ↦ omega arith
  | inr k ↦ omega (arith, minimum-le (z ∷ xs) k)
]

pub le-maximum : (xs : List ℕ) {x : ℕ} → Memᴰ x xs → x ≤ maximum xs
le-maximum [] m = elim m [ ]
le-maximum (y ∷ xs) m = elim (mem-cons_cases m) [
  | inl p ↦ omega arith
  | inr k ↦ omega (arith, le-maximum xs k)
]

abbrev pub Holds : Dict String (List ℕ) → String → ℕ → Type 0
Holds d r p = (ids : List ℕ) × (lookup d r ≡ some ids) × Memᴰ p ids

-- Every place in the dictionary is below `n`, and no response stands twice.
pub record IsBelow (n : ℕ) (d : Dict String (List ℕ)) : Type 0 where
  pub distinct : IsDistinct d
  pub below : (r : String) (p : ℕ) → Holds d r p → p < n

pub empty-IsBelow : IsBelow 0 []
unfolding lookup
empty-IsBelow = record { distinct = tt; below = λ r p h. absurd (not_some h.1) }
  where
    not_some : {ids : List ℕ} → ◌≡◌ {A = Option (List ℕ)} none (some ids) → ⊥
    not_some q = cc

Holds-of_or_empty :
    (d : Dict String (List ℕ)) (r : String) (p : ℕ)
    → Memᴰ p (indices_or_empty (lookup d r))
    → Holds d r p
Holds-of_or_empty d r p m = elim (Option-cases (lookup d r)) [
  | inl n ↦ elim (subst (λ o. Memᴰ p (indices_or_empty o)) n m) [ ]
  | inr (ids, h) ↦ (ids, h, subst (λ o. Memᴰ p (indices_or_empty o)) h m)
]

module _ {X : Type 0} where
  add_index-Holds :
      (o : Option (ActionEvent X)) (idx : ℕ) (d : Dict String (List ℕ)) (r : String) (p : ℕ)
      → Holds d r p
      → Holds (add_index o idx d) r p
  unfolding add_index
  add_index-Holds none idx d r p h = h
  add_index-Holds (some e) idx d r p (ids, h, m) = elim (Bool-cases (e.llm_response_id == r)) [
    | inl y ↦ (
      indices_or_empty (lookup d e.llm_response_id) ++ idx ∷ [],
      lookup-assign e.llm_response_id r _ d ∙ rw y,
      mem-append_left _ (idx ∷ []) (rw ((string_eq.reflects _ _).0 y, h) m),
    )
    | inr n ↦ (ids, lookup-assign_ne e.llm_response_id r _ d n ∙ h, m)
  ]

  add_index-Holds_self :
      (e : ActionEvent X) (idx : ℕ) (d : Dict String (List ℕ))
      → Holds (add_index (some e) idx d) e.llm_response_id idx
  unfolding add_index
  add_index-Holds_self e idx d =
      (_, lookup-assign_self e.llm_response_id _ d, mem-append_right _ (idx ∷ []) (head refl))

  index_batches-Holds :
      (events : List (Event X)) (idx : ℕ) (d : Dict String (List ℕ)) (r : String) (p : ℕ)
      → Holds d r p
      → Holds (index_batches idx events d) r p
  unfolding index_batches
  index_batches-Holds [] idx d r p h = h
  index_batches-Holds (e ∷ events) idx d r p h =
      index_batches-Holds events (suc idx) _ r p (add_index-Holds (as_action e) idx d r p h)

  -- The batch of an action holds the action's place in the view.
  pub index_batches-Holds_at :
      (events : List (Event X)) (idx k : ℕ) (d : Dict String (List ℕ)) (a : ActionEvent X)
      → get_elem? events k ≡ some (action a)
      → Holds (index_batches idx events d) a.llm_response_id (idx + k)
  unfolding index_batches
  index_batches-Holds_at [] idx k d a h = absurd (cc)
  index_batches-Holds_at (e ∷ events) idx zero d a h =
      let p : e ≡ action a = cc in
      let q : idx ≡ idx + 0 = omega arith in
      index_batches-Holds events (suc idx) _ a.llm_response_id (idx + 0) (
        rw (ap as_action p) (
          subst (λ i. Holds (add_index (some a) idx d) a.llm_response_id i) q
            (add_index-Holds_self a idx d)))
  index_batches-Holds_at (e ∷ events) idx (suc k) d a h =
      let q : suc idx + k ≡ idx + suc k = omega arith in
      subst
        (λ i.
          Holds (index_batches (suc idx) events (add_index (as_action e) idx d)) a.llm_response_id
            i)
        q (index_batches-Holds_at events (suc idx) k _ a h)

  add_index-below :
      (e : ActionEvent X) (idx : ℕ) (d : Dict String (List ℕ))
      → IsBelow idx d
      → (r : String) (p : ℕ) → Holds (add_index (some e) idx d) r p
      → p < suc idx
  unfolding add_index
  add_index-below e idx d b r p (ids, h, m) = elim (lookup-assign_cases e.llm_response_id r _ d h) [
    | inl (q, new) ↦
        elim (mem-append_cases (indices_or_empty (lookup d e.llm_response_id)) (idx ∷ [])
          (rw new m)) [
            | inl k ↦
                let lt : p < idx =
                  b.below e.llm_response_id p (Holds-of_or_empty d e.llm_response_id p k) in
                omega arith
            | inr k ↦ elim (mem-cons_cases k) [ inl l ↦ omega (arith, l) | inr l ↦ elim l [ ] ]
          ]
    | inr (n, old) ↦ omega (arith, b.below r p (ids, old, m))
  ]

  add_index-IsBelow :
      (o : Option (ActionEvent X)) (idx : ℕ) (d : Dict String (List ℕ))
      → IsBelow idx d
      → IsBelow (suc idx) (add_index o idx d)
  unfolding add_index
  add_index-IsBelow none idx d b = record {
    distinct = b.distinct;
    below = λ r p k. omega (arith, b.below r p k);
  }
  add_index-IsBelow (some e) idx d b = record {
    distinct = assign-IsDistinct _ _ d b.distinct;
    below = add_index-below e idx d b;
  }

  pub index_batches-IsBelow :
      (events : List (Event X)) (idx : ℕ) (d : Dict String (List ℕ))
      → IsBelow idx d
      → IsBelow (idx + length events) (index_batches idx events d)
  unfolding index_batches
  index_batches-IsBelow [] idx d b =
      let p : idx ≡ idx + 0 = omega arith in subst (λ n. IsBelow n d) p b
  index_batches-IsBelow (e ∷ events) idx d b =
      let p : suc idx + length events ≡ idx + suc (length events) = omega arith in
      subst (λ n. IsBelow n (index_batches (suc idx) events (add_index (as_action e) idx d))) p
        (index_batches-IsBelow events (suc idx) _ (add_index-IsBelow (as_action e) idx d b))
