-- ===== src/View/Indices/Atomic.antt =====
-- `View.manipulation_indices` (view.py): which indices it returns, and that none of them splits a
-- batch of actions or parts an action from its observation.
use codex_latest.Prelude.{
  ℕ, zero, suc, ◌+◌, ◌≤◌, ◌<◌, ◌≡◌, refl, ap, ◌↔◌, ◌⊎◌, inl, inr, subst, true, false, not,
  not-false, ◌&&◌, some, List, [], ◌∷◌, Memᴰ, head, tail, length, get_elem?, arith, Bool-cases,
  string_eq, mem-cons_cases, ltb, leb, ltb→lt, lookup, mem_of_lookup, mem-map, mem_of_mem-map,
  mem_of_mem-filter, mem-filter_of_mem,
}
use codex_latest.Event.{Event, ActionEvent, action, as_observation}
use codex_latest.View.Indices.{
  BatchRange, index_batches, index_observations, batch_range, thinking_at, bounds, maximum,
  batch_ranges, merged_ranges, range_from, discard_inside, manipulation_indices,
}
use codex_latest.View.Indices.Positions.{minimum-le, le-maximum, index_batches-Holds_at}
use codex_latest.View.Indices.Observed.{
  le-extend, extend_reaches, index_observations_last, IsSilentFrom,
}
use codex_latest.View.Indices.Sorting.{sort-IsSorted, mem-sort, mem_of_mem-sort}
use codex_latest.View.Indices.Loops.{merge_ranges-covers}

-- The index is inside the range: a cut there would split it.
abbrev pub Splits : ℕ → ℕ × ℕ → Type 0
Splits i l = (l.0 < i) × (i ≤ l.1)

mem_of_mem-range_from :
    (start n : ℕ) {i : ℕ} → Memᴰ i (range_from start n) → (start ≤ i) × (i < start + n)
unfolding range_from
mem_of_mem-range_from start zero m = elim m [ ]
mem_of_mem-range_from start (suc n) {i} m = elim (mem-cons_cases m) [
  | inl p ↦ omega arith
  | inr k ↦ omega (arith, mem_of_mem-range_from (suc start) n k)
]

mem-range_from : (start n i : ℕ) → start ≤ i → i < start + n → Memᴰ i (range_from start n)
unfolding range_from
mem-range_from start zero i h k = absurd (omega arith)
mem-range_from start (suc n) i h k = elim (Bool-cases (ltb start i)) [
  | inl y ↦ tail (mem-range_from (suc start) n i (ltb→lt start i y) (omega arith))
  | inr p ↦ head (ground arith)
]

mem_of_mem-discard_inside :
    (ranges : List (ℕ × ℕ)) (indices : List ℕ) {i : ℕ}
    → Memᴰ i (discard_inside ranges indices)
    → Memᴰ i indices × ((l : ℕ × ℕ) → Memᴰ l ranges → ¬ Splits i l)
unfolding discard_inside
mem_of_mem-discard_inside [] indices m = (m, λ l k. elim k [ ])
mem_of_mem-discard_inside (r ∷ ranges) indices {i} m =
    let (k, out) = mem_of_mem-discard_inside ranges _ m in
    let (n, t) = mem_of_mem-filter _ indices k in
    (n, λ l k inside. outside l (mem-cons_cases k) (not-false _ t) (out l) inside)
  where
    outside :
        (l : ℕ × ℕ)
        → (l ≡ r) ⊎ Memᴰ l ranges
        → (ltb r.0 i && leb i r.1) ≡ false
        → (Memᴰ l ranges → ¬ Splits i l)
        → ¬ Splits i l
    outside l (inl p) t out inside =
        let q = ap (λ (x : ℕ × ℕ). x.0) p in let q' = ap (λ (x : ℕ × ℕ). x.1) p in ground arith
    outside l (inr k) t out inside = out k inside

mem-discard_inside :
    (ranges : List (ℕ × ℕ)) (indices : List ℕ) {i : ℕ}
    → Memᴰ i indices
    → ((l : ℕ × ℕ) → Memᴰ l ranges → ¬ Splits i l)
    → Memᴰ i (discard_inside ranges indices)
unfolding discard_inside
mem-discard_inside [] indices m out = m
mem-discard_inside (r ∷ ranges) indices {i} m out =
    mem-discard_inside ranges _ (mem-filter_of_mem _ indices m (kept (out r (head refl))))
      (λ l k. out l (tail k))
  where
    kept : ¬ Splits i r → not (ltb r.0 i && leb i r.1) ≡ true
    kept h = ground arith

only_zero : {i : ℕ} → Memᴰ i (0 ∷ []) → i ≡ 0
only_zero (head p) = p
only_zero (tail m) = elim m [ ]

module _ {X : Type 0} where
  -- The indices are those of the view, its end included, that no merged range has inside it.
  pub mem-manipulation_indices :
      (events : List (Event X)) (i : ℕ)
      → Memᴰ i (manipulation_indices events)
        ↔ ((i ≤ length events) × ((l : ℕ × ℕ) → Memᴰ l (merged_ranges events) → ¬ Splits i l))
  unfolding manipulation_indices
  mem-manipulation_indices [] i = (
    λ m. let z = only_zero m in (omega arith, λ l k inside. omega arith),
    λ h. head (omega arith),
  )
  mem-manipulation_indices (e ∷ events) i = (
    λ m.
        let (k, out) = mem_of_mem-discard_inside (merged_ranges (e ∷ events)) _ m in
        let (_, lt) = mem_of_mem-range_from 0 (suc (length (e ∷ events))) k in (omega arith, out),
    λ h.
        mem-discard_inside (merged_ranges (e ∷ events)) _
          (mem-range_from 0 (suc (length (e ∷ events))) i (omega arith) (omega arith)) h.1,
  )

  IsTagged-batch_ranges :
      (events : List (Event X)) (r : BatchRange)
      → Memᴰ r (batch_ranges events)
      → r.has_thinking ≡ thinking_at events r.first
  unfolding batch_ranges batch_range
  IsTagged-batch_ranges events r m =
      let (b, k, p) =
        mem_of_mem-map (batch_range events (index_observations 0 events [])) _
          (mem_of_mem-sort _ m) in
      rw p refl

  -- No manipulation index lies inside the range of a batch.
  no_index_inside :
      (events : List (Event X)) (r : BatchRange) (i : ℕ)
      → Memᴰ r (batch_ranges events)
      → Memᴰ i (manipulation_indices events)
      → ¬ Splits i (bounds r)
  no_index_inside events r i m k inside =
      let (l, n, p, q) = covering in
      ((mem-manipulation_indices events i).0 k).1 l n (omega arith, omega arith)
    where
      covering : (l : ℕ × ℕ) × Memᴰ l (merged_ranges events) × (l.0 ≤ r.first) × (r.last ≤ l.1)
      covering =
          unfold merged_ranges in
          merge_ranges-covers events (thinking_at events) (batch_ranges events)
            (unfold batch_ranges in sort-IsSorted _) (IsTagged-batch_ranges events) r m

  range_of_action :
      (events : List (Event X)) (a : ActionEvent X) (p : ℕ)
      → get_elem? events p ≡ some (action a)
      → (ids : List ℕ) × (lookup (index_batches 0 events []) a.llm_response_id ≡ some ids)
        × Memᴰ p ids
        × Memᴰ
            (batch_range events (index_observations 0 events []) (a.llm_response_id, ids))
            (batch_ranges events)
  unfolding batch_ranges
  range_of_action events a p h =
      let (ids, l, m) = index_batches-Holds_at events 0 p [] a h in
      (
        ids,
        l,
        subst (λ x. Memᴰ x ids) (omega arith) m,
        mem-sort _ (mem-map _ _ (mem_of_lookup _ _ l)),
      )

  -- No manipulation index comes between two actions of one LLM response.
  pub manipulation_indices-keep-batches :
      (events : List (Event X)) (a b : ActionEvent X) (p q i : ℕ)
      → get_elem? events p ≡ some (action a)
      → get_elem? events q ≡ some (action b)
      → a.llm_response_id ≡ b.llm_response_id
      → Memᴰ i (manipulation_indices events)
      → ¬ ((p < i) × (i ≤ q))
  unfolding batch_range
  manipulation_indices-keep-batches events a b p q i ha hb same m between =
      let (ids, l, mp, r) = range_of_action events a p ha in
      let (ids', l', mq, _) = range_of_action events b q hb in
      let e : ids' ≡ ids = cc in
      no_index_inside events _ i r m (
        omega (arith, minimum-le ids mp),
        omega (
          arith,
          le-maximum ids (subst (λ x. Memᴰ q x) e mq),
          le-extend events (index_observations 0 events []) ids (maximum ids),
        ),
      )

  -- No manipulation index comes between an action and the last observation that answers its call.
  pub manipulation_indices-keep-observations :
      (events : List (Event X)) (a : ActionEvent X) (o : Event X) (p q i : ℕ)
      → get_elem? events p ≡ some (action a)
      → get_elem? events q ≡ some o
      → as_observation o ≡ some a.tool_call_id
      → IsSilentFrom (suc q) a.tool_call_id events
      → Memᴰ i (manipulation_indices events)
      → ¬ ((p < i) × (i ≤ q))
  unfolding batch_range
  manipulation_indices-keep-observations events a o p q i ha ho answers last m between =
      let (ids, l, mp, r) = range_of_action events a p ha in
      no_index_inside events _ i r m (
        omega (arith, minimum-le ids mp),
        omega (
          arith,
          extend_reaches events (index_observations 0 events []) ids (maximum ids) p (0 + q) a mp ha
              (index_observations_last events 0 q [] o a.tool_call_id ho answers last),
        ),
      )
