-- ===== src/View/Indices/Next.antt =====
-- `View.find_next_manipulation_index` of view.py returns the next boundary.
use codex_latest.Prelude.{
  ℕ, zero, suc, max, ◌≤◌, ◌<◌, ◌≡◌, refl, ◌⊎◌, inl, inr, Bool, false, List, [], ◌∷◌, Memᴰ, head,
  tail, length, arith, Bool-cases, string_eq, mem-cons_cases, filter, leb, leb→le, lookup_of_mem,
  mem_of_mem-map, mem_of_mem-filter, mem-append_cases,
}
use codex_latest.Event.{Event}
use codex_latest.View.Indices.{
  BatchRange, index_batches, index_observations, batch_range, absorb, has_non_batch_between, bounds,
  maximum, batch_ranges, merged_ranges, merge_ranges, tool_loop_ranges, range_from, discard_inside,
  manipulation_indices, first_at_least, find_next_manipulation_index,
}
use codex_latest.View.Indices.Positions.{empty-IsBelow, index_batches-IsBelow}
use codex_latest.View.Indices.Observed.{
  empty-PlacesBelow, index_observations-PlacesBelow, extend-lt,
}
use codex_latest.View.Indices.Sorting.{mem_of_mem-sort}
use codex_latest.View.Indices.Atomic.{mem-manipulation_indices}

-- Strictly ascending.
abbrev pub IsAscending : List ℕ → Type 0
IsAscending [] = Unit
IsAscending (x ∷ xs) = ((y : ℕ) → Memᴰ y xs → x < y) × IsAscending xs

range_from-above : (start n : ℕ) {i : ℕ} → Memᴰ i (range_from start n) → start ≤ i
unfolding range_from
range_from-above start zero m = elim m [ ]
range_from-above start (suc n) {i} m = elim (mem-cons_cases m) [
  | inl p ↦ omega arith
  | inr k ↦ omega (arith, range_from-above (suc start) n k)
]

range_from-IsAscending : (start n : ℕ) → IsAscending (range_from start n)
unfolding range_from
range_from-IsAscending start zero = tt
range_from-IsAscending start (suc n) =
    (λ y m. range_from-above (suc start) n m, range_from-IsAscending (suc start) n)

filter-IsAscending : (p : ℕ → Bool) (xs : List ℕ) → IsAscending xs → IsAscending (filter p xs)
unfolding filter
filter-IsAscending p [] h = tt
filter-IsAscending p (x ∷ xs) h = elim (Bool-cases (p x)) [
  | inl y ↦ rw y (λ z m. h.0 z (mem_of_mem-filter p xs m).0, filter-IsAscending p xs h.1)
  | inr n ↦ rw n (filter-IsAscending p xs h.1)
]

discard_inside-IsAscending :
    (ranges : List (ℕ × ℕ)) (indices : List ℕ)
    → IsAscending indices
    → IsAscending (discard_inside ranges indices)
unfolding discard_inside
discard_inside-IsAscending [] indices h = h
discard_inside-IsAscending (r ∷ ranges) indices h =
    discard_inside-IsAscending ranges _ (filter-IsAscending _ indices h)

module _ {X : Type 0} where
  -- The indices are strictly ascending.
  pub manipulation_indices-IsAscending :
      (events : List (Event X)) → IsAscending (manipulation_indices events)
  unfolding manipulation_indices
  manipulation_indices-IsAscending [] = (λ y m. elim m [ ], tt)
  manipulation_indices-IsAscending (e ∷ events) =
      discard_inside-IsAscending (merged_ranges (e ∷ events)) _ (range_from-IsAscending 0 _)

  absorb-lt :
      (events : List (Event X)) (n loop_end : ℕ) (ranges : List BatchRange)
      → loop_end < n
      → ((r : BatchRange) → Memᴰ r ranges → r.last < n)
      → ((absorb events loop_end ranges).0 < n)
        × ((r : BatchRange) → Memᴰ r (absorb events loop_end ranges).1 → r.last < n)
  unfolding absorb
  absorb-lt events n loop_end [] lt h = (lt, h)
  absorb-lt events n loop_end (r ∷ ranges) lt h =
      elim (Bool-cases (has_non_batch_between events loop_end r.first)) [
        | inl y ↦ rw y (lt, h)
        | inr k ↦ rw k (
            absorb-lt events n (max loop_end r.last) ranges (omega (arith, h r (head refl)))
              (λ s m. h s (tail m)))
      ]

  tool_loop_ranges-lt :
      (events : List (Event X)) (n fuel : ℕ) (ranges : List BatchRange)
      → ((r : BatchRange) → Memᴰ r ranges → r.last < n)
      → (l : ℕ × ℕ) → Memᴰ l (tool_loop_ranges events fuel ranges)
      → l.1 < n
  unfolding tool_loop_ranges
  tool_loop_ranges-lt events n zero ranges h l m = elim m [ ]
  tool_loop_ranges-lt events n (suc fuel) [] h l m = elim m [ ]
  tool_loop_ranges-lt events n (suc fuel) (r ∷ ranges) h l m = elim (Bool-cases r.has_thinking) [
    | inl y ↦
        let a = absorb-lt events n r.last ranges (h r (head refl)) (λ s k. h s (tail k)) in
        elim (mem-cons_cases (rw y at m)) [
          | inl p ↦ rw p a.0
          | inr k ↦ tool_loop_ranges-lt events n fuel (absorb events r.last ranges).1 a.1 l k
        ]
    | inr k ↦ tool_loop_ranges-lt events n fuel ranges (λ s i. h s (tail i)) l (rw k at m)
  ]

merge_ranges-lt :
    (n : ℕ) (loops : List (ℕ × ℕ)) (ranges : List BatchRange)
    → ((r : BatchRange) → Memᴰ r ranges → r.last < n)
    → ((l : ℕ × ℕ) → Memᴰ l loops → l.1 < n)
    → (l : ℕ × ℕ) → Memᴰ l (merge_ranges loops ranges)
    → l.1 < n
unfolding merge_ranges
merge_ranges-lt n [] ranges h k l m =
    let (r, mr, p) = mem_of_mem-map bounds ranges m in rw p (h r mr)
merge_ranges-lt n (x ∷ loops) ranges h k l m = elim (mem-append_cases (x ∷ loops) _ m) [
  | inl i ↦ k l i
  | inr i ↦
      let (r, mr, p) = mem_of_mem-map bounds _ i in rw p (h r (mem_of_mem-filter _ ranges mr).0)
]

maximum-lt : (n : ℕ) (ids : List ℕ) → 0 < n → ((p : ℕ) → Memᴰ p ids → p < n) → maximum ids < n
maximum-lt n [] pos h = pos
maximum-lt n (x ∷ ids) pos h =
    omega (arith, h x (head refl), maximum-lt n ids pos (λ p m. h p (tail m)))

module _ {X : Type 0} where
  batch_ranges-lt :
      (events : List (Event X))
      → 0 < length events
      → (r : BatchRange) → Memᴰ r (batch_ranges events)
      → r.last < length events
  unfolding batch_ranges batch_range
  batch_ranges-lt events pos r m =
      let ((resp, ids), k, p) =
        mem_of_mem-map (batch_range events (index_observations 0 events [])) _
          (mem_of_mem-sort _ m) in
      let b = index_batches-IsBelow events 0 [] empty-IsBelow in
      let found = lookup_of_mem (index_batches 0 events []) b.distinct k in
      rw p (
        extend-lt (length events) events _ ids _
          (λ t q h.
            omega (arith, index_observations-PlacesBelow events 0 [] (empty-PlacesBelow 0) t q h))
          (maximum-lt (length events) ids pos
            (λ x n. omega (arith, b.below resp x (ids, found, n)))))

  merged_ranges-lt :
      (events : List (Event X))
      → 0 < length events
      → (l : ℕ × ℕ) → Memᴰ l (merged_ranges events)
      → l.1 < length events
  unfolding merged_ranges
  merged_ranges-lt events pos =
      merge_ranges-lt (length events) _ (batch_ranges events) (batch_ranges-lt events pos) (
        tool_loop_ranges-lt events (length events) _ (batch_ranges events)
          (batch_ranges-lt events pos))

  end_not_split :
      (events : List (Event X)) (l : ℕ × ℕ)
      → Memᴰ l (merged_ranges events)
      → ¬ ((l.0 < length events) × (length events ≤ l.1))
  end_not_split [] l m inside = omega arith
  end_not_split (e ∷ events) l m inside =
      omega (arith, merged_ranges-lt (e ∷ events) (omega arith) l m)

  -- Both ends of the view are boundaries.
  pub ends-mem :
      (events : List (Event X))
      → Memᴰ 0 (manipulation_indices events) × Memᴰ (length events) (manipulation_indices events)
  ends-mem events = (
    (mem-manipulation_indices events 0).1 (omega arith, λ l m inside. omega arith),
    (mem-manipulation_indices events (length events)).1 (omega arith, end_not_split events),
  )

-- `j` is the least of the indices that are at least `t`.
abbrev pub IsNext : ℕ → List ℕ → ℕ → Type 0
IsNext t indices j = Memᴰ j indices × (t ≤ j) × ((i : ℕ) → Memᴰ i indices → t ≤ i → j ≤ i)

least_head :
    (x : ℕ) (xs : List ℕ) → ((y : ℕ) → Memᴰ y xs → x < y) → (i : ℕ) → Memᴰ i (x ∷ xs) → x ≤ i
least_head x xs h i m = elim (mem-cons_cases m) [
  | inl p ↦ omega (arith, p)
  | inr k ↦ omega (arith, h i k)
]

IsNext-skip : (t x j : ℕ) (xs : List ℕ) → leb t x ≡ false → IsNext t xs j → IsNext t (x ∷ xs) j
IsNext-skip t x j xs n h = (tail h.0, h.1, λ i m le. skip i (mem-cons_cases m) le)
  where
    skip : (i : ℕ) → (i ≡ x) ⊎ Memᴰ i xs → t ≤ i → j ≤ i
    skip i (inl p) le = absurd (ground arith)
    skip i (inr k) le = h.2 i k le

first_at_least-IsNext :
    (t : ℕ) (indices : List ℕ)
    → IsAscending indices
    → (i : ℕ) → Memᴰ i indices
    → t ≤ i
    → IsNext t indices (first_at_least t indices)
unfolding first_at_least
first_at_least-IsNext t [] h i m le = elim m [ ]
first_at_least-IsNext t (x ∷ xs) h i m le = elim (Bool-cases (leb t x)) [
  | inl y ↦ rw y (head refl, leb→le t x y, λ k l _. least_head x xs h.0 k l)
  | inr n ↦ rw n (
      IsNext-skip t x _ xs n (elim (mem-cons_cases m) [
        | inl p ↦ absurd (ground arith)
        | inr k ↦ first_at_least-IsNext t xs h.1 i k le
      ]))
]

first_at_least_beyond :
    (t : ℕ) (indices : List ℕ) → ((i : ℕ) → Memᴰ i indices → i < t) → first_at_least t indices ≡ t
unfolding first_at_least
first_at_least_beyond t [] h = refl
first_at_least_beyond t (x ∷ xs) h =
    ground (arith, h x (head refl), first_at_least_beyond t xs (λ i m. h i (tail m)))

module _ {X : Type 0} where
  -- Up to the length of the view, the least manipulation index that is not below the threshold is
  -- found.
  pub find_next_manipulation_index-IsNext :
      (events : List (Event X)) (threshold : ℕ)
      → threshold ≤ length events
      → IsNext threshold
          (manipulation_indices events)
          (find_next_manipulation_index events threshold)
  unfolding find_next_manipulation_index
  find_next_manipulation_index-IsNext events threshold le =
      first_at_least-IsNext threshold (manipulation_indices events)
        (manipulation_indices-IsAscending events) (length events) (ends-mem events).1 le

  -- Beyond the length of the view the threshold itself is returned.
  pub find_next_manipulation_index_beyond :
      (events : List (Event X)) (threshold : ℕ)
      → length events < threshold
      → find_next_manipulation_index events threshold ≡ threshold
  unfolding find_next_manipulation_index
  find_next_manipulation_index_beyond events threshold lt =
      first_at_least_beyond threshold (manipulation_indices events)
        (λ i m. let h = (mem-manipulation_indices events i).0 m in omega arith)
