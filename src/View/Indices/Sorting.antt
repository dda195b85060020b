-- ===== src/View/Indices/Sorting.antt =====
-- The order of the batch ranges in `View.manipulation_indices` (view.py).
use codex_latest.Prelude.{
  ℕ, ◌≤◌, ◌≡◌, ap, ◌⊎◌, inl, inr, false, List, [], ◌∷◌, Memᴰ, head, tail, leb, arith, Bool-cases,
  mem-cons_cases, leb→le,
}
use codex_latest.View.Indices.{BatchRange, insert_range, sort}

-- Ascending by the start of the range.
abbrev pub IsSorted : List BatchRange → Type 0
IsSorted [] = Unit
IsSorted (r ∷ ranges) = ((s : BatchRange) → Memᴰ s ranges → r.first ≤ s.first) × IsSorted ranges

mem-insert_range_cases :
    (r : BatchRange) (ranges : List BatchRange) {s : BatchRange}
    → Memᴰ s (insert_range r ranges)
    → (s ≡ r) ⊎ Memᴰ s ranges
unfolding insert_range
mem-insert_range_cases r [] (head p) = inl p
mem-insert_range_cases r [] (tail m) = inr m
mem-insert_range_cases r (t ∷ ranges) m = elim (Bool-cases (leb r.first t.first)) [
  | inl y ↦ mem-cons_cases (rw y at m)
  | inr n ↦ elim (mem-cons_cases (rw n at m)) [
    | inl p ↦ inr (head p)
    | inr k ↦ elim (mem-insert_range_cases r ranges k) [ inl p ↦ inl p | inr l ↦ inr (tail l) ]
  ]
]

mem-insert_range :
    (r : BatchRange) (ranges : List BatchRange) {s : BatchRange}
    → (s ≡ r) ⊎ Memᴰ s ranges
    → Memᴰ s (insert_range r ranges)
unfolding insert_range
mem-insert_range r [] (inl p) = head p
mem-insert_range r [] (inr m) = elim m [ ]
mem-insert_range r (t ∷ ranges) (inl p) = elim (Bool-cases (leb r.first t.first)) [
  | inl y ↦ rw y (head p)
  | inr n ↦ rw n (tail (mem-insert_range r ranges (inl p)))
]
mem-insert_range r (t ∷ ranges) (inr m) = elim (Bool-cases (leb r.first t.first)) [
  | inl y ↦ rw y (tail m)
  | inr n ↦ rw n (elim (mem-cons_cases m) [
    | inl p ↦ head p
    | inr k ↦ tail (mem-insert_range r ranges (inr k))
  ])
]

pub le-first_of_mem :
    (k : ℕ) (t : BatchRange) (ranges : List BatchRange) (s : BatchRange)
    → k ≤ t.first
    → ((u : BatchRange) → Memᴰ u ranges → t.first ≤ u.first)
    → (s ≡ t) ⊎ Memᴰ s ranges
    → k ≤ s.first
le-first_of_mem k t ranges s le h (inl p) = omega (arith, ap (λ (x : BatchRange). x.first) p)
le-first_of_mem k t ranges s le h (inr m) = omega (arith, h s m)

insert_range-IsSorted :
    (r : BatchRange) (ranges : List BatchRange) → IsSorted ranges → IsSorted (insert_range r ranges)
unfolding insert_range
insert_range-IsSorted r [] h = (λ s m. elim m [ ], tt)
insert_range-IsSorted r (t ∷ ranges) h = elim (Bool-cases (leb r.first t.first)) [
  | inl y ↦
      rw y (λ s m. le-first_of_mem r.first t ranges s (leb→le _ _ y) h.0 (mem-cons_cases m), h)
  | inr n ↦ rw n (
    λ s m. le_of_inserted s (mem-insert_range_cases r ranges m) n,
    insert_range-IsSorted r ranges h.1,
  )
]
  where
    le_of_inserted :
        (s : BatchRange) → (s ≡ r) ⊎ Memᴰ s ranges → leb r.first t.first ≡ false → t.first ≤ s.first
    le_of_inserted s (inl p) n = rw p (ground arith)
    le_of_inserted s (inr m) n = h.0 s m

pub sort-IsSorted : (ranges : List BatchRange) → IsSorted (sort ranges)
unfolding sort
sort-IsSorted [] = tt
sort-IsSorted (r ∷ ranges) = insert_range-IsSorted r (sort ranges) (sort-IsSorted ranges)

pub mem-sort : (ranges : List BatchRange) {s : BatchRange} → Memᴰ s ranges → Memᴰ s (sort ranges)
unfolding sort
mem-sort [] m = m
mem-sort (r ∷ ranges) (head p) = mem-insert_range r (sort ranges) (inl p)
mem-sort (r ∷ ranges) (tail m) = mem-insert_range r (sort ranges) (inr (mem-sort ranges m))

pub mem_of_mem-sort :
    (ranges : List BatchRange) {s : BatchRange} → Memᴰ s (sort ranges) → Memᴰ s ranges
unfolding sort
mem_of_mem-sort [] m = m
mem_of_mem-sort (r ∷ ranges) m = elim (mem-insert_range_cases r (sort ranges) m) [
  | inl p ↦ head p
  | inr k ↦ tail (mem_of_mem-sort ranges k)
]
