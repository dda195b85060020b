-- ===== src/View/Indices/Loops.antt =====
-- The tool loops of `View.manipulation_indices` (view.py) cover every batch that they touch.
use codex_latest.Prelude.{
  ℕ, zero, suc, max, ◌≤◌, ◌<◌, ◌≡◌, refl, sym, ap, ◌∙◌, ◌⊎◌, inl, inr, Bool, true, false, ◌&&◌,
  List, [], ◌∷◌, Memᴰ, head, tail, any, length, take, drop, leb, arith, Bool-cases, mem-cons_cases,
  mem_of_any, mem-append_left, mem-append_right, mem-map, mem-filter_of_mem, length-take,
  length-drop, length_of_mem,
}
use codex_latest.Event.{Event}
use codex_latest.View.Indices.{
  BatchRange, has_non_batch_between, is_non_batch, absorb, tool_loop_ranges, in_tool_loop,
  merge_ranges, bounds,
}
use codex_latest.View.Indices.Sorting.{IsSorted, le-first_of_mem}

module _ {X : Type 0} (events : List (Event X)) where
  -- A gap between two batches is not empty.
  lt_of_gap :
      (loop_end next : ℕ) → has_non_batch_between events loop_end next ≡ true → loop_end < next
  unfolding has_non_batch_between
  lt_of_gap loop_end next h =
      let (e, m, _) = mem_of_any is_non_batch (drop (suc loop_end) (take next events)) h in
      omega (
        arith,
        length_of_mem (drop (suc loop_end) (take next events)) m,
        length-drop (suc loop_end) (take next events),
        length-take next events,
      )

-- What the inner loop leaves behind.
record Absorbs (loop_end : ℕ) (ranges : List BatchRange) (out : ℕ × List BatchRange) : Type 0 where
  grows : loop_end ≤ out.0
  covers : (r : BatchRange) → Memᴰ r ranges → (r.last ≤ out.0) ⊎ Memᴰ r out.1
  beyond : (r : BatchRange) → Memᴰ r out.1 → out.0 < r.first
  from : (r : BatchRange) → Memᴰ r out.1 → Memᴰ r ranges
  sorted : IsSorted out.1
  shorter : length out.1 ≤ length ranges

Absorbs-stop :
    (loop_end : ℕ) (r : BatchRange) (ranges : List BatchRange)
    → IsSorted (r ∷ ranges)
    → loop_end < r.first
    → Absorbs loop_end (r ∷ ranges) (loop_end, r ∷ ranges)
Absorbs-stop loop_end r ranges h lt = record {
  grows = omega arith;
  covers = λ s m. inr m;
  beyond = λ s m. le-first_of_mem (suc loop_end) r ranges s lt h.0 (mem-cons_cases m);
  from = λ s m. m;
  sorted = h;
  shorter = omega arith;
}

Absorbs-include :
    (loop_end : ℕ) (r : BatchRange) (ranges : List BatchRange) {out : ℕ × List BatchRange}
    → Absorbs (max loop_end r.last) ranges out
    → Absorbs loop_end (r ∷ ranges) out
Absorbs-include loop_end r ranges {out} a = record {
  grows = omega (arith, a.grows);
  covers = λ s m. covers_cons s (mem-cons_cases m);
  beyond = a.beyond;
  from = λ s m. tail (a.from s m);
  sorted = a.sorted;
  shorter = omega (arith, a.shorter);
}
  where
    covers_cons : (s : BatchRange) → (s ≡ r) ⊎ Memᴰ s ranges → (s.last ≤ out.0) ⊎ Memᴰ s out.1
    covers_cons s (inl p) = inl (omega (arith, a.grows, ap (λ (x : BatchRange). x.last) p))
    covers_cons s (inr m) = a.covers s m

module _ {X : Type 0} (events : List (Event X)) where
  absorb-Absorbs :
      (loop_end : ℕ) (ranges : List BatchRange)
      → IsSorted ranges
      → Absorbs loop_end ranges (absorb events loop_end ranges)
  unfolding absorb
  absorb-Absorbs loop_end [] h = record {
    grows = omega arith;
    covers = λ r m. elim m [ ];
    beyond = λ r m. elim m [ ];
    from = λ r m. m;
    sorted = tt;
    shorter = omega arith;
  }
  absorb-Absorbs loop_end (r ∷ ranges) h =
      elim (Bool-cases (has_non_batch_between events loop_end r.first)) [
        | inl y ↦ rw y (Absorbs-stop loop_end r ranges h (lt_of_gap events loop_end r.first y))
        | inr n ↦
            rw n
              (Absorbs-include loop_end r ranges (absorb-Absorbs (max loop_end r.last) ranges h.1))
      ]

abbrev pub Inside : ℕ → ℕ × ℕ → Type 0
Inside i l = (l.0 ≤ i) × (i ≤ l.1)

-- A loop covers the range, or no loop holds its start.
abbrev Settles : List (ℕ × ℕ) → BatchRange → Type 0
Settles loops r =
    ((l : ℕ × ℕ) × Memᴰ l loops × (l.0 ≤ r.first) × (r.last ≤ l.1))
    ⊎ ((l : ℕ × ℕ) → Memᴰ l loops → ¬ Inside r.first l)

Settles-start :
    (s : BatchRange) (loop_end : ℕ) (loops : List (ℕ × ℕ))
    → s.last ≤ loop_end
    → (r : BatchRange) → r ≡ s
    → Settles ((s.first, loop_end) ∷ loops) r
Settles-start s loop_end loops h r p = inl (
  (s.first, loop_end),
  head refl,
  omega (arith, ap (λ (x : BatchRange). x.first) p),
  omega (arith, ap (λ (x : BatchRange). x.last) p),
)

Settles-later :
    (l : ℕ × ℕ) {loops : List (ℕ × ℕ)} (r : BatchRange)
    → l.1 < r.first
    → Settles loops r
    → Settles (l ∷ loops) r
Settles-later l r h (inl (k, m, p, q)) = inl (k, tail m, p, q)
Settles-later l {loops} r h (inr outside) = inr (λ k m. apart k (mem-cons_cases m))
  where
    apart : (k : ℕ × ℕ) → (k ≡ l) ⊎ Memᴰ k loops → ¬ Inside r.first k
    apart k (inl p) inside = omega (arith, ap (λ (x : ℕ × ℕ). x.1) p)
    apart k (inr m) inside = outside k m inside

not_in_tool_loop :
    (loops : List (ℕ × ℕ)) (i : ℕ)
    → ((l : ℕ × ℕ) → Memᴰ l loops → ¬ Inside i l)
    → in_tool_loop loops i ≡ false
unfolding in_tool_loop
not_in_tool_loop loops i h = elim (Bool-cases (any (λ l. leb l.0 i && leb i l.1) loops)) [
  | inl y ↦
      let (l, m, t) = mem_of_any (λ l. leb l.0 i && leb i l.1) loops y in
      absurd (h l m (ground arith))
  | inr n ↦ n
]

merged_of_Settles :
    (loops : List (ℕ × ℕ)) (ranges : List BatchRange) (r : BatchRange)
    → Memᴰ r ranges
    → Settles loops r
    → (l : ℕ × ℕ) × Memᴰ l (merge_ranges loops ranges) × (l.0 ≤ r.first) × (r.last ≤ l.1)
unfolding merge_ranges
merged_of_Settles [] ranges r m s = (bounds r, mem-map bounds ranges m, omega arith, omega arith)
merged_of_Settles (k ∷ loops) ranges r m (inl (l, n, p, q)) =
    (l, mem-append_left (k ∷ loops) _ n, p, q)
merged_of_Settles (k ∷ loops) ranges r m (inr outside) = (
  bounds r,
  mem-append_right (k ∷ loops) _ (
      mem-map bounds _
        (mem-filter_of_mem _ ranges m (rw (not_in_tool_loop (k ∷ loops) r.first outside)))),
  omega arith,
  omega arith,
)

module _ {X : Type 0} (events : List (Event X)) (thinks : ℕ → Bool) where
  -- Whether a range thinks depends on its start alone.
  abbrev pub IsTagged : List BatchRange → Type 0
  IsTagged ranges = (r : BatchRange) → Memᴰ r ranges → r.has_thinking ≡ thinks r.first

  -- Every loop starts with a thinking range of the list.
  loop_start :
      (fuel : ℕ) (ranges : List BatchRange)
      → IsSorted ranges
      → {l : ℕ × ℕ} → Memᴰ l (tool_loop_ranges events fuel ranges)
      → (r : BatchRange) × Memᴰ r ranges × (l.0 ≡ r.first) × (r.has_thinking ≡ true)
  unfolding tool_loop_ranges
  loop_start zero ranges h m = elim m [ ]
  loop_start (suc fuel) [] h m = elim m [ ]
  loop_start (suc fuel) (r ∷ ranges) h m = elim (Bool-cases r.has_thinking) [
    | inl y ↦ elim (mem-cons_cases (rw y at m)) [
      | inl p ↦ (r, head refl, ap (λ (x : ℕ × ℕ). x.0) p, y)
      | inr k ↦
          let a = absorb-Absorbs events r.last ranges h.1 in
          let (s, n, q, t) = loop_start fuel (absorb events r.last ranges).1 a.sorted k in
          (s, tail (a.from s n), q, t)
    ]
    | inr n ↦ let (s, k, q, t) = loop_start fuel ranges h.1 (rw n at m) in (s, tail k, q, t)
  ]

  no_loop_at :
      (fuel : ℕ) (s : BatchRange) (ranges : List BatchRange)
      → IsSorted (s ∷ ranges)
      → IsTagged (s ∷ ranges)
      → s.has_thinking ≡ false
      → {l : ℕ × ℕ} → Memᴰ l (tool_loop_ranges events fuel ranges)
      → ¬ Inside s.first l
  no_loop_at fuel s ranges h t quiet {l} m inside =
      let (u, k, p, loud) = loop_start fuel ranges h.1 m in
      let same : u.first ≡ s.first = omega (arith, h.0 u k) in
      let clash : true ≡ false =
        sym loud ∙ t u (tail k) ∙ ap thinks same ∙ sym (t s (head refl)) ∙ quiet in
      absurd (cc)

  settles :
      (fuel : ℕ) (ranges : List BatchRange)
      → IsSorted ranges
      → IsTagged ranges
      → length ranges ≤ fuel
      → (r : BatchRange) → Memᴰ r ranges
      → Settles (tool_loop_ranges events fuel ranges) r
  unfolding tool_loop_ranges
  settles zero [] h t le r m = elim m [ ]
  settles zero (s ∷ ranges) h t le r m = absurd (omega arith)
  settles (suc fuel) [] h t le r m = elim m [ ]
  settles (suc fuel) (s ∷ ranges) h t le r m = elim (Bool-cases s.has_thinking) [
    | inl y ↦ rw y (
        let a = absorb-Absorbs events s.last ranges h.1 in
        elim (mem-cons_cases m) [
          | inl p ↦ Settles-start s (absorb events s.last ranges).0 _ a.grows r p
          | inr k ↦ elim (a.covers r k) [
            | inl within ↦
                inl ((s.first, (absorb events s.last ranges).0), head refl, h.0 r k, within)
            | inr left ↦
                Settles-later (s.first, (absorb events s.last ranges).0) r (a.beyond r left)
                  (settles fuel (absorb events s.last ranges).1 a.sorted
                    (λ u n. t u (tail (a.from u n))) (omega (arith, a.shorter)) r left)
          ]
        ])
    | inr n ↦ rw n (elim (mem-cons_cases m) [
      | inl p ↦ inr (λ l k inside. no_loop_at fuel s ranges h t n k (rw p at inside))
      | inr k ↦ settles fuel ranges h.1 (λ u l. t u (tail l)) (omega arith) r k
    ])
  ]

  -- Every batch range lies within one of the merged ranges.
  pub merge_ranges-covers :
      (ranges : List BatchRange)
      → IsSorted ranges
      → IsTagged ranges
      → (r : BatchRange) → Memᴰ r ranges
      → (l : ℕ × ℕ) × Memᴰ l (merge_ranges (tool_loop_ranges events (length ranges) ranges) ranges)
        × (l.0 ≤ r.first)
        × (r.last ≤ l.1)
  merge_ranges-covers ranges h t r m =
      merged_of_Settles (tool_loop_ranges events (length ranges) ranges) ranges r m
        (settles (length ranges) ranges h t (omega arith) r m)
