-- ===== src/EventLog/Scan.antt =====
-- A scan of the directory finds all its files.
use codex_latest.Prelude.{
  ℕ, zero, suc, ◌+◌, ◌≤◌, ◌<◌, ◌≡◌, refl, sym, ap, ◌∙◌, subst, inl, inr, String, Bool, true, none,
  some, List, [], ◌∷◌, ◌++◌, Dict, lookup, assign, lookup-assign, length, length-append, string_eq,
  nat_eq, Option-cases, arith,
}
use mathlib.Core.List.{append_assoc, append-nil}
use codex_latest.EventLog.{
  File, Log, index_file, index_range, first_gap, is_recognized, by_index, scan_and_build_index,
}
use codex_latest.EventLog.Index.{id_at, position, IsIndex, index_file-IsIndex}

length-index_range :
    (n i : ℕ) (d : Dict ℕ String) (log : Log) → (index_range n i d log).length ≡ log.length
unfolding index_range index_file
length-index_range zero i d log = refl
length-index_range (suc n) i d log = elim (Option-cases (lookup d i)) [
  | inl a ↦ rw (a, index_range) (length-index_range n (suc i) d log)
  | inr (v, y) ↦ rw (y, index_range) (length-index_range n (suc i) d (index_file i v log))
]

module _ {E : Type 0} where
  first_gap-length :
      (fuel n : ℕ) (l : List (File E)) (d : Dict ℕ String)
      → ((j : ℕ) → lookup d (n + j) ≡ id_at l j)
      → length l ≤ fuel
      → first_gap fuel n d ≡ n + length l
  unfolding first_gap
  first_gap-length zero n [] d h m = omega arith
  first_gap-length (suc fuel) n [] d h m =
      let here : lookup d n ≡ none = ap (lookup d) (omega arith) ∙ h 0 in
      rw (here, first_gap) (omega arith)
  first_gap-length zero n (f ∷ l) d h m = absurd (omega (arith, m))
  first_gap-length (suc fuel) n (f ∷ l) d h m =
      let here : lookup d n ≡ some f.event_id = ap (lookup d) (omega arith) ∙ h 0 in
      rw (here, first_gap)
        (first_gap-length fuel (suc n) l d (λ j. ap (lookup d) (omega arith) ∙ h (suc j))
            (omega (arith, m))
          ∙ omega arith)

  index_range-IsIndex :
      (i : ℕ) (l m : List (File E)) (d : Dict ℕ String) (log : Log)
      → i ≡ length l
      → IsIndex log l
      → ((j : ℕ) → lookup d (i + j) ≡ id_at m j)
      → IsIndex (index_range (length m) i d log) (l ++ m)
  unfolding index_range
  index_range-IsIndex i l [] d log p h k = subst (IsIndex log) (sym (append-nil l)) h
  index_range-IsIndex i l (f ∷ m) d log p h k =
      let here : lookup d i ≡ some f.event_id = ap (lookup d) (omega arith) ∙ k 0 in
      let longer : suc i ≡ length (l ++ f ∷ []) = omega (arith, p, length-append l (f ∷ [])) in
      let next : IsIndex (index_file i f.event_id log) (l ++ f ∷ []) =
        subst (λ n. IsIndex (index_file n f.event_id log) (l ++ f ∷ [])) (sym p)
          (index_file-IsIndex log l f h) in
      rw (here, index_range)
        (subst (IsIndex (index_range (length m) (suc i) d (index_file i f.event_id log)))
          (append_assoc l (f ∷ []) m)
          (index_range-IsIndex (suc i) (l ++ f ∷ []) m d (index_file i f.event_id log) longer next
            (λ j. ap (lookup d) (omega arith) ∙ k (suc j))))

module _ {E : Type 0} (id : E → String) (is_event_id : String → Bool) where
  -- The files have the numbers from `k` on, and names that a scan recognizes.
  abbrev pub AreFiles : ℕ → List (File E) → Type 0
  AreFiles k [] = Unit
  AreFiles k (f ∷ l) = (f.idx ≡ k) × (is_recognized id is_event_id f ≡ true) × AreFiles (suc k) l

  by_index-below :
      (k i : ℕ) (l : List (File E)) (d : Dict ℕ String)
      → AreFiles k l
      → i < k
      → lookup (by_index id is_event_id l d) i ≡ lookup d i
  unfolding by_index
  by_index-below k i [] d h m = refl
  by_index-below k i (f ∷ l) d (p, r, h) m = rw r (
      by_index-below (suc k) i l (assign f.idx f.event_id d) h (omega (arith, m))
      ∙ lookup-assign f.idx i f.event_id d
      ∙ ground (arith, p, m))

  by_index-at :
      (k j : ℕ) (l : List (File E)) (d : Dict ℕ String)
      → AreFiles k l
      → ((i : ℕ) → k ≤ i → lookup d i ≡ none)
      → lookup (by_index id is_event_id l d) (k + j) ≡ id_at l j
  unfolding by_index
  by_index-at k j [] d h n = n (k + j) (omega arith)
  by_index-at k zero (f ∷ l) d (p, r, h) n = rw r (
      ap (lookup (by_index id is_event_id l (assign f.idx f.event_id d))) (omega arith)
      ∙ by_index-below (suc k) k l (assign f.idx f.event_id d) h (omega arith)
      ∙ lookup-assign f.idx k f.event_id d
      ∙ ground (arith, p))
  by_index-at k (suc j) (f ∷ l) d (p, r, h) n = rw r (
      ap (lookup (by_index id is_event_id l (assign f.idx f.event_id d))) (omega arith)
      ∙ by_index-at (suc k) j l (assign f.idx f.event_id d) h (λ i m.
        lookup-assign f.idx i f.event_id d ∙ ground (arith, p, m, n i (omega (arith, m)))))

  -- A scan of files with the numbers from 0 on counts and indexes all of them.
  pub scan_and_build_index-IsIndex :
      (l : List (File E))
      → AreFiles 0 l
      → ((scan_and_build_index id is_event_id l).length ≡ length l)
        × IsIndex (scan_and_build_index id is_event_id l) l
  unfolding scan_and_build_index position lookup
  scan_and_build_index-IsIndex l h =
      let d = by_index id is_event_id l [] in
      let at : (j : ℕ) → lookup d (0 + j) ≡ id_at l j = λ j. by_index-at 0 j l [] h (λ i m. refl) in
      let n = first_gap (length l) 0 d in
      let all : n ≡ length l = first_gap-length (length l) 0 l d at (omega arith) ∙ omega arith in
      let empty : Log = record { length = n; id_to_idx = []; idx_to_id = [] } in
      (
        length-index_range n 0 d empty ∙ all,
        subst (λ k. IsIndex (index_range k 0 d empty) l) (sym all)
            (index_range-IsIndex 0 [] l d empty refl (λ i. refl, (λ v. refl), tt) at),
      )
