-- ===== src/EventLog/Index.antt =====
-- The two indices of a log against the files in their order.
use codex_latest.Prelude.{
  ℕ, zero, suc, ◌+◌, ◌≡◌, refl, sym, ap, ◌∙◌, inl, inr, String, Bool, false, Option, none, some,
  List, [], ◌∷◌, ◌++◌, Dict, IsDistinct, assign-IsDistinct, lookup, assign, lookup-assign, length,
  string_eq, nat_eq, ◌==◌, if◌then◌else◌, Bool-cases, Option-cases, arith,
}
use codex_latest.EventLog.{File, Log, is_none, index_file}

abbrev or_last : Option ℕ → Bool → ℕ → Option ℕ
or_last none b n = if b then some n else none
or_last (some i) b n = some i

or_last-false : (o : Option ℕ) (n : ℕ) → or_last o false n ≡ o
or_last-false none n = refl
or_last-false (some i) n = refl

lookup_add :
    (v w : String) (n : ℕ) (d : Dict String ℕ)
    → lookup (if is_none (lookup d v) then assign v n d else d) w ≡ or_last (lookup d w) (v == w) n
lookup_add v w n d = elim (Bool-cases (v == w)) [
  | inl y ↦
      let same : lookup d v ≡ lookup d w = ap (lookup d) ((string_eq.reflects v w).0 y) in
      elim (Option-cases (lookup d v)) [
        | inl a ↦ rw a (lookup-assign v w n d ∙ rw (y, sym same ∙ a) refl)
        | inr (i, a) ↦ rw (a, sym same ∙ a) refl
      ]
  | inr m ↦ elim (Option-cases (lookup d v)) [
    | inl a ↦ rw a (lookup-assign v w n d ∙ rw m (sym (or_last-false (lookup d w) n)))
    | inr (i, a) ↦ rw (a, m) (sym (or_last-false (lookup d w) n))
  ]
]

module _ {E : Type 0} where
  -- The id of the file at a place.
  abbrev pub id_at : List (File E) → ℕ → Option String
  id_at [] i = none
  id_at (f ∷ l) zero = some f.event_id
  id_at (f ∷ l) (suc i) = id_at l i

  -- The first place of an id, counted from `k` on.
  unfoldable pub position : String → ℕ → List (File E) → Option ℕ
  position v k [] = none
  position v k (f ∷ l) = let rest = position v (suc k) l in if f.event_id == v then some k else rest

  -- The indices are those of the files.
  abbrev pub IsIndex : Log → List (File E) → Type 0
  IsIndex log l =
      ((i : ℕ) → lookup log.idx_to_id i ≡ id_at l i)
      × ((v : String) → lookup log.id_to_idx v ≡ position v 0 l)
      × IsDistinct log.idx_to_id

  id_at-append :
      (l : List (File E)) (f : File E) (i : ℕ)
      → id_at (l ++ f ∷ []) i ≡ (if length l == i then some f.event_id else id_at l i)
  id_at-append [] f zero = refl
  id_at-append [] f (suc i) = ground arith
  id_at-append (g ∷ l) f zero = ground arith
  id_at-append (g ∷ l) f (suc i) = id_at-append l f i ∙ ground arith

  position-append :
      (v : String) (k : ℕ) (l : List (File E)) (f : File E)
      → position v k (l ++ f ∷ []) ≡ or_last (position v k l) (f.event_id == v) (k + length l)
  unfolding position
  position-append v k [] f =
      let p : k ≡ k + 0 = omega arith in ap (λ n. if f.event_id == v then some n else none) p
  position-append v k (g ∷ l) f = elim (Bool-cases (g.event_id == v)) [
    | inl y ↦ rw y refl
    | inr n ↦ rw n (
        position-append v (suc k) l f
        ∙ ap (λ m. or_last (position v (suc k) l) (f.event_id == v) m) (omega arith))
  ]

  pub index_file-IsIndex :
      (log : Log) (l : List (File E)) (f : File E)
      → IsIndex log l
      → IsIndex (index_file (length l) f.event_id log) (l ++ f ∷ [])
  unfolding index_file
  index_file-IsIndex log l f (at, pos, distinct) =
      let zero_plus : length l ≡ 0 + length l = omega arith in
      (
        λ i.
            lookup-assign (length l) i f.event_id log.idx_to_id
            ∙ ap (λ o. if length l == i then some f.event_id else o) (at i)
            ∙ sym (id_at-append l f i),
        λ v.
            lookup_add f.event_id v (length l) log.id_to_idx
            ∙ ap (λ o. or_last o (f.event_id == v) (length l)) (pos v)
            ∙ ap (λ n. or_last (position v 0 l) (f.event_id == v) n) zero_plus
            ∙ sym (position-append v 0 l f),
        assign-IsDistinct (length l) f.event_id log.idx_to_id distinct,
      )
