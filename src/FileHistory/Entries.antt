-- ===== src/FileHistory/Entries.antt =====
-- The entries of a file in the history, and the contents that they stand for.
use codex_latest.Prelude.{
  ℕ, zero, suc, ◌-◌, ◌≤◌, ◌<◌, ◌≡◌, refl, sym, ap, ◌∙◌, subst, inl, inr, String, Bool, true, false,
  Option, none, some, List, [], ◌∷◌, ◌++◌, length, drop, ltb, lookup, string_eq, if◌then◌else◌,
  Bool-cases, Option-cases, arith,
}
use codex_latest.FileCache.{Cache, delete}
use codex_latest.FileCache.Lookups.{lookup-delete, size_limit-delete}
use codex_latest.FileHistory.{
  Key, same_key, history_key, key_eq, Value, of_content, pop_entry, trim,
}

-- The entries rise strictly, from `lo` on and below `hi`.
abbrev pub IsRising : ℕ → List ℕ → ℕ → Type 0
IsRising lo [] hi = lo ≤ hi
IsRising lo (i ∷ entries) hi = (lo ≤ i) × IsRising (suc i) entries hi

pub rising-le : (lo : ℕ) (entries : List ℕ) (hi : ℕ) → IsRising lo entries hi → lo ≤ hi
rising-le lo [] hi h = h
rising-le lo (i ∷ entries) hi h = omega (arith, h.0, rising-le (suc i) entries hi h.1)

pub IsRising-lower :
    (lo lo' : ℕ) (entries : List ℕ) (hi : ℕ)
    → lo' ≤ lo
    → IsRising lo entries hi
    → IsRising lo' entries hi
IsRising-lower lo lo' [] hi l h = omega (arith, l, h)
IsRising-lower lo lo' (i ∷ entries) hi l h = (omega (arith, l, h.0), h.1)

pub append-IsRising :
    (lo : ℕ) (entries : List ℕ) (hi : ℕ)
    → IsRising lo entries hi
    → IsRising lo (entries ++ hi ∷ []) (suc hi)
append-IsRising lo [] hi h = (h, omega arith)
append-IsRising lo (i ∷ entries) hi h = (h.0, append-IsRising (suc i) entries hi h.1)

-- The last `max` elements.
unfoldable pub newest : ℕ → List String → List String
newest max [] = []
newest max (x ∷ xs) = let rest = newest max xs in if ltb max (suc (length xs)) then rest else x ∷ xs

drop_empty : (n : ℕ) → drop {A = String} n [] ≡ []
drop_empty zero = refl
drop_empty (suc n) = refl

pub newest-drop : (max : ℕ) (xs : List String) → newest max xs ≡ drop (length xs - max) xs
unfolding newest
newest-drop max [] = sym (drop_empty (0 - max))
newest-drop max (x ∷ xs) = elim (Bool-cases (ltb max (suc (length xs)))) [
  | inl y ↦
      let p : suc (length xs - max) ≡ suc (length xs) - max = ground (arith, y) in
      rw y (newest-drop max xs ∙ ap (λ n. drop n (x ∷ xs)) p)
  | inr n ↦
      let p : 0 ≡ suc (length xs) - max = ground (arith, n) in rw n (ap (λ n. drop n (x ∷ xs)) p)
]

module _ (path : String) where
  -- Under the keys of the entries stand the contents.
  abbrev pub AreContents : (Key → Option Value) → List ℕ → List String → Type 0
  AreContents f [] [] = Unit
  AreContents f (i ∷ entries) (x ∷ xs) =
      (f (history_key path i) ≡ some (of_content x)) × AreContents f entries xs
  AreContents f _ _ = ⊥

  pub length-AreContents :
      (f : Key → Option Value) (entries : List ℕ) (xs : List String)
      → AreContents f entries xs
      → length entries ≡ length xs
  length-AreContents f [] [] h = refl
  length-AreContents f (i ∷ entries) (x ∷ xs) h = omega (arith, length-AreContents f entries xs h.1)
  length-AreContents f [] (x ∷ xs) h = absurd h
  length-AreContents f (i ∷ entries) [] h = absurd h

  -- Only the keys of the entries count.
  pub same-AreContents :
      (f g : Key → Option Value) (lo hi : ℕ) (entries : List ℕ) (xs : List String)
      → ((i : ℕ) → lo ≤ i → i < hi → g (history_key path i) ≡ f (history_key path i))
      → IsRising lo entries hi
      → AreContents f entries xs
      → AreContents g entries xs
  same-AreContents f g lo hi [] [] s r h = tt
  same-AreContents f g lo hi (i ∷ entries) (x ∷ xs) s r h = (
    s i r.0 (omega (arith, rising-le (suc i) entries hi r.1)) ∙ h.0,
    same-AreContents f g (suc i) hi entries xs (λ j l m. s j (omega (arith, l, r.0)) m) r.1 h.1,
  )
  same-AreContents f g lo hi [] (x ∷ xs) s r h = absurd h
  same-AreContents f g lo hi (i ∷ entries) [] s r h = absurd h

  pub append-AreContents :
      (f : Key → Option Value) (entries : List ℕ) (n : ℕ) (xs : List String) (x : String)
      → AreContents f entries xs
      → f (history_key path n) ≡ some (of_content x)
      → AreContents f (entries ++ n ∷ []) (xs ++ x ∷ [])
  append-AreContents f [] n [] x h k = (k, tt)
  append-AreContents f (i ∷ entries) n (y ∷ xs) x h k =
      (h.0, append-AreContents f entries n xs x h.1 k)
  append-AreContents f [] n (y ∷ xs) x h k = absurd h
  append-AreContents f (i ∷ entries) n [] x h k = absurd h

  -- Popping the entries pops the contents.
  pub split-AreContents :
      (f : Key → Option Value) (before : List ℕ) (i : ℕ) (xs : List String)
      → AreContents f (before ++ i ∷ []) xs
      → (ys : List String) × (y : String) × (xs ≡ ys ++ y ∷ [])
        × (f (history_key path i) ≡ some (of_content y))
        × AreContents f before ys
  split-AreContents f [] i [] h = absurd h
  split-AreContents f [] i (x ∷ []) h = ([], x, refl, h.0, tt)
  split-AreContents f [] i (x ∷ y ∷ xs) h = absurd h.1
  split-AreContents f (j ∷ before) i [] h = absurd h
  split-AreContents f (j ∷ before) i (x ∷ xs) h =
      let (ys, y, p, q, r) = split-AreContents f before i xs h.1 in
      (x ∷ ys, y, ap (λ l. x ∷ l) p, q, (h.0, r))

  pub apart : (i j : ℕ) → i < j → same_key (history_key path j) (history_key path i) ≡ false
  apart i j l = rw ((string_eq.reflects path path).1 refl) (ground (arith, l))

  newest_cons :
      (max : ℕ) (x : String) (xs : List String) (n : ℕ) (b : Bool)
      → n ≡ length xs
      → ltb max (suc n) ≡ b
      → newest max (x ∷ xs) ≡ (if b then newest max xs else x ∷ xs)
  unfolding newest
  newest_cons max x xs n b p q =
      ap (λ d. if d then newest max xs else x ∷ xs) (ap (λ m. ltb max (suc m)) (sym p) ∙ q)

  none_kept : (max : ℕ) (f : Key → Option Value) → AreContents f [] (newest max [])
  unfolding newest
  none_kept max f = tt

  -- The loop of `add_history` keeps the last entries and their contents, and the other keys.
  pub trim-AreContents :
      (size_of : Key → Value → ℕ) (max lo hi : ℕ) (entries : List ℕ) (xs : List String)
      (c : Cache Key Value)
      → IsRising lo entries hi
      → AreContents (lookup c.files) entries xs
      → let r = trim size_of max path entries c in
        IsRising lo r.0 hi
        × AreContents (lookup r.1.files) r.0 (newest max xs)
        × (r.1.size_limit ≡ c.size_limit)
        × ((k : Key)
            → ((i : ℕ) → same_key k (history_key path i) ≡ false)
            → lookup r.1.files k ≡ lookup c.files k)
  unfolding trim
  trim-AreContents size_of max lo hi [] [] c g h =
      (g, none_kept max (lookup c.files), refl, λ k n. refl)
  trim-AreContents size_of max lo hi (i ∷ entries) (x ∷ xs) c g h =
      let d = delete size_of (history_key path i) c in
      let kept : AreContents (lookup d.files) entries xs =
        same-AreContents (lookup c.files) (lookup d.files) (suc i) hi entries xs
          (λ j l m.
            lookup-delete size_of (history_key path i) (history_key path j) c
            ∙ ap (λ b. if b then none else lookup c.files (history_key path j)) (apart i j l))
          g.1 h.1 in
      let (r, a, s, o) = trim-AreContents size_of max (suc i) hi entries xs d g.1 kept in
      let same = length-AreContents (lookup c.files) entries xs h.1 in
      elim (Bool-cases (ltb max (suc (length entries)))) [
        | inl y ↦ rw y (
          IsRising-lower (suc i) lo _ hi (omega (arith, g.0)) r,
          subst
              (λ l.
                AreContents (lookup (trim size_of max path entries d).1.files)
                  (trim size_of max path entries d).0 l)
              (sym (newest_cons max x xs (length entries) true same y)) a,
          s ∙ size_limit-delete size_of (history_key path i) c,
          λ k n.
              o k n
              ∙ lookup-delete size_of (history_key path i) k c
              ∙ ap (λ b. if b then none else lookup c.files k) (n i),
        )
        | inr n ↦ rw n (
          g,
          subst (λ l. AreContents (lookup c.files) (i ∷ entries) l)
              (sym (newest_cons max x xs (length entries) false same n)) h,
          refl,
          λ k m. refl,
        )
      ]
  trim-AreContents size_of max lo hi [] (x ∷ xs) c g h = absurd h
  trim-AreContents size_of max lo hi (i ∷ entries) [] c g h = absurd h

pub split-IsRising :
    (lo : ℕ) (before : List ℕ) (i hi : ℕ)
    → IsRising lo (before ++ i ∷ []) hi
    → IsRising lo before i × (i < hi)
split-IsRising lo [] i hi h = (h.0, h.1)
split-IsRising lo (j ∷ before) i hi h =
    let (g, l) = split-IsRising (suc j) before i hi h.1 in ((h.0, g), l)

pub pop_entry-none : (entries : List ℕ) → pop_entry entries ≡ none → entries ≡ []
unfolding pop_entry
pop_entry-none [] h = refl
pop_entry-none (i ∷ entries) h = elim (Option-cases (pop_entry entries)) [
  | inl n ↦ absurd (cc (rw n at h))
  | inr (q, y) ↦ absurd (cc (rw y at h))
]

pub append-pop_entry :
    (entries : List ℕ) (r : List ℕ × ℕ) → pop_entry entries ≡ some r → entries ≡ r.0 ++ r.1 ∷ []
unfolding pop_entry
append-pop_entry [] r h = absurd (cc h)
append-pop_entry (i ∷ entries) r h = elim (Option-cases (pop_entry entries)) [
  | inl n ↦
      let p : ([], i) ≡ r = cc (rw n at h) in
      ap (λ l. i ∷ l) (pop_entry-none entries n) ∙ ap (λ (q : List ℕ × ℕ). q.0 ++ q.1 ∷ []) p
  | inr (q, y) ↦
      let p : (i ∷ q.0, q.1) ≡ r = cc (rw y at h) in
      ap (λ l. i ∷ l) (append-pop_entry entries q y) ∙ ap (λ (q : List ℕ × ℕ). q.0 ++ q.1 ∷ []) p
]
