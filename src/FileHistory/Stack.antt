-- ===== src/FileHistory/Stack.antt =====
-- The history of a file is a stack of its contents with a limited height.
use codex_latest.Prelude.{
  ℕ, suc, ◌-◌, ◌≤◌, ◌<◌, ◌≡◌, refl, sym, ap, ◌∙◌, subst, ◌⊎◌, inl, inr, String, false, Option, none,
  some, List, [], ◌∷◌, ◌++◌, length, drop, lookup, string_eq, if◌then◌else◌, Option-cases, arith,
}
use codex_latest.FileCache.{Cache, set, get, delete}
use codex_latest.FileCache.Lookups.{
  lookup-get, get-lookup, size_limit-get, lookup-set, size_limit-set, lookup-delete,
  size_limit-delete,
}
use codex_latest.FileHistory.{
  Key, metadata_key, history_key, key_eq, same_key, Value, of_metadata, of_content, Metadata,
  as_metadata, as_content, pop_entry, trim, add_history, delete_found, pop_last_history,
}
use codex_latest.FileHistory.Entries.{
  IsRising, append-IsRising, split-IsRising, AreContents, same-AreContents, append-AreContents,
  split-AreContents, trim-AreContents, apart, newest, newest-drop, append-pop_entry, pop_entry-none,
}

-- The contents are those of the history of the file, the oldest first.
abbrev pub AreHistory : String → Cache Key Value → List String → Type 0
AreHistory path c xs =
    (m : Metadata) × (as_metadata (lookup c.files (metadata_key path)) ≡ m)
    × (c.size_limit ≡ none)
    × IsRising 0 m.entries m.counter
    × AreContents path (lookup c.files) m.entries xs

module _ (size_of : Key → Value → ℕ) (path : String) where
  -- After the last write of the metadata.
  written :
      (m : Metadata) (c : Cache Key Value) (xs : List String)
      → c.size_limit ≡ none
      → IsRising 0 m.entries m.counter
      → AreContents path (lookup c.files) m.entries xs
      → AreHistory path (set size_of (metadata_key path) (of_metadata m) c) xs
  written m c xs s r a =
      let k = metadata_key path in
      let v = of_metadata m in
      let d = set size_of k v c in
      let stored : lookup d.files k ≡ some v =
        lookup-set size_of k k v c s ∙ rw ((string_eq.reflects path path).1 refl) refl in
      (
        m,
        ap as_metadata stored,
        size_limit-set size_of k v c s,
        r,
        same-AreContents path (lookup c.files) (lookup d.files) 0 m.counter m.entries xs
            (λ i l n. lookup-set size_of k (history_key path i) v c s) r a,
      )

  -- What the metadata say when they are read.
  abbrev read_metadata : Cache Key Value → Metadata
  read_metadata c = as_metadata (get (metadata_key path) c).0

  read-AreHistory :
      (c : Cache Key Value) (xs : List String)
      → AreHistory path c xs
      → let m = read_metadata c in
        let d = (get (metadata_key path) c).1 in
        (d.size_limit ≡ none)
        × IsRising 0 m.entries m.counter
        × AreContents path (lookup d.files) m.entries xs
  read-AreHistory c xs (m, p, s, r, a) =
      let k = metadata_key path in
      let q : m ≡ read_metadata c = sym p ∙ ap as_metadata (sym (get-lookup k c)) in
      let d = (get k c).1 in
      let n = read_metadata c in
      let rising : IsRising 0 n.entries n.counter =
        subst (λ (o : Metadata). IsRising 0 o.entries o.counter) q r in
      (
        size_limit-get k c ∙ s,
        rising,
        same-AreContents path (lookup c.files) (lookup d.files) 0 n.counter n.entries xs
            (λ i l o. lookup-get k (history_key path i) c) rising
            (subst (λ (o : Metadata). AreContents path (lookup c.files) o.entries xs) q a),
      )

  get-AreHistory :
      (k : Key) (c : Cache Key Value) (xs : List String)
      → AreHistory path c xs
      → AreHistory path (get k c).1 xs
  get-AreHistory k c xs (m, p, s, r, a) = (
    m,
    ap as_metadata (lookup-get k (metadata_key path) c) ∙ p,
    size_limit-get k c ∙ s,
    r,
    same-AreContents path (lookup c.files) (lookup (get k c).1.files) 0 m.counter m.entries xs
        (λ i l n. lookup-get k (history_key path i) c) r a,
  )

  no_contents :
      (f : Key → Option Value) (entries : List ℕ) (xs : List String)
      → entries ≡ []
      → AreContents path f entries xs
      → xs ≡ []
  no_contents f [] [] p a = refl
  no_contents f [] (x ∷ xs) p a = absurd a
  no_contents f (i ∷ entries) xs p a = absurd (cc p)

  -- `add_history` puts the content on the stack, and keeps the newest ones.
  pub add_history-AreHistory :
      (max : ℕ) (x : String) (c : Cache Key Value) (xs : List String)
      → AreHistory path c xs
      → AreHistory path
          (add_history size_of max path x c)
          (drop (length (xs ++ x ∷ []) - max) (xs ++ x ∷ []))
  unfolding add_history
  add_history-AreHistory max x c xs h =
      let (s, r, a) = read-AreHistory c xs h in
      let m = read_metadata c in
      let d = (get (metadata_key path) c).1 in
      let k = history_key path m.counter in
      let v = of_content x in
      let added = set size_of k v d in
      let old : AreContents path (lookup added.files) m.entries xs =
        same-AreContents path (lookup d.files) (lookup added.files) 0 m.counter m.entries xs
          (λ i l n.
            lookup-set size_of k (history_key path i) v d s
            ∙ ap (λ b. if b then some v else lookup d.files (history_key path i))
                (apart path i m.counter n))
          r a in
      let new = lookup-set size_of k k v d s ∙ rw ((key_eq.reflects k k).1 refl) refl in
      let (r2, a2, s2, o) =
        trim-AreContents path size_of max 0 (suc m.counter) (m.entries ++ m.counter ∷ [])
          (xs ++ x ∷ []) added (append-IsRising 0 m.entries m.counter r)
          (append-AreContents path (lookup added.files) m.entries m.counter xs x old new) in
      let trimmed = trim size_of max path (m.entries ++ m.counter ∷ []) added in
      subst (AreHistory path (add_history size_of max path x c)) (newest-drop max (xs ++ x ∷ [])) (
        written (record { entries = trimmed.0; counter = suc m.counter }) trimmed.1
          (newest max (xs ++ x ∷ [])) (s2 ∙ size_limit-set size_of k v d s) r2 a2)

  -- The contents of the other entries stay where they are.
  deleted :
      (i : ℕ) (entries : List ℕ) (c : Cache Key Value) (ys : List String) (content : Option String)
      → IsRising 0 entries i
      → AreContents path (lookup c.files) entries ys
      → AreContents path (lookup (delete_found size_of path i content c).files) entries ys
  deleted i entries c ys none r a = a
  deleted i entries c ys (some x) r a =
      let k = history_key path i in
      let d = delete size_of k c in
      same-AreContents path (lookup c.files) (lookup d.files) 0 i entries ys
        (λ j l n.
          lookup-delete size_of k (history_key path j) c
          ∙ ap (λ b. if b then none else lookup c.files (history_key path j)) (differs j i n))
        r a
    where
      differs : (j i : ℕ) → j < i → same_key (history_key path j) (history_key path i) ≡ false
      differs j i l = rw ((string_eq.reflects path path).1 refl) (ground (arith, l))

  size_limit-delete_found :
      (i : ℕ) (content : Option String) (c : Cache Key Value)
      → (delete_found size_of path i content c).size_limit ≡ c.size_limit
  size_limit-delete_found i none c = refl
  size_limit-delete_found i (some x) c = size_limit-delete size_of (history_key path i) c

  IsRising-weaker :
      (lo i hi : ℕ) (entries : List ℕ) → i ≤ hi → IsRising lo entries i → IsRising lo entries hi
  IsRising-weaker lo i hi [] l r = omega (arith, l, r)
  IsRising-weaker lo i hi (j ∷ entries) l r = (r.0, IsRising-weaker (suc j) i hi entries l r.1)

  -- `pop_last_history` takes the last content off the stack and returns it; it returns nothing
  -- exactly from an empty stack.
  pub pop_last_history-AreHistory :
      (c : Cache Key Value) (xs : List String)
      → AreHistory path c xs
      → let r = pop_last_history size_of path c in
        ((xs ≡ []) × (r.0 ≡ none) × AreHistory path r.1 [])
        ⊎ ((ys : List String) × (y : String) × (xs ≡ ys ++ y ∷ [])
            × (r.0 ≡ some y)
            × AreHistory path r.1 ys)
  unfolding pop_last_history
  pop_last_history-AreHistory c xs h =
      let (s, r, a) = read-AreHistory c xs h in
      let m = read_metadata c in
      let d = (get (metadata_key path) c).1 in
      elim (Option-cases (pop_entry m.entries)) [
        | inl n ↦
            let empty = no_contents (lookup d.files) m.entries xs (pop_entry-none m.entries n) a in
            rw (n, pop_last_history)
              (inl (
                empty,
                refl,
                subst (AreHistory path d) empty (get-AreHistory (metadata_key path) c xs h),
              ))
        | inr (q, y) ↦
            let p = append-pop_entry m.entries q y in
            let (ys, x, last, found, before) =
              split-AreContents path (lookup d.files) q.0 q.1 xs
                (subst (λ l. AreContents path (lookup d.files) l xs) p a) in
            let (rising, below) =
              split-IsRising 0 q.0 q.1 m.counter (subst (λ l. IsRising 0 l m.counter) p r) in
            let k = history_key path q.1 in
            let again = (get k d).1 in
            let content = as_content (get k d).0 in
            let gone = delete_found size_of path q.1 content again in
            let kept : AreContents path (lookup again.files) q.0 ys =
              same-AreContents path (lookup d.files) (lookup again.files) 0 q.1 q.0 ys
                (λ i l n. lookup-get k (history_key path i) d) rising before in
            rw (y, pop_last_history)
              (inr (
                ys,
                x,
                last,
                ap as_content (get-lookup k d ∙ found),
                written (record { entries = q.0; counter = m.counter }) gone ys
                    (size_limit-delete_found q.1 content again ∙ size_limit-get k d ∙ s)
                    (IsRising-weaker 0 q.1 m.counter q.0 (omega (arith, below)) rising)
                    (deleted q.1 q.0 again ys content rising kept),
              ))
      ]
