-- ===== src/FileCache/Sizes.antt =====
-- The size that the cache keeps is that of its files.
use codex_latest.Prelude.{
  ℕ, zero, suc, ◌+◌, ◌-◌, ◌≤◌, ◌≡◌, refl, ap, ◌∙◌, subst, inl, inr, Bool, true, false, Option, none,
  some, [], ◌∷◌, ◌++◌, Dict, IsDistinct, lookup, length, ltb, Eq, ◌==◌, if◌then◌else◌, Bool-cases,
  Option-cases, arith,
}
use codex_latest.FileCache.{
  Cache, without, oldest, write, total, evict_oldest, exceeds, evict, make_room, size_or_zero, set,
  get, delete,
}
use codex_latest.FileCache.Files.{
  without_absent, without-IsDistinct, write-IsDistinct, lookup-write, oldest-lookup,
}

module _ {K : Type 0} {V : Type 0} ⦃e : Eq K⦄ (size_of : K → V → ℕ) where
  -- No key has two files, and the size is that of the files.
  abbrev pub IsSound : Cache K V → Type 0
  IsSound c = IsDistinct c.files × (c.current_size ≡ total size_of c.files)

  pub total-without :
      (k : K) (d : Dict K V) {v : V}
      → IsDistinct d
      → lookup d k ≡ some v
      → total size_of (without k d) + size_of k v ≡ total size_of d
  unfolding total without lookup
  total-without k [] h p = absurd (cc p)
  total-without k ((i, w) ∷ d) {v} h p = elim (Bool-cases (i == k)) [
    | inl y ↦
        let q : w ≡ v = cc (rw y at p) in
        let same : i ≡ k = (e.reflects i k).0 y in
        let gone : without k d ≡ d = without_absent k d (subst (λ j. lookup d j ≡ none) same h.0) in
        let t : total size_of (without k d) ≡ total size_of d = ap (total size_of) gone in
        let u : size_of i w ≡ size_of k v = cc in rw y (omega (arith, t, u))
    | inr n ↦ rw n (omega (arith, total-without k d {v = v} h.1 (rw n at p)))
  ]

  total-append :
      (d : Dict K V) (k : K) (v : V)
      → total size_of (d ++ (k, v) ∷ []) ≡ total size_of d + size_of k v
  unfolding total
  total-append [] k v = omega arith
  total-append ((i, w) ∷ d) k v = omega (arith, total-append d k v)

  pub total-write :
      (k : K) (v : V) (d : Dict K V)
      → IsDistinct d
      → (total size_of (write k v d) + size_or_zero size_of k (lookup d k)
          ≡ total size_of d + size_of k v)
        × (size_or_zero size_of k (lookup d k) ≤ total size_of d)
  total-write k v d h = elim (Option-cases (lookup d k)) [
    | inl n ↦ rw (n, without_absent k d n) (omega (arith, total-append d k v), omega arith)
    | inr (w, y) ↦ rw y (
      omega (arith, total-append (without k d) k v, total-without k d h y),
      omega (arith, total-without k d h y),
    )
  ]

  one_of : (b : Bool) (c d : Cache K V) → IsSound c → IsSound d → IsSound (if b then c else d)
  one_of true c d h k = h
  one_of false c d h k = k

  remove-IsSound :
      (k : K) (c : Cache K V) {v : V}
      → lookup c.files k ≡ some v
      → IsSound c
      → IsSound
          (record c { files = without k c.files; current_size = c.current_size - size_of k v })
  remove-IsSound k c {v} p h =
      (without-IsDistinct k c.files h.0, omega (arith, total-without k c.files {v = v} h.0 p, h.1))

  pub evict_oldest-IsSound :
      (k : K) (c : Cache K V) → IsSound c → IsSound (evict_oldest size_of k c)
  unfolding evict_oldest
  evict_oldest-IsSound k c h = elim (Option-cases (oldest k c.files)) [
    | inl n ↦ rw (n, evict_oldest) h
    | inr (f, y) ↦ rw (y, evict_oldest) (remove-IsSound f.0 c (oldest-lookup k c.files h.0 y).1 h)
  ]

  pub evict-IsSound :
      (fuel limit needed : ℕ) (k : K) (c : Cache K V)
      → IsSound c
      → IsSound (evict size_of fuel limit needed k c)
  unfolding evict
  evict-IsSound zero limit needed k c h = h
  evict-IsSound (suc fuel) limit needed k c h =
      let next = evict_oldest size_of k c in
      one_of (exceeds size_of limit needed c) (evict size_of fuel limit needed k next) c
        (evict-IsSound fuel limit needed k next (evict_oldest-IsSound k c h)) h

  pub make_room-IsSound :
      (k : K) (n : ℕ) (limit : Option ℕ) (c : Cache K V)
      → IsSound c
      → IsSound (make_room size_of k n limit c)
  unfolding make_room
  make_room-IsSound k n none c h = h
  make_room-IsSound k n (some limit) c h = elim (Option-cases (lookup c.files k)) [
    | inl a ↦ rw (a, make_room) (evict-IsSound (length c.files) limit n k c h)
    | inr (old, y) ↦
        rw (y, make_room)
          (one_of (ltb (size_of k old) n)
            (evict size_of (length c.files) limit (n - size_of k old) k c) c
            (evict-IsSound (length c.files) limit (n - size_of k old) k c h) h)
  ]

  -- `set` keeps the size right, whatever it evicts, and the key then has its value.
  pub set-IsSound :
      (k : K) (v : V) (c : Cache K V)
      → IsSound c
      → IsSound (set size_of k v c) × (lookup (set size_of k v c).files k ≡ some v)
  unfolding set
  set-IsSound k v c h =
      let roomy = make_room size_of k (size_of k v) c.size_limit c in
      let (distinct, size) = make_room-IsSound k (size_of k v) c.size_limit c h in
      let written = total-write k v roomy.files distinct in
      let right : (roomy.current_size - size_or_zero size_of k (lookup roomy.files k)) + size_of k v
          ≡ total size_of (write k v roomy.files) =
        omega (arith, written.0, written.1, size) in
      (
        (write-IsDistinct k v roomy.files distinct, right),
        lookup-write k k v roomy.files ∙ rw ((e.reflects k k).1 refl) refl,
      )

  pub get-IsSound : (k : K) (c : Cache K V) → IsSound c → IsSound (get k c).1
  unfolding get
  get-IsSound k c h = elim (Option-cases (lookup c.files k)) [
    | inl n ↦ rw (n, get) h
    | inr (v, y) ↦
        rw (y, get)
          (
            write-IsDistinct k v c.files h.0,
            omega (
              arith,
              total-append (without k c.files) k v,
              total-without k c.files {v = v} h.0 y,
              h.1,
            ),
          )
  ]

  pub delete-IsSound : (k : K) (c : Cache K V) → IsSound c → IsSound (delete size_of k c)
  unfolding delete
  delete-IsSound k c h = elim (Option-cases (lookup c.files k)) [
    | inl n ↦ rw (n, delete) h
    | inr (v, y) ↦ rw (y, delete) (remove-IsSound k c y h)
  ]
