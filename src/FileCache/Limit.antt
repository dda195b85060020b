-- ===== src/FileCache/Limit.antt =====
-- The loops of `set` come to their end, and what they leave.
use codex_latest.Prelude.{
  ℕ, zero, suc, ◌+◌, ◌-◌, ◌≤◌, ◌<◌, ◌≡◌, refl, sym, ap, ◌∙◌, subst, ◌⊎◌, inl, inr, false, none,
  some, [], ◌∷◌, Dict, IsDistinct, lookup, length, length-append, ltb, Eq, ◌==◌, Bool-cases,
  Option-cases, arith,
}
use codex_latest.FileCache.{
  Cache, without, oldest, write, total, evict_oldest, exceeds, evict, make_room, size_or_zero, set,
}
use codex_latest.FileCache.Files.{without_absent, lookup-without, oldest-lookup, oldest_exists}
use codex_latest.FileCache.Sizes.{
  IsSound, total-write, evict_oldest-IsSound, evict-IsSound, make_room-IsSound,
}

module _ {K : Type 0} {V : Type 0} ⦃e : Eq K⦄ where
  length-without :
      (k : K) (d : Dict K V) {v : V}
      → IsDistinct d
      → lookup d k ≡ some v
      → length (without k d) + 1 ≡ length d
  unfolding without lookup
  length-without k [] h p = absurd (cc p)
  length-without k ((i, w) ∷ d) {v} h p = elim (Bool-cases (i == k)) [
    | inl y ↦
        let same : i ≡ k = (e.reflects i k).0 y in
        let gone : length (without k d) ≡ length d =
          ap length (without_absent k d (subst (λ j. lookup d j ≡ none) same h.0)) in
        rw y (omega (arith, gone))
    | inr n ↦ rw n (omega (arith, length-without k d {v = v} h.1 (rw n at p)))
  ]

module _ {K : Type 0} {V : Type 0} ⦃e : Eq K⦄ (size_of : K → V → ℕ) where
  lookup-evict_oldest :
      (k : K) (c : Cache K V)
      → IsSound size_of c
      → lookup (evict_oldest size_of k c).files k ≡ lookup c.files k
  unfolding evict_oldest
  lookup-evict_oldest k c h = elim (Option-cases (oldest k c.files)) [
    | inl n ↦ rw (n, evict_oldest) refl
    | inr (f, y) ↦
        let n = (oldest-lookup k c.files h.0 y).0 in
        rw (y, evict_oldest)
          (lookup-without k f.0 c.files ∙ ground (arith, e.reflects k f.0, e.reflects f.0 k, n))
  ]

  length-evict_oldest :
      (k : K) (c : Cache K V)
      → IsSound size_of c
      → 1 < length c.files
      → length (evict_oldest size_of k c).files + 1 ≡ length c.files
  unfolding evict_oldest
  length-evict_oldest k c h l =
      let (f, y) = oldest_exists k c.files h.0 l in
      rw (y, evict_oldest) (length-without f.0 c.files h.0 (oldest-lookup k c.files h.0 y).1)

  lookup-evict :
      (fuel limit needed : ℕ) (k : K) (c : Cache K V)
      → IsSound size_of c
      → lookup (evict size_of fuel limit needed k c).files k ≡ lookup c.files k
  unfolding evict
  lookup-evict zero limit needed k c h = refl
  lookup-evict (suc fuel) limit needed k c h = elim (Bool-cases (exceeds size_of limit needed c)) [
    | inl y ↦ rw y (
        lookup-evict fuel limit needed k (evict_oldest size_of k c)
          (evict_oldest-IsSound size_of k c h)
        ∙ lookup-evict_oldest k c h)
    | inr n ↦ rw n refl
  ]

  -- With the number of files as fuel, the loop has come to its end.
  evict-done :
      (fuel limit needed : ℕ) (k : K) (c : Cache K V)
      → IsSound size_of c
      → length c.files ≤ fuel
      → exceeds size_of limit needed (evict size_of fuel limit needed k c) ≡ false
  unfolding evict
  evict-done zero limit needed k c h l = ground (arith, l)
  evict-done (suc fuel) limit needed k c h l = elim (Bool-cases (exceeds size_of limit needed c)) [
    | inl y ↦
        let more : 1 < length c.files = ground (arith, y) in
        rw y (
          evict-done fuel limit needed k (evict_oldest size_of k c)
            (evict_oldest-IsSound size_of k c h) (omega (arith, l, length-evict_oldest k c h more)))
    | inr n ↦ rw n n
  ]

  -- The cache has room for `needed` more bytes, or at most one file.
  abbrev HasRoom : ℕ → ℕ → Cache K V → Type 0
  HasRoom limit needed c = (c.current_size + needed ≤ limit) ⊎ (length c.files ≤ 1)

  evict-HasRoom :
      (limit needed : ℕ) (k : K) (c : Cache K V)
      → IsSound size_of c
      → HasRoom limit needed (evict size_of (length c.files) limit needed k c)
  evict-HasRoom limit needed k c h =
      let d = evict size_of (length c.files) limit needed k c in
      split d (evict-done (length c.files) limit needed k c h (omega arith))
    where
      split : (d : Cache K V) → exceeds size_of limit needed d ≡ false → HasRoom limit needed d
      split d p = elim (Bool-cases (ltb 1 (length d.files))) [
        | inl y ↦ inl (ground (arith, p, y))
        | inr n ↦ inr (ground (arith, n))
      ]

  length-write : (k : K) (v : V) (d : Dict K V) → IsDistinct d → length (write k v d) ≤ length d + 1
  length-write k v d h = elim (Option-cases (lookup d k)) [
    | inl n ↦ rw (without_absent k d n) (omega (arith, length-append d ((k, v) ∷ [])))
    | inr (w, y) ↦
        omega (arith, length-append (without k d) ((k, v) ∷ []), length-without k d {v = w} h y)
  ]

  -- What holds of the cache with room for the value of `n` bytes, before it is written.
  abbrev Ready : K → ℕ → ℕ → Cache K V → Cache K V → Type 0
  Ready k n limit c r =
      let size = (r.current_size - size_or_zero size_of k (lookup r.files k)) + n in
      (size ≤ limit) ⊎ (length r.files ≤ 1) ⊎ (size ≤ c.current_size)

  old-le :
      (k : K) (old : V) (c : Cache K V)
      → IsSound size_of c
      → lookup c.files k ≡ some old
      → size_of k old ≤ c.current_size
  old-le k old c h y =
      let r : size_or_zero size_of k (some old) ≤ total size_of c.files =
        subst (λ o. size_or_zero size_of k o ≤ total size_of c.files) y
          (total-write size_of k old c.files h.0).1 in
      omega (arith, r, h.1)

  new-Ready :
      (k : K) (n limit : ℕ) (c r : Cache K V)
      → lookup r.files k ≡ none
      → HasRoom limit n r
      → Ready k n limit c r
  new-Ready k n limit c r y (inl p) = rw y (inl (omega (arith, p)))
  new-Ready k n limit c r y (inr p) = inr (inl p)

  larger-Ready :
      (k : K) (old : V) (n limit : ℕ) (c r : Cache K V)
      → IsSound size_of r
      → lookup r.files k ≡ some old
      → size_of k old < n
      → HasRoom limit (n - size_of k old) r
      → Ready k n limit c r
  larger-Ready k old n limit c r h y l (inl p) =
      rw y (inl (omega (arith, p, l, old-le k old r h y)))
  larger-Ready k old n limit c r h y l (inr p) = inr (inl p)

  make_room-Ready :
      (k : K) (n limit : ℕ) (c : Cache K V)
      → IsSound size_of c
      → Ready k n limit c (make_room size_of k n (some limit) c)
  unfolding make_room
  make_room-Ready k n limit c h = elim (Option-cases (lookup c.files k)) [
    | inl a ↦
        let r = evict size_of (length c.files) limit n k c in
        rw (a, make_room)
          (new-Ready k n limit c r (lookup-evict (length c.files) limit n k c h ∙ a)
            (evict-HasRoom limit n k c h))
    | inr (old, y) ↦
        let m = n - size_of k old in
        let r = evict size_of (length c.files) limit m k c in
        rw (y, make_room)
          (elim (Bool-cases (ltb (size_of k old) n)) [
            | inl l ↦ rw l (
                larger-Ready k old n limit c r
                  (evict-IsSound size_of (length c.files) limit m k c h)
                  (lookup-evict (length c.files) limit m k c h ∙ y) (ground (arith, l))
                  (evict-HasRoom limit m k c h))
            | inr l ↦ rw (l, y) (inr (inr (ground (arith, l, old-le k old c h y))))
          ])
  ]

  -- With a limit, the cache that `set` leaves is within it, or has at most two files, or is not
  -- larger than before.
  pub set-limit :
      (k : K) (v : V) (limit : ℕ) (c : Cache K V)
      → IsSound size_of c
      → c.size_limit ≡ some limit
      → let t = set size_of k v c in
        (t.current_size ≤ limit) ⊎ (length t.files ≤ 2) ⊎ (t.current_size ≤ c.current_size)
  unfolding set
  set-limit k v limit c h p =
      let r = make_room size_of k (size_of k v) c.size_limit c in
      let ready : Ready k (size_of k v) limit c r =
        subst (λ o. Ready k (size_of k v) limit c (make_room size_of k (size_of k v) o c)) (sym p)
          (make_room-Ready k (size_of k v) limit c h) in
      elim ready [
        | inl q ↦ inl q
        | inr (inl q) ↦ inr (
            inl (
              omega (
                arith,
                q,
                length-write k v r.files
                    (make_room-IsSound size_of k (size_of k v) c.size_limit c h).0,
              )))
        | inr (inr q) ↦ inr (inr q)
      ]
