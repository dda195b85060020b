-- ===== src/FileCache/Files.antt =====
-- Lemmas on the files of a cache.
use codex_latest.Prelude.{
  ◌<◌, ◌≡◌, refl, sym, ap, ◌∙◌, subst, inl, inr, false, none, some, [], ◌∷◌, ◌++◌, Dict, IsDistinct,
  lookup, length, Eq, ◌==◌, if◌then◌else◌, Bool-cases, arith,
}
use codex_latest.FileCache.{without, oldest, write}

module _ {K : Type 0} {V : Type 0} ⦃e : Eq K⦄ where
  pub lookup-without :
      (j k : K) (d : Dict K V) → lookup (without k d) j ≡ (if j == k then none else lookup d j)
  unfolding lookup without
  lookup-without j k [] = ground arith
  lookup-without j k ((i, v) ∷ d) =
      ground (
        arith,
        e.reflects i k,
        e.reflects i j,
        e.reflects j k,
        e.reflects k j,
        lookup-without j k d,
      )

  pub lookup_cons_absent :
      (i k : K) (w : V) (d : Dict K V)
      → lookup ((i, w) ∷ d) k ≡ none
      → ((i == k) ≡ false) × (lookup d k ≡ none)
  unfolding lookup
  lookup_cons_absent i k w d h = elim (Bool-cases (i == k)) [
    | inl y ↦ absurd (cc (rw y at h))
    | inr n ↦ (n, rw n at h)
  ]

  pub without_absent : (k : K) (d : Dict K V) → lookup d k ≡ none → without k d ≡ d
  unfolding lookup without
  without_absent k [] h = refl
  without_absent k ((i, v) ∷ d) h =
      let (n, absent) = lookup_cons_absent i k v d h in
      rw n (ap (λ l. (i, v) ∷ l) (without_absent k d absent))

  pub lookup-append :
      (d : Dict K V) (k j : K) (v : V)
      → lookup d k ≡ none
      → lookup (d ++ (k, v) ∷ []) j ≡ (if k == j then some v else lookup d j)
  unfolding lookup
  lookup-append [] k j v h = refl
  lookup-append ((i, w) ∷ d) k j v h =
      ground (arith, e.reflects i k, e.reflects i j, e.reflects k j, h, lookup-append d k j v)

  pub without-IsDistinct : (k : K) (d : Dict K V) → IsDistinct d → IsDistinct (without k d)
  unfolding without
  without-IsDistinct k [] h = tt
  without-IsDistinct k ((i, v) ∷ d) h = elim (Bool-cases (i == k)) [
    | inl y ↦ rw y (without-IsDistinct k d h.1)
    | inr n ↦ rw n (lookup-without i k d ∙ rw n h.0, without-IsDistinct k d h.1)
  ]

  pub append-IsDistinct :
      (d : Dict K V) (k : K) (v : V)
      → IsDistinct d
      → lookup d k ≡ none
      → IsDistinct (d ++ (k, v) ∷ [])
  unfolding lookup
  append-IsDistinct [] k v h n = (refl, tt)
  append-IsDistinct ((i, w) ∷ d) k v h n =
      let (m, absent) = lookup_cons_absent i k w d n in
      (
        lookup-append d k i v absent ∙ ground (arith, e.reflects i k, e.reflects k i, m, h.0),
        append-IsDistinct d k v h.1 absent,
      )

  pub write-IsDistinct : (k : K) (v : V) (d : Dict K V) → IsDistinct d → IsDistinct (write k v d)
  write-IsDistinct k v d h =
      append-IsDistinct (without k d) k v (without-IsDistinct k d h)
        (lookup-without k k d ∙ rw ((e.reflects k k).1 refl) refl)

  pub lookup-write :
      (k j : K) (v : V) (d : Dict K V)
      → lookup (write k v d) j ≡ (if k == j then some v else lookup d j)
  lookup-write k j v d =
      lookup-append (without k d) k j v (lookup-without k k d ∙ rw ((e.reflects k k).1 refl) refl)
      ∙ ground (arith, lookup-without j k d, e.reflects k j, e.reflects j k)

  -- The oldest other file is a file, and not that of the key.
  pub oldest-lookup :
      (k : K) (d : Dict K V) {f : K × V}
      → IsDistinct d
      → oldest k d ≡ some f
      → ((f.0 == k) ≡ false) × (lookup d f.0 ≡ some f.1)
  unfolding oldest lookup
  oldest-lookup k [] h p = absurd (cc p)
  oldest-lookup k ((i, v) ∷ d) {f} h p = elim (Bool-cases (i == k)) [
    | inl y ↦
        let (n, q) = oldest-lookup k d h.1 (rw y at p) in
        (n, ground (arith, e.reflects i k, e.reflects i f.0, n, q, y, h.0))
    | inr n ↦
        let q : (i, v) ≡ f = cc (rw n at p) in
        (
          rw (sym (ap (λ g. g.0) q)) n,
          rw ((e.reflects i f.0).1 (ap (λ g. g.0) q)) (ap (λ g. some g.1) q),
        )
  ]

  -- Of two files or more, one is not that of the key.
  pub oldest_exists :
      (k : K) (d : Dict K V) → IsDistinct d → 1 < length d → (f : K × V) × (oldest k d ≡ some f)
  unfolding oldest lookup
  oldest_exists k [] h l = absurd (omega (arith, l))
  oldest_exists k ((i, v) ∷ []) h l = absurd (omega (arith, l))
  oldest_exists k ((i, v) ∷ (j, w) ∷ d) h l = elim (Bool-cases (i == k)) [
    | inl y ↦
        let m : (j == k) ≡ false =
          subst (λ x. (j == x) ≡ false) ((e.reflects i k).0 y) (lookup_cons_absent j i w d h.0).0 in
        ((j, w), rw (y, m) refl)
    | inr n ↦ ((i, v), rw n refl)
  ]
