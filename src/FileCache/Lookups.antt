-- ===== src/FileCache/Lookups.antt =====
-- What the keys of a cache without a limit hold after an operation.
use codex_latest.Prelude.{
  ℕ, ◌≡◌, refl, sym, ap, ◌∙◌, inl, inr, Bool, true, false, Option, none, some, lookup, Eq, ◌==◌,
  if◌then◌else◌, Option-cases,
}
use codex_latest.FileCache.{Cache, write, make_room, set, get, delete}
use codex_latest.FileCache.Files.{lookup-write, lookup-without}

module _ {K : Type 0} {V : Type 0} ⦃e : Eq K⦄ where
  pub lookup-get : (k j : K) (c : Cache K V) → lookup (get k c).1.files j ≡ lookup c.files j
  unfolding get
  lookup-get k j c = elim (Option-cases (lookup c.files k)) [
    | inl n ↦ rw (n, get) refl
    | inr (v, y) ↦
        rw (y, get)
          (lookup-write k j v c.files
            ∙ same (k == j) (λ p. ap (lookup c.files) (sym ((e.reflects k j).0 p)) ∙ y))
  ]
    where
      same : (b : Bool) {v o : Option V} → (b ≡ true → o ≡ v) → (if b then v else o) ≡ o
      same true h = sym (h refl)
      same false h = refl

  pub get-lookup : (k : K) (c : Cache K V) → (get k c).0 ≡ lookup c.files k
  unfolding get
  get-lookup k c = elim (Option-cases (lookup c.files k)) [
    | inl n ↦ rw (n, get) refl
    | inr (v, y) ↦ rw (y, get) refl
  ]

  pub size_limit-get : (k : K) (c : Cache K V) → (get k c).1.size_limit ≡ c.size_limit
  unfolding get
  size_limit-get k c = elim (Option-cases (lookup c.files k)) [
    | inl n ↦ rw (n, get) refl
    | inr (v, y) ↦ rw (y, get) refl
  ]

module _ {K : Type 0} {V : Type 0} ⦃e : Eq K⦄ (size_of : K → V → ℕ) where
  roomy :
      (k : K) (n : ℕ) (c : Cache K V)
      → c.size_limit ≡ none
      → make_room size_of k n c.size_limit c ≡ c
  unfolding make_room
  roomy k n c p = ap (λ o. make_room size_of k n o c) p

  pub lookup-set :
      (k j : K) (v : V) (c : Cache K V)
      → c.size_limit ≡ none
      → lookup (set size_of k v c).files j ≡ (if k == j then some v else lookup c.files j)
  unfolding set
  lookup-set k j v c p =
      ap (λ (d : Cache K V). lookup (write k v d.files) j) (roomy k (size_of k v) c p)
      ∙ lookup-write k j v c.files

  pub size_limit-set :
      (k : K) (v : V) (c : Cache K V) → c.size_limit ≡ none → (set size_of k v c).size_limit ≡ none
  unfolding set
  size_limit-set k v c p = ap (λ (d : Cache K V). d.size_limit) (roomy k (size_of k v) c p) ∙ p

  pub lookup-delete :
      (k j : K) (c : Cache K V)
      → lookup (delete size_of k c).files j ≡ (if j == k then none else lookup c.files j)
  unfolding delete
  lookup-delete k j c = elim (Option-cases (lookup c.files k)) [
    | inl n ↦ rw (n, delete) (absent (j == k) (λ p. ap (lookup c.files) ((e.reflects j k).0 p) ∙ n))
    | inr (v, y) ↦ rw (y, delete) (lookup-without j k c.files)
  ]
    where
      absent : (b : Bool) {o : Option V} → (b ≡ true → o ≡ none) → o ≡ (if b then none else o)
      absent true h = h refl
      absent false h = refl

  pub size_limit-delete : (k : K) (c : Cache K V) → (delete size_of k c).size_limit ≡ c.size_limit
  unfolding delete
  size_limit-delete k c = elim (Option-cases (lookup c.files k)) [
    | inl n ↦ rw (n, delete) refl
    | inr (v, y) ↦ rw (y, delete) refl
  ]
