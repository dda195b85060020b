-- ===== src/Prelude/Maps.antt =====
-- Python's `dict`, in insertion order: an assignment to a key that is there keeps its place.
use codex_latest.Prelude.Equality.{Eq, ◌==◌}
use codex_latest.Prelude.Tests.{if◌then◌else◌, Bool-cases}
use mathlib.Core.Path.{◌≡◌, refl, sym, ap, ◌∙◌}
use mathlib.Core.Logic.{◌⊎◌, inl, inr}
use mathlib.Core.Bool.{false}
use mathlib.Core.List.{List, [], ◌∷◌, Memᴰ}
use mathlib.Core.List.Memᴰ.{head, tail}
use mathlib.Core.Option.{Option, none, some}
use native.Mathlib.Omega.{arith}

abbrev pub Dict {ℓ κ} : Type ℓ → Type κ → Type (ℓ ⊔ κ)
Dict K V = List (K × V)

module _ {ℓ κ} {K : Type ℓ} {V : Type κ} ⦃e : Eq K⦄ where
  -- `d.get(k)`
  unfoldable pub lookup : Dict K V → K → Option V
  lookup [] k = none
  lookup ((j, v) ∷ d) k = if j == k then some v else lookup d k

  -- `d[k] = v`
  unfoldable pub assign : K → V → Dict K V → Dict K V
  assign k v [] = (k, v) ∷ []
  assign k v ((j, w) ∷ d) = if j == k then (k, v) ∷ d else (j, w) ∷ assign k v d

  -- No key stands twice.
  abbrev pub IsDistinct : Dict K V → Type κ
  IsDistinct [] = Unit
  IsDistinct ((k, v) ∷ d) = (lookup d k ≡ none) × IsDistinct d

  pub lookup-assign :
      (k j : K) (v : V) (d : Dict K V)
      → lookup (assign k v d) j ≡ (if k == j then some v else lookup d j)
  unfolding lookup assign
  lookup-assign k j v [] = refl
  lookup-assign k j v ((i, w) ∷ d) =
      ground (arith, e.reflects k j, e.reflects i k, e.reflects i j, lookup-assign k j v d)

  pub assign-IsDistinct : (k : K) (v : V) (d : Dict K V) → IsDistinct d → IsDistinct (assign k v d)
  unfolding assign lookup
  assign-IsDistinct k v [] h = (refl, tt)
  assign-IsDistinct k v ((i, w) ∷ d) h = elim (Bool-cases (i == k)) [
    | inl y ↦ rw y (rw (sym ((e.reflects i k).0 y)) h.0, h.1)
    | inr n ↦ rw n (
      lookup-assign k i v d ∙ ground (arith, e.reflects k i, e.reflects i k, h.0),
      assign-IsDistinct k v d h.1,
    )
  ]

  pub lookup_of_mem :
      (d : Dict K V) {k : K} {v : V} → IsDistinct d → Memᴰ (k, v) d → lookup d k ≡ some v
  unfolding lookup
  lookup_of_mem [] h m = elim m [ ]
  lookup_of_mem ((j, w) ∷ d) {k} {v} h (head p) =
      rw ((e.reflects j k).1 (sym (ap (λ q. q.0) p))) (ap some (sym (ap (λ q. q.1) p)))
  lookup_of_mem ((j, w) ∷ d) {k} {v} h (tail m) =
      ground (arith, e.reflects j k, lookup_of_mem d h.1 m, h.0)

  pub mem_of_lookup : (d : Dict K V) (k : K) {v : V} → lookup d k ≡ some v → Memᴰ (k, v) d
  unfolding lookup
  mem_of_lookup [] k h = absurd (cc)
  mem_of_lookup ((j, w) ∷ d) k {v} h = elim (Bool-cases (j == k)) [
    | inl y ↦
        let p : k ≡ j = sym ((e.reflects j k).0 y) in
        let q : v ≡ w = ground arith in head (λ i. (p i, q i))
    | inr n ↦ tail (mem_of_lookup d k (ground arith))
  ]

  pub lookup-assign_self : (k : K) (v : V) (d : Dict K V) → lookup (assign k v d) k ≡ some v
  lookup-assign_self k v d = lookup-assign k k v d ∙ rw ((e.reflects k k).1 refl)

  pub lookup-assign_ne :
      (k j : K) (v : V) (d : Dict K V) → (k == j) ≡ false → lookup (assign k v d) j ≡ lookup d j
  lookup-assign_ne k j v d n = lookup-assign k j v d ∙ rw n

  pub lookup-assign_cases :
      (k j : K) (v : V) (d : Dict K V) {w : V}
      → lookup (assign k v d) j ≡ some w
      → ((k ≡ j) × (v ≡ w)) ⊎ (((k == j) ≡ false) × (lookup d j ≡ some w))
  lookup-assign_cases k j v d {w} h = elim (Bool-cases (k == j)) [
    | inl y ↦
        let p : some v ≡ some w = sym (lookup-assign k j v d ∙ rw y) ∙ h in
        inl ((e.reflects k j).0 y, (cc))
    | inr n ↦ inr (n, sym (lookup-assign_ne k j v d n) ∙ h)
  ]
