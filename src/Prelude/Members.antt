-- ===== src/Prelude/Members.antt =====
-- The members of filtered, mapped and appended lists, and the test whether a list holds a value.
use Prim.Native.Nat.{ℕ, zero, suc, ◌<◌}
use mathlib.Core.Path.{◌≡◌, refl, sym, ap, ◌∙◌}
use mathlib.Core.Logic.{◌⊎◌, inl, inr}
use mathlib.Core.Bool.{Bool, true, false, ◌||◌}
use mathlib.Core.List.{List, [], ◌∷◌, ◌++◌, map, Memᴰ}
use mathlib.Core.List.Memᴰ.{head, tail}
use mathlib.Core.Option.{Option, none, some}
use native.Mathlib.Omega.{arith}
use codex_latest.Prelude.Equality.{Eq, ◌==◌}
use codex_latest.Prelude.Tests.{if◌then◌else◌, Bool-cases}
use codex_latest.Prelude.Lists.{filter, any, all, insert_at, length}

module _ {ℓ} {A : Type ℓ} where
  mem_if :
      (b : Bool) (x : A) (xs : List A) {a : A}
      → Memᴰ a (if b then x ∷ xs else xs)
      → ((b ≡ true) × (a ≡ x)) ⊎ Memᴰ a xs
  mem_if true x xs (head e) = inl (refl, e)
  mem_if true x xs (tail m) = inr m
  mem_if false x xs m = inr m

  pub mem_of_mem-filter :
      (p : A → Bool) (xs : List A) {a : A} → Memᴰ a (filter p xs) → Memᴰ a xs × (p a ≡ true)
  unfolding filter
  mem_of_mem-filter p [] m = elim m [ ]
  mem_of_mem-filter p (x ∷ xs) {a} m = elim (mem_if (p x) x (filter p xs) m) [
    | inl (t, e) ↦ (head e, ap p e ∙ t)
    | inr n ↦ let r = mem_of_mem-filter p xs n in (tail r.0, r.1)
  ]

  pub mem-filter_of_mem :
      (p : A → Bool) (xs : List A) {a : A} → Memᴰ a xs → p a ≡ true → Memᴰ a (filter p xs)
  unfolding filter
  mem-filter_of_mem p [] m t = elim m [ ]
  mem-filter_of_mem p (x ∷ xs) {a} (head e) t = rw (sym (ap p e) ∙ t) (head e)
  mem-filter_of_mem p (x ∷ xs) {a} (tail m) t = elim (Bool-cases (p x)) [
    | inl y ↦ rw y (tail (mem-filter_of_mem p xs m t))
    | inr n ↦ rw n (mem-filter_of_mem p xs m t)
  ]

  pub any_of_mem : (p : A → Bool) (xs : List A) {a : A} → Memᴰ a xs → p a ≡ true → any p xs ≡ true
  unfolding any
  any_of_mem p [] m t = elim m [ ]
  any_of_mem p (x ∷ xs) (head e) t = rw (sym (ap p e) ∙ t)
  any_of_mem p (x ∷ xs) (tail m) t = ground (arith, any_of_mem p xs m t)

  pub mem_of_any :
      (p : A → Bool) (xs : List A) → any p xs ≡ true → (a : A) × Memᴰ a xs × (p a ≡ true)
  unfolding any
  mem_of_any p [] h = cc
  mem_of_any p (x ∷ xs) h = elim (Bool-cases (p x)) [
    | inl y ↦ (x, head refl, y)
    | inr n ↦ let (a, m, t) = mem_of_any p xs (ground arith) in (a, tail m, t)
  ]

  pub all_at_mem : (p : A → Bool) (xs : List A) {a : A} → all p xs ≡ true → Memᴰ a xs → p a ≡ true
  unfolding all
  all_at_mem p [] h m = elim m [ ]
  all_at_mem p (x ∷ xs) h (head e) = ap p e ∙ ground arith
  all_at_mem p (x ∷ xs) h (tail m) = all_at_mem p xs (ground arith) m

  pub mem-insert_at_cases :
      (n : ℕ) (b : A) (xs : List A) {a : A} → Memᴰ a (insert_at n b xs) → (a ≡ b) ⊎ Memᴰ a xs
  unfolding insert_at
  mem-insert_at_cases zero b xs (head e) = inl e
  mem-insert_at_cases zero b xs (tail m) = inr m
  mem-insert_at_cases (suc n) b [] (head e) = inl e
  mem-insert_at_cases (suc n) b [] (tail m) = elim m [ ]
  mem-insert_at_cases (suc n) b (x ∷ xs) (head e) = inr (head e)
  mem-insert_at_cases (suc n) b (x ∷ xs) (tail m) = elim (mem-insert_at_cases n b xs m) [
    | inl e ↦ inl e
    | inr k ↦ inr (tail k)
  ]

  pub mem-insert_at_of_mem :
      (n : ℕ) (b : A) (xs : List A) {a : A} → Memᴰ a xs → Memᴰ a (insert_at n b xs)
  unfolding insert_at
  mem-insert_at_of_mem zero b xs m = tail m
  mem-insert_at_of_mem (suc n) b [] m = elim m [ ]
  mem-insert_at_of_mem (suc n) b (x ∷ xs) (head e) = head e
  mem-insert_at_of_mem (suc n) b (x ∷ xs) (tail m) = tail (mem-insert_at_of_mem n b xs m)

  pub length_of_mem : (xs : List A) {a : A} → Memᴰ a xs → 0 < length xs
  length_of_mem [] m = elim m [ ]
  length_of_mem (x ∷ xs) m = omega arith

  pub mem-cons_cases : {x a : A} {xs : List A} → Memᴰ a (x ∷ xs) → (a ≡ x) ⊎ Memᴰ a xs
  mem-cons_cases (head p) = inl p
  mem-cons_cases (tail m) = inr m

  pub mem-append_cases : (xs ys : List A) {a : A} → Memᴰ a (xs ++ ys) → Memᴰ a xs ⊎ Memᴰ a ys
  mem-append_cases [] ys m = inr m
  mem-append_cases (x ∷ xs) ys (head e) = inl (head e)
  mem-append_cases (x ∷ xs) ys (tail m) = elim (mem-append_cases xs ys m) [
    | inl k ↦ inl (tail k)
    | inr k ↦ inr k
  ]

  pub mem-append_left : (xs ys : List A) {a : A} → Memᴰ a xs → Memᴰ a (xs ++ ys)
  mem-append_left [] ys m = elim m [ ]
  mem-append_left (x ∷ xs) ys (head e) = head e
  mem-append_left (x ∷ xs) ys (tail m) = tail (mem-append_left xs ys m)

  pub mem-append_right : (xs ys : List A) {a : A} → Memᴰ a ys → Memᴰ a (xs ++ ys)
  mem-append_right [] ys m = m
  mem-append_right (x ∷ xs) ys m = tail (mem-append_right xs ys m)

module _ {ℓ κ} {A : Type ℓ} {B : Type κ} where
  pub mem-map : (f : A → B) (xs : List A) {a : A} → Memᴰ a xs → Memᴰ (f a) (map f xs)
  mem-map f [] m = elim m [ ]
  mem-map f (x ∷ xs) (head e) = head (ap f e)
  mem-map f (x ∷ xs) (tail m) = tail (mem-map f xs m)

  pub mem_of_mem-map :
      (f : A → B) (xs : List A) {b : B} → Memᴰ b (map f xs) → (a : A) × Memᴰ a xs × (b ≡ f a)
  mem_of_mem-map f [] m = elim m [ ]
  mem_of_mem-map f (x ∷ xs) (head e) = (x, head refl, e)
  mem_of_mem-map f (x ∷ xs) (tail m) = let (a, k, e) = mem_of_mem-map f xs m in (a, tail k, e)

-- `if y is not None: out.append(y)`, before what is appended later.
abbrev pub cons_some {ℓ} : {A : Type ℓ} → Option A → List A → List A
cons_some none xs = xs
cons_some (some x) xs = x ∷ xs

module _ {ℓ} {B : Type ℓ} where
  mem-cons_some : (o : Option B) (ys : List B) {b : B} → Memᴰ b ys → Memᴰ b (cons_some o ys)
  mem-cons_some none ys m = m
  mem-cons_some (some y) ys m = tail m

  mem-cons_some_cases :
      (o : Option B) (ys : List B) {b : B} → Memᴰ b (cons_some o ys) → (o ≡ some b) ⊎ Memᴰ b ys
  mem-cons_some_cases none ys m = inr m
  mem-cons_some_cases (some y) ys (head p) = inl (ap some (sym p))
  mem-cons_some_cases (some y) ys (tail m) = inr m

module _ {ℓ κ} {A : Type ℓ} {B : Type κ} where
  -- `[y for x in xs if (y := f(x)) is not None]`
  unfoldable pub filter_map : (A → Option B) → List A → List B
  filter_map f [] = []
  filter_map f (x ∷ xs) = cons_some (f x) (filter_map f xs)

  pub mem-filter_map :
      (f : A → Option B) (xs : List A) {a : A} {b : B}
      → Memᴰ a xs
      → f a ≡ some b
      → Memᴰ b (filter_map f xs)
  unfolding filter_map
  mem-filter_map f [] m h = elim m [ ]
  mem-filter_map f (x ∷ xs) (head p) h = rw (sym (ap f p) ∙ h) (head refl)
  mem-filter_map f (x ∷ xs) (tail m) h =
      mem-cons_some (f x) (filter_map f xs) (mem-filter_map f xs m h)

  pub mem_of_mem-filter_map :
      (f : A → Option B) (xs : List A) {b : B}
      → Memᴰ b (filter_map f xs)
      → (a : A) × Memᴰ a xs × (f a ≡ some b)
  unfolding filter_map
  mem_of_mem-filter_map f [] m = elim m [ ]
  mem_of_mem-filter_map f (x ∷ xs) m = elim (mem-cons_some_cases (f x) (filter_map f xs) m) [
    | inl h ↦ (x, head refl, h)
    | inr k ↦ let (a, n, h) = mem_of_mem-filter_map f xs k in (a, tail n, h)
  ]

module _ {ℓ} {A : Type ℓ} ⦃e : Eq A⦄ where
  -- `x in l`
  unfoldable pub contains : List A → A → Bool
  contains [] a = false
  contains (x ∷ xs) a = x == a || contains xs a

  pub contains_of_mem : (xs : List A) {a : A} → Memᴰ a xs → contains xs a ≡ true
  unfolding contains
  contains_of_mem [] m = elim m [ ]
  contains_of_mem (x ∷ xs) {a} (head p) = rw ((e.reflects x a).1 (sym p))
  contains_of_mem (x ∷ xs) {a} (tail m) = ground (arith, contains_of_mem xs m)

  pub mem_of_contains : (xs : List A) (a : A) → contains xs a ≡ true → Memᴰ a xs
  unfolding contains
  mem_of_contains [] a h = absurd (cc)
  mem_of_contains (x ∷ xs) a h = elim (Bool-cases (x == a)) [
    | inl y ↦ head (sym ((e.reflects x a).0 y))
    | inr n ↦ tail (mem_of_contains xs a (ground arith))
  ]

  pub not_mem_of_contains : (xs : List A) (a : A) → contains xs a ≡ false → ¬ Memᴰ a xs
  not_mem_of_contains xs a h m = cc (contains_of_mem xs m)
