-- ===== src/Prelude/Equality.antt =====
-- Python's `==`, as an interface: numbers and texts have it, and so may the content models.
use Prim.Native.Nat.{ℕ, compare, Ordering}
use Prim.Native.String.{String}
use mathlib.Core.Path.{◌≡◌}
use mathlib.Core.Logic.{◌↔◌}
use mathlib.Core.Bool.{Bool, true, false}
use native.Mathlib.Omega.{arith}
use text.Mathlib.Text.{◌==◌ as same_text}
use text.Mathlib.TextEquality.{eq_iff as same_text-reflects}

pub record Eq {ℓ} (A : Type ℓ) : Type ℓ where
  pub equals : A → A → Bool
  pub reflects : (x y : A) → (equals x y ≡ true) ↔ (x ≡ y)

abbrev pub nat_equals : ℕ → ℕ → Bool
nat_equals m n = elim (compare m n) [ Ordering.eq ↦ true | _ ↦ false ]

pub nat_equals_lem : (m n : ℕ) → (nat_equals m n ≡ true) ↔ (m ≡ n)
nat_equals_lem m n = ground arith

instance abbrev pub string_eq : Eq String
string_eq = record { equals = same_text; reflects = same_text-reflects }

instance abbrev pub nat_eq : Eq ℕ
nat_eq = record { equals = nat_equals; reflects = nat_equals_lem }

infix 50 ◌==◌
abbrev pub ◌==◌ {κ} : {B : Type κ} ⦃same : Eq B⦄ → B → B → Bool
◌==◌ ⦃same⦄ = same.equals
