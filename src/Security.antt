-- ===== src/Security.antt =====
-- openhands-sdk/openhands/sdk/security/risk.py and confirmation_policy.py: risk levels, their
-- order, and the policies that decide when an action has to be confirmed.
pub mod Laws
use codex_latest.Prelude.{
  ℕ, ◌≡◌, Bool, true, false, Option, none, some, ◌&&◌, ◌||◌, ◌==◌, nat_eq, ltb, if◌then◌else◌,
}

pub data SecurityRisk : Type 0 where
  unknown low medium high : SecurityRisk

-- Python's `ValueError`, with its message left out.
pub data Checked {ℓ} (A : Type ℓ) : Type ℓ where
  ok : A → Checked A
  value_error : Checked A

-- The numbers of the enumeration's members, by which `==` on it is decided.
abbrev pub ordinal : SecurityRisk → ℕ
ordinal unknown = 0
ordinal low = 1
ordinal medium = 2
ordinal high = 3

-- `risk_order`, a dictionary without `UNKNOWN`.
unfoldable pub risk_order : SecurityRisk → Option ℕ
risk_order unknown = none
risk_order low = some 1
risk_order medium = some 2
risk_order high = some 3

abbrev pub same_risk : SecurityRisk → SecurityRisk → Bool
same_risk a b = ordinal a == ordinal b

-- `risk_order[a] > risk_order[b]`; a missing key does not arise behind the guard.
abbrev above : Option ℕ → Option ℕ → Bool
above (some a) (some b) = ltb b a
above _ _ = false

unfoldable pub is_riskier : SecurityRisk → SecurityRisk → Bool → Checked Bool
unfolding risk_order
is_riskier self other reflexive =
    if same_risk self unknown || same_risk other unknown
    then value_error
    else ok (above (risk_order self) (risk_order other) || (reflexive && same_risk self other))

-- The three policies. `ConfirmRisky` holds a threshold and what to do with an unknown risk.
pub data ConfirmationPolicy : Type 0 where
  always_confirm never_confirm : ConfirmationPolicy
  confirm_risky : SecurityRisk → Bool → ConfirmationPolicy

-- `validate_threshold`
unfoldable pub validate_threshold : SecurityRisk → Checked SecurityRisk
validate_threshold v = if same_risk v unknown then value_error else ok v

unfoldable pub should_confirm : ConfirmationPolicy → SecurityRisk → Checked Bool
should_confirm always_confirm risk = ok true
should_confirm never_confirm risk = ok false
should_confirm (confirm_risky threshold confirm_unknown) risk =
    if same_risk risk unknown then ok confirm_unknown else is_riskier risk threshold true
