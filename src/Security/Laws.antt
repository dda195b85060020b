-- ===== src/Security/Laws.antt =====
-- The order of the risks (risk.py) and the policies (confirmation_policy.py).
use codex_latest.Prelude.{◌≡◌, Bool, arith, ltb, leb, ◌||◌, if◌then◌else◌}
use codex_latest.Security.{
  SecurityRisk, unknown, ok, value_error, ordinal, same_risk, is_riskier, confirm_risky,
  validate_threshold, should_confirm,
}

-- A comparison of two risks raises exactly when one of them is unknown; otherwise the reflexive
-- comparison is the total order by severity, and the other one its strict part.
pub is_riskier_lem :
    (a b : SecurityRisk) (reflexive : Bool)
    → is_riskier a b reflexive ≡ (
        if same_risk a unknown || same_risk b unknown
        then value_error
        else ok (if reflexive then leb (ordinal b) (ordinal a) else ltb (ordinal b) (ordinal a)))
unfolding is_riskier
is_riskier_lem a b reflexive = ground arith

-- A policy with a threshold that passed validation never raises: it confirms an unknown risk as
-- it was told to, and any other risk exactly when it is at least as severe as the threshold.
pub should_confirm_lem :
    (threshold risk : SecurityRisk) (confirm_unknown : Bool)
    → validate_threshold threshold ≡ ok threshold
    → should_confirm (confirm_risky threshold confirm_unknown) risk
      ≡ ok (
          if same_risk risk unknown
          then confirm_unknown
          else leb (ordinal threshold) (ordinal risk))
unfolding should_confirm validate_threshold is_riskier
should_confirm_lem threshold risk confirm_unknown h = ground arith
