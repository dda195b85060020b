-- ===== src/Tests/Risks.antt =====
-- The theorems about risk.py and confirmation_policy.py at concrete risks.
use codex_latest.Prelude.{◌≡◌, refl, true, false}
use codex_latest.Security.{
  high, medium, low, ok, is_riskier, confirm_risky, validate_threshold, should_confirm,
}
use codex_latest.Security.Laws.{is_riskier_lem, should_confirm_lem}

is_riskier_lem_example : is_riskier high low false ≡ ok true
is_riskier_lem_example = is_riskier_lem high low false

should_confirm_lem_example : should_confirm (confirm_risky medium true) low ≡ ok false
unfolding validate_threshold
should_confirm_lem_example = should_confirm_lem medium low true refl
