-- ===== src/Condenser/Rolling.antt =====
-- condenser/base.py: a rolling condenser asks whether a view has to be condensed, and falls back
-- to the view where it may.
use codex_latest.Prelude.{Option, none, some}
use codex_latest.Event.{Condensation}
use codex_latest.View.Build.{View}

pub data CondensationRequirement : Type 0 where
  hard soft : CondensationRequirement

-- The exceptions of `get_condensation`: the one that `condense` handles, a failed assertion, and
-- any other.
pub data CondenserError : Type 0 where
  no_condensation_available assertion_failed llm_error : CondenserError

pub data Attempt {ℓ} (A : Type ℓ) : Type ℓ where
  ok : A → Attempt A
  raise : CondenserError → Attempt A

-- `View | Condensation`
pub data Condensed (X : Type 0) : Type 0 where
  kept : View X → Condensed X
  condensed : Condensation → Condensed X

module _ {X : Type 0} where
  -- The `except` clause, for the requirement that was asked for.
  unfoldable pub fall_back :
      CondensationRequirement → View X → Attempt Condensation → Attempt (Condensed X)
  fall_back request view (ok c) = ok (condensed c)
  fall_back soft view (raise no_condensation_available) = ok (kept view)
  fall_back hard view (raise no_condensation_available) = raise no_condensation_available
  fall_back request view (raise e) = raise e

  -- `RollingCondenser.condense`, over the two methods that a condenser defines.
  unfoldable pub condense :
      (View X → Option CondensationRequirement)
      → (View X → Attempt Condensation)
      → View X
      → Attempt (Condensed X)
  unfolding fall_back
  condense condensation_requirement get_condensation view = elim (condensation_requirement view) [
    | none ↦ ok (kept view)
    | some request ↦ fall_back request view (get_condensation view)
  ]
