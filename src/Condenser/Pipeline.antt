-- ===== src/Condenser/Pipeline.antt =====
-- condenser/pipeline_condenser.py and no_op_condenser.py: condensers one after another, until one
-- makes a condensation. A condenser is its `condense` and whether it handles requests.
use codex_latest.Prelude.{◌≡◌, refl, sym, Bool, false, List, [], ◌∷◌, ◌++◌, any}
use codex_latest.Event.{Condensation}
use codex_latest.View.Build.{View}
use codex_latest.Condenser.Rolling.{CondenserError, Attempt, ok, raise, Condensed, kept, condensed}

pub record Condenser (X : Type 0) : Type 0 where
  pub condense : View X → Attempt (Condensed X)
  pub handles_condensation_requests : Bool

module _ {X : Type 0} where
  abbrev pub no_op : Condenser X
  no_op = record { condense = λ view. ok (kept view); handles_condensation_requests = false }

  -- The loop, from the result so far; an exception leaves it.
  unfoldable pub pipe : List (Condenser X) → Attempt (Condensed X) → Attempt (Condensed X)
  pipe [] result = result
  pipe (c ∷ condensers) (ok (kept view)) = pipe condensers (c.condense view)
  pipe (c ∷ condensers) (ok (condensed k)) = ok (condensed k)
  pipe (c ∷ condensers) (raise e) = raise e

  abbrev pub pipeline : List (Condenser X) → Condenser X
  pipeline condensers = record {
    condense = λ view. pipe condensers (ok (kept view));
    handles_condensation_requests = any (λ c. c.handles_condensation_requests) condensers;
  }

  pipe_condensed :
      (cs : List (Condenser X)) (k : Condensation) → pipe cs (ok (condensed k)) ≡ ok (condensed k)
  unfolding pipe
  pipe_condensed [] k = refl
  pipe_condensed (c ∷ cs) k = refl

  pipe_raise : (cs : List (Condenser X)) (x : CondenserError) → pipe cs (raise x) ≡ raise x
  unfolding pipe
  pipe_raise [] x = refl
  pipe_raise (c ∷ cs) x = refl

  -- A pipeline may be cut in two anywhere: the second part gets what the first one returns.
  pub pipe-append :
      (cs ds : List (Condenser X)) (result : Attempt (Condensed X))
      → pipe (cs ++ ds) result ≡ pipe ds (pipe cs result)
  unfolding pipe
  pipe-append [] ds result = refl
  pipe-append (c ∷ cs) ds (ok (kept view)) = pipe-append cs ds (c.condense view)
  pipe-append (c ∷ cs) ds (ok (condensed k)) = sym (pipe_condensed ds k)
  pipe-append (c ∷ cs) ds (raise x) = sym (pipe_raise ds x)
