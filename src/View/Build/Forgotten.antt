-- ===== src/View/Build/Forgotten.antt =====
-- Condensations and the view that `View.from_events` of view.py builds: what a condensation
-- forgets is gone, and what none forgets stays.
use codex_latest.Prelude.{
  ◌≡◌, ◌∙◌, refl, sym, ap, inl, inr, subst, true, false, none, some, List, [], ◌∷◌, ◌++◌, Memᴰ,
  head, tail, contains, string_eq, mem-append_left, mem-append_right,
}
use codex_latest.Event.{
  Event, ActionEvent, Condensation, condensation, condensation_request, other, action, as_action,
  as_observation, is_llm_convertible, event_id, IsWellIdentified,
}
use codex_latest.Condensation.Laws.{mem-apply_cases, mem-apply_of_mem}
use codex_latest.View.Batch.{enforce_batch_atomicity}
use codex_latest.View.Batch.Atomic.{mem-enforce_batch_atomicity}
use codex_latest.View.Filter.Matched.{view_of_out}
use codex_latest.View.Filter.Answered.{plain-kept}
use codex_latest.View.Build.{Building, step, run, empty, from_events}
use codex_latest.View.Build.Sound.{
  with_summaries, run_cases, mem-with_summaries, summary-mem, built-Fits, output_of_built,
}

module _ {X : Type 0} where
  run-append :
      (b : Building X) (before after : List (Event X))
      → run b (before ++ after) ≡ run (run b before) after
  unfolding run
  run-append b [] after = refl
  run-append b (e ∷ before) after = run-append (step b e) before after

  not_in_step :
      (b : Building X) (c : Condensation) (e : Event X)
      → contains c.forgotten_event_ids (event_id e) ≡ true
      → ¬ Memᴰ e (with_summaries (condensation c ∷ []))
      → ¬ Memᴰ e (step b (condensation c)).output
  unfolding step
  not_in_step b c e h fresh m = elim (mem-apply_cases c b.output m) [
    | inl s ↦ fresh (tail (summary-mem c [] s))
    | inr (k, kept) ↦ cc
  ]

  -- An event that a condensation forgets is not in the view, unless the history holds it again
  -- behind the condensation.
  pub forgotten-not-mem :
      (before after : List (Event X)) (c : Condensation) (e : Event X)
      → contains c.forgotten_event_ids (event_id e) ≡ true
      → ¬ Memᴰ e (with_summaries (condensation c ∷ []))
      → ¬ Memᴰ e (with_summaries after)
      → ¬ Memᴰ e (from_events (before ++ condensation c ∷ after)).events
  unfolding from_events run
  forgotten-not-mem before after c e h fresh later m =
      let events = before ++ condensation c ∷ after in
      let k = output_of_built events e (view_of_out _ events e m) in
      let k' =
        subst (λ (b : Building X). Memᴰ e b.output)
          (run-append empty before (condensation c ∷ after)) k in
      elim (run_cases (step (run empty before) (condensation c)) after k') [
        | inl l ↦ not_in_step (run empty before) c e h fresh l
        | inr l ↦ later l
      ]

  -- No condensation of the list names the event.
  abbrev pub IsRemembered : Event X → List (Event X) → Type 0
  IsRemembered e events =
      (c : Condensation)
      → Memᴰ (condensation c) events
      → contains c.forgotten_event_ids (event_id e) ≡ false

  step-mem :
      (b : Building X) (x e : Event X)
      → ((c : Condensation)
          → x ≡ condensation c
          → contains c.forgotten_event_ids (event_id e) ≡ false)
      → Memᴰ e b.output
      → Memᴰ e (step b x).output
  unfolding step
  step-mem b (condensation c) e h m = mem-apply_of_mem c b.output m (h c refl)
  step-mem b (condensation_request r) e h m = m
  step-mem b (other r) e h m = m
  step-mem b x e h m = mem-append_left b.output (x ∷ []) m

  step-mem_self :
      (b : Building X) (x : Event X) → is_llm_convertible x ≡ true → Memᴰ x (step b x).output
  unfolding step
  step-mem_self b (condensation c) h = absurd (cc)
  step-mem_self b (condensation_request c) h = absurd (cc)
  step-mem_self b (other c) h = absurd (cc)
  step-mem_self b x h = mem-append_right b.output (x ∷ []) (head refl)

  run-mem :
      (b : Building X) (events : List (Event X)) (e : Event X)
      → IsRemembered e events
      → Memᴰ e b.output
      → Memᴰ e (run b events).output
  unfolding run
  run-mem b [] e h m = m
  run-mem b (x ∷ events) e h m =
      run-mem (step b x) events e (λ c k. h c (tail k))
        (step-mem b x e (λ c p. h c (head (sym p))) m)

  run-mem_of_mem :
      (b : Building X) (events : List (Event X)) (e : Event X)
      → is_llm_convertible e ≡ true
      → IsRemembered e events
      → Memᴰ e events
      → Memᴰ e (run b events).output
  unfolding run
  run-mem_of_mem b [] e h r m = elim m [ ]
  run-mem_of_mem b (x ∷ events) e h r (head p) =
      run-mem (step b x) events e (λ c k. r c (tail k)) (rw p (step-mem_self b x (rw p at h)))
  run-mem_of_mem b (x ∷ events) e h r (tail m) =
      run-mem_of_mem (step b x) events e h (λ c k. r c (tail k)) m

  -- Where an id names one event and a tool call id one action, in the history and the summaries of
  -- its condensations: an event of the history that is for the LLM, is neither an action nor an
  -- observation, and is forgotten by no condensation of the history, is in the view.
  pub remembered-mem :
      (events : List (Event X)) (e : Event X)
      → IsWellIdentified (with_summaries events)
      → Memᴰ e events
      → is_llm_convertible e ≡ true
      → as_action e ≡ none
      → as_observation e ≡ none
      → IsRemembered e events
      → Memᴰ e (from_events events).events
  unfolding from_events
  remembered-mem events e u m h a o r = plain-kept (built-Fits events u) e built a o
    where
      not_action : {b : ActionEvent X} → action b ≡ e → ⊥
      not_action {b} p = let q : some b ≡ none = ap as_action p ∙ a in cc

      built : Memᴰ e (enforce_batch_atomicity (run empty events).output events)
      built = (mem-enforce_batch_atomicity (run empty events).output events e).1 (
        run-mem_of_mem empty events e h r m,
        λ b b' mb mb' p q. absurd (
            not_action (
              u.by_id (action b) e (mem-with_summaries events mb) (mem-with_summaries events m) p)),
      )
