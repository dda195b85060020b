-- ===== src/View/Build/Sound.antt =====
-- What holds of every view that `View.from_events` of view.py builds.
use mathlib.Core.List.{append-nil}
use codex_latest.Prelude.{
  String, ◌≡◌, refl, sym, ap, ◌⊎◌, inl, inr, subst, Option, none, some, List, [], ◌∷◌, ◌++◌, Memᴰ,
  head, tail, string_eq, mem-append_left, mem-append_right, mem-append_cases, mem-cons_cases,
}
use codex_latest.Event.{
  Event, ActionEvent, Condensation, action, summary, condensation, condensation_request, other,
  as_observation, IsWellIdentified,
}
use codex_latest.Condensation.{summary_event}
use codex_latest.Condensation.Laws.{IsSummaryOf, mem-apply_cases}
use codex_latest.View.Batch.{enforce_batch_atomicity}
use codex_latest.View.Batch.Atomic.{mem-enforce_batch_atomicity}
use codex_latest.View.Filter.Matched.{Fits, observation-matched}
use codex_latest.View.Filter.Answered.{action-matched, actions_together}
use codex_latest.View.Build.{Building, step, run, empty, from_events}

module _ {X : Type 0} where
  -- The summary event that a condensation may put into the view.
  abbrev pub summaries : Option String → Condensation → List (Event X)
  summaries none c = []
  summaries (some text) c = summary (summary_event c text) ∷ []

  -- The history, each condensation followed by its summary event.
  abbrev pub with_summaries : List (Event X) → List (Event X)
  with_summaries [] = []
  with_summaries (condensation c ∷ events) =
      condensation c ∷ summaries c.summary c ++ with_summaries events
  with_summaries (e ∷ events) = e ∷ with_summaries events

  pub mem-with_summaries :
      (events : List (Event X)) {e : Event X} → Memᴰ e events → Memᴰ e (with_summaries events)
  mem-with_summaries [] m = elim m [ ]
  mem-with_summaries (condensation c ∷ events) (head p) = head p
  mem-with_summaries (condensation c ∷ events) (tail m) = tail (
      mem-append_right (summaries c.summary c) (with_summaries events)
        (mem-with_summaries events m))
  mem-with_summaries (e ∷ events) (head p) = head p
  mem-with_summaries (e ∷ events) (tail m) = tail (mem-with_summaries events m)

  pub summary-mem :
      (c : Condensation) (rest : List (Event X)) {e : Event X}
      → IsSummaryOf c e
      → Memᴰ e (summaries c.summary c ++ rest)
  summary-mem c rest {e} (text, p, q) = simp p (head q)

  -- What an event of the output can be, after a step on `x`.
  step_cases :
      (b : Building X) (x : Event X) {e : Event X}
      → Memᴰ e (step b x).output
      → Memᴰ e b.output ⊎ (Memᴰ e (with_summaries (x ∷ [])))
  unfolding step
  step_cases b (condensation c) m = elim (mem-apply_cases c b.output m) [
    | inl s ↦ inr (tail (summary-mem c [] s))
    | inr (k, _) ↦ inl k
  ]
  step_cases b (condensation_request r) m = inl m
  step_cases b (other o) m = inl m
  step_cases b x m = mem-append_cases b.output (x ∷ []) m

  with_summaries-cons :
      (x : Event X) (events : List (Event X))
      → with_summaries (x ∷ events) ≡ with_summaries (x ∷ []) ++ with_summaries events
  with_summaries-cons (condensation c) events =
      ap (λ l. condensation c ∷ l ++ with_summaries events)
        (sym (append-nil (summaries c.summary c)))
  with_summaries-cons x events = refl

  pub run_cases :
      (b : Building X) (events : List (Event X)) {e : Event X}
      → Memᴰ e (run b events).output
      → Memᴰ e b.output ⊎ Memᴰ e (with_summaries events)
  unfolding run
  run_cases b [] m = inl m
  run_cases b (x ∷ events) {e} m = elim (run_cases (step b x) events m) [
    | inl k ↦ elim (step_cases b x k) [
      | inl l ↦ inl l
      | inr l ↦
          inr (subst (λ l. Memᴰ e l) (sym (with_summaries-cons x events)) (mem-append_left _ _ l))
    ]
    | inr k ↦ inr (
        subst (λ l. Memᴰ e l) (sym (with_summaries-cons x events))
          (mem-append_right (with_summaries (x ∷ [])) _ k))
  ]

  action_of_summaries :
      (s : Option String) (c : Condensation) (a : ActionEvent X) → ¬ Memᴰ (action a) (summaries s c)
  action_of_summaries none c a m = elim m [ ]
  action_of_summaries (some text) c a (head p) = cc
  action_of_summaries (some text) c a (tail m) = elim m [ ]

  action_of_with_summaries :
      (events : List (Event X)) (a : ActionEvent X)
      → Memᴰ (action a) (with_summaries events)
      → Memᴰ (action a) events
  action_of_with_summaries [] a m = m
  action_of_with_summaries (condensation c ∷ events) a (head p) = head p
  action_of_with_summaries (condensation c ∷ events) a (tail m) =
      elim (mem-append_cases (summaries c.summary c) (with_summaries events) m) [
        | inl k ↦ absurd (action_of_summaries c.summary c a k)
        | inr k ↦ tail (action_of_with_summaries events a k)
      ]
  action_of_with_summaries (e ∷ events) a m = elim (mem-cons_cases m) [
    | inl p ↦ head p
    | inr k ↦ tail (action_of_with_summaries events a k)
  ]

  abbrev pub built : List (Event X) → List (Event X)
  built events = enforce_batch_atomicity (run empty events).output events

  pub output_of_built :
      (events : List (Event X)) (e : Event X)
      → Memᴰ e (built events)
      → Memᴰ e (run empty events).output
  output_of_built events e m =
      ((mem-enforce_batch_atomicity (run empty events).output events e).0 m).0

  history_of_output :
      (events : List (Event X)) (e : Event X)
      → Memᴰ e (run empty events).output
      → Memᴰ e (with_summaries events)
  history_of_output events e m = elim (run_cases empty events m) [ inl k ↦ elim k [ ] | inr k ↦ k ]

  pub built-Fits :
      (events : List (Event X))
      → IsWellIdentified (with_summaries events)
      → Fits (built events) events (with_summaries events)
  built-Fits events u = record {
    view_in = λ e m. history_of_output events e (output_of_built events e m);
    all_in = λ e m. mem-with_summaries events m;
    actions_in = λ a m.
        action_of_with_summaries events a
          (history_of_output events (action a) (output_of_built events (action a) m));
    identified = u;
  }

  -- Where ids and tool call ids are unique, in the view of a history every observation answers an
  -- action of the view.
  pub from_events-observation :
      (events : List (Event X))
      → IsWellIdentified (with_summaries events)
      → (o : Event X) (t : String) → Memᴰ o (from_events events).events
      → as_observation o ≡ some t
      → (a : ActionEvent X) × Memᴰ (action a) (from_events events).events × (a.tool_call_id ≡ t)
  unfolding from_events
  from_events-observation events u = observation-matched (built-Fits events u)

  -- Where ids and tool call ids are unique, in the view of a history every action is answered by
  -- an observation of the view.
  pub from_events-action :
      (events : List (Event X))
      → IsWellIdentified (with_summaries events)
      → (a : ActionEvent X) → Memᴰ (action a) (from_events events).events
      → (o : Event X) × Memᴰ o (from_events events).events
        × (as_observation o ≡ some a.tool_call_id)
  unfolding from_events
  from_events-action events u = action-matched (built-Fits events u)

  -- Where ids and tool call ids are unique, the actions of one LLM response are in the view of a
  -- history together or not at all.
  pub from_events-together :
      (events : List (Event X))
      → IsWellIdentified (with_summaries events)
      → (a b : ActionEvent X) → Memᴰ (action b) events
      → a.llm_response_id ≡ b.llm_response_id
      → Memᴰ (action a) (from_events events).events
      → Memᴰ (action b) (from_events events).events
  unfolding from_events
  from_events-together events u = actions_together (built-Fits events u)
