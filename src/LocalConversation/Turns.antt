-- ===== src/LocalConversation/Turns.antt =====
-- What one turn of the loop leads to.
use codex_latest.Prelude.{
  ℕ, suc, ◌<◌, ◌≡◌, ◌≢◌, refl, sym, ◌∙◌, ◌⊎◌, inl, inr, Bool, true, false, List, [], ◌∷◌, ◌++◌, leb,
  Eq, if◌then◌else◌, arith,
}
use codex_latest.Event.{Event, Source}
use codex_latest.Conversation.{
  State, Status, idle, running, paused, waiting_for_confirmation, finished, error, stuck, deleting,
  with_status,
}
use codex_latest.Agent.Env.{callback_event}
use codex_latest.Agent.Stored.{status-on_event, events-on_event}
use codex_latest.Agent.Execute.{Stepped, ok, raised}
use codex_latest.Agent.Sample.{step}
use codex_latest.LocalConversation.{
  LocalConversation, Request, serve_all, report_error, recover, failing, StopHooks, allowed, denied,
  Round, next, stop, failed_with, environment_event, after_step, approved, after_finish,
  detects_stuck, round,
}
use codex_latest.LocalConversation.Rounds.{serve_all-error}

module _ {X : Type 0} (c : LocalConversation X) where
  -- The status is an error, and the last event is the error of the conversation.
  abbrev pub Failed : State X → Type 0
  Failed t =
      (t.execution_status ≡ error)
      × ((before : List (Event X)) × (t.events
            ≡ before
              ++ environment_event c Source.environment "ConversationErrorEvent" before ∷ []))

  -- How a call of `run` ends.
  abbrev pub Ended : Stepped X → Type 0
  Ended (raised t) = Failed t
  Ended (ok t) =
      (t.execution_status ≡ paused)
      ⊎ (t.execution_status ≡ stuck)
      ⊎ (t.execution_status ≡ waiting_for_confirmation)
      ⊎ ((t.execution_status ≡ finished) × (c.run_stop t.events ≡ allowed))
      ⊎ Failed t

  -- How a turn goes on: the agent is stuck, it was denied to stop, or it made one more step.
  abbrev pub Continues : ℕ → State X → ℕ → State X → Type 0
  Continues i s j t =
      (s.execution_status ≢ stuck)
      × (((t.execution_status ≡ stuck) × (j ≡ i))
          ⊎ ((s.execution_status ≡ finished) × (t.execution_status ≡ running) × (j ≡ i))
          ⊎ ((j ≡ suc i) × (suc i < c.max_iteration_per_run)))

  abbrev pub Fits : ℕ → State X → Round X → Type 0
  Fits i s (next j t) = Continues i s j t
  Fits i s (stop r) = Ended r
  Fits i s (failing t) = Unit

  report_error-Failed : (s : State X) → s.execution_status ≡ error → Failed (report_error c s)
  unfolding callback_event
  report_error-Failed s h =
      let e = environment_event c Source.environment "ConversationErrorEvent" s.events in
      (status-on_event c.agent e s ∙ h, (s.events, events-on_event c.agent e s))

  failed_with-Failed : (s : State X) → Failed (failed_with c s)
  unfolding failed_with
  failed_with-Failed s = report_error-Failed (with_status error s) refl

  pub recover-Failed :
      (before between : List (Request X)) (s : State X) → Failed (recover c before between s)
  unfolding recover
  recover-Failed before between s =
      let t = with_status error (serve_all c before s) in
      report_error-Failed (serve_all c between t) (serve_all-error c between t refl)

  limit-Fits :
      (i : ℕ) (s t : State X) (b : Bool)
      → leb c.max_iteration_per_run (suc i) ≡ b
      → s.execution_status ≢ stuck
      → Fits i s (if b then stop (ok (failed_with c t)) else next (suc i) t)
  limit-Fits i s t true h n = inr (inr (inr (inr (failed_with-Failed t))))
  limit-Fits i s t false h n = (n, inr (inr (refl, ground (arith, h))))

  status-Fits :
      (i : ℕ) (s t : State X) (x : Status)
      → t.execution_status ≡ x
      → s.execution_status ≢ stuck
      → Fits i s (elim x as (λ y. Round X) [
        | waiting_for_confirmation ↦ stop (ok t)
        | _ ↦
            if leb c.max_iteration_per_run (suc i)
            then stop (ok (failed_with c t))
            else next (suc i) t
      ])
  status-Fits i s t waiting_for_confirmation h n = inr (inr (inl h))
  status-Fits i s t idle h n = limit-Fits i s t (leb c.max_iteration_per_run (suc i)) refl n
  status-Fits i s t running h n = limit-Fits i s t (leb c.max_iteration_per_run (suc i)) refl n
  status-Fits i s t paused h n = limit-Fits i s t (leb c.max_iteration_per_run (suc i)) refl n
  status-Fits i s t finished h n = limit-Fits i s t (leb c.max_iteration_per_run (suc i)) refl n
  status-Fits i s t error h n = limit-Fits i s t (leb c.max_iteration_per_run (suc i)) refl n
  status-Fits i s t stuck h n = limit-Fits i s t (leb c.max_iteration_per_run (suc i)) refl n
  status-Fits i s t deleting h n = limit-Fits i s t (leb c.max_iteration_per_run (suc i)) refl n

  after_step-Fits :
      (i : ℕ) (s : State X) (r : Stepped X)
      → s.execution_status ≢ stuck
      → Fits i s (after_step c i r)
  unfolding after_step
  after_step-Fits i s (raised t) n = tt
  after_step-Fits i s (ok t) n = status-Fits i s t t.execution_status refl n

  after_finish-Fits :
      (i : ℕ) (s : State X) (h : StopHooks X)
      → c.run_stop s.events ≡ h
      → s.execution_status ≡ finished
      → Fits i s (after_finish c i h s)
  unfolding after_finish
  after_finish-Fits i s allowed p f = inr (inr (inr (inl (f, p))))
  after_finish-Fits i s (denied feedback) p f =
      (λ q. absurd (cc (sym f ∙ q)), inr (inl (f, refl, refl)))

  stuck_or-Fits :
      (i : ℕ) (s : State X) (b : Bool) (r : Round X)
      → s.execution_status ≢ stuck
      → Fits i s r
      → Fits i s (if b then next i (with_status stuck s) else r)
  stuck_or-Fits i s true r n h = (n, inl (refl, refl))
  stuck_or-Fits i s false r n h = h

module _ {X : Type 0} ⦃e : Eq X⦄ (model_eq : Event X → Event X → Bool)
    (c : LocalConversation X) where
  step-Fits :
      (i : ℕ) (s : State X)
      → s.execution_status ≢ stuck
      → Fits c i s (
          if detects_stuck model_eq c s.events
          then next i (with_status stuck s)
          else after_step c i (step c.agent (approved c s)))
  step-Fits i s n =
      stuck_or-Fits c i s (detects_stuck model_eq c s.events)
        (after_step c i (step c.agent (approved c s))) n
        (after_step-Fits c i s (step c.agent (approved c s)) n)

  not_stuck :
      (x : Status) (s : State X) → s.execution_status ≡ x → x ≢ stuck → s.execution_status ≢ stuck
  not_stuck x s h n = λ p. n (sym h ∙ p)

  at_status-Fits :
      (i : ℕ) (s : State X) (x : Status)
      → s.execution_status ≡ x
      → Fits c i s (elim x as (λ y. Round X) [
        | paused ↦ stop (ok s)
        | stuck ↦ stop (ok s)
        | finished ↦ after_finish c i (c.run_stop s.events) s
        | _ ↦
            if detects_stuck model_eq c s.events
            then next i (with_status stuck s)
            else after_step c i (step c.agent (approved c s))
      ])
  at_status-Fits i s paused h = inl h
  at_status-Fits i s stuck h = inr (inl h)
  at_status-Fits i s finished h = after_finish-Fits c i s (c.run_stop s.events) refl h
  at_status-Fits i s idle h = step-Fits i s (not_stuck idle s h (λ p. cc p))
  at_status-Fits i s running h = step-Fits i s (not_stuck running s h (λ p. cc p))
  at_status-Fits i s waiting_for_confirmation h =
      step-Fits i s (not_stuck waiting_for_confirmation s h (λ p. cc p))
  at_status-Fits i s error h = step-Fits i s (not_stuck error s h (λ p. cc p))
  at_status-Fits i s deleting h = step-Fits i s (not_stuck deleting s h (λ p. cc p))

  pub round-Fits : (i : ℕ) (s : State X) → Fits c i s (round model_eq c i s)
  unfolding round
  round-Fits i s = at_status-Fits i s s.execution_status refl
