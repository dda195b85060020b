-- ===== src/LocalConversation/Requests.antt =====
-- What the requests leave behind: `reject_pending_actions`, `condense`, and a stuck conversation.
use codex_latest.Prelude.{
  ℕ, suc, ◌≡◌, ◌≢◌, refl, sym, ap, ◌∙◌, subst, Bool, true, false, not, String, Option, none, some,
  List, [], ◌∷◌, ◌++◌, Memᴰ, head, tail, any, mem_of_mem-filter, string_eq, ◌==◌, Eq, if◌then◌else◌,
  arith,
}
use mathlib.Core.List.{append_assoc, append-nil}
use codex_latest.Event.{Event, ActionEvent, condensation_request}
use codex_latest.Conversation.{
  State, Status, idle, running, paused, waiting_for_confirmation, finished, error, stuck, deleting,
  with_status, get_unmatched_actions,
}
use codex_latest.Conversation.Pending.{
  answers, pending, pending-append, get_unmatched_actions-unanswered, get_unmatched_actions-pending,
}
use codex_latest.Agent.Env.{on_event, callback_event}
use codex_latest.Agent.Stored.{events-on_event}
use codex_latest.Agent.Execute.{Stepped, ok, raised, rejection}
use codex_latest.Agent.Results.{AreResultsOf, execute_actions-AreResultsOf}
use codex_latest.Agent.Sample.{plain, handles_requests, step_pending, step}
use codex_latest.LocalConversation.{
  LocalConversation, Request, Round, next, stop, failing, recover, after_finish, after_step,
  approved, detects_stuck, reject_all, cleared, on_reject, serve_all, condense, started, round,
  run_loop, run,
}
use codex_latest.LocalConversation.Rounds.{serve_all-stuck, status-reject_all}

module _ {X : Type 0} where
  no_members : (l : List (ActionEvent X)) → ((b : ActionEvent X) → ¬ (Memᴰ b l)) → l ≡ []
  no_members [] h = refl
  no_members (a ∷ l) h = absurd (h a (head refl))

module _ {X : Type 0} (c : LocalConversation X) where
  -- After the rejection of `a`, what is pending was pending before, and is not `a`.
  pending-rejection :
      (reason : String) (a b : ActionEvent X) (s : State X)
      → Memᴰ b (pending (on_event c.agent (rejection c.agent a reason s.events) s).events)
      → Memᴰ b (pending s.events) × ((a.id == b.id) ≡ false)
  unfolding pending any callback_event
  pending-rejection reason a b s m =
      let e = rejection c.agent a reason s.events in
      let q =
        ap pending (events-on_event c.agent e s)
        ∙ pending-append s.events (e ∷ [])
        ∙ append-nil _ in
      let kept =
        mem_of_mem-filter (λ d. not (any (answers d.id) (e ∷ []))) (pending s.events)
          (subst (λ l. Memᴰ b l) q m) in
      (kept.0, ground (arith, kept.1))

  reject_all-pending :
      (reason : String) (actions : List (ActionEvent X)) (s : State X)
      → ((b : ActionEvent X) → Memᴰ b (pending s.events) → Memᴰ b actions)
      → pending (reject_all c reason actions s).events ≡ []
  unfolding reject_all
  reject_all-pending reason [] s h = no_members (pending s.events) (λ b m. elim (h b m) [ ])
  reject_all-pending reason (a ∷ actions) s h =
      reject_all-pending reason actions (on_event c.agent (rejection c.agent a reason s.events) s)
        (λ b m.
          let (k, n) = pending-rejection reason a b s m in
          elim (h b k) [
            | head p ↦ absurd (
                cc (
                  sym ((string_eq.reflects a.id b.id).1 (ap (λ (d : ActionEvent X). d.id) (sym p)))
                  ∙ n))
            | tail t ↦ t
          ])

  not_waiting :
      (x : Status) (s : State X)
      → s.execution_status ≡ x
      → (elim x as (λ y. State X) [
        | waiting_for_confirmation ↦ with_status idle s
        | _ ↦ s
      ]).execution_status
        ≢ waiting_for_confirmation
  not_waiting waiting_for_confirmation s h = λ p. cc p
  not_waiting idle s h = λ p. cc (sym h ∙ p)
  not_waiting running s h = λ p. cc (sym h ∙ p)
  not_waiting paused s h = λ p. cc (sym h ∙ p)
  not_waiting finished s h = λ p. cc (sym h ∙ p)
  not_waiting error s h = λ p. cc (sym h ∙ p)
  not_waiting stuck s h = λ p. cc (sym h ∙ p)
  not_waiting deleting s h = λ p. cc (sym h ∙ p)

  events-cleared :
      (x : Status) (s : State X)
      → (elim x as (λ y. State X) [ waiting_for_confirmation ↦ with_status idle s | _ ↦ s ]).events
        ≡ s.events
  events-cleared waiting_for_confirmation s = refl
  events-cleared idle s = refl
  events-cleared running s = refl
  events-cleared paused s = refl
  events-cleared finished s = refl
  events-cleared error s = refl
  events-cleared stuck s = refl
  events-cleared deleting s = refl

  -- After a rejection that saw the current events, no action is pending, and the conversation
  -- does not wait for a confirmation.
  pub get_unmatched_actions-on_reject :
      (reason : String) (s : State X)
      → let t = on_reject c reason s.events s in
        (get_unmatched_actions t.events ≡ []) × (t.execution_status ≢ waiting_for_confirmation)
  unfolding on_reject
  get_unmatched_actions-on_reject reason s =
      let actions = get_unmatched_actions s.events in
      let u = cleared c s in
      let seen : pending u.events ≡ actions =
        ap pending (events-cleared s.execution_status s)
        ∙ sym (get_unmatched_actions-pending s.events) in
      (
        get_unmatched_actions-pending _
            ∙ reject_all-pending reason actions u (λ b m. subst (λ l. Memᴰ b l) seen m),
        λ p. not_waiting s.execution_status s refl (sym (status-reject_all c reason actions u) ∙ p),
      )

  only_if_some : (b : Bool) (r q : Stepped X) → (if b then some r else none) ≡ some q → r ≡ q
  only_if_some true r q p = cc p
  only_if_some false r q p = absurd (cc p)

  -- With actions pending, a call of `condense` that returns has not condensed: the events it adds
  -- are its condensation request and one result for each pending action, in order, whether or not
  -- the user has confirmed it.
  pub condense-AreResultsOf :
      (a : ActionEvent X) (actions : List (ActionEvent X)) (s t : State X)
      → get_unmatched_actions s.events ≡ a ∷ actions
      → condense c s ≡ some (ok t)
      → let request = condensation_request (plain c.agent "CondensationRequest" s.events) in
        (new : List (Event X)) × (t.events ≡ s.events ++ request ∷ new)
        × AreResultsOf (a ∷ actions) new
  unfolding condense step step_pending callback_event pending
  condense-AreResultsOf a actions s t p q =
      let e = condensation_request (plain c.agent "CondensationRequest" s.events) in
      let u = on_event c.agent e s in
      let stepped =
        only_if_some (handles_requests c.agent c.agent.condenser) (step c.agent u) (ok t) q in
      let still : get_unmatched_actions u.events ≡ a ∷ actions =
        ap get_unmatched_actions (events-on_event c.agent e s)
        ∙ get_unmatched_actions-unanswered s.events e (λ i. refl) refl
        ∙ p in
      let (new, added, are_results, k) =
        execute_actions-AreResultsOf c.agent (a ∷ actions) u t
          (ap (λ l. step_pending c.agent l u) (sym still) ∙ stepped) in
      (
        new,
        added
            ∙ ap (λ l. l ++ new) (events-on_event c.agent e s)
            ∙ append_assoc s.events (e ∷ []) new,
        are_results,
      )

module _ {X : Type 0} ⦃e : Eq X⦄ (model_eq : Event X → Event X → Bool)
    (c : LocalConversation X) where
  round-stuck :
      (i : ℕ) (s : State X) → s.execution_status ≡ stuck → round model_eq c i s ≡ stop (ok s)
  unfolding round
  round-stuck i s h =
      ap
        (λ x. elim x as (λ y. Round X) [
          | paused ↦ stop (ok s)
          | stuck ↦ stop (ok s)
          | finished ↦ after_finish c i (c.run_stop s.events) s
          | _ ↦
              if detects_stuck model_eq c s.events
              then next i (with_status stuck s)
              else after_step c i (step c.agent (approved c s))
        ])
        h

  loop-stuck :
      (fuel : ℕ) (schedule : ℕ → List (Request X)) (i : ℕ) (s : State X)
      → s.execution_status ≡ stuck
      → run_loop model_eq c (suc fuel) schedule i s ≡ some (ok (serve_all c (schedule 0) s))
  unfolding run_loop
  loop-stuck fuel schedule i s h =
      ap
        (λ r. elim r as (λ y. Option (Stepped X)) [
          | stop t ↦ some t
          | failing t ↦ some (raised (recover c (schedule 1) (schedule 2) t))
          | next j t ↦ run_loop model_eq c fuel (λ n. schedule (suc n)) j t
        ])
        (round-stuck i (serve_all c (schedule 0) s) (serve_all-stuck c (schedule 0) s h))

  -- A call of `run` on a stuck conversation returns in its first turn: the state is what the
  -- requests served before that turn made of it (new messages, pauses, rejections, other policies
  -- and analyzers), no step of the agent, and it is still stuck.
  pub run-stuck :
      (fuel : ℕ) (schedule : ℕ → List (Request X)) (s : State X)
      → s.execution_status ≡ stuck
      → let served = serve_all c (schedule 0) s in
        (run model_eq c (suc fuel) schedule s ≡ some (ok served))
        × (served.execution_status ≡ stuck)
  unfolding run
  run-stuck fuel schedule s h =
      let same : started c s ≡ s =
        ap
          (λ x. elim x as (λ y. State X) [
            | idle ↦ with_status running s
            | paused ↦ with_status running s
            | error ↦ with_status running s
            | _ ↦ s
          ])
          h in
      (
        ap (run_loop model_eq c (suc fuel) schedule 0) same ∙ loop-stuck fuel schedule 0 s h,
        serve_all-stuck c (schedule 0) s h,
      )
