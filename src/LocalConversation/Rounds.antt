-- ===== src/LocalConversation/Rounds.antt =====
-- What the requests of other threads and one turn of the loop do to the status.
use codex_latest.Prelude.{◌≡◌, refl, sym, ◌∙◌, subst, String, List, [], ◌∷◌}
use codex_latest.Event.{ActionEvent, Source}
use codex_latest.Conversation.{
  State, Status, idle, running, paused, waiting_for_confirmation, finished, error, stuck, deleting,
  with_status, get_unmatched_actions,
}
use codex_latest.Agent.Env.{on_event}
use codex_latest.Agent.Stored.{status-on_event}
use codex_latest.Agent.Execute.{rejection}
use codex_latest.Agent.Sample.{message_event}
use codex_latest.LocalConversation.{
  LocalConversation, Request, send_message, pause, reject_pending_actions, set_confirmation_policy,
  set_security_analyzer, woken, on_send_message, paused_at, on_pause, reject_all, cleared,
  on_reject, serve, serve_all, environment_event,
}

-- How a request may move the status.
pub data Moves : Status → Status → Type 0 where
  same : {x : Status} → Moves x x
  wakes : Moves finished idle
  clears : Moves waiting_for_confirmation idle
  pauses_idle : Moves idle paused
  pauses_running : Moves running paused

finished-Moves : (x y : Status) → Moves x y → y ≡ finished → x ≡ finished
finished-Moves x y same h = h
finished-Moves x y wakes h = refl
finished-Moves x y clears h = absurd (cc h)
finished-Moves x y pauses_idle h = absurd (cc h)
finished-Moves x y pauses_running h = absurd (cc h)

stuck-Moves : (x y : Status) → Moves x y → x ≡ stuck → y ≡ stuck
stuck-Moves x y same h = h
stuck-Moves x y wakes h = absurd (cc h)
stuck-Moves x y clears h = absurd (cc h)
stuck-Moves x y pauses_idle h = absurd (cc h)
stuck-Moves x y pauses_running h = absurd (cc h)

error-Moves : (x y : Status) → Moves x y → x ≡ error → y ≡ error
error-Moves x y same h = h
error-Moves x y wakes h = absurd (cc h)
error-Moves x y clears h = absurd (cc h)
error-Moves x y pauses_idle h = absurd (cc h)
error-Moves x y pauses_running h = absurd (cc h)

module _ {X : Type 0} (c : LocalConversation X) where
  woken-Moves :
      (x : Status) (s : State X)
      → s.execution_status ≡ x
      → Moves x
          (elim x as (λ y. State X) [ finished ↦ with_status idle s | _ ↦ s ]).execution_status
  woken-Moves finished s h = wakes
  woken-Moves idle s h = subst (Moves idle) (sym h) same
  woken-Moves running s h = subst (Moves running) (sym h) same
  woken-Moves paused s h = subst (Moves paused) (sym h) same
  woken-Moves waiting_for_confirmation s h = subst (Moves waiting_for_confirmation) (sym h) same
  woken-Moves error s h = subst (Moves error) (sym h) same
  woken-Moves stuck s h = subst (Moves stuck) (sym h) same
  woken-Moves deleting s h = subst (Moves deleting) (sym h) same

  on_send_message-Moves :
      (content : X) (s : State X)
      → Moves s.execution_status (on_send_message c content s).execution_status
  unfolding on_send_message
  on_send_message-Moves content s =
      subst (Moves s.execution_status)
        (sym (
          status-on_event c.agent (message_event c.agent Source.user content s.events) (woken c s)))
        (woken-Moves s.execution_status s refl)

  status-paused_at : (s : State X) → (paused_at c s).execution_status ≡ paused
  status-paused_at s =
      status-on_event c.agent (environment_event c Source.user "PauseEvent" s.events)
        (with_status paused s)

  pause-Moves :
      (x : Status) (s : State X)
      → s.execution_status ≡ x
      → Moves x
          (elim x as (λ y. State X) [
            | idle ↦ paused_at c s
            | running ↦ paused_at c s
            | _ ↦ s
          ]).execution_status
  pause-Moves idle s h = subst (Moves idle) (sym (status-paused_at s)) pauses_idle
  pause-Moves running s h = subst (Moves running) (sym (status-paused_at s)) pauses_running
  pause-Moves paused s h = subst (Moves paused) (sym h) same
  pause-Moves waiting_for_confirmation s h = subst (Moves waiting_for_confirmation) (sym h) same
  pause-Moves finished s h = subst (Moves finished) (sym h) same
  pause-Moves error s h = subst (Moves error) (sym h) same
  pause-Moves stuck s h = subst (Moves stuck) (sym h) same
  pause-Moves deleting s h = subst (Moves deleting) (sym h) same

  cleared-Moves :
      (x : Status) (s : State X)
      → s.execution_status ≡ x
      → Moves x
          (elim x as (λ y. State X) [
            | waiting_for_confirmation ↦ with_status idle s
            | _ ↦ s
          ]).execution_status
  cleared-Moves waiting_for_confirmation s h = clears
  cleared-Moves idle s h = subst (Moves idle) (sym h) same
  cleared-Moves running s h = subst (Moves running) (sym h) same
  cleared-Moves paused s h = subst (Moves paused) (sym h) same
  cleared-Moves finished s h = subst (Moves finished) (sym h) same
  cleared-Moves error s h = subst (Moves error) (sym h) same
  cleared-Moves stuck s h = subst (Moves stuck) (sym h) same
  cleared-Moves deleting s h = subst (Moves deleting) (sym h) same

  pub status-reject_all :
      (reason : String) (actions : List (ActionEvent X)) (s : State X)
      → (reject_all c reason actions s).execution_status ≡ s.execution_status
  unfolding reject_all
  status-reject_all reason [] s = refl
  status-reject_all reason (a ∷ actions) s =
      let e = rejection c.agent a reason s.events in
      status-reject_all reason actions (on_event c.agent e s) ∙ status-on_event c.agent e s

  -- What each request of another thread may do to the status.
  pub serve-Moves :
      (r : Request X) (s : State X) → Moves s.execution_status (serve c r s).execution_status
  unfolding serve on_pause on_reject
  serve-Moves (send_message content) s = on_send_message-Moves content s
  serve-Moves pause s = pause-Moves s.execution_status s refl
  serve-Moves (reject_pending_actions reason seen) s =
      subst (Moves s.execution_status)
        (sym (status-reject_all reason (get_unmatched_actions seen) (cleared c s)))
        (cleared-Moves s.execution_status s refl)
  serve-Moves (set_confirmation_policy policy) s = same
  serve-Moves (set_security_analyzer analyzer) s = same

  pub serve_all-finished :
      (requests : List (Request X)) (s : State X)
      → (serve_all c requests s).execution_status ≡ finished
      → s.execution_status ≡ finished
  unfolding serve_all
  serve_all-finished [] s h = h
  serve_all-finished (r ∷ requests) s h =
      finished-Moves s.execution_status (serve c r s).execution_status (serve-Moves r s)
        (serve_all-finished requests (serve c r s) h)

  pub serve_all-stuck :
      (requests : List (Request X)) (s : State X)
      → s.execution_status ≡ stuck
      → (serve_all c requests s).execution_status ≡ stuck
  unfolding serve_all
  serve_all-stuck [] s h = h
  serve_all-stuck (r ∷ requests) s h =
      serve_all-stuck requests (serve c r s)
        (stuck-Moves s.execution_status (serve c r s).execution_status (serve-Moves r s) h)

  pub serve_all-error :
      (requests : List (Request X)) (s : State X)
      → s.execution_status ≡ error
      → (serve_all c requests s).execution_status ≡ error
  unfolding serve_all
  serve_all-error [] s h = h
  serve_all-error (r ∷ requests) s h =
      serve_all-error requests (serve c r s)
        (error-Moves s.execution_status (serve c r s).execution_status (serve-Moves r s) h)
