-- ===== src/Conversation/Pending.antt =====
-- `get_unmatched_actions` of state.py finds the pending actions, in order.
use codex_latest.Prelude.{
  String, ◌≡◌, refl, sym, ap, ◌∙◌, Bool, true, false, not, ◌&&◌, ◌||◌, List, [], ◌∷◌, ◌++◌, reverse,
  filter, any, contains, string_eq, ◌==◌, if◌then◌else◌, arith,
}
use codex_latest.Event.{
  Event, ActionEvent, action, observation, user_reject, agent_error, message, system_prompt,
  summary, condensation, condensation_request, other,
}
use mathlib.Core.List.{reverse-cons, append-nil}
use codex_latest.Conversation.{is_executable, scan, get_unmatched_actions}

module _ {X : Type 0} where
  -- The event is the result of the action, or its rejection.
  abbrev pub answers : String → Event X → Bool
  answers action_id (observation o) = o.action_id == action_id
  answers action_id (user_reject o) = o.action_id == action_id
  answers action_id _ = false

  -- The validated actions that nothing behind them answers, in order.
  unfoldable pub pending : List (Event X) → List (ActionEvent X)
  pending [] = []
  pending (action a ∷ events) =
      let rest = pending events in
      if is_executable a && not (any (answers a.id) events) then a ∷ rest else rest
  pending (e ∷ events) = pending events

  -- The ids of what the events answer, the first last.
  observed : List (Event X) → List String → List String
  observed [] ids = ids
  observed (observation o ∷ events) ids = observed events (o.action_id ∷ ids)
  observed (user_reject o ∷ events) ids = observed events (o.action_id ∷ ids)
  observed (e ∷ events) ids = observed events ids

  scan-append :
      (xs ys : List (Event X)) (ids : List String) (acc : List (ActionEvent X))
      → scan (xs ++ ys) ids acc ≡ scan ys (observed xs ids) (scan xs ids acc)
  unfolding scan observed
  scan-append [] ys ids acc = refl
  scan-append (action a ∷ xs) ys ids acc = scan-append xs ys ids _
  scan-append (observation o ∷ xs) ys ids acc = scan-append xs ys _ acc
  scan-append (user_reject o ∷ xs) ys ids acc = scan-append xs ys _ acc
  scan-append (agent_error o ∷ xs) ys ids acc = scan-append xs ys ids acc
  scan-append (message o ∷ xs) ys ids acc = scan-append xs ys ids acc
  scan-append (system_prompt o ∷ xs) ys ids acc = scan-append xs ys ids acc
  scan-append (summary o ∷ xs) ys ids acc = scan-append xs ys ids acc
  scan-append (condensation o ∷ xs) ys ids acc = scan-append xs ys ids acc
  scan-append (condensation_request o ∷ xs) ys ids acc = scan-append xs ys ids acc
  scan-append (other o ∷ xs) ys ids acc = scan-append xs ys ids acc

  contains-observed :
      (i : String) (xs : List (Event X)) (ids : List String)
      → contains (observed xs ids) i ≡ (contains ids i || any (answers i) xs)
  unfolding contains observed any
  contains-observed i [] ids = ground arith
  contains-observed i (observation o ∷ xs) ids =
      contains-observed i xs (o.action_id ∷ ids) ∙ ground arith
  contains-observed i (user_reject o ∷ xs) ids =
      contains-observed i xs (o.action_id ∷ ids) ∙ ground arith
  contains-observed i (action o ∷ xs) ids = contains-observed i xs ids
  contains-observed i (agent_error o ∷ xs) ids = contains-observed i xs ids
  contains-observed i (message o ∷ xs) ids = contains-observed i xs ids
  contains-observed i (system_prompt o ∷ xs) ids = contains-observed i xs ids
  contains-observed i (summary o ∷ xs) ids = contains-observed i xs ids
  contains-observed i (condensation o ∷ xs) ids = contains-observed i xs ids
  contains-observed i (condensation_request o ∷ xs) ids = contains-observed i xs ids
  contains-observed i (other o ∷ xs) ids = contains-observed i xs ids

  any-append :
      (p : Event X → Bool) (xs ys : List (Event X)) → any p (xs ++ ys) ≡ any p xs || any p ys
  unfolding any
  any-append p [] ys = refl
  any-append p (x ∷ xs) ys = ground (arith, any-append p xs ys)

  any-reverse : (p : Event X → Bool) (xs : List (Event X)) → any p (reverse xs) ≡ any p xs
  unfolding any
  any-reverse p [] = refl
  any-reverse p (x ∷ xs) =
      ap (any p) (reverse-cons x xs)
      ∙ any-append p (reverse xs) (x ∷ [])
      ∙ ground (arith, any-reverse p xs)

  scan_one :
      (e : Event X) (events : List (Event X))
      → get_unmatched_actions events ≡ pending events
      → scan (e ∷ []) (observed (reverse events) []) (pending events) ≡ pending (e ∷ events)
  unfolding scan pending any contains
  scan_one (action a) events h =
      let seen : contains (observed (reverse events) []) a.id ≡ any (answers a.id) events =
        contains-observed a.id (reverse events) [] ∙ any-reverse (answers a.id) events in
      rw seen refl
  scan_one (observation o) events h = refl
  scan_one (user_reject o) events h = refl
  scan_one (agent_error o) events h = refl
  scan_one (message o) events h = refl
  scan_one (system_prompt o) events h = refl
  scan_one (summary o) events h = refl
  scan_one (condensation o) events h = refl
  scan_one (condensation_request o) events h = refl
  scan_one (other o) events h = refl

  -- The scan from the end with a set of ids finds exactly the validated actions that no
  -- observation or rejection behind them answers, in chronological order.
  pub get_unmatched_actions-pending :
      (events : List (Event X)) → get_unmatched_actions events ≡ pending events
  unfolding get_unmatched_actions pending scan
  get_unmatched_actions-pending [] = refl
  get_unmatched_actions-pending (e ∷ events) =
      ap (λ l. scan l [] []) (reverse-cons e events)
      ∙ scan-append (reverse events) (e ∷ []) [] []
      ∙ ap (scan (e ∷ []) (observed (reverse events) [])) (get_unmatched_actions-pending events)
      ∙ scan_one e events (get_unmatched_actions-pending events)

  by_cases :
      (a : ActionEvent X) (l : List (ActionEvent X)) (x b c : Bool) (p : ActionEvent X → Bool)
      (r : List (ActionEvent X))
      → p a ≡ not c
      → (if x && not (b || c) then a ∷ (filter p l ++ r) else filter p l ++ r)
        ≡ filter p (if x && not b then a ∷ l else l) ++ r
  unfolding filter
  by_cases a l false b c p r h = refl
  by_cases a l true true c p r h = refl
  by_cases a l true false true p r h = rw h refl
  by_cases a l true false false p r h = rw h refl

  -- What more events leave pending.
  pub pending-append :
      (xs ys : List (Event X))
      → pending (xs ++ ys) ≡ filter (λ a. not (any (answers a.id) ys)) (pending xs) ++ pending ys
  unfolding pending filter
  pending-append [] ys = refl
  pending-append (action a ∷ xs) ys =
      rw (any-append (answers a.id) xs ys, pending-append xs ys)
        (by_cases a (pending xs) (is_executable a) (any (answers a.id) xs) (any (answers a.id) ys)
          (λ b. not (any (answers b.id) ys)) (pending ys) refl)
  pending-append (observation o ∷ xs) ys = pending-append xs ys
  pending-append (user_reject o ∷ xs) ys = pending-append xs ys
  pending-append (agent_error o ∷ xs) ys = pending-append xs ys
  pending-append (message o ∷ xs) ys = pending-append xs ys
  pending-append (system_prompt o ∷ xs) ys = pending-append xs ys
  pending-append (summary o ∷ xs) ys = pending-append xs ys
  pending-append (condensation o ∷ xs) ys = pending-append xs ys
  pending-append (condensation_request o ∷ xs) ys = pending-append xs ys
  pending-append (other o ∷ xs) ys = pending-append xs ys

  keep_all :
      (p : ActionEvent X → Bool) (actions : List (ActionEvent X))
      → ((a : ActionEvent X) → p a ≡ true)
      → filter p actions ≡ actions
  unfolding filter
  keep_all p [] h = refl
  keep_all p (a ∷ actions) h = rw (h a, keep_all p actions h) refl

  -- An event that is neither an action nor an answer leaves what is pending.
  pub get_unmatched_actions-unanswered :
      (events : List (Event X)) (e : Event X)
      → ((action_id : String) → answers action_id e ≡ false)
      → pending (e ∷ []) ≡ []
      → get_unmatched_actions (events ++ e ∷ []) ≡ get_unmatched_actions events
  unfolding any
  get_unmatched_actions-unanswered events e h k =
      get_unmatched_actions-pending (events ++ e ∷ [])
      ∙ pending-append events (e ∷ [])
      ∙ ap (λ l. filter (λ a. not (any (answers a.id) (e ∷ []))) (pending events) ++ l) k
      ∙ append-nil _
      ∙ keep_all (λ a. not (any (answers a.id) (e ∷ []))) (pending events) (λ a. rw (h a.id) refl)
      ∙ sym (get_unmatched_actions-pending events)
