-- ===== src/View/Batch/Collect.antt =====
-- `ActionBatch.from_events` of view.py, over a whole history.
use codex_latest.Prelude.{
  ◌≡◌, refl, ap, ◌∙◌, ◌⊎◌, inl, inr, Option, none, some, List, [], ◌∷◌, ◌++◌, Memᴰ, head, tail,
  lookup, string_eq, mem-append_left, mem-append_right, mem-append_cases,
}
use codex_latest.Event.{Event, ActionEvent, action, as_action}
use codex_latest.View.Batch.{ActionBatch, no_actions, add_event, add_events, from_events}
use codex_latest.View.Batch.Laws.{Collects, Collects-add_action}

module _ {X : Type 0} where
  Collects-same :
      {s s' : List (Event X)} {b : ActionBatch}
      → ((a : ActionEvent X) → Memᴰ (action a) s → Memᴰ (action a) s')
      → ((a : ActionEvent X) → Memᴰ (action a) s' → Memᴰ (action a) s)
      → Collects s b
      → Collects s' b
  Collects-same to from c = record {
    distinct = c.distinct;
    batched = λ a m. c.batched a (from a m);
    origin = λ r i ids h m. let (a, k, p, q) = c.origin r i ids h m in (a, to a k, p, q);
    calls_distinct = c.calls_distinct;
    called = λ a m. c.called a (from a m);
    call_origin = λ i t h. let (a, k, p, q) = c.call_origin i t h in (a, to a k, p, q);
  }

  not_action :
      (e : Event X) (seen : List (Event X))
      → as_action e ≡ none
      → (a : ActionEvent X) → Memᴰ (action a) (e ∷ seen)
      → Memᴰ (action a) seen
  not_action e seen h a (head p) = absurd (absurd_action (ap as_action p ∙ h))
    where
      absurd_action : ◌≡◌ {A = Option (ActionEvent X)} (some a) none → ⊥
      absurd_action q = cc
  not_action e seen h a (tail m) = m

  Collects-skip :
      {seen : List (Event X)} {b : ActionBatch} (e : Event X)
      → as_action e ≡ none
      → Collects seen b
      → Collects (e ∷ seen) b
  Collects-skip {seen} e h c = Collects-same (λ a m. tail m) (not_action e seen h) c

  Collects-add_event :
      {seen : List (Event X)} {b : ActionBatch} (e : Event X)
      → Collects seen b
      → Collects (e ∷ seen) (add_event (as_action e) b)
  unfolding add_event
  Collects-add_event (action a) c = Collects-add_action c a
  Collects-add_event e c = Collects-skip e refl c

  middle :
      (e : Event X) (es seen : List (Event X)) {a : Event X}
      → Memᴰ a (es ++ e ∷ seen)
      → Memᴰ a (e ∷ es ++ seen)
  middle e es seen m = elim (mem-append_cases es (e ∷ seen) m) [
    | inl k ↦ tail (mem-append_left es seen k)
    | inr (head p) ↦ head p
    | inr (tail k) ↦ tail (mem-append_right es seen k)
  ]

  middle_back :
      (e : Event X) (es seen : List (Event X)) {a : Event X}
      → Memᴰ a (e ∷ es ++ seen)
      → Memᴰ a (es ++ e ∷ seen)
  middle_back e es seen (head p) = mem-append_right es (e ∷ seen) (head p)
  middle_back e es seen (tail m) = elim (mem-append_cases es seen m) [
    | inl k ↦ mem-append_left es (e ∷ seen) k
    | inr k ↦ mem-append_right es (e ∷ seen) (tail k)
  ]

  Collects-add_events :
      (es seen : List (Event X)) {b : ActionBatch}
      → Collects seen b
      → Collects (es ++ seen) (add_events es b)
  unfolding add_events
  Collects-add_events [] seen c = c
  Collects-add_events (e ∷ es) seen c =
      Collects-same (λ a. middle e es seen) (λ a. middle_back e es seen)
        (Collects-add_events es (e ∷ seen) (Collects-add_event e c))

  Collects-no_actions : Collects {X = X} [] no_actions
  unfolding lookup
  Collects-no_actions = record {
    distinct = tt;
    batched = λ a m. elim m [ ];
    origin = λ r i ids h m. absurd (cc);
    calls_distinct = tt;
    called = λ a m. elim m [ ];
    call_origin = λ i t h. absurd (cc);
  }

  pub Collects-from_events : (events : List (Event X)) → Collects events (from_events events)
  Collects-from_events events =
      Collects-same (λ a m. events_of a (mem-append_cases events [] m))
        (λ a m. mem-append_left events [] m) (Collects-add_events events [] Collects-no_actions)
    where
      events_of :
          (a : ActionEvent X) → Memᴰ (action a) events ⊎ Memᴰ (action a) [] → Memᴰ (action a) events
      events_of a (inl m) = m
      events_of a (inr m) = elim m [ ]
