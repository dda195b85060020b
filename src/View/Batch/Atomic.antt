-- ===== src/View/Batch/Atomic.antt =====
-- Batch atomicity: `_enforce_batch_atomicity` of view.py keeps or drops the actions of a response
-- together.
use codex_latest.Prelude.{
  String, ◌≡◌, refl, sym, ap, ◌∙◌, inl, inr, true, false, not, not-false, List, [], ◌∷◌, Memᴰ, head,
  tail, Dict, lookup_of_mem, mem_of_lookup, string_eq, Bool-cases, filter, contains,
  mem-append_left, mem-append_right, mem-append_cases, mem_of_mem-filter, mem-filter_of_mem,
  contains_of_mem, mem_of_contains, not_mem_of_contains, subst, ◌↔◌, any_of_mem, mem_of_any,
  mem-map, mem_of_mem-map,
}
use codex_latest.Event.{Event, ActionEvent, action, event_id, event_ids, IsWellIdentified}
use codex_latest.View.Batch.{
  from_events, is_partial, ids_to_remove, without_ids, enforce, enforce_batch_atomicity,
}
use codex_latest.View.Batch.Collect.{Collects-from_events}
use codex_latest.View.Batch.Laws.{action-injective}

mem-ids_to_remove_cases :
    (view : List String) (d : Dict String (List String)) {i : String}
    → Memᴰ i (ids_to_remove view d)
    → (r : String) × (ids : List String) × Memᴰ (r, ids) d
      × Memᴰ i ids
      × (is_partial view ids ≡ true)
unfolding ids_to_remove
mem-ids_to_remove_cases view [] m = elim m [ ]
mem-ids_to_remove_cases view ((r, ids) ∷ d) {i} m = elim (Bool-cases (is_partial view ids)) [
  | inl y ↦ elim (mem-append_cases ids (ids_to_remove view d) (rw y at m)) [
    | inl k ↦ (r, ids, head refl, k, y)
    | inr k ↦ let (r', ids', n, l, z) = mem-ids_to_remove_cases view d k in (r', ids', tail n, l, z)
  ]
  | inr n ↦
      let (r', ids', n, l, z) = mem-ids_to_remove_cases view d (rw n at m) in
      (r', ids', tail n, l, z)
]

mem-ids_to_remove :
    (view : List String) (d : Dict String (List String)) {i r : String} {ids : List String}
    → Memᴰ (r, ids) d
    → Memᴰ i ids
    → is_partial view ids ≡ true
    → Memᴰ i (ids_to_remove view d)
unfolding ids_to_remove
mem-ids_to_remove view [] m k h = elim m [ ]
mem-ids_to_remove view ((r, ids) ∷ d) {i} (head p) k h =
    let q = ap (λ (e : String × List String). e.1) p in
    let h' : is_partial view ids ≡ true = rw q at h in
    let k' : Memᴰ i ids = rw q at k in rw h' (mem-append_left ids (ids_to_remove view d) k')
mem-ids_to_remove view ((r, ids) ∷ d) (tail m) k h = elim (Bool-cases (is_partial view ids)) [
  | inl y ↦ rw y (mem-append_right ids (ids_to_remove view d) (mem-ids_to_remove view d m k h))
  | inr n ↦ rw n (mem-ids_to_remove view d m k h)
]

is_partial_of_mem :
    (view ids : List String) {i : String}
    → Memᴰ i ids
    → contains view i ≡ false
    → is_partial view ids ≡ true
unfolding is_partial
is_partial_of_mem view ids m h = any_of_mem (λ i. not (contains view i)) ids m (rw h)

missing_of_is_partial :
    (view ids : List String)
    → is_partial view ids ≡ true
    → (i : String) × Memᴰ i ids × (contains view i ≡ false)
unfolding is_partial
missing_of_is_partial view ids h =
    let (i, m, t) = mem_of_any (λ i. not (contains view i)) ids h in (i, m, not-false _ t)

module _ {X : Type 0} where
  without_no_ids : (events : List (Event X)) → without_ids [] events ≡ events
  unfolding without_ids filter contains
  without_no_ids [] = refl
  without_no_ids (e ∷ events) = ap (◌∷◌ e) (without_no_ids events)

  enforce_lem :
      (view all_events : List (Event X))
      → enforce_batch_atomicity view all_events
        ≡ without_ids (ids_to_remove (event_ids view) (from_events all_events).batches) view
  unfolding enforce_batch_atomicity ids_to_remove
  enforce_lem view all_events = go (from_events all_events).batches
    where
      go :
          (d : Dict String (List String))
          → enforce d view ≡ without_ids (ids_to_remove (event_ids view) d) view
      go [] = sym (without_no_ids view)
      go (e ∷ d) = refl

  -- Every action of the history that shares its response with the action of this id is in `view`.
  abbrev pub IsWhole : (view all_events : List (Event X)) → String → Type 0
  IsWhole view all_events i =
      (a b : ActionEvent X)
      → Memᴰ (action a) all_events
      → Memᴰ (action b) all_events
      → a.id ≡ i
      → a.llm_response_id ≡ b.llm_response_id
      → Memᴰ b.id (event_ids view)

  same_response :
      (a b : ActionEvent X)
      → ◌≡◌ {A = Event X} (action a) (action b)
      → a.llm_response_id ≡ b.llm_response_id
  same_response a b p = ap (λ (x : ActionEvent X). x.llm_response_id) (action-injective p)

  module _ (view all_events : List (Event X)) where
    abbrev removed : List String
    removed = ids_to_remove (event_ids view) (from_events all_events).batches

    removed_of_missing :
        (a b : ActionEvent X)
        → Memᴰ (action a) all_events
        → Memᴰ (action b) all_events
        → a.llm_response_id ≡ b.llm_response_id
        → contains (event_ids view) b.id ≡ false
        → contains removed a.id ≡ true
    removed_of_missing a b ma mb q n =
        let c = Collects-from_events all_events in
        let (ids, h, k) = c.batched a ma in
        let (ids', h', k') = c.batched b mb in
        let same : ids' ≡ ids = cc in
        contains_of_mem removed (
          mem-ids_to_remove (event_ids view) (from_events all_events).batches
            (mem_of_lookup (from_events all_events).batches a.llm_response_id h) k
            (is_partial_of_mem (event_ids view) ids (subst (λ l. Memᴰ b.id l) same k') n))

    IsWhole-of_kept : (i : String) → contains removed i ≡ false → IsWhole view all_events i
    IsWhole-of_kept i kept a b ma mb p q = elim (Bool-cases (contains (event_ids view) b.id)) [
      | inl y ↦ mem_of_contains (event_ids view) b.id y
      | inr n ↦
          let r : contains removed i ≡ true = rw (← p) (removed_of_missing a b ma mb q n) in
          absurd (cc)
    ]

    not-IsWhole_of_removed : (i : String) → Memᴰ i removed → ¬ IsWhole view all_events i
    not-IsWhole_of_removed i m whole =
        let c = Collects-from_events all_events in
        let (r, ids, n, k, partial) =
          mem-ids_to_remove_cases (event_ids view) (from_events all_events).batches m in
        let (j, l, missing) = missing_of_is_partial (event_ids view) ids partial in
        let found = lookup_of_mem (from_events all_events).batches c.distinct n in
        let (a, ma, p, q) = c.origin r i ids found k in
        let (b, mb, p', q') = c.origin r j ids found l in
        not_mem_of_contains (event_ids view) j missing
          (subst (λ x. Memᴰ x (event_ids view)) p' (whole a b ma mb p (q ∙ sym q')))

    kept_of_whole : (i : String) → IsWhole view all_events i → contains removed i ≡ false
    kept_of_whole i whole = elim (Bool-cases (contains removed i)) [
      | inl y ↦ absurd (not-IsWhole_of_removed i (mem_of_contains removed i y) whole)
      | inr n ↦ n
    ]

    -- An event stays in the view exactly when every action of the history that shares its response
    -- with an action of the event's id is in the view.
    pub mem-enforce_batch_atomicity :
        (e : Event X)
        → Memᴰ e (enforce_batch_atomicity view all_events)
          ↔ (Memᴰ e view × IsWhole view all_events (event_id e))
    unfolding without_ids
    mem-enforce_batch_atomicity e = (
      λ m.
          let (k, t) =
            mem_of_mem-filter _ view (subst (λ l. Memᴰ e l) (enforce_lem view all_events) m) in
          (k, IsWhole-of_kept (event_id e) (not-false _ t)),
      λ h.
          subst (λ l. Memᴰ e l) (sym (enforce_lem view all_events))
            (mem-filter_of_mem _ view h.0 (rw (kept_of_whole (event_id e) h.1))),
    )

    -- Where ids are unique in the history, the actions of one response are kept or dropped
    -- together.
    pub enforce_batch_atomicity-together :
        IsWellIdentified all_events
        → (a b : ActionEvent X) → Memᴰ (action a) all_events
        → Memᴰ (action b) all_events
        → a.llm_response_id ≡ b.llm_response_id
        → Memᴰ a.id (event_ids (enforce_batch_atomicity view all_events))
        → Memᴰ b.id (event_ids (enforce_batch_atomicity view all_events))
    enforce_batch_atomicity-together u a b ma mb q m =
        let (e, me, p) = mem_of_mem-map event_id (enforce_batch_atomicity view all_events) m in
        let whole = ((mem-enforce_batch_atomicity e).0 me).1 in
        let (f, mf, p') = mem_of_mem-map event_id view (whole a b ma mb p q) in
        let kept = (mem-enforce_batch_atomicity f).1 (
          mf,
          λ a' b' ma' mb' r s.
              whole a b' ma mb' p
                (q ∙ same_response b a' (u.by_id (action b) (action a') mb ma' (p' ∙ sym r)) ∙ s),
        ) in
        subst (λ i. Memᴰ i (event_ids (enforce_batch_atomicity view all_events))) (sym p')
          (mem-map event_id _ kept)
