-- ===== src/View/Filter/Matched.antt =====
-- Tool calls and their results are paired after `_filter_unmatched_tool_calls` of view.py.
use codex_latest.Prelude.{
  String, ◌≡◌, refl, sym, ap, ◌∙◌, subst, inl, inr, true, false, not-false, some, List, Memᴰ,
  lookup, mem_of_lookup, string_eq, Bool-cases, contains, mem_of_mem-filter, mem-filter_map,
  mem_of_mem-filter_map, mem-filter_of_mem, contains_of_mem, mem_of_contains, mem_of_mem-map, arith,
}
use codex_latest.Event.{
  Event, ActionEvent, action, as_observation, event_id, event_ids, IsWellIdentified,
}
use codex_latest.View.Batch.{from_events, enforce_batch_atomicity}
use codex_latest.View.Batch.Collect.{Collects-from_events}
use codex_latest.View.Batch.Laws.{action-injective}
use codex_latest.View.Batch.Atomic.{mem-enforce_batch_atomicity}
use codex_latest.View.Filter.{
  action_call, gone_call, get_action_tool_call_ids, should_keep_event, keep_paired,
  tool_call_ids_to_remove, answers_one_of, drop_orphans, filter_unmatched_tool_calls,
}

pub gone_call_eq :
    (kept : List String) (i s : String) {t : String}
    → gone_call kept (i, s) ≡ some t
    → (contains kept i ≡ false) × (s ≡ t)
gone_call_eq kept i s h = ground arith

module _ {X : Type 0} where
  pub mem-action_ids :
      (events : List (Event X)) (a : ActionEvent X)
      → Memᴰ (action a) events
      → Memᴰ a.tool_call_id (get_action_tool_call_ids events)
  unfolding get_action_tool_call_ids
  mem-action_ids events a m = mem-filter_map action_call events m refl

  action_of_call :
      (e : Event X) {t : String}
      → action_call e ≡ some t
      → (a : ActionEvent X) × (e ≡ action a) × (a.tool_call_id ≡ t)
  action_of_call (action a) h = (a, refl, (cc))
  action_of_call e h = absurd (cc)

  action_of_mem-ids :
      (events : List (Event X)) {t : String}
      → Memᴰ t (get_action_tool_call_ids events)
      → (a : ActionEvent X) × Memᴰ (action a) events × (a.tool_call_id ≡ t)
  unfolding get_action_tool_call_ids
  action_of_mem-ids events m =
      let (e, k, h) = mem_of_mem-filter_map action_call events m in
      let (a, p, q) = action_of_call e h in (a, subst (λ x. Memᴰ x events) p k, q)

  -- The filter only drops events.
  pub view_of_out :
      (view all_events : List (Event X)) (e : Event X)
      → Memᴰ e (filter_unmatched_tool_calls view all_events)
      → Memᴰ e view
  unfolding filter_unmatched_tool_calls drop_orphans keep_paired
  view_of_out view all_events e m =
      let k = (mem_of_mem-filter _ (enforce_batch_atomicity (keep_paired view) all_events) m).0 in
      (mem_of_mem-filter _ view
        ((mem-enforce_batch_atomicity (keep_paired view) all_events e).0 k).0).0

  -- A view, the history that it was built from, and a list that holds the events of both and in
  -- which ids are unique.
  pub record Fits (view all_events history : List (Event X)) : Type 0 where
    pub view_in : (e : Event X) → Memᴰ e view → Memᴰ e history
    pub all_in : (e : Event X) → Memᴰ e all_events → Memᴰ e history
    pub actions_in : (a : ActionEvent X) → Memᴰ (action a) view → Memᴰ (action a) all_events
    pub identified : IsWellIdentified history

  module _ {view all_events history : List (Event X)} (fits : Fits view all_events history) where
    abbrev paired : List (Event X)
    paired = keep_paired view

    abbrev enforced : List (Event X)
    enforced = enforce_batch_atomicity paired all_events

    abbrev gone : List String
    gone =
        tool_call_ids_to_remove (event_ids enforced)
          (from_events all_events).action_id_to_tool_call_id

    pub view_of_paired : (e : Event X) → Memᴰ e paired → Memᴰ e view
    unfolding keep_paired
    view_of_paired e m = (mem_of_mem-filter _ view m).0

    pub out_of_enforced :
        (e : Event X)
        → Memᴰ e enforced
        → answers_one_of gone e ≡ false
        → Memᴰ e (filter_unmatched_tool_calls view all_events)
    unfolding filter_unmatched_tool_calls drop_orphans
    out_of_enforced e m h = mem-filter_of_mem _ enforced m (rw h)

    pub enforced_of_out :
        (e : Event X)
        → Memᴰ e (filter_unmatched_tool_calls view all_events)
        → Memᴰ e enforced × (answers_one_of gone e ≡ false)
    unfolding filter_unmatched_tool_calls drop_orphans
    enforced_of_out e m = let (k, h) = mem_of_mem-filter _ enforced m in (k, not-false _ h)

    pub paired_of_enforced : (e : Event X) → Memᴰ e enforced → Memᴰ e paired
    paired_of_enforced e m = ((mem-enforce_batch_atomicity paired all_events e).0 m).0

    kept_of_not_gone :
        (i t : String)
        → lookup (from_events all_events).action_id_to_tool_call_id i ≡ some t
        → contains gone t ≡ false
        → contains (event_ids enforced) i ≡ true
    unfolding tool_call_ids_to_remove
    kept_of_not_gone i t h n = elim (Bool-cases (contains (event_ids enforced) i)) [
      | inl y ↦ y
      | inr missing ↦
          let g : contains gone t ≡ true = contains_of_mem gone (
            mem-filter_map (gone_call (event_ids enforced)) _ (mem_of_lookup _ i h) (rw missing)) in
          absurd (cc)
    ]

    pub event_of_id :
        (a : ActionEvent X)
        → Memᴰ (action a) all_events
        → contains (event_ids enforced) a.id ≡ true
        → Memᴰ (action a) enforced
    event_of_id a ma h =
        let (e, me, p) =
          mem_of_mem-map event_id enforced (mem_of_contains (event_ids enforced) a.id h) in
        subst (λ x. Memᴰ x enforced)
          (fits.identified.by_id e (action a)
            (fits.view_in e (view_of_paired e (paired_of_enforced e me)))
            (fits.all_in (action a) ma) (sym p))
          me

    action_stays :
        (a : ActionEvent X)
        → Memᴰ (action a) all_events
        → contains gone a.tool_call_id ≡ false
        → Memᴰ (action a) enforced
    action_stays a ma n =
        let c = Collects-from_events all_events in
        let (t, h) = c.called a ma in
        let (b, mb, p, q) = c.call_origin a.id t h in
        let same =
          action-injective
            (fits.identified.by_id (action b) (action a) (fits.all_in _ mb) (fits.all_in _ ma) p) in
        let r : t ≡ a.tool_call_id = sym q ∙ ap (λ (x : ActionEvent X). x.tool_call_id) same in
        event_of_id a ma (kept_of_not_gone a.id a.tool_call_id (h ∙ ap some r) n)

    call_of_paired :
        (o : Event X) (t : String)
        → Memᴰ o paired
        → as_observation o ≡ some t
        → Memᴰ t (get_action_tool_call_ids view)
    unfolding keep_paired
    call_of_paired o t m h =
        let k = (mem_of_mem-filter _ view m).1 in
        mem_of_contains (get_action_tool_call_ids view) t (rw (h, should_keep_event) at k)

    not_gone_of_out :
        (o : Event X) (t : String)
        → as_observation o ≡ some t
        → answers_one_of gone o ≡ false
        → contains gone t ≡ false
    unfolding answers_one_of
    not_gone_of_out o t h n = rw (h, answers_one_of) at n

    -- In the filtered view every observation answers an action of the view.
    pub observation-matched :
        (o : Event X) (t : String)
        → Memᴰ o (filter_unmatched_tool_calls view all_events)
        → as_observation o ≡ some t
        → (a : ActionEvent X) × Memᴰ (action a) (filter_unmatched_tool_calls view all_events)
          × (a.tool_call_id ≡ t)
    unfolding answers_one_of
    observation-matched o t m h =
        let (mo, kept) = enforced_of_out o m in
        let (a, ma, q) = action_of_mem-ids view (call_of_paired o t (paired_of_enforced o mo) h) in
        (
          a,
          out_of_enforced (action a)
              (action_stays a (fits.actions_in a ma) (rw q (not_gone_of_out o t h kept))) refl,
          q,
        )
