-- ===== src/View/Filter/Answered.antt =====
-- Actions and their results after `_filter_unmatched_tool_calls` of view.py: the calls that stay are
-- answered, and what is no call and no result stays.
use codex_latest.Prelude.{
  String, ◌≡◌, refl, ap, ◌∙◌, inl, inr, false, none, some, List, Memᴰ, string_eq, Bool-cases,
  contains, mem_of_mem-filter, mem_of_mem-filter_map, mem-filter_of_mem, contains_of_mem,
  mem_of_contains, not_mem_of_contains, lookup_of_mem, mem-map,
}
use codex_latest.Event.{
  Event, ActionEvent, action, as_action, as_observation, event_id, event_ids, IsWellIdentified,
}
use codex_latest.View.Batch.{from_events, enforce_batch_atomicity}
use codex_latest.View.Batch.Collect.{Collects-from_events}
use codex_latest.View.Batch.Atomic.{mem-enforce_batch_atomicity, enforce_batch_atomicity-together}
use codex_latest.View.Filter.{
  gone_call, get_observation_tool_call_ids, should_keep_event, keep_paired, tool_call_ids_to_remove,
  answers_one_of, filter_unmatched_tool_calls,
}
use codex_latest.View.Filter.Matched.{
  Fits, view_of_paired, out_of_enforced, enforced_of_out, paired_of_enforced, event_of_id,
  mem-action_ids, view_of_out, gone_call_eq,
}

module _ {X : Type 0} where
  module _ {view all_events history : List (Event X)} (fits : Fits view all_events history) where
    abbrev paired : List (Event X)
    paired = keep_paired view

    abbrev enforced : List (Event X)
    enforced = enforce_batch_atomicity paired all_events

    abbrev gone : List String
    gone =
        tool_call_ids_to_remove (event_ids enforced)
          (from_events all_events).action_id_to_tool_call_id

    result_of_paired :
        (a : ActionEvent X)
        → Memᴰ (action a) paired
        → (o : Event X) × Memᴰ o view × (as_observation o ≡ some a.tool_call_id)
    unfolding keep_paired get_observation_tool_call_ids
    result_of_paired a m =
        let k = (mem_of_mem-filter _ view m).1 in
        mem_of_mem-filter_map as_observation view
          (mem_of_contains (get_observation_tool_call_ids view) a.tool_call_id k)

    paired_of_result :
        (a : ActionEvent X) (o : Event X)
        → Memᴰ (action a) view
        → Memᴰ o view
        → as_observation o ≡ some a.tool_call_id
        → Memᴰ o paired
    unfolding keep_paired
    paired_of_result a o ma mo h =
        mem-filter_of_mem _ view mo
          (rw (h, should_keep_event) (contains_of_mem _ (mem-action_ids view a ma)))

    enforced_of_result :
        (o : Event X) (t : String) → Memᴰ o paired → as_observation o ≡ some t → Memᴰ o enforced
    enforced_of_result o t m h = (mem-enforce_batch_atomicity paired all_events o).1 (
      m,
      λ a b ma mb p q. absurd (
          not_observation (
            fits.identified.by_id (action a) o (fits.all_in _ ma)
              (fits.view_in o ((view_of_paired fits) o m)) p)),
    )
      where
        not_observation : {a : ActionEvent X} → action a ≡ o → ⊥
        not_observation p = let r : none ≡ some t = ap as_observation p ∙ h in cc

    gone_origin :
        (t : String)
        → Memᴰ t gone
        → (a : ActionEvent X) × Memᴰ (action a) all_events
          × (a.tool_call_id ≡ t)
          × (contains (event_ids enforced) a.id ≡ false)
    unfolding tool_call_ids_to_remove
    gone_origin t m =
        let c = Collects-from_events all_events in
        let ((i, s), n, h) = mem_of_mem-filter_map (gone_call (event_ids enforced)) _ m in
        let (missing, same) = gone_call_eq (event_ids enforced) i s h in
        let (a, ma, p, q) = c.call_origin i s (lookup_of_mem _ c.calls_distinct n) in
        (a, ma, q ∙ same, rw p missing)

    kept_not_gone :
        (a : ActionEvent X) → Memᴰ (action a) enforced → contains gone a.tool_call_id ≡ false
    kept_not_gone a m = elim (Bool-cases (contains gone a.tool_call_id)) [
      | inl y ↦
          let (b, mb, q, missing) =
            gone_origin a.tool_call_id (mem_of_contains gone a.tool_call_id y) in
          let same =
            fits.identified.by_call b a (fits.all_in _ mb)
              (fits.view_in _ ((view_of_paired fits) _ ((paired_of_enforced fits) _ m))) q in
          absurd (
            not_mem_of_contains (event_ids enforced) b.id missing
              (rw same (mem-map event_id enforced m)))
      | inr n ↦ n
    ]

    not_answers :
        (o : Event X) (t : String)
        → as_observation o ≡ some t
        → contains gone t ≡ false
        → answers_one_of gone o ≡ false
    unfolding answers_one_of
    not_answers o t h n = rw (h, answers_one_of) n

    -- In the filtered view every action is answered by an observation of the view.
    pub action-matched :
        (a : ActionEvent X)
        → Memᴰ (action a) (filter_unmatched_tool_calls view all_events)
        → (o : Event X) × Memᴰ o (filter_unmatched_tool_calls view all_events)
          × (as_observation o ≡ some a.tool_call_id)
    action-matched a m =
        let (ma, _) = (enforced_of_out fits) (action a) m in
        let pa = (paired_of_enforced fits) (action a) ma in
        let (o, mo, h) = result_of_paired a pa in
        let po = paired_of_result a o ((view_of_paired fits) _ pa) mo h in
        (
          o,
          (out_of_enforced fits) o (enforced_of_result o a.tool_call_id po h)
              (not_answers o a.tool_call_id h (kept_not_gone a ma)),
          h,
        )

    IsWellIdentified-all : IsWellIdentified all_events
    IsWellIdentified-all = record {
      by_id = λ e f me mf. fits.identified.by_id e f (fits.all_in e me) (fits.all_in f mf);
      by_call = λ a b ma mb. fits.identified.by_call a b (fits.all_in _ ma) (fits.all_in _ mb);
    }

    -- The actions of one response are in the filtered view together or not at all.
    pub actions_together :
        (a b : ActionEvent X)
        → Memᴰ (action b) all_events
        → a.llm_response_id ≡ b.llm_response_id
        → Memᴰ (action a) (filter_unmatched_tool_calls view all_events)
        → Memᴰ (action b) (filter_unmatched_tool_calls view all_events)
    unfolding answers_one_of
    actions_together a b mb q m =
        let k = ((enforced_of_out fits) (action a) m).0 in
        let ma = fits.actions_in a (view_of_out view all_events (action a) m) in
        let n =
          enforce_batch_atomicity-together paired all_events IsWellIdentified-all a b ma mb q
            (mem-map event_id enforced k) in
        (out_of_enforced fits) (action b)
          ((event_of_id fits) b mb (contains_of_mem (event_ids enforced) n)) refl

    paired_of_plain :
        (e : Event X) → Memᴰ e view → as_action e ≡ none → as_observation e ≡ none → Memᴰ e paired
    unfolding keep_paired
    paired_of_plain e m h k = mem-filter_of_mem _ view m (rw (k, h, should_keep_event) refl)

    plain_stays : (e : Event X) → as_observation e ≡ none → answers_one_of gone e ≡ false
    unfolding answers_one_of
    plain_stays e h = rw (h, answers_one_of) refl

    -- An event that is neither an action nor an observation is not filtered out.
    pub plain-kept :
        (e : Event X)
        → Memᴰ e view
        → as_action e ≡ none
        → as_observation e ≡ none
        → Memᴰ e (filter_unmatched_tool_calls view all_events)
    plain-kept e m h k =
        (out_of_enforced fits) e
          ((mem-enforce_batch_atomicity paired all_events e).1 (
            paired_of_plain e m h k,
            λ a b ma mb p q. absurd (
                not_action
                  (fits.identified.by_id (action a) e (fits.all_in _ ma) (fits.view_in e m) p)),
          ))
          (plain_stays e k)
      where
        not_action : {a : ActionEvent X} → action a ≡ e → ⊥
        not_action {a} p = let r : some a ≡ none = ap as_action p ∙ h in cc
