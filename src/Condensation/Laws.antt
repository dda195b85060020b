-- ===== src/Condensation/Laws.antt =====
-- What `Condensation.apply` (event/condenser.py) keeps, drops and adds.
use codex_latest.Prelude.{
  string_eq, String, ℕ, ◌≡◌, refl, ◌⊎◌, inl, inr, false, not-false, Option, some, List, Memᴰ,
  contains, mem_of_mem-filter, mem-filter_of_mem, mem-insert_at_cases, mem-insert_at_of_mem,
}
use codex_latest.Event.{Event, Condensation, summary, event_id}
use codex_latest.Condensation.{summary_event, insert_summary, apply}

module _ {X : Type 0} where
  -- `e` is the summary event of the condensation.
  abbrev pub IsSummaryOf : Condensation → Event X → Type 0
  IsSummaryOf c e = (text : String) × (c.summary ≡ some text) × (e ≡ summary (summary_event c text))

  mem-insert_summary_cases :
      (c : Condensation) (s : Option String) (o : Option ℕ) (output : List (Event X)) {e : Event X}
      → c.summary ≡ s
      → Memᴰ e (insert_summary c s o output)
      → IsSummaryOf c e ⊎ Memᴰ e output
  unfolding insert_summary
  mem-insert_summary_cases c (some text) (some offset) output p m =
      elim (mem-insert_at_cases offset (summary (summary_event c text)) output m) [
        | inl q ↦ inl (text, p, q)
        | inr k ↦ inr k
      ]
  mem-insert_summary_cases c _ _ output p m = inr m

  mem-insert_summary :
      (c : Condensation) (s : Option String) (o : Option ℕ) (output : List (Event X)) {e : Event X}
      → Memᴰ e output
      → Memᴰ e (insert_summary c s o output)
  unfolding insert_summary
  mem-insert_summary c (some text) (some offset) output m = mem-insert_at_of_mem offset _ output m
  mem-insert_summary c _ _ output m = m

  -- An event after a condensation is its summary event, or was there before and is not forgotten.
  pub mem-apply_cases :
      (c : Condensation) (events : List (Event X)) {e : Event X}
      → Memᴰ e (apply c events)
      → IsSummaryOf c e ⊎ (Memᴰ e events × (contains c.forgotten_event_ids (event_id e) ≡ false))
  unfolding apply
  mem-apply_cases c events m =
      elim (mem-insert_summary_cases c c.summary c.summary_offset _ refl m) [
        | inl s ↦ inl s
        | inr k ↦ let (n, h) = mem_of_mem-filter _ events k in inr (n, not-false _ h)
      ]

  -- An event that is not forgotten stays.
  pub mem-apply_of_mem :
      (c : Condensation) (events : List (Event X)) {e : Event X}
      → Memᴰ e events
      → contains c.forgotten_event_ids (event_id e) ≡ false
      → Memᴰ e (apply c events)
  unfolding apply
  mem-apply_of_mem c events m h =
      mem-insert_summary c c.summary c.summary_offset _ (mem-filter_of_mem _ events m (rw h))
