-- ===== src/Condenser/Summarizing/Replaces.antt =====
-- What a condensation of condenser/llm_summarizing_condenser.py does to the view that it is made
-- for: it replaces a run of events, behind the first `keep_first`, by the summary.
use codex_latest.Prelude.{
  ℕ, suc, ◌+◌, ◌<◌, min, ◌≡◌, refl, sym, ap, ◌∙◌, String, Option, none, some, List, [], ◌∷◌, ◌++◌,
  Memᴰ, map, subst, ◌≤◌, length, take, drop, arith, inl, inr, ◌⊎◌, length-take, length-drop,
  length-append, Option-cases, ℤ, Bool-cases, leb, leb→le,
}
use codex_latest.Event.{Event, Condensation, summary, event_id, event_ids}
use codex_latest.Condensation.{summary_event, forget, insert_summary, apply}
use codex_latest.Condenser.Rolling.{Attempt, ok, raise}
use codex_latest.Condenser.Summarizing.{
  Settings, Response, slice, naive_end, forgotten_from, get_forgotten_events, generate_condensation,
  condensation_of, get_condensation,
}
use codex_latest.Event.Distinct.{HasDistinctIds}
use codex_latest.Condenser.Summarizing.Effect.{without-slice, insert_at-take, length-slice}
use codex_latest.View.Build.{View}
use codex_latest.View.Indices.{manipulation_indices, find_next_manipulation_index}
use codex_latest.View.Indices.Next.{
  IsNext, find_next_manipulation_index-IsNext, find_next_manipulation_index_beyond,
}

ok-injective : {A : Type 0} {a b : A} → ok a ≡ ok b → a ≡ b
ok-injective p = cc p

length-map : {A B : Type 0} (f : A → B) (xs : List A) → length (map f xs) ≡ length xs
length-map f [] = refl
length-map f (x ∷ xs) = ap suc (length-map f xs)

module _ {X : Type 0} where
  -- The summary event of the condensation, for a summary that it may have.
  abbrev pub summary_events : Condensation → Option String → List (Event X)
  summary_events c none = []
  summary_events c (some text) = summary (summary_event c text) ∷ []

  -- The condensation forgets `forgotten`, which is not empty, and stands at `start`.
  abbrev IsFor : Condensation → List (Event X) → ℕ → Type 0
  IsFor c forgotten start =
      (c.forgotten_event_ids ≡ event_ids forgotten)
      × (c.summary_offset ≡ some start)
      × (0 < length forgotten)

  generate_condensation-IsFor :
      (complete : List (Event X) → Option Response) (new_id : String) (forgotten : List (Event X))
      (start : ℕ) {c : Condensation}
      → generate_condensation complete new_id forgotten start ≡ ok c
      → IsFor c forgotten start
  unfolding generate_condensation
  generate_condensation-IsFor complete new_id [] start p = absurd (cc p)
  generate_condensation-IsFor complete new_id (e ∷ forgotten) start {c} p =
      elim (Option-cases (complete (e ∷ forgotten))) [
        | inl n ↦ absurd (cc (rw (n, generate_condensation) at p))
        | inr (response, y) ↦
            let q = ok-injective (rw (y, generate_condensation) at p) in
            (
              sym (ap (λ (d : Condensation). d.forgotten_event_ids) q),
              sym (ap (λ (d : Condensation). d.summary_offset) q),
              omega arith,
            )
      ]

  condensation_of-IsFor :
      (complete : List (Event X) → Option Response) (new_id : String)
      (r : Attempt (List (Event X) × ℕ)) {c : Condensation}
      → condensation_of complete new_id r ≡ ok c
      → (forgotten : List (Event X)) × (start : ℕ) × (r ≡ ok (forgotten, start))
        × IsFor c forgotten start
  unfolding condensation_of
  condensation_of-IsFor complete new_id (raise e) p = absurd (cc p)
  condensation_of-IsFor complete new_id (ok ([], start)) p = absurd (cc p)
  condensation_of-IsFor complete new_id (ok (e ∷ forgotten, start)) p = (
    e ∷ forgotten,
    start,
    refl,
    generate_condensation-IsFor complete new_id (e ∷ forgotten) start p,
  )

  -- The condensation replaces the events from `start` to `end`.
  abbrev Cuts : View X → Settings → Condensation → ℤ → Type 0
  Cuts view s c k =
      let start = find_next_manipulation_index view.events s.keep_first in
      let end = find_next_manipulation_index view.events (naive_end view k) in
      IsFor c (slice start end view.events) start

  forgotten_from-Cuts :
      (s : Settings) (view : View X) (k : Option ℤ) (c : Condensation) {forgotten : List (Event X)}
      {start : ℕ}
      → forgotten_from s view k ≡ ok (forgotten, start)
      → IsFor c forgotten start
      → (k : ℤ) × Cuts view s c k
  unfolding forgotten_from
  forgotten_from-Cuts s view none c p h = absurd (cc p)
  forgotten_from-Cuts s view (some k) c p h =
      let q = ok-injective p in
      (
        k,
        (
          h.0 ∙ ap (λ r. event_ids r.0) (sym q),
          h.1 ∙ ap (λ r. some r.1) (sym q),
          subst (λ l. 0 < length l) (ap (λ r. r.0) (sym q)) h.2,
        ),
      )

  get_condensation-Cuts :
      (complete : List (Event X) → Option Response) (new_id : String)
      (count : Option (List (Event X) → ℕ)) (s : Settings) (view : View X) {c : Condensation}
      → get_condensation complete new_id count s view ≡ ok c
      → (k : ℤ) × Cuts view s c k
  unfolding get_condensation get_forgotten_events
  get_condensation-Cuts complete new_id count s view {c} p =
      let (forgotten, start, q, h) =
        condensation_of-IsFor complete new_id (get_forgotten_events count s view) p in
      forgotten_from-Cuts s view _ c q h

  insert_summary_at :
      (c : Condensation) (t : Option String) (start : ℕ) (xs ys : List (Event X))
      → start ≤ length xs
      → insert_summary c t (some start) (take start xs ++ ys)
        ≡ take start xs ++ (summary_events c t ++ ys)
  unfolding insert_summary
  insert_summary_at c none start xs ys le = refl
  insert_summary_at c (some text) start xs ys le = insert_at-take start _ xs ys le

  apply-Cuts :
      (c : Condensation) (start end : ℕ) (events : List (Event X))
      → HasDistinctIds events
      → IsFor c (slice start end events) start
      → apply c events ≡ take start events ++ (summary_events c c.summary ++ drop end events)
  unfolding apply forget
  apply-Cuts c start end events d h =
      let le : start < min end (length events) =
        omega (arith, h.2, length-slice start end events) in
      simp (h.0, h.1, without-slice start end events d (omega arith))
        (insert_summary_at c c.summary start events (drop end events) (omega arith))

  next-end :
      (events : List (Event X)) (threshold : ℕ)
      → Memᴰ (find_next_manipulation_index events threshold) (manipulation_indices events)
        ⊎ (length events < find_next_manipulation_index events threshold)
  next-end events threshold = elim (Bool-cases (leb threshold (length events))) [
    | inl y ↦ inl (find_next_manipulation_index-IsNext events threshold (ground arith)).0
    | inr n ↦
        let gt : length events < threshold = ground arith in
        inr (omega (arith, find_next_manipulation_index_beyond events threshold gt))
  ]

  keep_first-IsNext :
      (events : List (Event X)) (keep_first : ℕ)
      → find_next_manipulation_index events keep_first < length events
      → IsNext keep_first
          (manipulation_indices events)
          (find_next_manipulation_index events keep_first)
  keep_first-IsNext events keep_first lt = elim (Bool-cases (leb keep_first (length events))) [
    | inl y ↦ find_next_manipulation_index-IsNext events keep_first (leb→le _ _ y)
    | inr n ↦
        let gt : length events < keep_first = ground arith in
        absurd (omega (arith, find_next_manipulation_index_beyond events keep_first gt))
  ]

  -- The events that the condensation forgets form one run, from a manipulation index, the least
  -- that keeps the first `keep_first` events, to a manipulation index (or past the end, where
  -- the number of events to keep is negative); `apply` puts the summary, if there is one, in
  -- their place and leaves every other event where it is.
  pub get_condensation-replaces :
      (complete : List (Event X) → Option Response) (new_id : String)
      (count : Option (List (Event X) → ℕ)) (s : Settings) (view : View X) {c : Condensation}
      → HasDistinctIds view.events
      → get_condensation complete new_id count s view ≡ ok c
      → (start end : ℕ) × IsNext s.keep_first (manipulation_indices view.events) start
        × (start < end)
        × (Memᴰ end (manipulation_indices view.events) ⊎ (length view.events < end))
        × (c.forgotten_event_ids ≡ event_ids (slice start end view.events))
        × (apply c view.events
            ≡ take start view.events ++ (summary_events c c.summary ++ drop end view.events))
  get_condensation-replaces complete new_id count s view {c} d p =
      let (k, h) = get_condensation-Cuts complete new_id count s view p in
      let start = find_next_manipulation_index view.events s.keep_first in
      let end = find_next_manipulation_index view.events (naive_end view k) in
      let le : start < min end (length view.events) =
        omega (arith, h.2, length-slice start end view.events) in
      (
        start,
        end,
        keep_first-IsNext view.events s.keep_first (omega arith),
        omega arith,
        next-end view.events (naive_end view k),
        h.0,
        apply-Cuts c start end view.events d h,
      )

  -- Where the ids of the view's events are distinct, a condensation makes the view as much shorter
  -- as it forgets events, but for its summary.
  pub get_condensation-length :
      (complete : List (Event X) → Option Response) (new_id : String)
      (count : Option (List (Event X) → ℕ)) (s : Settings) (view : View X) {c : Condensation}
      → HasDistinctIds view.events
      → get_condensation complete new_id count s view ≡ ok c
      → length (apply c view.events) + length c.forgotten_event_ids
        ≡ length view.events + length (summary_events c c.summary)
  get_condensation-length complete new_id count s view {c} d p =
      let (k, h) = get_condensation-Cuts complete new_id count s view p in
      let start = find_next_manipulation_index view.events s.keep_first in
      let end = find_next_manipulation_index view.events (naive_end view k) in
      let forgot = ap length h.0 ∙ length-map event_id (slice start end view.events) in
      let after = ap length (apply-Cuts c start end view.events d h) in
      let parts =
        length-append (take start view.events)
          (summary_events c c.summary ++ drop end view.events) in
      let rest = length-append (summary_events c c.summary) (drop end view.events) in
      omega (
        arith,
        h.2,
        forgot,
        after,
        parts,
        rest,
        length-slice start end view.events,
        length-take start view.events,
        length-drop end view.events,
      )
