-- ===== src/View/Indices.antt =====
-- `View.manipulation_indices` and `View.find_next_manipulation_index` of view.py: the boundaries
-- between the units of a view that have to stay together.
pub mod Positions
pub mod Sorting
pub mod Observed
pub mod Loops
pub mod Atomic
pub mod Next
use codex_latest.Prelude.{
  ℕ, zero, suc, ◌+◌, max, min, String, Bool, true, false, not, ◌&&◌, Option, none, some, List, [],
  ◌∷◌, ◌++◌, map, filter, any, length, get_elem?, take, drop, Dict, lookup, assign, string_eq, ltb,
  leb, if◌then◌else◌,
}
use codex_latest.Event.{Event, ActionEvent, as_action, as_observation}

pub record BatchRange : Type 0 where
  pub first : ℕ
  pub last : ℕ
  pub has_thinking : Bool

abbrev pub indices_or_empty : Option (List ℕ) → List ℕ
indices_or_empty none = []
indices_or_empty (some l) = l

-- `min` and `max` of a list; no batch is empty.
abbrev pub minimum : List ℕ → ℕ
minimum [] = 0
minimum (x ∷ []) = x
minimum (x ∷ y ∷ xs) = min x (minimum (y ∷ xs))

abbrev pub maximum : List ℕ → ℕ
maximum [] = 0
maximum (x ∷ xs) = max x (maximum xs)

unfoldable pub add_observation : Option String → ℕ → Dict String ℕ → Dict String ℕ
add_observation none idx indices = indices
add_observation (some t) idx indices = assign t idx indices

abbrev pub later_index : ℕ → Option ℕ → ℕ
later_index max_idx none = max_idx
later_index max_idx (some obs_idx) = max max_idx obs_idx

module _ {X : Type 0} where
  unfoldable pub add_index :
      Option (ActionEvent X) → ℕ → Dict String (List ℕ) → Dict String (List ℕ)
  add_index none idx batches = batches
  add_index (some e) idx batches =
      assign e.llm_response_id (indices_or_empty (lookup batches e.llm_response_id) ++ idx ∷ [])
        batches

  -- `batches`; `idx` is the counter of `enumerate`.
  unfoldable pub index_batches : ℕ → List (Event X) → Dict String (List ℕ) → Dict String (List ℕ)
  index_batches idx [] batches = batches
  index_batches idx (e ∷ events) batches =
      index_batches (suc idx) events (add_index (as_action e) idx batches)

  unfoldable pub index_observations : ℕ → List (Event X) → Dict String ℕ → Dict String ℕ
  index_observations idx [] indices = indices
  index_observations idx (e ∷ events) indices =
      index_observations (suc idx) events (add_observation (as_observation e) idx indices)

  abbrev pub action_at : Option (Event X) → Option (ActionEvent X)
  action_at none = none
  action_at (some e) = as_action e

  -- Whether the event at an index is an action with thinking blocks.
  abbrev pub thinks : Option (ActionEvent X) → Bool
  thinks none = false
  thinks (some e) = ltb 0 (length e.thinking_blocks)

  unfoldable pub thinking_at : List (Event X) → ℕ → Bool
  thinking_at events idx = thinks (action_at (get_elem? events idx))

  abbrev pub observed_until : Dict String ℕ → Option (ActionEvent X) → ℕ → ℕ
  observed_until observations none max_idx = max_idx
  observed_until observations (some e) max_idx =
      later_index max_idx (lookup observations e.tool_call_id)

  -- The range of a batch is extended to the observations of its actions.
  unfoldable pub extend : List (Event X) → Dict String ℕ → List ℕ → ℕ → ℕ
  extend events observations [] max_idx = max_idx
  extend events observations (idx ∷ indices) max_idx =
      extend events observations indices
        (observed_until observations (action_at (get_elem? events idx)) max_idx)

  unfoldable pub batch_range : List (Event X) → Dict String ℕ → String × List ℕ → BatchRange
  batch_range events observations (llm_response_id, action_indices) = record {
    first = minimum action_indices;
    last = extend events observations action_indices (maximum action_indices);
    has_thinking = thinking_at events (minimum action_indices);
  }

-- `batch_ranges.sort(key=lambda x: x[0])`, a stable sort.
unfoldable pub insert_range : BatchRange → List BatchRange → List BatchRange
insert_range r [] = r ∷ []
insert_range r (s ∷ ranges) =
    let rest = insert_range r ranges in if leb r.first s.first then r ∷ s ∷ ranges else s ∷ rest

unfoldable pub sort : List BatchRange → List BatchRange
sort [] = []
sort (r ∷ ranges) = insert_range r (sort ranges)

abbrev is_some {ℓ} : {A : Type ℓ} → Option A → Bool
is_some none = false
is_some (some a) = true

module _ {X : Type 0} where
  -- Neither an action nor an observation.
  unfoldable pub is_non_batch : Event X → Bool
  is_non_batch e = not (is_some (as_action e)) && not (is_some (as_observation e))

  unfoldable pub has_non_batch_between : List (Event X) → ℕ → ℕ → Bool
  has_non_batch_between events loop_end next_min =
      any is_non_batch (drop (suc loop_end) (take next_min events))

  -- The inner loop: the end of the tool loop, and the batches that are left.
  unfoldable pub absorb : List (Event X) → ℕ → List BatchRange → ℕ × List BatchRange
  absorb events loop_end [] = (loop_end, [])
  absorb events loop_end (r ∷ ranges) =
      let included = absorb events (max loop_end r.last) ranges in
      if has_non_batch_between events loop_end r.first then (loop_end, r ∷ ranges) else included

  -- The outer loop. Each round leaves a shorter list, so its length is enough fuel.
  unfoldable pub tool_loop_ranges : List (Event X) → ℕ → List BatchRange → List (ℕ × ℕ)
  tool_loop_ranges events zero ranges = []
  tool_loop_ranges events (suc fuel) [] = []
  tool_loop_ranges events (suc fuel) (r ∷ ranges) =
      let skipped = tool_loop_ranges events fuel ranges in
      let (loop_end, left) = absorb events r.last ranges in
      let looped = (r.first, loop_end) ∷ tool_loop_ranges events fuel left in
      if r.has_thinking then looped else skipped

-- `min_idx in tool_loop_indices`
unfoldable pub in_tool_loop : List (ℕ × ℕ) → ℕ → Bool
in_tool_loop loops idx = any (λ r. leb r.0 idx && leb idx r.1) loops

abbrev pub bounds : BatchRange → ℕ × ℕ
bounds r = (r.first, r.last)

unfoldable pub merge_ranges : List (ℕ × ℕ) → List BatchRange → List (ℕ × ℕ)
merge_ranges [] ranges = map bounds ranges
merge_ranges (l ∷ loops) ranges =
    (l ∷ loops) ++ map bounds (filter (λ r. not (in_tool_loop (l ∷ loops) r.first)) ranges)

-- `range(start, start + n)`
unfoldable pub range_from : ℕ → ℕ → List ℕ
range_from start zero = []
range_from start (suc n) = start ∷ range_from (suc start) n

unfoldable pub discard_inside : List (ℕ × ℕ) → List ℕ → List ℕ
discard_inside [] indices = indices
discard_inside ((min_idx, max_idx) ∷ ranges) indices =
    discard_inside ranges (filter (λ idx. not (ltb min_idx idx && leb idx max_idx)) indices)

module _ {X : Type 0} where
  unfoldable pub batch_ranges : List (Event X) → List BatchRange
  batch_ranges events =
      sort (map (batch_range events (index_observations 0 events [])) (index_batches 0 events []))

  unfoldable pub merged_ranges : List (Event X) → List (ℕ × ℕ)
  merged_ranges events =
      let ranges = batch_ranges events in
      merge_ranges (tool_loop_ranges events (length ranges) ranges) ranges

  unfoldable pub manipulation_indices : List (Event X) → List ℕ
  manipulation_indices [] = 0 ∷ []
  manipulation_indices (e ∷ events) =
      discard_inside (merged_ranges (e ∷ events)) (range_from 0 (suc (length (e ∷ events))))

-- The loop of `find_next_manipulation_index`.
unfoldable pub first_at_least : ℕ → List ℕ → ℕ
first_at_least threshold [] = threshold
first_at_least threshold (idx ∷ indices) =
    if leb threshold idx then idx else first_at_least threshold indices

module _ {X : Type 0} where
  unfoldable pub find_next_manipulation_index : List (Event X) → ℕ → ℕ
  find_next_manipulation_index events threshold =
      first_at_least threshold (manipulation_indices events)
