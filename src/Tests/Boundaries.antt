-- ===== src/Tests/Boundaries.antt =====
-- The theorems about the manipulation indices of view.py at concrete views.
use codex_latest.Prelude.{
  ℕ, zero, suc, ◌≤◌, ◌<◌, ◌≡◌, refl, ◌≢◌, none, some, List, [], ◌∷◌, Memᴰ, head, tail, filter, any,
  lookup, assign, get_elem?, length, arith,
}
use codex_latest.Event.{Event, observation, as_observation}
use codex_latest.View.Indices.{
  manipulation_indices, find_next_manipulation_index, merged_ranges, batch_ranges, discard_inside,
  range_from, sort, merge_ranges, tool_loop_ranges, index_batches, index_observations, add_index,
  add_observation, batch_range, extend, thinking_at, insert_range, is_non_batch, in_tool_loop,
  absorb, has_non_batch_between,
}
use codex_latest.View.Indices.Atomic.{
  manipulation_indices-keep-batches, manipulation_indices-keep-observations,
}
use codex_latest.View.Indices.Next.{
  IsNext, find_next_manipulation_index-IsNext, find_next_manipulation_index_beyond,
}
use codex_latest.Tests.Histories.{a1, a2, a3, obs, before_cut}

pub indices : manipulation_indices before_cut ≡ 0 ∷ 1 ∷ 5 ∷ 7 ∷ []
unfolding manipulation_indices discard_inside merged_ranges merge_ranges tool_loop_ranges
    batch_ranges sort index_batches add_index assign insert_range batch_range lookup thinking_at
    filter range_from extend index_observations any absorb add_observation has_non_batch_between
    in_tool_loop is_non_batch
indices = refl

fifth-mem : Memᴰ 5 (manipulation_indices before_cut)
fifth-mem = rw indices (tail (tail (head refl)))

manipulation_indices-keep-batches_example : ¬ ((1 < 5) × (5 ≤ 2))
manipulation_indices-keep-batches_example =
    manipulation_indices-keep-batches before_cut a1 a2 1 2 5 refl refl refl fifth-mem

get_elem?-beyond : (xs : List (Event ℕ)) (j : ℕ) → length xs ≤ j → get_elem? xs j ≡ none
get_elem?-beyond [] j le = refl
get_elem?-beyond (x ∷ xs) zero le = absurd (omega arith)
get_elem?-beyond (x ∷ xs) (suc j) le = get_elem?-beyond xs j (omega arith)

-- Nothing answers the third call behind the end of the history.
silent :
    (j : ℕ) (o : Event ℕ) → 7 ≤ j → get_elem? before_cut j ≡ some o → as_observation o ≢ some "c3"
silent j o le p q = cc (p, get_elem?-beyond before_cut j le)

manipulation_indices-keep-observations_example : ¬ ((5 < 5) × (5 ≤ 6))
manipulation_indices-keep-observations_example =
    manipulation_indices-keep-observations before_cut a3 (observation (obs "o3" "c3" "a3")) 5 6 5
      refl refl refl silent fifth-mem

find_next_manipulation_index-IsNext_example :
    IsNext 2 (manipulation_indices before_cut) (find_next_manipulation_index before_cut 2)
find_next_manipulation_index-IsNext_example =
    find_next_manipulation_index-IsNext before_cut 2 (omega arith)

find_next_manipulation_index_beyond_example : find_next_manipulation_index before_cut 9 ≡ 9
find_next_manipulation_index_beyond_example =
    find_next_manipulation_index_beyond before_cut 9 (omega arith)
