-- ===== src/Condenser/Tokens.antt =====
-- condenser/utils.py: how many events at the end of a view fit a token budget. `count` stands for
-- `get_total_token_count` with the LLM at hand, whose tokenizer is not the repository's; it is that
-- of views whose events make messages, so that the count does not raise.
pub mod Search
use codex_latest.Prelude.{
  ℕ, zero, suc, ◌+◌, ◌-◌, ◌/◌, List, [], ◌∷◌, length, take, ltb, leb, if◌then◌else◌,
}
use codex_latest.Event.{Event}

module _ {X : Type 0} (count : List (Event X) → ℕ) where
  -- The loop `while left < right`, with the rounds that are left; the distance from `left` to
  -- `right` is enough.
  unfoldable pub search : ℕ → List (Event X) → ℕ → ℕ → ℕ → ℕ
  search zero events token_count left right = left
  search (suc fuel) events token_count left right =
      let mid = (left + right) / 2 in
      let shorter = search fuel events token_count left mid in
      let longer = search fuel events token_count (mid + 1) right in
      let next = if ltb token_count (count (take mid events)) then shorter else longer in
      if ltb left right then next else left

  unfoldable pub get_shortest_prefix_above_token_count : List (Event X) → ℕ → ℕ
  get_shortest_prefix_above_token_count [] token_count = 0
  get_shortest_prefix_above_token_count (e ∷ events) token_count =
      if leb (count (e ∷ events)) token_count
      then length (e ∷ events)
      else search (length (e ∷ events)) (e ∷ events) token_count 1 (length (e ∷ events))

  -- A `token_reduction` below zero is 0 here; the code treats the two alike.
  unfoldable pub get_suffix_length_for_token_reduction : List (Event X) → ℕ → ℕ
  get_suffix_length_for_token_reduction [] token_reduction = 0
  get_suffix_length_for_token_reduction (e ∷ events) token_reduction =
      if leb token_reduction 0
      then length (e ∷ events)
      else length (e ∷ events) - get_shortest_prefix_above_token_count (e ∷ events) token_reduction
