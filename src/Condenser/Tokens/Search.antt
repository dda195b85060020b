-- ===== src/Condenser/Tokens/Search.antt =====
-- The binary search of condenser/utils.py finds the shortest prefix above the token count.
use codex_latest.Prelude.{
  ℕ, zero, suc, ◌+◌, ◌-◌, ◌/◌, ◌≤◌, ◌<◌, ◌≡◌, ◌⊎◌, inl, inr, refl, sym, ap, subst, false,
  Bool-cases, List, [], ◌∷◌, length, take, ltb, leb, ltb→lt, arith,
}
use codex_latest.Event.{Event}
use codex_latest.Condenser.Tokens.{
  search, get_shortest_prefix_above_token_count, get_suffix_length_for_token_reduction,
}

take_all : {A : Type 0} (xs : List A) → take (length xs) xs ≡ xs
take_all [] = refl
take_all (x ∷ xs) = ap (◌∷◌ x) (take_all xs)

not_leb : (a b : ℕ) → b < a → leb a b ≡ false
not_leb a b h = ground arith

module _ {X : Type 0} (count : List (Event X) → ℕ) where
  -- At `n` the count of the prefix passes the target: it is above it there and not one before.
  abbrev pub Crosses : List (Event X) → ℕ → ℕ → Type 0
  Crosses events token_count n =
      (token_count < count (take n events))
      × ((n ≡ 1) ⊎ (count (take (n - 1) events) ≤ token_count))

  -- `left` is 1, or a prefix just before it that does not exceed the target is known.
  abbrev Low : List (Event X) → ℕ → ℕ → Type 0
  Low events token_count left = (left ≡ 1) ⊎ (count (take (left - 1) events) ≤ token_count)

  record Found (events : List (Event X)) (token_count left right n : ℕ) : Type 0 where
    crosses : Crosses events token_count n
    from : left ≤ n
    upto : n ≤ right

  Found-here :
      (events : List (Event X)) (token_count left right : ℕ)
      → left ≡ right
      → Low events token_count left
      → token_count < count (take right events)
      → Found events token_count left right left
  Found-here events token_count left right e low high = record {
    crosses = (rw e high, low);
    from = omega arith;
    upto = omega arith;
  }

  Found-wider :
      (events : List (Event X)) (token_count left right left' right' n : ℕ)
      → left ≤ left'
      → right' ≤ right
      → Found events token_count left' right' n
      → Found events token_count left right n
  Found-wider events token_count left right left' right' n l r f = record {
    crosses = f.crosses;
    from = omega (arith, f.from);
    upto = omega (arith, f.upto);
  }

  search-Found :
      (fuel : ℕ) (events : List (Event X)) (token_count left right : ℕ)
      → right - left ≤ fuel
      → left ≤ right
      → Low events token_count left
      → token_count < count (take right events)
      → Found events token_count left right (search count fuel events token_count left right)
  unfolding search
  search-Found zero events token_count left right f le low high =
      Found-here events token_count left right (omega arith) low high
  search-Found (suc fuel) events token_count left right f le low high =
      elim (Bool-cases (ltb left right)) [
        | inr n ↦ rw n (Found-here events token_count left right (ground arith) low high)
        | inl y ↦
            let lt = ltb→lt left right y in
            let mid = (left + right) / 2 in
            elim (Bool-cases (ltb token_count (count (take mid events)))) [
              | inl above ↦
                  rw (y, above)
                    (Found-wider events token_count left right left mid _ (omega arith)
                      (omega arith)
                      (search-Found fuel events token_count left mid (omega arith) (omega arith) low
                        (ltb→lt _ _ above)))
              | inr below ↦
                  rw (y, below)
                    (Found-wider events token_count left right (mid + 1) right _ (omega arith)
                      (omega arith)
                      (search-Found fuel events token_count (mid + 1) right (omega arith)
                        (omega arith) (inr (le_of_below mid below)) high))
            ]
      ]
    where
      le_of_below :
          (m : ℕ)
          → ltb token_count (count (take m events)) ≡ false
          → count (take (m + 1 - 1) events) ≤ token_count
      le_of_below m h = let e : m + 1 - 1 ≡ m = omega arith in rw e (ground arith)

  -- Of a view whose count exceeds the target, the prefix of the returned length exceeds it and
  -- the prefix that is one event shorter, if it holds an event, does not.
  pub get_shortest_prefix_above_token_count-Crosses :
      (events : List (Event X)) (token_count : ℕ)
      → 0 < length events
      → token_count < count events
      → Crosses events token_count (get_shortest_prefix_above_token_count count events token_count)
        × (1 ≤ get_shortest_prefix_above_token_count count events token_count)
        × (get_shortest_prefix_above_token_count count events token_count ≤ length events)
  unfolding get_shortest_prefix_above_token_count
  get_shortest_prefix_above_token_count-Crosses [] token_count pos above = absurd (omega arith)
  get_shortest_prefix_above_token_count-Crosses (e ∷ events) token_count pos above =
      let f =
        search-Found (length (e ∷ events)) (e ∷ events) token_count 1 (length (e ∷ events))
          (omega arith) (omega arith) (inl refl) (rw (take_all (e ∷ events)) above) in
      rw (not_leb (count (e ∷ events)) token_count above) (f.crosses, f.from, f.upto)

  -- For a view with an event and a count above the target, where longer prefixes never count for
  -- less: the prefix of the length returned holds an event and exceeds the target, and no shorter
  -- prefix that holds an event does.
  pub get_shortest_prefix_above_token_count-least :
      ((m n : ℕ) (events : List (Event X)) → m ≤ n → count (take m events) ≤ count (take n events))
      → (events : List (Event X)) (token_count m : ℕ) → 0 < length events
      → token_count < count events
      → 1 ≤ m
      → token_count < count (take m events)
      → let n = get_shortest_prefix_above_token_count count events token_count in
        (1 ≤ n) × (token_count < count (take n events)) × (n ≤ m)
  get_shortest_prefix_above_token_count-least mono events token_count m some_event above pos high =
      let n = get_shortest_prefix_above_token_count count events token_count in
      let (crosses, low, upto) =
        get_shortest_prefix_above_token_count-Crosses events token_count some_event above in
      (low, crosses.0, least n crosses.1)
    where
      least : (n : ℕ) → Low events token_count n → n ≤ m
      least n (inl p) = omega arith
      least n (inr h) = elim (Bool-cases (ltb m n)) [
        | inl y ↦ absurd (omega (arith, ltb→lt m n y, mono m (n - 1) events))
        | inr k ↦ ground arith
      ]

  -- To keep as many events at the end as the function says drops a prefix that counts for more
  -- than the reduction; to drop one event less would not, if that is an event at all.
  pub get_suffix_length_for_token_reduction-Crosses :
      (events : List (Event X)) (token_reduction : ℕ)
      → 0 < token_reduction
      → token_reduction < count events
      → 0 < length events
      → Crosses events token_reduction
          (length events - get_suffix_length_for_token_reduction count events token_reduction)
        × (get_suffix_length_for_token_reduction count events token_reduction < length events)
  unfolding get_suffix_length_for_token_reduction
  get_suffix_length_for_token_reduction-Crosses [] token_reduction pos above some_event =
      absurd (omega arith)
  get_suffix_length_for_token_reduction-Crosses (e ∷ events) token_reduction pos above some_event =
      let n = get_shortest_prefix_above_token_count count (e ∷ events) token_reduction in
      let (crosses, low, high) =
        get_shortest_prefix_above_token_count-Crosses (e ∷ events) token_reduction some_event
          above in
      let back : length (e ∷ events) - (length (e ∷ events) - n) ≡ n = omega arith in
      rw (not_leb token_reduction 0 pos)
        (subst (Crosses (e ∷ events) token_reduction) (sym back) crosses, omega arith)
