-- ===== src/Condenser/Summarizing/Keeps.antt =====
-- How many events condenser/llm_summarizing_condenser.py keeps at the end of the view: the least
-- entry of `suffix_events_to_keep`.
use codex_latest.Prelude.{
  ℕ, ◌+◌, ◌-◌, ◌/◌, ◌≤◌, ◌≡◌, refl, sym, ap, ◌∙◌, Bool, true, false, Option, none, some, List, [],
  ◌∷◌, ◌++◌, Memᴰ, head, tail, length, drop, arith, inl, inr, Bool-cases, ltb, ltb→lt,
  mem-append_cases, mem-cons_cases, ℤ, pos, ◌-ℤ◌, pos_part, min_ℤ, leb_ℤ, length-drop,
}
use codex_latest.Event.{Event}
use codex_latest.Condenser.Tokens.{get_suffix_length_for_token_reduction}
use codex_latest.Condenser.Summarizing.{
  Settings, minimum, exceeds_tokens, keep_for_tokens, keep_for_request, keep_for_events, only_if,
  suffix_events_to_keep, get_condensation_reasons,
}
use codex_latest.View.Build.{View}

pub minimum_of_cons : (k : ℤ) (ks : List ℤ) → (m : ℤ) × (minimum (k ∷ ks) ≡ some m)
unfolding minimum
minimum_of_cons k [] = (k, refl)
minimum_of_cons k (l ∷ ks) = let (m, p) = minimum_of_cons l ks in (min_ℤ k m, rw p)

mem-minimum : (ks : List ℤ) (m : ℤ) → minimum ks ≡ some m → Memᴰ m ks
unfolding minimum
mem-minimum [] m p = absurd (cc)
mem-minimum (k ∷ []) m p = head (cc)
mem-minimum (k ∷ l ∷ ks) m p =
    let (n, q) = minimum_of_cons l ks in
    let r : min_ℤ k n ≡ m = cc (rw q at p) in
    elim (Bool-cases (leb_ℤ k n)) [
      | inl y ↦ head (sym (rw y at r))
      | inr no_less ↦ tail (mem-minimum (l ∷ ks) m (q ∙ ap some (rw no_less at r)))
    ]

mem-only_if : (b : Bool) (l : List ℤ) {k : ℤ} → Memᴰ k (only_if b l) → (b ≡ true) × Memᴰ k l
mem-only_if true l m = (refl, m)
mem-only_if false l m = elim m [ ]

sub-le : (a b n : ℕ) → a ≤ n → pos_part (pos a -ℤ pos b) ≤ n
sub-le a b n le = ground arith

mem-singleton : {k a : ℤ} → Memᴰ k (a ∷ []) → k ≡ a
mem-singleton m = elim (mem-cons_cases m) [ inl p ↦ p | inr i ↦ elim i [ ] ]

module _ {X : Type 0} where
  suffix-le :
      (count : List (Event X) → ℕ) (events : List (Event X)) (token_reduction n : ℕ)
      → length events ≤ n
      → get_suffix_length_for_token_reduction count events token_reduction ≤ n
  unfolding get_suffix_length_for_token_reduction
  suffix-le count [] token_reduction n le = omega arith
  suffix-le count (e ∷ events) token_reduction n le = ground arith

  keep_for_tokens-le :
      (count : Option (List (Event X) → ℕ)) (max_tokens : Option ℕ) (keep_first : ℕ)
      (events : List (Event X)) {k : ℤ}
      → Memᴰ k (keep_for_tokens count max_tokens keep_first events)
      → pos_part k ≤ length events
  unfolding keep_for_tokens
  keep_for_tokens-le none max_tokens keep_first events m = elim m [ ]
  keep_for_tokens-le (some count) none keep_first events m = elim m [ ]
  keep_for_tokens-le (some count) (some limit) keep_first events m = rw (mem-singleton m) (
      suffix-le count (drop keep_first events) (count events - limit / 2) (length events)
        (omega (arith, length-drop keep_first events)))

  -- No entry of `suffix_events_to_keep` exceeds the length of the view.
  suffix_events_to_keep-le :
      (count : Option (List (Event X) → ℕ)) (s : Settings) (view : View X) {k : ℤ}
      → Memᴰ k (suffix_events_to_keep count s view (get_condensation_reasons count s view))
      → pos_part k ≤ length view.events
  unfolding suffix_events_to_keep get_condensation_reasons
  suffix_events_to_keep-le count s view {k} m =
      let tokens = exceeds_tokens count s.max_tokens view.events in
      let too_long = ltb s.max_size (length view.events) in
      let for_tokens =
        only_if tokens (keep_for_tokens count s.max_tokens s.keep_first view.events) in
      elim (mem-append_cases (only_if view.unhandled_condensation_request (keep_for_request s view))
        (only_if too_long (keep_for_events s) ++ for_tokens) m) [
          | inl i ↦
              rw
                (mem-singleton
                  (mem-only_if view.unhandled_condensation_request (keep_for_request s view) i).1)
                (sub-le (length view.events / 2) (s.keep_first + 1) (length view.events)
                  (omega arith))
          | inr i ↦ elim (mem-append_cases (only_if too_long (keep_for_events s)) for_tokens i) [
            | inl j ↦
                let (y, l) = mem-only_if too_long (keep_for_events s) j in
                rw (mem-singleton l) (
                  sub-le (s.max_size / 2) (s.keep_first + 1) (length view.events)
                    (omega (arith, ltb→lt _ _ y)))
            | inr j ↦
                keep_for_tokens-le count s.max_tokens s.keep_first view.events
                  (mem-only_if tokens _ j).1
          ]
        ]

  -- The number of events to keep at the end never exceeds the length of the view, so that the
  -- index computed from it is not negative.
  pub events_from_tail-le :
      (count : Option (List (Event X) → ℕ)) (s : Settings) (view : View X) {k : ℤ}
      → minimum (suffix_events_to_keep count s view (get_condensation_reasons count s view))
        ≡ some k
      → pos_part k ≤ length view.events
  events_from_tail-le count s view {k} p = suffix_events_to_keep-le count s view (mem-minimum _ k p)
