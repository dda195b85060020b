-- ===== src/Condenser/Summarizing.antt =====
-- condenser/llm_summarizing_condenser.py: the condenser that has an LLM summarise what it forgets.
-- `count` is the token count of the agent's LLM, if there is one, where it does not raise (it
-- does when `events_to_messages` finds a thought behind the first action of a response);
-- `complete` is the condenser's own LLM, asked for a summary; `new_id` is the id of a new event.
pub mod Keeps
pub mod Requirement
pub mod Effect
pub mod Replaces
use codex_latest.Prelude.{
  ℕ, zero, suc, ◌+◌, ◌-◌, ◌*◌, ◌/◌, String, Bool, true, false, not, ◌&&◌, ◌||◌, Option, none, some,
  List, [], ◌∷◌, ◌++◌, map, length, take, drop, ltb, leb, if◌then◌else◌, ℤ, pos, ◌-ℤ◌, min_ℤ,
  pos_part, ◌==◌, nat_eq,
}
use codex_latest.Event.{Event, Condensation, Source, event_id, event_ids}
use codex_latest.View.Build.{View}
use codex_latest.View.Indices.{find_next_manipulation_index}
use codex_latest.Condenser.Tokens.{get_suffix_length_for_token_reduction}
use codex_latest.Condenser.Rolling.{
  CondensationRequirement, hard, soft, Attempt, ok, raise, no_condensation_available,
  assertion_failed, llm_error, Condensed, condense,
}

pub record Settings : Type 0 where
  pub max_size : ℕ
  pub max_tokens : Option ℕ
  pub keep_first : ℕ

-- `validate_keep_first_vs_max_size`, with the bound `max_size > 0` of the field; false is a
-- `ValueError`.
unfoldable pub is_accepted : Settings → Bool
is_accepted s = ltb 0 s.max_size && ltb (s.keep_first + 1) (s.max_size / 2)

-- A set of reasons.
pub record Reasons : Type 0 where
  pub request : Bool
  pub tokens : Bool
  pub events : Bool

-- What the LLM answers: the text of the first content block, if it is text, and the response id.
pub record Response : Type 0 where
  pub summary : Option String
  pub id : String

abbrev pub only_if : Bool → List ℤ → List ℤ
only_if true l = l
only_if false l = []

-- The entries of `suffix_events_to_keep`, each for a reason.
abbrev pub keep_for_events : Settings → List ℤ
keep_for_events s = (pos (s.max_size / 2) -ℤ pos (s.keep_first + 1)) ∷ []

module _ {X : Type 0} where
  abbrev pub keep_for_request : Settings → View X → List ℤ
  keep_for_request s view = (pos (length view.events / 2) -ℤ pos (s.keep_first + 1)) ∷ []

  -- `if self.max_tokens and agent_llm`: a limit of 0 is no limit.
  unfoldable pub exceeds_tokens : Option (List (Event X) → ℕ) → Option ℕ → List (Event X) → Bool
  exceeds_tokens (some count) (some limit) events = ltb 0 limit && ltb limit (count events)
  exceeds_tokens none _ events = false
  exceeds_tokens (some count) none events = false

  -- The entry for the tokens. Without a limit or an LLM, where the code's assertions fail, there is
  -- none.
  unfoldable pub keep_for_tokens :
      Option (List (Event X) → ℕ) → Option ℕ → ℕ → List (Event X) → List ℤ
  keep_for_tokens (some count) (some limit) keep_first events =
      let tokens_to_reduce = count events - limit / 2 in
      pos (get_suffix_length_for_token_reduction count (drop keep_first events) tokens_to_reduce)
      ∷ []
  keep_for_tokens none _ keep_first events = []
  keep_for_tokens (some count) none keep_first events = []

module _ {X : Type 0} (count : Option (List (Event X) → ℕ)) where
  unfoldable pub get_condensation_reasons : Settings → View X → Reasons
  get_condensation_reasons s view = record {
    request = view.unhandled_condensation_request;
    tokens = exceeds_tokens count s.max_tokens view.events;
    events = ltb s.max_size (length view.events);
  }

  unfoldable pub condensation_requirement : Settings → View X → Option CondensationRequirement
  unfolding get_condensation_reasons
  condensation_requirement s view =
      let reasons = get_condensation_reasons s view in
      if not (reasons.request || reasons.tokens || reasons.events)
      then none
      else if not reasons.request
      then some soft
      else some hard

  unfoldable pub suffix_events_to_keep : Settings → View X → Reasons → List ℤ
  suffix_events_to_keep s view reasons =
      let tokens = keep_for_tokens count s.max_tokens s.keep_first view.events in
      only_if reasons.request (keep_for_request s view)
      ++ (only_if reasons.events (keep_for_events s) ++ only_if reasons.tokens tokens)

-- `min` of a set; there is a reason, so it is not empty.
unfoldable pub minimum : List ℤ → Option ℤ
minimum [] = none
minimum (k ∷ []) = some k
minimum (k ∷ l ∷ keeps) = elim (minimum (l ∷ keeps)) [ none ↦ some k | some m ↦ some (min_ℤ k m) ]

-- `view[start:end]`
abbrev pub slice {ℓ} : {A : Type ℓ} → ℕ → ℕ → List A → List A
slice start end xs = drop start (take end xs)

-- The events to forget and the offset of the summary, from the number of events to keep at the
-- end. A negative `naive_end` is read as 0.
module _ {X : Type 0} where
  abbrev pub naive_end : View X → ℤ → ℕ
  naive_end view events_from_tail = pos_part (pos (length view.events) -ℤ events_from_tail)

  unfoldable pub forgotten_from : Settings → View X → Option ℤ → Attempt (List (Event X) × ℕ)
  forgotten_from s view none = raise assertion_failed
  forgotten_from s view (some events_from_tail) =
      let start = find_next_manipulation_index view.events s.keep_first in
      let end = find_next_manipulation_index view.events (naive_end view events_from_tail) in
      ok (slice start end view.events, start)

module _ {X : Type 0} (count : Option (List (Event X) → ℕ)) where
  -- Without a reason the set is empty, and the assertion that there is one fails.
  unfoldable pub get_forgotten_events : Settings → View X → Attempt (List (Event X) × ℕ)
  unfolding forgotten_from
  get_forgotten_events s view =
      let reasons = get_condensation_reasons count s view in
      forgotten_from s view (minimum (suffix_events_to_keep count s view reasons))

module _ {X : Type 0} (complete : List (Event X) → Option Response) (new_id : String) where
  -- `_generate_condensation`; `none` is an exception of the LLM.
  unfoldable pub generate_condensation : List (Event X) → ℕ → Attempt Condensation
  generate_condensation [] summary_offset = raise assertion_failed
  generate_condensation (e ∷ forgotten) summary_offset = elim (complete (e ∷ forgotten)) [
    | none ↦ raise llm_error
    | some response ↦ ok (record {
      id = new_id;
      source = Source.environment;
      forgotten_event_ids = event_ids (e ∷ forgotten);
      summary = response.summary;
      summary_offset = some summary_offset;
      llm_response_id = response.id;
    })
  ]

  unfoldable pub condensation_of : Attempt (List (Event X) × ℕ) → Attempt Condensation
  unfolding generate_condensation
  condensation_of (raise e) = raise e
  condensation_of (ok ([], start)) = raise no_condensation_available
  condensation_of (ok (e ∷ forgotten, start)) = generate_condensation (e ∷ forgotten) start

  unfoldable pub get_condensation :
      Option (List (Event X) → ℕ) → Settings → View X → Attempt Condensation
  unfolding get_forgotten_events condensation_of
  get_condensation count s view = condensation_of (get_forgotten_events count s view)

  -- The inherited `condense`.
  abbrev pub summarize : Option (List (Event X) → ℕ) → Settings → View X → Attempt (Condensed X)
  summarize count s view =
      condense (condensation_requirement count s) (get_condensation count s) view
