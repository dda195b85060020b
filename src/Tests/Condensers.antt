-- ===== src/Tests/Condensers.antt =====
-- The theorems about the condensers at concrete views.
use codex_latest.Prelude.{
  ◌∷◌, ◌++◌, ℕ, ◌+◌, ◌*◌, ◌-◌, ◌≤◌, ◌<◌, ◌≡◌, ◌⊎◌, refl, true, false, Option, some, List, [], ◌++◌,
  Memᴰ, length, drop, take, arith, pos, length-take, contains,
}
use codex_latest.Event.{Event, Condensation, Source, event_ids}
use codex_latest.Event.Distinct.{are_distinct, HasDistinctIds}
use codex_latest.Condensation.{apply}
use codex_latest.View.Build.{View}
use codex_latest.View.Indices.{manipulation_indices, find_next_manipulation_index, first_at_least}
use codex_latest.View.Indices.Next.{IsNext}
use codex_latest.Condenser.Tokens.{
  get_shortest_prefix_above_token_count, get_suffix_length_for_token_reduction,
}
use codex_latest.Condenser.Tokens.Search.{
  Crosses, get_shortest_prefix_above_token_count-Crosses,
  get_shortest_prefix_above_token_count-least, get_suffix_length_for_token_reduction-Crosses,
}
use codex_latest.Condenser.Pipeline.{Condenser, no_op}
use codex_latest.Condenser.Rolling.{
  ok, raise, kept, condense, fall_back, llm_error, no_condensation_available,
}
use codex_latest.Condenser.Summarizing.{
  Settings, Response, slice, summarize, minimum, suffix_events_to_keep, get_condensation_reasons,
  exceeds_tokens, keep_for_tokens, condensation_requirement, get_condensation, get_forgotten_events,
  forgotten_from, condensation_of, generate_condensation,
}
use codex_latest.Condenser.Summarizing.Replaces.{
  summary_events, get_condensation-replaces, get_condensation-length,
}
use codex_latest.Condenser.Summarizing.Requirement.{summarize-raises, summarize-kept}
use codex_latest.Tests.Histories.{before_cut}
use codex_latest.Tests.Boundaries.{indices}

-- Ten tokens an event.
abbrev tokens : List (Event ℕ) → ℕ
tokens events = 10 * length events

abbrev settings : Settings
settings = record { max_size = 6; max_tokens = some 1000; keep_first = 1 }

abbrev long_view : View ℕ
long_view = record {
  events = before_cut;
  unhandled_condensation_request = false;
  condensations = [];
}

abbrev empty_view : View ℕ
empty_view = record { events = []; unhandled_condensation_request = true; condensations = [] }

abbrev idle_view : View ℕ
idle_view = record {
  events = take 3 before_cut;
  unhandled_condensation_request = false;
  condensations = [];
}

abbrev answers : List (Event ℕ) → Option Response
answers events = some (record { summary = some "short"; id = "r9" })

-- What the condenser makes of the long view: all but the first event are forgotten.
abbrev made : Condensation
made = record {
  id = "k9";
  source = Source.environment;
  forgotten_event_ids = event_ids (drop 1 before_cut);
  summary = some "short";
  summary_offset = some 1;
  llm_response_id = "r9";
}

before_cut-HasDistinctIds : HasDistinctIds before_cut
unfolding are_distinct contains
before_cut-HasDistinctIds = refl

makes : get_condensation answers "k9" (some tokens) settings long_view ≡ ok made
unfolding get_condensation get_forgotten_events forgotten_from condensation_of generate_condensation
    minimum suffix_events_to_keep get_condensation_reasons exceeds_tokens keep_for_tokens
    find_next_manipulation_index first_at_least
makes = rw indices refl

get_condensation-replaces_example :
    (start end : ℕ) × IsNext 1 (manipulation_indices before_cut) start
    × (start < end)
    × (Memᴰ end (manipulation_indices before_cut) ⊎ (7 < end))
    × (made.forgotten_event_ids ≡ event_ids (slice start end before_cut))
    × (apply made before_cut
        ≡ take start before_cut ++ (summary_events made (some "short") ++ drop end before_cut))
get_condensation-replaces_example =
    get_condensation-replaces answers "k9" (some tokens) settings long_view
      before_cut-HasDistinctIds makes

get_condensation-length_example : length (apply made before_cut) + 6 ≡ 7 + 1
get_condensation-length_example =
    get_condensation-length answers "k9" (some tokens) settings long_view before_cut-HasDistinctIds
      makes

nothing_to_forget :
    summarize answers "k9" (some tokens) settings empty_view ≡ raise no_condensation_available
unfolding condense fall_back condensation_requirement get_condensation get_forgotten_events
    forgotten_from condensation_of generate_condensation minimum suffix_events_to_keep
    get_condensation_reasons exceeds_tokens keep_for_tokens find_next_manipulation_index
    first_at_least manipulation_indices
nothing_to_forget = refl

summarize-raises_example :
    (no_condensation_available ≡ llm_error)
    ⊎ ((no_condensation_available ≡ no_condensation_available) × (true ≡ true))
summarize-raises_example =
    summarize-raises answers "k9" (some tokens) settings empty_view nothing_to_forget

stays : summarize answers "k9" (some tokens) settings idle_view ≡ ok (kept idle_view)
unfolding condense fall_back condensation_requirement get_condensation_reasons exceeds_tokens
stays = refl

summarize-kept_example : (idle_view ≡ idle_view) × (false ≡ false)
summarize-kept_example = summarize-kept answers "k9" (some tokens) settings idle_view stays

keeps_one :
    minimum (
      suffix_events_to_keep
        (some tokens)
        settings
        long_view
        (get_condensation_reasons (some tokens) settings long_view))
    ≡ some (pos 1)
unfolding minimum suffix_events_to_keep get_condensation_reasons exceeds_tokens keep_for_tokens
keeps_one = refl

get_shortest_prefix_above_token_count-Crosses_example :
    Crosses tokens before_cut 25 (get_shortest_prefix_above_token_count tokens before_cut 25)
    × (1 ≤ get_shortest_prefix_above_token_count tokens before_cut 25)
    × (get_shortest_prefix_above_token_count tokens before_cut 25 ≤ 7)
get_shortest_prefix_above_token_count-Crosses_example =
    get_shortest_prefix_above_token_count-Crosses tokens before_cut 25 (omega arith) (omega arith)

tokens_monotone :
    (m n : ℕ) (events : List (Event ℕ)) → m ≤ n → tokens (take m events) ≤ tokens (take n events)
tokens_monotone m n events le = omega (arith, length-take m events, length-take n events)

get_shortest_prefix_above_token_count-least_example :
    let n = get_shortest_prefix_above_token_count tokens before_cut 25 in
    (1 ≤ n) × (25 < tokens (take n before_cut)) × (n ≤ 3)
get_shortest_prefix_above_token_count-least_example =
    get_shortest_prefix_above_token_count-least tokens tokens_monotone before_cut 25 3 (omega arith)
      (omega arith) (omega arith) (omega arith)

get_suffix_length_for_token_reduction-Crosses_example :
    Crosses tokens before_cut 25 (7 - get_suffix_length_for_token_reduction tokens before_cut 25)
    × (get_suffix_length_for_token_reduction tokens before_cut 25 < 7)
get_suffix_length_for_token_reduction-Crosses_example =
    get_suffix_length_for_token_reduction-Crosses tokens before_cut 25 (omega arith) (omega arith)
      (omega arith)

abbrev stages : List (Condenser ℕ)
stages =
    no_op
    ∷ record {
      condense = summarize answers "k9" (some tokens) settings;
      handles_condensation_requests = true;
    }
    ∷ []
