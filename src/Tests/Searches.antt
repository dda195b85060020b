-- ===== src/Tests/Searches.antt =====
-- The theorem about paging.py and event_service.py at a concrete log.
use codex_latest.Prelude.{
  ℕ, suc, ◌≡◌, refl, String, true, none, some, List, [], ◌∷◌, length, any, filter, string_eq, arith,
}
use codex_latest.Paging.{
  Fields, Query, timestamp_desc, is_match, sort_events, search_events, count_events, page_iterator,
}
use codex_latest.Paging.Lists.{AreIdentified}
use codex_latest.Paging.Pages.{page_iterator-search_events}

pub record Row : Type 0 where
  pub id : String
  pub source : String
  pub timestamp : ℕ

abbrev row : String → String → ℕ → Row
row id source timestamp = record { id = id; source = source; timestamp = timestamp }

abbrev fields : Fields Row
fields = record {
  id = λ r. r.id;
  kind = λ r. "MessageEvent";
  source = λ r. r.source;
  timestamp = λ r. r.timestamp;
  matches_body = λ r body. true;
}

abbrev rows : List Row
rows = row "a" "user" 1 ∷ row "b" "agent" 2 ∷ row "c" "user" 3 ∷ row "d" "user" 3 ∷ []

abbrev of_user : Query
of_user = record {
  kind = none;
  source = some "user";
  body = none;
  timestamp_gte = none;
  timestamp_lt = none;
}

rows-AreIdentified : AreIdentified fields rows
unfolding any
rows-AreIdentified = (refl, refl, (refl, refl, (refl, refl, (refl, refl, tt))))

page_iterator-search_events_example :
    let found = sort_events fields timestamp_desc (filter (is_match fields of_user) rows) in
    (page_iterator fields
        (suc (count_events fields of_user rows))
        (search_events fields timestamp_desc of_user 1 rows)
        none
      ≡ some found)
    × (count_events fields of_user rows ≡ length found)
page_iterator-search_events_example =
    page_iterator-search_events fields timestamp_desc of_user 1 rows (omega arith)
      rows-AreIdentified
