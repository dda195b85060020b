-- ===== src/Paging.antt =====
-- openhands-sdk/openhands/sdk/utils/paging.py, and the search and the count of events of
-- openhands-agent-server/openhands/agent_server/event_service.py, for a service that is active.
pub mod Pages
pub mod Lists
use codex_latest.Prelude.{
  ℕ, zero, suc, ◌+◌, ◌≤◌, String, Bool, true, false, not, ◌&&◌, Option, none, some, List, [], ◌∷◌,
  ◌++◌, filter, ltb, leb, string_eq, ◌==◌, if◌then◌else◌,
}

pub record Page (E : Type 0) : Type 0 where
  pub items : List E
  pub next_page_id : Option String

-- What the service reads of an event. Times are numbers in the order of their ISO texts;
-- `matches_body` is `_event_matches_body`, and `kind` the name of the class with its module.
pub record Fields (E : Type 0) : Type 0 where
  pub id : E → String
  pub kind : E → String
  pub source : E → String
  pub timestamp : E → ℕ
  pub matches_body : E → String → Bool

-- `EventSortOrder`
pub data SortOrder : Type 0 where
  timestamp timestamp_desc : SortOrder

pub record Query : Type 0 where
  pub kind : Option String
  pub source : Option String
  pub body : Option String
  pub timestamp_gte : Option ℕ
  pub timestamp_lt : Option ℕ

abbrev pub holds : {A : Type 0} → (A → Bool) → Option A → Bool
holds test none = true
holds test (some a) = test a

module _ {E : Type 0} (f : Fields E) where
  -- The filters of the loop over the events.
  unfoldable pub is_match : Query → E → Bool
  is_match q e =
      holds (λ k. f.kind e == k) q.kind
      && holds (λ s. f.source e == s) q.source
      && holds (f.matches_body e) q.body
      && holds (λ t. leb t (f.timestamp e)) q.timestamp_gte
      && holds (λ t. ltb (f.timestamp e) t) q.timestamp_lt

  -- Whether `a` stands before `b` in the order, strictly.
  abbrev pub is_before : SortOrder → E → E → Bool
  is_before timestamp a b = ltb (f.timestamp a) (f.timestamp b)
  is_before timestamp_desc a b = ltb (f.timestamp b) (f.timestamp a)

  -- `list.sort`: elements with the same time keep their places.
  unfoldable pub insert_event : SortOrder → E → List E → List E
  insert_event order e [] = e ∷ []
  insert_event order e (a ∷ l) =
      let rest = insert_event order e l in if is_before order a e then a ∷ rest else e ∷ a ∷ l

  unfoldable pub sort_events : SortOrder → List E → List E
  unfolding insert_event
  sort_events order [] = []
  sort_events order (e ∷ l) = insert_event order e (sort_events order l)

  -- The events from the one with the id on, if there is one.
  unfoldable pub find_from : String → List E → Option (List E)
  find_from page_id [] = none
  find_from page_id (e ∷ l) =
      let rest = find_from page_id l in if f.id e == page_id then some (e ∷ l) else rest

  -- `if page_id`: an empty text is none.
  abbrev pub given : Option String → Option String
  given none = none
  given (some page_id) = if page_id == "" then none else some page_id

  -- An id that is not found is taken for the first page.
  unfoldable pub start : Option String → List E → List E
  unfolding find_from
  start page_id l = elim (given page_id) [
    | none ↦ l
    | some i ↦ elim (find_from i l) [ none ↦ l | some rest ↦ rest ]
  ]

  -- The loop that collects the items, from the starting point on.
  unfoldable pub collect_page : ℕ → List E → Page E
  collect_page limit [] = record { items = []; next_page_id = none }
  collect_page zero (e ∷ l) = record { items = []; next_page_id = some (f.id e) }
  collect_page (suc limit) (e ∷ l) =
      let rest = collect_page limit l in
      record { items = e ∷ rest.items; next_page_id = rest.next_page_id }

  -- `_search_events_sync`
  unfoldable pub search_events : SortOrder → Query → ℕ → List E → Option String → Page E
  unfolding is_match sort_events start collect_page
  search_events order q limit events page_id =
      collect_page limit (start page_id (sort_events order (filter (is_match q) events)))

  -- `_count_events_sync`
  unfoldable pub count_events : Query → List E → ℕ
  unfolding is_match
  count_events q [] = 0
  count_events q (e ∷ l) = let rest = count_events q l in if is_match q e then suc rest else rest

  abbrev pub prepend : List E → Option (List E) → Option (List E)
  prepend items none = none
  prepend items (some rest) = some (items ++ rest)

  -- `page_iterator` on fuel, one unit for a page: the items that it yields.
  unfoldable pub page_iterator :
      (fuel : ℕ) → (Option String → Page E) → Option String → Option (List E)
  page_iterator zero search_func page_id = none
  page_iterator (suc fuel) search_func page_id =
      let page = search_func page_id in
      elim (given page.next_page_id) [
        | none ↦ some page.items
        | some i ↦ prepend page.items (page_iterator fuel search_func (some i))
      ]
