-- ===== src/Paging/Pages.antt =====
-- Iterating over the pages of a search.
use codex_latest.Prelude.{
  ℕ, zero, suc, ◌-◌, ◌<◌, ◌≡◌, refl, sym, ap, ◌∙◌, subst, String, Bool, false, Option, none, some,
  List, [], ◌∷◌, ◌++◌, length, any, filter, string_eq, ◌==◌, arith,
}
use mathlib.Core.List.{append_assoc, append-nil}
use codex_latest.Paging.{
  Page, Fields, Query, SortOrder, is_match, sort_events, find_from, given, start, collect_page,
  search_events, count_events, prepend, page_iterator,
}
use codex_latest.Paging.Lists.{AreIdentified, found-AreIdentified, count_events-length}

module _ {E : Type 0} (f : Fields E) where
  -- The id of the first event.
  abbrev first_id : List E → Option String
  first_id [] = none
  first_id (e ∷ l) = some (f.id e)

  -- What a page leaves, and where the next one starts.
  collect_page-append :
      (limit : ℕ) (l : List E)
      → (rest : List E) × (l ≡ (collect_page f limit l).items ++ rest)
        × ((collect_page f limit l).next_page_id ≡ first_id rest)
        × (length rest ≡ length l - limit)
  unfolding collect_page
  collect_page-append limit [] = ([], refl, refl, omega arith)
  collect_page-append zero (e ∷ l) = (e ∷ l, refl, refl, omega arith)
  collect_page-append (suc limit) (e ∷ l) =
      let (rest, p, q, r) = collect_page-append limit l in
      (rest, ap (λ k. e ∷ k) p, q, omega (arith, r))

  any-last :
      (p : E → Bool) (xs : List E) (y : E) (ys : List E)
      → any p (xs ++ y ∷ ys) ≡ false
      → p y ≡ false
  unfolding any
  any-last p [] y ys h = ground (arith, h)
  any-last p (x ∷ xs) y ys h = any-last p xs y ys (ground (arith, h))

  find_from-append :
      (xs : List E) (y : E) (ys : List E)
      → AreIdentified f (xs ++ y ∷ ys)
      → find_from f (f.id y) (xs ++ y ∷ ys) ≡ some (y ∷ ys)
  unfolding find_from any
  find_from-append [] y ys h = rw ((string_eq.reflects (f.id y) (f.id y)).1 refl) refl
  find_from-append (x ∷ xs) y ys h =
      let other : (f.id x == f.id y) ≡ false = ground (
        arith,
        any-last (λ a. f.id a == f.id x) xs y ys h.1,
        string_eq.reflects (f.id x) (f.id y),
        string_eq.reflects (f.id y) (f.id x),
      ) in
      rw other (find_from-append xs y ys h.2)

  last-AreIdentified :
      (xs : List E) (y : E) (ys : List E) → AreIdentified f (xs ++ y ∷ ys) → (f.id y == "") ≡ false
  last-AreIdentified [] y ys h = h.0
  last-AreIdentified (x ∷ xs) y ys h = last-AreIdentified xs y ys h.2

module _ {E : Type 0} (f : Fields E) (limit : ℕ) (found : List E) where
  -- The page of a search that found these events.
  abbrev page_at : Option String → Page E
  page_at page_id = collect_page f limit (start f page_id found)

  start-append :
      (xs : List E) (y : E) (ys : List E)
      → AreIdentified f found
      → found ≡ xs ++ y ∷ ys
      → start f (some (f.id y)) found ≡ y ∷ ys
  unfolding start
  start-append xs y ys h p =
      let k : AreIdentified f (xs ++ y ∷ ys) = subst (AreIdentified f) p h in
      let at : find_from f (f.id y) found ≡ some (y ∷ ys) =
        ap (find_from f (f.id y)) p ∙ find_from-append f xs y ys k in
      rw (last-AreIdentified f xs y ys k, start, at) refl

  -- What follows a page.
  after_page :
      (fuel : ℕ) (items rest xs : List E) (o : Option String)
      → AreIdentified f found
      → found ≡ xs ++ rest
      → o ≡ first_id f rest
      → ((y : E) (ys : List E)
          → rest ≡ y ∷ ys
          → page_iterator f fuel page_at (some (f.id y)) ≡ some rest)
      → elim (given f o) as (λ x. Option (List E)) [
        | none ↦ some items
        | some i ↦ prepend f items (page_iterator f fuel page_at (some i))
      ]
        ≡ some (items ++ rest)
  after_page fuel items [] xs o h p q k = rw q (ap some (sym (append-nil items)))
  after_page fuel items (y ∷ ys) xs o h p q k =
      let n = last-AreIdentified f xs y ys (subst (AreIdentified f) p h) in
      rw (q, n) (ap (prepend f items) (k y ys refl))

  page_iterator_from :
      (fuel : ℕ) (page_id : Option String) (xs rest : List E)
      → 0 < limit
      → AreIdentified f found
      → found ≡ xs ++ rest
      → start f page_id found ≡ rest
      → length rest < fuel
      → page_iterator f fuel page_at page_id ≡ some rest
  unfolding page_iterator
  page_iterator_from zero page_id xs rest l h p q n = absurd (omega (arith, n))
  page_iterator_from (suc fuel) page_id xs rest l h p q n =
      let (more, r, next, size) = collect_page-append f limit rest in
      let page = collect_page f limit rest in
      let all : found ≡ (xs ++ page.items) ++ more =
        p ∙ ap (λ k. xs ++ k) r ∙ sym (append_assoc xs page.items more) in
      let here : page_at page_id ≡ page = ap (collect_page f limit) q in
      ap
        (λ (d : Page E). elim (given f d.next_page_id) as (λ x. Option (List E)) [
          | none ↦ some d.items
          | some i ↦ prepend f d.items (page_iterator f fuel page_at (some i))
        ])
        here
      ∙ after_page fuel page.items more (xs ++ page.items) page.next_page_id h all next (λ y ys e.
        let shorter : length more ≡ suc (length ys) = ap length e in
        page_iterator_from fuel (some (f.id y)) (xs ++ page.items) more l h all
          (start-append (xs ++ page.items) y ys h (all ∙ ap (λ k. (xs ++ page.items) ++ k) e)
            ∙ sym e)
          (omega (arith, size, n, l, shorter)))
      ∙ ap some (sym r)

module _ {E : Type 0} (f : Fields E) where
  -- When the events do not change, none has an empty id or the id of another, and a page has
  -- room for one event, iterating over the pages ends, and yields each event that the query
  -- finds once, in the order; their number is the count of the query.
  pub page_iterator-search_events :
      (order : SortOrder) (q : Query) (limit : ℕ) (events : List E)
      → 0 < limit
      → AreIdentified f events
      → let found = sort_events f order (filter (is_match f q) events) in
        (page_iterator f (suc (count_events f q events)) (search_events f order q limit events) none
          ≡ some found)
        × (count_events f q events ≡ length found)
  unfolding search_events start
  page_iterator-search_events order q limit events l h =
      let found = sort_events f order (filter (is_match f q) events) in
      let size = count_events-length f order q events in
      (
        page_iterator_from f limit found (suc (count_events f q events)) none [] found l
            (found-AreIdentified f order q events h) refl refl (omega (arith, size)),
        size,
      )
