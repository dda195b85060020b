-- ===== src/View/Batch/Laws.antt =====
-- What `ActionBatch.from_events` collects.
use codex_latest.Prelude.{
  String, ◌≡◌, refl, sym, ap, ◌∙◌, inl, inr, Option, none, some, List, [], ◌∷◌, ◌++◌, Memᴰ, head,
  tail, lookup, IsDistinct, lookup-assign, lookup-assign_self, lookup-assign_ne,
  lookup-assign_cases, assign-IsDistinct, string_eq, ◌==◌, Bool-cases, mem-append_left,
  mem-append_right, mem-append_cases,
}
use codex_latest.Event.{Event, ActionEvent, action}
use codex_latest.View.Batch.{ActionBatch, or_empty, add_action}

mem_or_empty :
    (o : Option (List String)) {i : String}
    → Memᴰ i (or_empty o)
    → (ids : List String) × (o ≡ some ids) × Memᴰ i ids
mem_or_empty none m = elim m [ ]
mem_or_empty (some ids) m = (ids, refl, m)

module _ {X : Type 0} where
  -- The batches hold the ids of the actions in `seen`, under the response that each belongs to;
  -- the last map holds the tool call of each action.
  pub record Collects (seen : List (Event X)) (b : ActionBatch) : Type 0 where
    pub distinct : IsDistinct b.batches
    pub batched :
        (a : ActionEvent X)
        → Memᴰ (action a) seen
        → (ids : List String) × (lookup b.batches a.llm_response_id ≡ some ids) × Memᴰ a.id ids
    pub origin :
        (r i : String) (ids : List String)
        → lookup b.batches r ≡ some ids
        → Memᴰ i ids
        → (a : ActionEvent X) × Memᴰ (action a) seen × (a.id ≡ i) × (a.llm_response_id ≡ r)
    pub calls_distinct : IsDistinct b.action_id_to_tool_call_id
    pub called :
        (a : ActionEvent X)
        → Memᴰ (action a) seen
        → (t : String) × (lookup b.action_id_to_tool_call_id a.id ≡ some t)
    pub call_origin :
        (i t : String)
        → lookup b.action_id_to_tool_call_id i ≡ some t
        → (a : ActionEvent X) × Memᴰ (action a) seen × (a.id ≡ i) × (a.tool_call_id ≡ t)

  pub action-injective : {a e : ActionEvent X} → ◌≡◌ {A = Event X} (action a) (action e) → a ≡ e
  action-injective p = cc

  module _ {seen : List (Event X)} {b : ActionBatch} (c : Collects seen b) (e : ActionEvent X) where
    mem_new_ids :
        (a : ActionEvent X)
        → Memᴰ (action a) (action e ∷ seen)
        → e.llm_response_id ≡ a.llm_response_id
        → Memᴰ a.id (or_empty (lookup b.batches e.llm_response_id) ++ e.id ∷ [])
    mem_new_ids a (head p) q =
        mem-append_right (or_empty (lookup b.batches e.llm_response_id)) (e.id ∷ [])
          (head (ap (λ (x : ActionEvent X). x.id) (action-injective p)))
    mem_new_ids a (tail m) q =
        let (ids, h, k) = c.batched a m in
        mem-append_left (or_empty (lookup b.batches e.llm_response_id)) (e.id ∷ []) (rw (q, h) k)

    new_batched :
        (a : ActionEvent X)
        → Memᴰ (action a) (action e ∷ seen)
        → (ids : List String) × (lookup (add_action e b).batches a.llm_response_id ≡ some ids)
          × Memᴰ a.id ids
    unfolding add_action
    new_batched a (head p) =
        let q : e ≡ a = sym (action-injective p) in
        (
          _,
          rw (← q) (lookup-assign_self e.llm_response_id _ b.batches),
          mem_new_ids a (head p) (ap (λ (x : ActionEvent X). x.llm_response_id) q),
        )
    new_batched a (tail m) = elim (Bool-cases (e.llm_response_id == a.llm_response_id)) [
      | inl y ↦ (
        or_empty (lookup b.batches e.llm_response_id) ++ e.id ∷ [],
        lookup-assign e.llm_response_id a.llm_response_id _ b.batches ∙ rw y,
        mem_new_ids a (tail m) ((string_eq.reflects _ _).0 y),
      )
      | inr n ↦
          let (ids, h, k) = c.batched a m in
          (ids, lookup-assign_ne e.llm_response_id a.llm_response_id _ b.batches n ∙ h, k)
    ]

    old_origin :
        (r i : String) (ids : List String)
        → lookup b.batches r ≡ some ids
        → Memᴰ i ids
        → (a : ActionEvent X) × Memᴰ (action a) (action e ∷ seen)
          × (a.id ≡ i)
          × (a.llm_response_id ≡ r)
    old_origin r i ids h m = let (a, k, p, q) = c.origin r i ids h m in (a, tail k, p, q)

    new_id_origin :
        (r i : String)
        → e.llm_response_id ≡ r
        → Memᴰ i (or_empty (lookup b.batches e.llm_response_id) ++ e.id ∷ [])
        → (a : ActionEvent X) × Memᴰ (action a) (action e ∷ seen)
          × (a.id ≡ i)
          × (a.llm_response_id ≡ r)
    new_id_origin r i p m =
        elim (mem-append_cases (or_empty (lookup b.batches e.llm_response_id)) (e.id ∷ []) m) [
          | inl k ↦
              let (ids, h, n) = mem_or_empty (lookup b.batches e.llm_response_id) k in
              old_origin r i ids (rw (← p) h) n
          | inr (head q) ↦ (e, head refl, sym q, p)
          | inr (tail n) ↦ elim n [ ]
        ]

    new_origin :
        (r i : String) (ids : List String)
        → lookup (add_action e b).batches r ≡ some ids
        → Memᴰ i ids
        → (a : ActionEvent X) × Memᴰ (action a) (action e ∷ seen)
          × (a.id ≡ i)
          × (a.llm_response_id ≡ r)
    unfolding add_action
    new_origin r i ids h m = elim (lookup-assign_cases e.llm_response_id r _ b.batches h) [
      | inl (p, q) ↦ new_id_origin r i p (rw q m)
      | inr (n, k) ↦ old_origin r i ids k m
    ]

    new_called :
        (a : ActionEvent X)
        → Memᴰ (action a) (action e ∷ seen)
        → (t : String) × (lookup (add_action e b).action_id_to_tool_call_id a.id ≡ some t)
    unfolding add_action
    new_called a (head p) =
        let q : e ≡ a = sym (action-injective p) in
        (e.tool_call_id, rw (← q) (lookup-assign_self e.id _ b.action_id_to_tool_call_id))
    new_called a (tail m) = elim (Bool-cases (e.id == a.id)) [
      | inl y ↦ (e.tool_call_id, lookup-assign e.id a.id _ b.action_id_to_tool_call_id ∙ rw y)
      | inr n ↦
          let (t, h) = c.called a m in
          (t, lookup-assign_ne e.id a.id _ b.action_id_to_tool_call_id n ∙ h)
    ]

    new_call_origin :
        (i t : String)
        → lookup (add_action e b).action_id_to_tool_call_id i ≡ some t
        → (a : ActionEvent X) × Memᴰ (action a) (action e ∷ seen)
          × (a.id ≡ i)
          × (a.tool_call_id ≡ t)
    unfolding add_action
    new_call_origin i t h = elim (lookup-assign_cases e.id i _ b.action_id_to_tool_call_id h) [
      | inl (p, q) ↦ (e, head refl, p, q)
      | inr (n, k) ↦ let (a, m, p, q) = c.call_origin i t k in (a, tail m, p, q)
    ]

    pub Collects-add_action : Collects (action e ∷ seen) (add_action e b)
    Collects-add_action = record {
      distinct = unfold add_action in assign-IsDistinct _ _ b.batches c.distinct;
      batched = new_batched;
      origin = new_origin;
      calls_distinct =
          unfold add_action in assign-IsDistinct _ _ b.action_id_to_tool_call_id c.calls_distinct;
      called = new_called;
      call_origin = new_call_origin;
    }
