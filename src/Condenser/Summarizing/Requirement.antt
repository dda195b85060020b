-- ===== src/Condenser/Summarizing/Requirement.antt =====
-- When the condenser of condenser/llm_summarizing_condenser.py may fail, and when it may leave a
-- view as it is.
use codex_latest.Prelude.{
  ℕ, ◌≡◌, refl, ap, ◌∙◌, String, Bool, true, false, not, ◌||◌, Option, none, some, List, [], ◌∷◌,
  ◌++◌, length, inl, inr, ◌⊎◌, Option-cases, ltb, if◌then◌else◌, ℤ,
}
use codex_latest.Event.{Event, Condensation}
use codex_latest.Condenser.Rolling.{
  CondensationRequirement, hard, soft, CondenserError, no_condensation_available, assertion_failed,
  llm_error, Attempt, ok, raise, kept, fall_back, condense,
}
use codex_latest.Condenser.Summarizing.{
  Settings, Response, minimum, exceeds_tokens, keep_for_tokens, only_if, suffix_events_to_keep,
  get_condensation_reasons, condensation_requirement, forgotten_from, get_forgotten_events,
  generate_condensation, condensation_of, get_condensation, summarize,
}
use codex_latest.Condenser.Summarizing.Keeps.{minimum_of_cons}
use codex_latest.View.Build.{View}

only_if-append :
    (request events tokens : Bool) (a b : ℤ) (l : List ℤ)
    → (tokens ≡ true → (k : ℤ) × (l ≡ k ∷ []))
    → request || tokens || events ≡ true
    → (k : ℤ) × (ks : List ℤ) × (only_if request (a ∷ [])
          ++ (only_if events (b ∷ []) ++ only_if tokens l)
        ≡ k ∷ ks)
only_if-append true events tokens a b l h p = (a, _, refl)
only_if-append false true tokens a b l h p = (b, _, refl)
only_if-append false false true a b l h p = let (k, q) = h refl in (k, [], q)
only_if-append false false false a b l h p = absurd (cc p)

module _ {X : Type 0} where
  keep_for_tokens_of_exceeds :
      (count : Option (List (Event X) → ℕ)) (max_tokens : Option ℕ) (keep_first : ℕ)
      (events : List (Event X))
      → exceeds_tokens count max_tokens events ≡ true
      → (k : ℤ) × (keep_for_tokens count max_tokens keep_first events ≡ k ∷ [])
  unfolding exceeds_tokens keep_for_tokens
  keep_for_tokens_of_exceeds (some count) (some limit) keep_first events h = (_, refl)
  keep_for_tokens_of_exceeds none max_tokens keep_first events h = absurd (cc h)
  keep_for_tokens_of_exceeds (some count) none keep_first events h = absurd (cc h)

  has_suffix_to_keep :
      (count : Option (List (Event X) → ℕ)) (s : Settings) (view : View X)
      → (let r = get_condensation_reasons count s view in r.request || r.tokens || r.events) ≡ true
      → (k : ℤ) × (minimum
            (suffix_events_to_keep count s view (get_condensation_reasons count s view))
          ≡ some k)
  unfolding get_condensation_reasons suffix_events_to_keep
  has_suffix_to_keep count s view p =
      let (k, ks, q) =
        only_if-append view.unhandled_condensation_request (ltb s.max_size (length view.events))
          (exceeds_tokens count s.max_tokens view.events) _ _
          (keep_for_tokens count s.max_tokens s.keep_first view.events)
          (keep_for_tokens_of_exceeds count s.max_tokens s.keep_first view.events) p in
      let (m, r) = minimum_of_cons k ks in (m, ap minimum q ∙ r)

  -- The exceptions of a condensation that is asked for.
  generate_condensation-raises :
      (complete : List (Event X) → Option Response) (new_id : String) (e : Event X)
      (forgotten : List (Event X)) (start : ℕ) {x : CondenserError}
      → generate_condensation complete new_id (e ∷ forgotten) start ≡ raise x
      → x ≡ llm_error
  unfolding generate_condensation
  generate_condensation-raises complete new_id e forgotten start p =
      elim (Option-cases (complete (e ∷ forgotten))) [
        | inl n ↦ cc (rw (n, generate_condensation) at p)
        | inr (response, y) ↦ absurd (cc (rw (y, generate_condensation) at p))
      ]

  condensation_of-raises :
      (complete : List (Event X) → Option Response) (new_id : String) (forgotten : List (Event X))
      (start : ℕ) {x : CondenserError}
      → condensation_of complete new_id (ok (forgotten, start)) ≡ raise x
      → (x ≡ llm_error) ⊎ (x ≡ no_condensation_available)
  unfolding condensation_of
  condensation_of-raises complete new_id [] start p = inr (cc p)
  condensation_of-raises complete new_id (e ∷ forgotten) start p =
      inl (generate_condensation-raises complete new_id e forgotten start p)

  get_condensation-raises :
      (complete : List (Event X) → Option Response) (new_id : String)
      (count : Option (List (Event X) → ℕ)) (s : Settings) (view : View X)
      → (let r = get_condensation_reasons count s view in r.request || r.tokens || r.events) ≡ true
      → {x : CondenserError} → get_condensation complete new_id count s view ≡ raise x
      → (x ≡ llm_error) ⊎ (x ≡ no_condensation_available)
  unfolding get_condensation get_forgotten_events forgotten_from
  get_condensation-raises complete new_id count s view h p =
      let (k, q) = has_suffix_to_keep count s view h in
      condensation_of-raises complete new_id _ _ (rw q at p)

  -- `fall_back` reports what the condensation raises, and hides it only behind a soft requirement.
  fall_back-raises :
      (request : CondensationRequirement) (view : View X) (a : Attempt Condensation)
      {x : CondenserError}
      → fall_back request view a ≡ raise x
      → (a ≡ raise x) × (x ≡ no_condensation_available → request ≡ hard)
  unfolding fall_back
  fall_back-raises request view (ok c) p = absurd (cc p)
  fall_back-raises soft view (raise no_condensation_available) p = absurd (cc p)
  fall_back-raises hard view (raise no_condensation_available) p = (cc p, λ _. refl)
  fall_back-raises soft view (raise assertion_failed) p = (cc p, λ q. absurd (cc (p, q)))
  fall_back-raises hard view (raise assertion_failed) p = (cc p, λ q. refl)
  fall_back-raises soft view (raise llm_error) p = (cc p, λ q. absurd (cc (p, q)))
  fall_back-raises hard view (raise llm_error) p = (cc p, λ q. refl)

  fall_back-kept :
      (request : CondensationRequirement) (view : View X) (a : Attempt Condensation) {v : View X}
      → fall_back request view a ≡ ok (kept v)
      → (v ≡ view) × (request ≡ soft)
  unfolding fall_back
  fall_back-kept request view (ok c) p = absurd (cc p)
  fall_back-kept soft view (raise no_condensation_available) p = (cc p, refl)
  fall_back-kept hard view (raise no_condensation_available) p = absurd (cc p)
  fall_back-kept soft view (raise assertion_failed) p = absurd (cc p)
  fall_back-kept hard view (raise assertion_failed) p = absurd (cc p)
  fall_back-kept soft view (raise llm_error) p = absurd (cc p)
  fall_back-kept hard view (raise llm_error) p = absurd (cc p)

  requirement-cases :
      (count : Option (List (Event X) → ℕ)) (s : Settings) (view : View X)
      → ((condensation_requirement count s view ≡ none)
          × (view.unhandled_condensation_request ≡ false))
        ⊎ (((let r = get_condensation_reasons count s view in r.request || r.tokens || r.events)
              ≡ true)
            × (condensation_requirement count s view
                ≡ some (if view.unhandled_condensation_request then hard else soft)))
  unfolding condensation_requirement get_condensation_reasons
  requirement-cases count s view =
      split view.unhandled_condensation_request (exceeds_tokens count s.max_tokens view.events)
        (ltb s.max_size (length view.events))
    where
      split :
          (q t e : Bool)
          → (((if not (q || t || e) then none else if not q then some soft else some hard) ≡ none)
              × (q ≡ false))
            ⊎ (((q || t || e) ≡ true)
                × ((if not (q || t || e) then none else if not q then some soft else some hard)
                    ≡ some (if q then hard else soft)))
      split true t e = inr (refl, refl)
      split false true e = inr (refl, refl)
      split false false true = inr (refl, refl)
      split false false false = inl (refl, refl)

  -- Where no token count raises, the condenser fails only where its LLM does, or where a request
  -- for a condensation is pending and there is nothing to forget; its assertions hold.
  pub summarize-raises :
      (complete : List (Event X) → Option Response) (new_id : String)
      (count : Option (List (Event X) → ℕ)) (s : Settings) (view : View X) {x : CondenserError}
      → summarize complete new_id count s view ≡ raise x
      → (x ≡ llm_error)
        ⊎ ((x ≡ no_condensation_available) × (view.unhandled_condensation_request ≡ true))
  unfolding condense
  summarize-raises complete new_id count s view {x} p = elim (requirement-cases count s view) [
    | inl (n, q) ↦ absurd (cc (rw (n, condense) at p))
    | inr (h, n) ↦
        let (raised, is_hard) =
          fall_back-raises _ view (get_condensation complete new_id count s view)
            (rw (n, condense) at p) in
        elim (get_condensation-raises complete new_id count s view h raised) [
          | inl l ↦ inl l
          | inr none_available ↦
              inr (
                none_available,
                pending view.unhandled_condensation_request (is_hard none_available),
              )
        ]
  ]
    where
      pending : (q : Bool) → (if q then hard else soft) ≡ hard → q ≡ true
      pending true e = refl
      pending false e = absurd (cc e)

  -- A view that the condenser hands back is the one it got, and no request for a condensation is
  -- pending in it.
  pub summarize-kept :
      (complete : List (Event X) → Option Response) (new_id : String)
      (count : Option (List (Event X) → ℕ)) (s : Settings) (view : View X) {v : View X}
      → summarize complete new_id count s view ≡ ok (kept v)
      → (v ≡ view) × (view.unhandled_condensation_request ≡ false)
  unfolding condense
  summarize-kept complete new_id count s view {v} p = elim (requirement-cases count s view) [
    | inl (n, q) ↦ (cc (rw (n, condense) at p), q)
    | inr (h, n) ↦
        let (same, is_soft) =
          fall_back-kept _ view (get_condensation complete new_id count s view)
            (rw (n, condense) at p) in
        (same, idle view.unhandled_condensation_request is_soft)
  ]
    where
      idle : (q : Bool) → (if q then hard else soft) ≡ soft → q ≡ false
      idle false e = refl
      idle true e = absurd (cc e)
