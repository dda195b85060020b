-- ===== src/LocalConversation/Ends.antt =====
-- The loop ends, whatever the other threads ask, and how.
use codex_latest.Prelude.{
  ℕ, zero, suc, ◌+◌, ◌*◌, ◌<◌, ◌≤◌, ◌≡◌, ◌≢◌, refl, sym, ◌∙◌, subst, inl, inr, Bool, Option, some,
  List, Eq, arith,
}
use codex_latest.Event.{Event}
use codex_latest.Conversation.{State, finished, stuck}
use codex_latest.Agent.Execute.{Stepped, raised}
use codex_latest.LocalConversation.{
  LocalConversation, Request, Round, next, stop, failing, recover, serve_all, started, round,
  run_loop, run,
}
use codex_latest.LocalConversation.Turns.{Ended, Continues, Fits, round-Fits, recover-Failed}
use codex_latest.LocalConversation.Rounds.{serve_all-finished, serve_all-stuck}

module _ {X : Type 0} ⦃e : Eq X⦄ (model_eq : Event X → Event X → Bool)
    (c : LocalConversation X) where
  -- The loop returns with this fuel, and ends as it should.
  abbrev Returns : ℕ → (ℕ → List (Request X)) → ℕ → State X → Type 0
  Returns fuel schedule i s =
      (r : Stepped X) × (run_loop model_eq c fuel schedule i s ≡ some r) × Ended c r

  -- The fuel is enough after any turn that goes on from here.
  abbrev GoesOn : ℕ → (ℕ → List (Request X)) → ℕ → State X → Type 0
  GoesOn fuel schedule i s =
      (j : ℕ) (t : State X) → Continues c i s j t → Returns fuel (λ n. schedule (suc n)) j t

  after_round :
      (fuel : ℕ) (schedule : ℕ → List (Request X)) (i : ℕ) (s : State X) (r : Round X)
      → Fits c i s r
      → GoesOn fuel schedule i s
      → (q : Stepped X) × (elim r as (λ y. Option (Stepped X)) [
        | stop t ↦ some t
        | failing t ↦ some (raised (recover c (schedule 1) (schedule 2) t))
        | next j t ↦ run_loop model_eq c fuel (λ n. schedule (suc n)) j t
      ]
          ≡ some q)
        × Ended c q
  after_round fuel schedule i s (stop t) h k = (t, refl, h)
  after_round fuel schedule i s (failing t) h k = (
    raised (recover c (schedule 1) (schedule 2) t),
    refl,
    recover-Failed c (schedule 1) (schedule 2) t,
  )
  after_round fuel schedule i s (next j t) h k = k j t h

  one_turn :
      (fuel : ℕ) (schedule : ℕ → List (Request X)) (i : ℕ) (s : State X)
      → GoesOn fuel schedule i (serve_all c (schedule 0) s)
      → Returns (suc fuel) schedule i s
  unfolding run_loop
  one_turn fuel schedule i s h =
      let t = serve_all c (schedule 0) s in
      after_round fuel schedule i t (round model_eq c i t) (round-Fits model_eq c i t) h

  at_stuck :
      (fuel : ℕ) (schedule : ℕ → List (Request X)) (i : ℕ) (s : State X)
      → s.execution_status ≡ stuck
      → Returns (suc fuel) schedule i s
  at_stuck fuel schedule i s h =
      one_turn fuel schedule i s (λ j t k. absurd (k.0 (serve_all-stuck c (schedule 0) s h)))

  -- With `d` more steps, `2 * d + 3` turns are enough.
  abbrev Enough : ℕ → Type 0
  Enough d =
      (f : ℕ)
      → 2 * d ≤ f
      → (schedule : ℕ → List (Request X)) (i : ℕ) (s : State X)
      → c.max_iteration_per_run ≤ suc i + d
      → Returns (suc (suc (suc f))) schedule i s

  abbrev EnoughBefore : ℕ → Type 0
  EnoughBefore zero = Unit
  EnoughBefore (suc d) = Enough d

  stepped :
      (d : ℕ)
      → EnoughBefore d
      → (f : ℕ) → 2 * d ≤ f
      → (schedule : ℕ → List (Request X)) (i : ℕ) (t : State X)
      → c.max_iteration_per_run ≤ suc i + d
      → suc i < c.max_iteration_per_run
      → Returns (suc f) schedule (suc i) t
  stepped zero h f k schedule i t m l = absurd (omega (arith, m, l))
  stepped (suc d) h zero k schedule i t m l = absurd (omega (arith, k))
  stepped (suc d) h (suc zero) k schedule i t m l = absurd (omega (arith, k))
  stepped (suc d) h (suc (suc f)) k schedule i t m l =
      h f (omega (arith, k)) schedule (suc i) t (omega (arith, m))

  not_finished :
      (d : ℕ)
      → EnoughBefore d
      → (f : ℕ) → 2 * d ≤ f
      → (schedule : ℕ → List (Request X)) (i : ℕ) (s : State X)
      → c.max_iteration_per_run ≤ suc i + d
      → s.execution_status ≢ finished
      → Returns (suc (suc f)) schedule i s
  not_finished d h f k schedule i s m n = one_turn (suc f) schedule i s (λ j t g. elim g.1 [
    | inl p ↦ at_stuck f (λ n. schedule (suc n)) j t p.0
    | inr (inl p) ↦ absurd (n (serve_all-finished c (schedule 0) s p.0))
    | inr (inr p) ↦
        subst (λ j. Returns (suc f) (λ n. schedule (suc n)) j t) (sym p.0)
          (stepped d h f k (λ n. schedule (suc n)) i t m p.1)
  ])

  any_status : (d : ℕ) → EnoughBefore d → Enough d
  any_status d h f k schedule i s m =
      let later : ℕ → List (Request X) = λ n. schedule (suc n) in
      one_turn (suc (suc f)) schedule i s (λ j t g. elim g.1 [
        | inl p ↦ at_stuck (suc f) later j t p.0
        | inr (inl p) ↦
            not_finished d h f k later j t
              (subst (λ j. c.max_iteration_per_run ≤ suc j + d) (sym p.2) m)
              (λ q. absurd (cc (sym p.1 ∙ q)))
        | inr (inr p) ↦
            subst (λ j. Returns (suc (suc f)) later j t) (sym p.0)
              (stepped d h (suc f) (omega (arith, k)) later i t m p.1)
      ])

  enough : (d : ℕ) → Enough d
  enough zero = any_status zero tt
  enough (suc d) = any_status (suc d) (enough d)

  -- Whatever the other threads ask between its turns, and while an exception is handled, `run` ends
  -- after at most 2 * max_iteration_per_run + 3 turns. Then the conversation is paused, stuck or
  -- waiting for a confirmation, or it is finished and the stop hooks allow it, or the status is an error and the
  -- last event is the error of the conversation, as it is when `run` raises.
  pub run-Ended :
      (schedule : ℕ → List (Request X)) (s : State X)
      → (r : Stepped X) × (run model_eq c (2 * c.max_iteration_per_run + 3) schedule s ≡ some r)
        × Ended c r
  unfolding run
  run-Ended schedule s =
      let max = c.max_iteration_per_run in
      subst (λ n. Returns n schedule 0 (started c s)) {x = suc (suc (suc (2 * max)))} (omega arith)
        (enough max (2 * max) (omega arith) schedule 0 (started c s) (omega arith))
