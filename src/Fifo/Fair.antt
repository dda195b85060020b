-- ===== src/Fifo/Fair.antt =====
-- Who owns the lock after a step: nobody takes it from its owner, and a free lock goes to the
-- thread that has waited longest.
use codex_latest.Prelude.{
  ℕ, ◌-◌, ◌≡◌, refl, subst, sym, ap, Bool, true, false, Option, none, some, List, [], ◌∷◌, ◌++◌,
  ◌==◌, nat_eq, inl, inr, ◌⊎◌, arith, Bool-cases, ltb,
}
use codex_latest.Fifo.{Waiter, Lock, is_empty, is_front, round, acquire, released, release}
use codex_latest.Fifo.Steps.{released-injective, Step, call, wake, leave}

-- A thread that gets a free lock was first in the queue, or the queue was empty.
abbrev IsNextIn : List Waiter → Option ℕ → Type 0
IsNextIn ws none = Unit
IsNextIn ws (some t) = (is_empty ws ≡ true) ⊎ (is_front t ws ≡ true)

abbrev lock_of : Option ℕ → ℕ → List Waiter → Lock
lock_of o c ws = record { owner = o; count = c; waiters = ws }

round-IsNextIn :
    (t : ℕ) (expired : Bool) (c : ℕ) (ws : List Waiter)
    → IsNextIn ws (round t expired (lock_of none c ws)).1.owner
unfolding round
round-IsNextIn t expired c ws = elim (Bool-cases (is_front t ws)) [
  | inl y ↦ rw y (inr y)
  | inr n ↦ elim (Bool-cases expired) [ inl y ↦ rw (n, y) tt | inr z ↦ rw (n, z) tt ]
]

is_front-append :
    (t : ℕ) (ws vs : List Waiter) → is_empty ws ≡ false → is_front t (ws ++ vs) ≡ is_front t ws
is_front-append t [] vs n = absurd (cc n)
is_front-append t (w ∷ ws) vs n = refl

round_owner :
    (t u : ℕ) (expired : Bool) (c : ℕ) (ws : List Waiter)
    → (round t expired (lock_of (some u) c ws)).1.owner ≡ some u
unfolding round
round_owner t u expired c ws = elim (Bool-cases (is_front t ws)) [
  | inl y ↦ elim (Bool-cases expired) [ inl z ↦ rw (y, z) refl | inr z ↦ rw (y, z) refl ]
  | inr n ↦ elim (Bool-cases expired) [ inl z ↦ rw (n, z) refl | inr z ↦ rw (n, z) refl ]
]

acquire-IsNextIn :
    (t : ℕ) (blocking expired : Bool) (c : ℕ) (ws : List Waiter)
    → IsNextIn ws (acquire t blocking expired (lock_of none c ws)).1.owner
unfolding acquire round
acquire-IsNextIn t blocking expired c ws = elim (Bool-cases (is_empty ws)) [
  | inl y ↦ rw y (inl y)
  | inr n ↦ elim (Bool-cases blocking) [
    | inr z ↦ rw (n, z) tt
    | inl y ↦
        let ahead = is_front-append t ws (record { thread = t; notified = false } ∷ []) n in
        elim (Bool-cases (is_front t ws)) [
          | inl f ↦ rw (n, y, ahead, f) (inr f)
          | inr f ↦ elim (Bool-cases expired) [
            | inl e ↦ rw (n, y, ahead, f, e) tt
            | inr e ↦ rw (n, y, ahead, f, e) tt
          ]
        ]
  ]
]

acquire_owner :
    (t u : ℕ) (blocking expired : Bool) (c : ℕ) (ws : List Waiter)
    → (acquire t blocking expired (lock_of (some u) c ws)).1.owner ≡ some u
unfolding acquire
acquire_owner t u blocking expired c ws = elim (Bool-cases (u == t)) [
  | inl y ↦ rw y refl
  | inr n ↦ elim (Bool-cases blocking) [
    | inl y ↦
        rw (n, y) (round_owner t u expired c (ws ++ record { thread = t; notified = false } ∷ []))
    | inr z ↦ rw (n, z) refl
  ]
]

release-cases :
    (u t : ℕ) (c : ℕ) (ws : List Waiter) (k : Lock)
    → release u (lock_of (some t) c ws) ≡ released k
    → (u ≡ t) × ((k.owner ≡ some t) ⊎ (k.owner ≡ none))
unfolding release
release-cases u t c ws k p = elim (Bool-cases (t == u)) [
  | inr n ↦ absurd (cc (rw (n, release) at p))
  | inl y ↦ elim (Bool-cases (ltb c 1)) [
    | inl low ↦ absurd (cc (rw (y, low, release) at p))
    | inr counted ↦ elim (Bool-cases (c - 1 == 0)) [
      | inl last ↦
          let e = released-injective (rw (y, counted, last, release) at p) in
          (ground arith, inr (sym (ap (λ (l : Lock). l.owner) e)))
      | inr more ↦
          let e = released-injective (rw (y, counted, more, release) at p) in
          (ground arith, inl (sym (ap (λ (l : Lock). l.owner) e)))
    ]
  ]
]

no_release :
    (u c : ℕ) (ws : List Waiter) {k : Lock} → ¬ (release u (lock_of none c ws) ≡ released k)
unfolding release
no_release u c ws p = absurd (cc p)

-- Mutual exclusion: after any step of any thread the owner is the same thread, or the step was the
-- owner's own release and the lock is free.
pub Step-owner :
    {l k : Lock} (t : ℕ)
    → Step l k
    → l.owner ≡ some t
    → (k.owner ≡ some t) ⊎ ((k.owner ≡ none) × (release t l ≡ released k))
Step-owner t (call {l} u blocking expired) p = inl (
    subst (λ o. (acquire u blocking expired (lock_of o l.count l.waiters)).1.owner ≡ some t) (sym p)
      (acquire_owner u t blocking expired l.count l.waiters))
Step-owner t (wake {l} u expired) p = inl (
    subst (λ o. (round u expired (lock_of o l.count l.waiters)).1.owner ≡ some t) (sym p)
      (round_owner u t expired l.count l.waiters))
Step-owner t (leave {l} {k} u q) p =
    let (same, after) =
      release-cases u t l.count l.waiters k
        (subst (λ o. release u (lock_of o l.count l.waiters) ≡ released k) p q) in
    elim after [
      | inl kept ↦ inl kept
      | inr freed ↦ inr (freed, subst (λ v. release v l ≡ released k) same q)
    ]

-- First come, first served: a thread that a step makes the owner of a free lock is the first of
-- the queue, or the queue is empty.
pub Step-first :
    {l k : Lock} (t : ℕ)
    → Step l k
    → l.owner ≡ none
    → k.owner ≡ some t
    → (is_empty l.waiters ≡ true) ⊎ (is_front t l.waiters ≡ true)
Step-first t (call {l} u blocking expired) p q = subst (IsNextIn l.waiters) q (
    subst
      (λ o. IsNextIn l.waiters (acquire u blocking expired (lock_of o l.count l.waiters)).1.owner)
      (sym p) (acquire-IsNextIn u blocking expired l.count l.waiters))
Step-first t (wake {l} u expired) p q = subst (IsNextIn l.waiters) q (
    subst (λ o. IsNextIn l.waiters (round u expired (lock_of o l.count l.waiters)).1.owner) (sym p)
      (round-IsNextIn u expired l.count l.waiters))
Step-first t (leave {l} {k} u r) p q = absurd (
    no_release u l.count l.waiters
      (subst (λ o. release u (lock_of o l.count l.waiters) ≡ released k) p r))
