-- ===== src/Fifo/Steps.antt =====
-- The steps of the threads on one lock, in any order, and what holds after any of them.
use codex_latest.Prelude.{
  ℕ, ◌-◌, ◌≤◌, ◌≡◌, refl, subst, Bool, true, false, Option, none, some, List, [], ◌∷◌, ◌++◌, ◌==◌,
  nat_eq, inl, inr, arith, Bool-cases, ltb,
}
use codex_latest.Fifo.{
  Waiter, Lock, new, is_empty, is_front, remove, rest_again, notify_front, round, acquire, released,
  release,
}

-- A thread calls `acquire`, wakes up in it, or calls `release`.
pub data Step : Lock → Lock → Type 0 where
  call : {l : Lock} (t : ℕ) (blocking expired : Bool) → Step l (acquire t blocking expired l).1
  wake : {l : Lock} (t : ℕ) (expired : Bool) → Step l (round t expired l).1
  leave : {l k : Lock} (t : ℕ) → release t l ≡ released k → Step l k

pub data Reaches : Lock → Lock → Type 0 where
  start : {l : Lock} → Reaches l l
  then_step : {l k m : Lock} → Reaches l k → Step k m → Reaches l m

-- The first waiter has been notified, if there is one.
abbrev pub IsWoken : List Waiter → Type 0
IsWoken [] = Unit
IsWoken (w ∷ ws) = w.notified ≡ true

-- An owner has a positive count; a free lock has woken its first waiter.
abbrev pub IsSound : Option ℕ → ℕ → List Waiter → Type 0
IsSound none count waiters = IsWoken waiters
IsSound (some t) count waiters = 1 ≤ count

abbrev pub IsValid : Lock → Type 0
IsValid l = IsSound l.owner l.count l.waiters

remove-IsWoken :
    (t : ℕ) (ws : List Waiter) → is_front t ws ≡ false → IsWoken ws → IsWoken (remove t ws)
unfolding remove
remove-IsWoken t [] n h = tt
remove-IsWoken t (w ∷ ws) n h = rw n h

rest_again-IsWoken :
    (t : ℕ) (ws : List Waiter) → is_front t ws ≡ false → IsWoken ws → IsWoken (rest_again t ws)
unfolding rest_again
rest_again-IsWoken t [] n h = tt
rest_again-IsWoken t (w ∷ ws) n h = rw n h

notify_front-IsWoken : (ws : List Waiter) → IsWoken (notify_front ws)
notify_front-IsWoken [] = tt
notify_front-IsWoken (w ∷ ws) = refl

append-IsWoken : (ws vs : List Waiter) → is_empty ws ≡ false → IsWoken ws → IsWoken (ws ++ vs)
append-IsWoken [] vs n h = absurd (cc n)
append-IsWoken (w ∷ ws) vs n h = h

abbrev lock_of : Option ℕ → ℕ → List Waiter → Lock
lock_of o c ws = record { owner = o; count = c; waiters = ws }

round-IsValid :
    (t : ℕ) (expired : Bool) (o : Option ℕ) (c : ℕ) (ws : List Waiter)
    → IsSound o c ws
    → IsValid (round t expired (lock_of o c ws)).1
unfolding round
round-IsValid t expired none c ws h = elim (Bool-cases (is_front t ws)) [
  | inl y ↦ rw y (omega arith)
  | inr n ↦ elim (Bool-cases expired) [
    | inl y ↦ rw (n, y) (remove-IsWoken t ws n h)
    | inr no_end ↦ rw (n, no_end) (rest_again-IsWoken t ws n h)
  ]
]
round-IsValid t expired (some u) c ws h = elim (Bool-cases (is_front t ws)) [
  | inl y ↦ elim (Bool-cases expired) [ inl z ↦ rw (y, z) h | inr z ↦ rw (y, z) h ]
  | inr n ↦ elim (Bool-cases expired) [ inl z ↦ rw (n, z) h | inr z ↦ rw (n, z) h ]
]

acquire-IsValid :
    (t : ℕ) (blocking expired : Bool) (o : Option ℕ) (c : ℕ) (ws : List Waiter)
    → IsSound o c ws
    → IsValid (acquire t blocking expired (lock_of o c ws)).1
unfolding acquire
acquire-IsValid t blocking expired none c ws h = elim (Bool-cases (is_empty ws)) [
  | inl y ↦ rw y (omega arith)
  | inr n ↦ elim (Bool-cases blocking) [
    | inl y ↦
        rw (n, y)
          (round-IsValid t expired none c (ws ++ record { thread = t; notified = false } ∷ [])
            (append-IsWoken ws _ n h))
    | inr z ↦ rw (n, z) h
  ]
]
acquire-IsValid t blocking expired (some u) c ws h = elim (Bool-cases (u == t)) [
  | inl y ↦ rw y (omega arith)
  | inr n ↦ elim (Bool-cases blocking) [
    | inl y ↦
        rw (n, y)
          (round-IsValid t expired (some u) c (ws ++ record { thread = t; notified = false } ∷ [])
            h)
    | inr z ↦ rw (n, z) h
  ]
]

pub released-injective : {l k : Lock} → released l ≡ released k → l ≡ k
released-injective p = cc p

release-IsValid :
    (t : ℕ) (o : Option ℕ) (c : ℕ) (ws : List Waiter) (k : Lock)
    → release t (lock_of o c ws) ≡ released k
    → IsSound o c ws
    → IsValid k
unfolding release
release-IsValid t none c ws k p h = absurd (cc p)
release-IsValid t (some u) c ws k p h = elim (Bool-cases (u == t)) [
  | inr n ↦ absurd (cc (rw (n, release) at p))
  | inl y ↦ elim (Bool-cases (ltb c 1)) [
    | inl low ↦ absurd (cc (rw (y, low, release) at p))
    | inr counted ↦ elim (Bool-cases (c - 1 == 0)) [
      | inl last ↦
          let e = released-injective (rw (y, counted, last, release) at p) in
          subst IsValid e (notify_front-IsWoken ws)
      | inr more ↦
          let e = released-injective (rw (y, counted, more, release) at p) in
          let left : 1 ≤ c - 1 = ground arith in subst IsValid e left
    ]
  ]
]

-- Every step keeps the lock valid.
pub Step-IsValid : {l k : Lock} → Step l k → IsValid l → IsValid k
Step-IsValid (call {l} t blocking expired) h =
    acquire-IsValid t blocking expired l.owner l.count l.waiters h
Step-IsValid (wake {l} t expired) h = round-IsValid t expired l.owner l.count l.waiters h
Step-IsValid (leave {l} {k} t p) h = release-IsValid t l.owner l.count l.waiters k p h

Reaches-IsValid : {l k : Lock} → Reaches l k → IsValid l → IsValid k
Reaches-IsValid start h = h
Reaches-IsValid (then_step r s) h = Step-IsValid s (Reaches-IsValid r h)

-- No wake-up is lost: whatever the threads did, a lock that is free has notified its first waiter.
pub free-IsWoken : (l : Lock) → Reaches new l → l.owner ≡ none → IsWoken l.waiters
free-IsWoken l r p = subst (λ o. IsSound o l.count l.waiters) p (Reaches-IsValid r tt)

-- Whatever the threads did, a lock that a thread owns has a positive count.
pub owned-count : (l : Lock) (t : ℕ) → Reaches new l → l.owner ≡ some t → 1 ≤ l.count
owned-count l t r p = subst (λ o. IsSound o l.count l.waiters) p (Reaches-IsValid r tt)
