-- ===== src/Tests/Locks.antt =====
-- The theorems about fifo_lock.py at a concrete run: thread 1 takes the lock, thread 2 waits,
-- thread 1 releases it, thread 2 wakes up.
use codex_latest.Prelude.{◌≡◌, refl, ◌⊎◌, true, false, none, some, [], ◌∷◌}
use codex_latest.Fifo.{Lock, new, acquire, round, release, released, is_empty, is_front, rest_again}
use codex_latest.Fifo.Steps.{
  Step, Reaches, call, wake, leave, start, then_step, IsWoken, free-IsWoken,
}
use codex_latest.Fifo.Fair.{Step-owner, Step-first}

abbrev taken : Lock
taken = record { owner = some 1; count = 1; waiters = [] }

abbrev queued : Lock
queued = record {
  owner = some 1;
  count = 1;
  waiters = record { thread = 2; notified = false } ∷ [];
}

abbrev free : Lock
free = record { owner = none; count = 0; waiters = record { thread = 2; notified = true } ∷ [] }

abbrev passed_on : Lock
passed_on = record { owner = some 2; count = 1; waiters = [] }

takes : Step new taken
unfolding acquire
takes = call {l = new} 1 true false

queues : Step taken queued
unfolding acquire round rest_again
queues = call {l = taken} 2 true false

frees : release 1 queued ≡ released free
unfolding release
frees = refl

wakes : Step free passed_on
unfolding round
wakes = wake {l = free} 2 false

Reaches-queued : Reaches new queued
Reaches-queued = then_step (then_step start takes) queues

free-IsWoken_example : IsWoken free.waiters
free-IsWoken_example = free-IsWoken free (then_step Reaches-queued (leave 1 frees)) refl

Step-owner_example :
    (free.owner ≡ some 1) ⊎ ((free.owner ≡ none) × (release 1 queued ≡ released free))
Step-owner_example = Step-owner 1 (leave 1 frees) refl

Step-first_example : (is_empty free.waiters ≡ true) ⊎ (is_front 2 free.waiters ≡ true)
Step-first_example = Step-first 2 wakes refl refl
