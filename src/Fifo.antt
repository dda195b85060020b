-- ===== src/Fifo.antt =====
-- openhands-sdk/openhands/sdk/conversation/fifo_lock.py: a reentrant lock that is handed on in the
-- order of the requests. A function stands for what a thread does while it holds the mutex: from
-- the call of a method, or from waking up, to the return or the next wait. Threads are numbers;
-- a thread that waits calls nothing else, so the condition it waits on is named by the thread.
-- Time is a flag: whether the timeout of the call has passed.
pub mod Steps
pub mod Fair
use codex_latest.Prelude.{
  ℕ, ◌+◌, ◌-◌, Bool, true, false, not, ◌&&◌, ◌||◌, Option, none, some, List, [], ◌∷◌, ◌++◌, any,
  ◌==◌, nat_eq, ltb, if◌then◌else◌,
}

pub record Waiter : Type 0 where
  pub thread : ℕ
  pub notified : Bool

pub record Lock : Type 0 where
  pub owner : Option ℕ
  pub count : ℕ
  pub waiters : List Waiter

-- What the critical section of `acquire` ends with: `True`, `False`, or a wait.
pub data Outcome : Type 0 where
  acquired refused waiting : Outcome

abbrev pub new : Lock
new = record { owner = none; count = 0; waiters = [] }

-- `self._owner == ident`
abbrev pub is_owner : ℕ → Option ℕ → Bool
is_owner t none = false
is_owner t (some u) = u == t

abbrev pub is_free : Option ℕ → Bool
is_free none = true
is_free (some u) = false

abbrev pub is_empty : List Waiter → Bool
is_empty [] = true
is_empty (w ∷ ws) = false

-- `self._waiters[0] is me`
abbrev pub is_front : ℕ → List Waiter → Bool
is_front t [] = false
is_front t (w ∷ ws) = w.thread == t

-- `self._waiters.popleft()`
abbrev pub pop : List Waiter → List Waiter
pop [] = []
pop (w ∷ ws) = ws

-- `self._waiters.remove(me)`
unfoldable pub remove : ℕ → List Waiter → List Waiter
remove t [] = []
remove t (w ∷ ws) = let rest = remove t ws in if w.thread == t then ws else w ∷ rest

-- A thread that waits again waits for the next notification.
unfoldable pub rest_again : ℕ → List Waiter → List Waiter
rest_again t [] = []
rest_again t (w ∷ ws) =
    let rest = rest_again t ws in
    if w.thread == t then record { thread = t; notified = false } ∷ ws else w ∷ rest

-- `self._waiters[0].notify()`, if there is a waiter.
abbrev pub notify_front : List Waiter → List Waiter
notify_front [] = []
notify_front (w ∷ ws) = record { thread = w.thread; notified = true } ∷ ws

-- One round of the loop of `acquire`, for a thread in the queue.
unfoldable pub round : ℕ → Bool → Lock → Outcome × Lock
round t expired l =
    if is_front t l.waiters && is_free l.owner
    then (acquired, record { owner = some t; count = 1; waiters = pop l.waiters })
    else if expired
    then (refused, record l { waiters = remove t l.waiters })
    else (waiting, record l { waiters = rest_again t l.waiters })

-- `acquire`, up to the first wait.
unfoldable pub acquire : ℕ → (blocking expired : Bool) → Lock → Outcome × Lock
acquire t blocking expired l =
    let queued = record l { waiters = l.waiters ++ record { thread = t; notified = false } ∷ [] } in
    if is_owner t l.owner
    then (acquired, record l { count = l.count + 1 })
    else if is_free l.owner && is_empty l.waiters
    then (acquired, record l { owner = some t; count = 1 })
    else if not blocking
    then (refused, l)
    else round t expired queued

-- `RuntimeError`, `AssertionError`, or the lock after the release.
pub data Release : Type 0 where
  not_owned not_counted : Release
  released : Lock → Release

unfoldable pub release : ℕ → Lock → Release
release t l =
    if not (is_owner t l.owner)
    then not_owned
    else if ltb l.count 1
    then not_counted
    else if l.count - 1 == 0
    then released (record { owner = none; count = 0; waiters = notify_front l.waiters })
    else released (record l { count = l.count - 1 })

-- `locked` and `owned`.
abbrev pub locked : Lock → Bool
locked l = not (is_free l.owner)

abbrev pub owned : ℕ → Lock → Bool
owned t l = is_owner t l.owner
