-- ===== src/Tests/Files.antt =====
-- The theorems about file_cache.py and history.py at concrete caches.
use codex_latest.Prelude.{
  ℕ, ◌+◌, ◌-◌, ◌≤◌, ◌≡◌, ◌⊎◌, refl, String, none, some, List, [], ◌∷◌, ◌++◌, lookup, length, drop,
  nat_eq, string_eq, arith,
}
use codex_latest.FileCache.{Cache, set, total}
use codex_latest.FileCache.Sizes.{IsSound, set-IsSound}
use codex_latest.FileCache.Limit.{set-limit}
use codex_latest.FileHistory.{
  Key, Value, metadata_key, history_key, key_eq, of_content, of_metadata, add_history,
  pop_last_history,
}
use codex_latest.FileHistory.Stack.{AreHistory, add_history-AreHistory, pop_last_history-AreHistory}
use codex_latest.FileHistory.Undo.{pop_last_history-add_history}

-- A value of the cache is its own size.
abbrev own_size : ℕ → ℕ → ℕ
own_size k v = v

abbrev full : Cache ℕ ℕ
full = record { files = (1, 4) ∷ (2, 3) ∷ (3, 2) ∷ []; size_limit = some 10; current_size = 9 }

full-IsSound : IsSound own_size full
unfolding lookup total
full-IsSound = ((refl, (refl, (refl, tt))), refl)

set-IsSound_example :
    IsSound own_size (set own_size 4 5 full) × (lookup (set own_size 4 5 full).files 4 ≡ some 5)
set-IsSound_example = set-IsSound own_size 4 5 full full-IsSound

set-limit_example :
    let t = set own_size 4 5 full in
    (t.current_size ≤ 10) ⊎ (length t.files ≤ 2) ⊎ (t.current_size ≤ 9)
set-limit_example = set-limit own_size 4 5 10 full full-IsSound refl

abbrev one_each : Key → Value → ℕ
one_each k v = 1

abbrev two : List String
two = "x = 1" ∷ "x = 2" ∷ []

-- Two earlier contents of one file.
abbrev edited : Cache Key Value
edited = record {
  files =
      (metadata_key "a.py", of_metadata (record { entries = 3 ∷ 4 ∷ []; counter = 5 }))
      ∷ (history_key "a.py" 3, of_content "x = 1")
      ∷ (history_key "a.py" 4, of_content "x = 2")
      ∷ [];
  size_limit = none;
  current_size = 3;
}

edited-AreHistory : AreHistory "a.py" edited two
unfolding lookup
edited-AreHistory = (
  record { entries = 3 ∷ 4 ∷ []; counter = 5 },
  refl,
  refl,
  (omega arith, (omega arith, omega arith)),
  (refl, (refl, tt)),
)

add_history-AreHistory_example :
    AreHistory "a.py"
      (add_history one_each 2 "a.py" "x = 3" edited)
      (drop (length (two ++ "x = 3" ∷ []) - 2) (two ++ "x = 3" ∷ []))
add_history-AreHistory_example =
    add_history-AreHistory one_each "a.py" 2 "x = 3" edited two edited-AreHistory

pop_last_history-AreHistory_example :
    let r = pop_last_history one_each "a.py" edited in
    ((two ≡ []) × (r.0 ≡ none) × AreHistory "a.py" r.1 [])
    ⊎ ((ys : List String) × (y : String) × (two ≡ ys ++ y ∷ [])
        × (r.0 ≡ some y)
        × AreHistory "a.py" r.1 ys)
pop_last_history-AreHistory_example =
    pop_last_history-AreHistory one_each "a.py" edited two edited-AreHistory

pop_last_history-add_history_example :
    let r = pop_last_history one_each "a.py" (add_history one_each 2 "a.py" "x = 3" edited) in
    (r.0 ≡ some "x = 3") × AreHistory "a.py" r.1 (drop ((2 + 1) - 2) two)
pop_last_history-add_history_example =
    pop_last_history-add_history one_each "a.py" 2 "x = 3" edited two (omega arith)
      edited-AreHistory
