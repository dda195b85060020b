-- ===== src/EventLog.antt =====
-- openhands-sdk/openhands/sdk/conversation/event_store.py: the log of the events of a conversation,
-- one file for each in a directory that several logs may write, under the lock of its file store.
-- The directory lists its files in the order in which they were written. A name is the number
-- and the id that it is made of; a lock that is not had in time, which changes nothing, is left out.
pub mod Index
pub mod Scan
pub mod Append
use codex_latest.Prelude.{
  ℕ, zero, suc, ◌+◌, String, Bool, true, false, not, ◌&&◌, Option, none, some, List, [], ◌∷◌, ◌++◌,
  Dict, lookup, assign, filter, length, max, ltb, string_eq, nat_eq, ◌==◌, if◌then◌else◌,
}

pub record File (E : Type 0) : Type 0 where
  pub idx : ℕ
  pub event_id : String
  pub event : E

pub record Log : Type 0 where
  pub length : ℕ
  pub id_to_idx : Dict String ℕ
  pub idx_to_id : Dict ℕ String

-- The log and the directory after a call, or when it raises since the id is there.
pub data Appended (E : Type 0) : Type 0 where
  appended : Log → List (File E) → Appended E
  already_exists : Log → List (File E) → Appended E

abbrev pub is_none : {A : Type 0} → Option A → Bool
is_none none = true
is_none (some a) = false

-- `self._idx_to_id[i] = evt_id`, and the other index, unless it has the id.
unfoldable pub index_file : ℕ → String → Log → Log
index_file i evt_id log = record {
  length = log.length;
  id_to_idx =
      if is_none (lookup log.id_to_idx evt_id)
      then assign evt_id i log.id_to_idx
      else log.id_to_idx;
  idx_to_id = assign i evt_id log.idx_to_id;
}

-- The loop over `range(n)`; the numbers are all there.
unfoldable pub index_range : (count i : ℕ) → Dict ℕ String → Log → Log
unfolding index_file
index_range zero i by_idx log = log
index_range (suc count) i by_idx log =
    index_range count (suc i) by_idx
      (elim (lookup by_idx i) [ none ↦ log | some evt_id ↦ index_file i evt_id log ])

-- The `while` loop: the first number that is not there. On fuel, the number of files.
unfoldable pub first_gap : (fuel n : ℕ) → Dict ℕ String → ℕ
first_gap zero n by_idx = n
first_gap (suc fuel) n by_idx = elim (lookup by_idx n) [
  | none ↦ n
  | some evt_id ↦ first_gap fuel (suc n) by_idx
]

-- The loop that restores the mappings that a scan lost.
unfoldable pub restore : Dict ℕ String → Log → Log
restore [] log = log
restore ((i, evt_id) ∷ entries) log = restore entries (record {
  length = log.length;
  id_to_idx =
      if is_none (lookup log.id_to_idx evt_id)
      then assign evt_id i log.id_to_idx
      else log.id_to_idx;
  idx_to_id =
      if is_none (lookup log.idx_to_id i) then assign i evt_id log.idx_to_id else log.idx_to_id;
})

-- `is_event_id` tells whether an id fits the pattern of the names; a name has five digits.
module _ {E : Type 0} (id : E → String) (is_event_id : String → Bool) where
  unfoldable pub is_recognized : File E → Bool
  is_recognized f = ltb f.idx 100000 && is_event_id f.event_id

  unfoldable pub by_index : List (File E) → Dict ℕ String → Dict ℕ String
  unfolding is_recognized
  by_index [] by_idx = by_idx
  by_index (f ∷ paths) by_idx =
      by_index paths (if is_recognized f then assign f.idx f.event_id by_idx else by_idx)

  -- `_scan_and_build_index`
  unfoldable pub scan_and_build_index : List (File E) → Log
  unfolding by_index first_gap index_range
  scan_and_build_index paths =
      let by_idx = by_index paths [] in
      let n = first_gap (length paths) 0 by_idx in
      index_range n 0 by_idx (record { length = n; id_to_idx = []; idx_to_id = [] })

  -- `_sync_from_disk`, where the number of files is more than the length of the log.
  unfoldable pub sync_from_disk : List (File E) → Log → Log
  unfolding scan_and_build_index restore
  sync_from_disk paths log =
      let scanned = scan_and_build_index paths in
      record (restore log.idx_to_id scanned) { length = max scanned.length (length paths) }

  abbrev pub same_path : File E → File E → Bool
  same_path f g = (f.idx == g.idx) && (f.event_id == g.event_id)

  -- `self._fs.write`
  abbrev pub write_file : File E → List (File E) → List (File E)
  write_file f paths = filter (λ g. not (same_path f g)) paths ++ f ∷ []

  abbrev pub new_file : ℕ → E → File E
  new_file i e = record { idx = i; event_id = id e; event = e }

  unfoldable pub append_new : E → Log → List (File E) → Appended E
  append_new e log paths = elim (lookup log.id_to_idx (id e)) [
    | some i ↦ already_exists log paths
    | none ↦
        appended
          (record {
            length = suc log.length;
            id_to_idx = assign (id e) log.length log.id_to_idx;
            idx_to_id = assign log.length (id e) log.idx_to_id;
          })
          (write_file (new_file log.length e) paths)
  ]

  -- `append`, under the lock.
  unfoldable pub append : E → Log → List (File E) → Appended E
  unfolding sync_from_disk append_new
  append e log paths =
      append_new e (if ltb log.length (length paths) then sync_from_disk paths log else log) paths
