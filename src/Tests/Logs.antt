-- ===== src/Tests/Logs.antt =====
-- The theorem about event_store.py at a log that another one has written past.
use codex_latest.Prelude.{refl, String, Bool, true, List, [], ◌∷◌, lookup, string_eq, nat_eq}
use codex_latest.EventLog.{File, Log, is_recognized, new_file, append}
use codex_latest.EventLog.Index.{position}
use codex_latest.EventLog.Scan.{AreFiles}
use codex_latest.EventLog.Append.{IsBehind, Refines, append-Refines}

-- An event is its id.
abbrev own_id : String → String
own_id e = e

abbrev any_id : String → Bool
any_id v = true

abbrev two_files : List (File String)
two_files = new_file own_id any_id 0 "aaaaaaaa" ∷ new_file own_id any_id 1 "bbbbbbbb" ∷ []

abbrev new_log : Log
new_log = record { length = 0; id_to_idx = []; idx_to_id = [] }

two_files-AreFiles : AreFiles own_id any_id 0 two_files
unfolding is_recognized
two_files-AreFiles = (refl, refl, (refl, refl, tt))

new_log-IsBehind : IsBehind new_log two_files
unfolding lookup position
new_log-IsBehind = ([], two_files, refl, (refl, (λ i. refl, λ v. refl, tt)))

append-Refines_example :
    Refines own_id any_id "cccccccc" two_files (append own_id any_id "cccccccc" new_log two_files)
append-Refines_example =
    append-Refines own_id any_id "cccccccc" two_files new_log two_files-AreFiles new_log-IsBehind
