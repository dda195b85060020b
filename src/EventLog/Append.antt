-- ===== src/EventLog/Append.antt =====
-- `append` adds one event to the directory, whichever log calls it.
use codex_latest.Prelude.{
  ℕ, zero, suc, ◌+◌, ◌≤◌, ◌<◌, ◌≡◌, ◌≢◌, refl, sym, ap, ◌∙◌, subst, ◌⊎◌, inl, inr, String, Bool,
  true, false, not, none, some, List, [], ◌∷◌, ◌++◌, Dict, lookup, lookup_of_mem, assign, filter,
  max, Memᴰ, head, tail, length, length-append, ltb, string_eq, nat_eq, ◌==◌, if◌then◌else◌,
  Bool-cases, Option-cases, arith,
}
use mathlib.Core.List.{append-nil}
use codex_latest.EventLog.{
  File, Log, Appended, appended, already_exists, is_none, index_file, restore, is_recognized,
  scan_and_build_index, sync_from_disk, same_path, write_file, new_file, append_new, append,
}
use codex_latest.EventLog.Index.{id_at, position, IsIndex, index_file-IsIndex}
use codex_latest.EventLog.Scan.{AreFiles, scan_and_build_index-IsIndex}

restore_none :
    (entries : Dict ℕ String) (log : Log)
    → ((i : ℕ) (v : String)
        → Memᴰ (i, v) entries
        → (is_none (lookup log.idx_to_id i) ≡ false) × (is_none (lookup log.id_to_idx v) ≡ false))
    → restore entries log ≡ log
unfolding restore
restore_none [] log h = refl
restore_none ((i, v) ∷ entries) log h =
    let (a, b) = h i v (head refl) in
    rw (a, b, restore) (restore_none entries log (λ j w m. h j w (tail m)))

module _ {E : Type 0} where
  -- The log has read all the files.
  abbrev pub HasRead : Log → List (File E) → Type 0
  HasRead log l = (log.length ≡ length l) × IsIndex log l

  -- The log has read the first files, and other logs may have written more.
  abbrev pub IsBehind : Log → List (File E) → Type 0
  IsBehind log paths = (l : List (File E)) × (m : List (File E)) × (paths ≡ l ++ m) × HasRead log l

  id_at-prefix :
      (l m : List (File E)) (i : ℕ) {v : String} → id_at l i ≡ some v → id_at (l ++ m) i ≡ some v
  id_at-prefix [] m i h = absurd (cc h)
  id_at-prefix (f ∷ l) m zero h = h
  id_at-prefix (f ∷ l) m (suc i) {v} h = id_at-prefix l m i {v = v} h

  id_at-position :
      (l : List (File E)) (k i : ℕ) (v : String)
      → id_at l i ≡ some v
      → is_none (position v k l) ≡ false
  unfolding position
  id_at-position [] k i v h = absurd (cc h)
  id_at-position (f ∷ l) k zero v h =
      let same : f.event_id ≡ v = cc h in rw ((string_eq.reflects f.event_id v).1 same) refl
  id_at-position (f ∷ l) k (suc i) v h = elim (Bool-cases (f.event_id == v)) [
    | inl y ↦ rw y refl
    | inr n ↦ rw n (id_at-position l (suc k) i v h)
  ]

module _ {E : Type 0} (id : E → String) (is_event_id : String → Bool) where
  append-AreFiles :
      (k : ℕ) (l : List (File E)) (f : File E)
      → AreFiles id is_event_id k l
      → f.idx ≡ k + length l
      → is_recognized id is_event_id f ≡ true
      → AreFiles id is_event_id k (l ++ f ∷ [])
  append-AreFiles k [] f h p r = (omega (arith, p), r, tt)
  append-AreFiles k (g ∷ l) f (q, s, h) p r =
      (q, s, append-AreFiles (suc k) l f h (omega (arith, p)) r)

  write_file-new :
      (k : ℕ) (l : List (File E)) (f : File E)
      → AreFiles id is_event_id k l
      → k + length l ≤ f.idx
      → filter (λ g. not (same_path id is_event_id f g)) l ≡ l
  unfolding filter
  write_file-new k [] f h m = refl
  write_file-new k (g ∷ l) f (q, s, h) m =
      let n : (f.idx == g.idx) ≡ false = ground (arith, q, m) in
      rw n (ap (λ r. g ∷ r) (write_file-new (suc k) l f h (omega (arith, m))))

  -- A log that is behind reads the rest, and loses nothing.
  sync_from_disk-HasRead :
      (paths : List (File E)) (log : Log)
      → AreFiles id is_event_id 0 paths
      → IsBehind log paths
      → HasRead (sync_from_disk id is_event_id paths log) paths
  unfolding sync_from_disk
  sync_from_disk-HasRead paths log h (l, m, p, (n, (at, pos, distinct))) =
      let scanned = scan_and_build_index id is_event_id paths in
      let (size, (at2, pos2, distinct2)) = scan_and_build_index-IsIndex id is_event_id paths h in
      let same : restore log.idx_to_id scanned ≡ scanned =
        restore_none log.idx_to_id scanned (λ i v mem.
          let there : id_at paths i ≡ some v =
            ap (λ q. id_at q i) p
            ∙ id_at-prefix l m i {v = v} (sym (at i) ∙ lookup_of_mem log.idx_to_id distinct mem) in
          (ap is_none (at2 i ∙ there), ap is_none (pos2 v) ∙ id_at-position paths 0 i v there)) in
      (
        omega (arith, size),
        subst (λ (r : Log). IsIndex (record r { length = max scanned.length (length paths) }) paths)
            (sym same) (at2, pos2, distinct2),
      )

  -- What `append` does with a log that has read all the files.
  abbrev pub Refines : E → List (File E) → Appended E → Type 0
  Refines e paths r =
      ((position (id e) 0 paths ≡ none)
        × ((log : Log) × (r ≡ appended log (paths ++ new_file id is_event_id (length paths) e ∷ []))
            × HasRead log (paths ++ new_file id is_event_id (length paths) e ∷ [])))
      ⊎ ((position (id e) 0 paths ≢ none)
          × ((log : Log) × (r ≡ already_exists log paths) × HasRead log paths))

  append_new-Refines :
      (e : E) (paths : List (File E)) (log : Log)
      → AreFiles id is_event_id 0 paths
      → HasRead log paths
      → Refines e paths (append_new id is_event_id e log paths)
  unfolding append_new index_file
  append_new-Refines e paths log h (n, index) = elim (Option-cases (lookup log.id_to_idx (id e))) [
    | inl a ↦ inl (
      sym (index.1 (id e)) ∙ a,
      let f = new_file id is_event_id log.length e in
          let g = new_file id is_event_id (length paths) e in
          let next : Log = record {
            length = suc log.length;
            id_to_idx = assign (id e) log.length log.id_to_idx;
            idx_to_id = assign log.length (id e) log.idx_to_id;
          } in
          let one_more : IsIndex (index_file (length paths) (id e) log) (paths ++ g ∷ []) =
            index_file-IsIndex log paths g index in
          let stored : write_file id is_event_id f paths ≡ paths ++ g ∷ [] =
            ap (λ q. q ++ f ∷ []) (write_file-new 0 paths f h (omega (arith, n)))
            ∙ ap (λ k. paths ++ new_file id is_event_id k e ∷ []) n in
          let unknown : (if is_none (lookup log.id_to_idx (id e))
                then assign (id e) log.length log.id_to_idx
                else log.id_to_idx)
              ≡ assign (id e) log.length log.id_to_idx =
            rw a refl in
          let indexed : IsIndex next (paths ++ g ∷ []) =
            subst
              (λ (d : Dict String ℕ).
                IsIndex
                  (record {
                    length = suc log.length;
                    id_to_idx = d;
                    idx_to_id = assign log.length (id e) log.idx_to_id;
                  })
                  (paths ++ g ∷ []))
              unknown
              (subst (λ k. IsIndex (index_file k (id e) log) (paths ++ g ∷ [])) (sym n) one_more) in
          (
            next,
            rw (a, append_new) (ap (appended next) stored),
            (omega (arith, n, length-append paths (g ∷ [])), indexed),
          ),
    )
    | inr (i, y) ↦
        inr (
          λ p. absurd (cc (sym y ∙ index.1 (id e) ∙ p)),
          (log, rw (y, append_new) refl, (n, index)),
        )
  ]

  length-behind :
      (paths : List (File E)) (log : Log)
      → IsBehind log paths
      → ltb log.length (length paths) ≡ false
      → HasRead log paths
  length-behind paths log (l, [], p, h) n = subst (HasRead log) (sym (p ∙ append-nil l)) h
  length-behind paths log (l, f ∷ m, p, h) n =
      let longer : length paths ≡ length l + suc (length m) =
        ap length p ∙ length-append l (f ∷ m) in
      absurd (ground (arith, n, h.0, longer))

  -- In a directory whose files have the numbers from 0 on and names that a scan recognizes, let a
  -- log have read the first files, while others may have written more. If no file has the id of
  -- the event, `append` adds one file, with the next number, and the log has then read all;
  -- else it raises, the directory is as it was, and the log has read all of it.
  pub append-Refines :
      (e : E) (paths : List (File E)) (log : Log)
      → AreFiles id is_event_id 0 paths
      → IsBehind log paths
      → Refines e paths (append id is_event_id e log paths)
  unfolding append
  append-Refines e paths log h b = elim (Bool-cases (ltb log.length (length paths))) [
    | inl y ↦ rw y (
        append_new-Refines e paths (sync_from_disk id is_event_id paths log) h
          (sync_from_disk-HasRead paths log h b))
    | inr n ↦ rw n (append_new-Refines e paths log h (length-behind paths log b n))
  ]

  -- The new file keeps the directory in order, while its number has five digits.
  append-AreFiles_next :
      (e : E) (paths : List (File E))
      → AreFiles id is_event_id 0 paths
      → length paths < 100000
      → is_event_id (id e) ≡ true
      → AreFiles id is_event_id 0 (paths ++ new_file id is_event_id (length paths) e ∷ [])
  unfolding is_recognized
  append-AreFiles_next e paths h l v =
      append-AreFiles 0 paths (new_file id is_event_id (length paths) e) h (omega arith)
        (ground (arith, l, v))
