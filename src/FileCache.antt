-- ===== src/FileCache.antt =====
-- openhands-tools/openhands/tools/file_editor/utils/file_cache.py: a cache with a file for each key
-- and a limit on the bytes. The files stand in the order of their times, the oldest first: a file
-- that is written or read gets the time of that moment. Distinct keys have distinct hashes, and
-- only the cache changes its directory.
pub mod Files
pub mod Sizes
pub mod Limit
pub mod Lookups
use codex_latest.Prelude.{
  ℕ, zero, suc, ◌+◌, ◌-◌, Bool, true, false, not, ◌&&◌, Option, none, some, List, [], ◌∷◌, ◌++◌,
  Dict, lookup, filter, length, ltb, Eq, ◌==◌, if◌then◌else◌,
}

pub record Cache (K : Type 0) (V : Type 0) : Type 0 where
  pub files : Dict K V
  pub size_limit : Option ℕ
  pub current_size : ℕ

module _ {K : Type 0} {V : Type 0} ⦃e : Eq K⦄ where
  -- `os.remove`
  unfoldable pub without : K → Dict K V → Dict K V
  without k [] = []
  without k ((j, v) ∷ d) = let rest = without k d in if j == k then rest else (j, v) ∷ rest

  -- The oldest file but that of the key.
  unfoldable pub oldest : K → Dict K V → Option (K × V)
  oldest k [] = none
  oldest k ((j, v) ∷ d) = let rest = oldest k d in if j == k then rest else some (j, v)

  abbrev pub write : K → V → Dict K V → Dict K V
  write k v files = without k files ++ (k, v) ∷ []

  -- The value, and the cache with the time of the file changed.
  unfoldable pub get : K → Cache K V → Option V × Cache K V
  get k c = elim (lookup c.files k) [
    | none ↦ (none, c)
    | some v ↦ (some v, record c { files = write k v c.files })
  ]

  abbrev pub clear : Cache K V → Cache K V
  clear c = record c { files = []; current_size = 0 }

-- `size_of` is the length of the JSON text of a key and a value.
module _ {K : Type 0} {V : Type 0} ⦃e : Eq K⦄ (size_of : K → V → ℕ) where
  -- `_update_current_size`
  unfoldable pub total : Dict K V → ℕ
  total [] = 0
  total ((k, v) ∷ d) = size_of k v + total d

  -- `min` raises where there is no other file; the loops below only ask where there are two.
  unfoldable pub evict_oldest : K → Cache K V → Cache K V
  evict_oldest k c = elim (oldest k c.files) [
    | none ↦ c
    | some (j, v) ↦ record c {
      files = without j c.files;
      current_size = c.current_size - size_of j v;
    }
  ]

  abbrev pub exceeds : ℕ → ℕ → Cache K V → Bool
  exceeds limit needed c = ltb limit (c.current_size + needed) && ltb 1 (length c.files)

  -- The loops of `set`, on fuel: each round takes a file away.
  unfoldable pub evict : (fuel limit needed : ℕ) → K → Cache K V → Cache K V
  unfolding evict_oldest
  evict zero limit needed k c = c
  evict (suc fuel) limit needed k c =
      let next = evict fuel limit needed k (evict_oldest k c) in
      if exceeds limit needed c then next else c

  unfoldable pub make_room : K → ℕ → Option ℕ → Cache K V → Cache K V
  unfolding evict
  make_room k content_size none c = c
  make_room k content_size (some limit) c = elim (lookup c.files k) [
    | none ↦ evict (length c.files) limit content_size k c
    | some old ↦
        let evicted = evict (length c.files) limit (content_size - size_of k old) k c in
        if ltb (size_of k old) content_size then evicted else c
  ]

  abbrev pub size_or_zero : K → Option V → ℕ
  size_or_zero k none = 0
  size_or_zero k (some v) = size_of k v

  unfoldable pub set : K → V → Cache K V → Cache K V
  unfolding make_room
  set k v c =
      let roomy = make_room k (size_of k v) c.size_limit c in
      record roomy {
        files = write k v roomy.files;
        current_size = (roomy.current_size - size_or_zero k (lookup roomy.files k)) + size_of k v;
      }

  unfoldable pub delete : K → Cache K V → Cache K V
  delete k c = elim (lookup c.files k) [
    | none ↦ c
    | some v ↦ record c { files = without k c.files; current_size = c.current_size - size_of k v }
  ]
