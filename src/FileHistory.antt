-- ===== src/FileHistory.antt =====
-- openhands-tools/openhands/tools/file_editor/utils/history.py: the earlier contents of the edited
-- files, in a cache without a limit. A key is the text of a path with a suffix; the texts of two
-- keys differ where the keys do.
pub mod Entries
pub mod Stack
pub mod Undo
use codex_latest.Prelude.{
  ℕ, zero, suc, ◌+◌, ◌≡◌, ◌↔◌, refl, ap, String, Bool, true, false, ◌&&◌, Option, none, some, List,
  [], ◌∷◌, ◌++◌, length, ltb, Eq, ◌==◌, string_eq, nat_eq, if◌then◌else◌, arith,
}
use codex_latest.FileCache.{Cache, set, get, delete}

-- `_get_metadata_key` and `_get_history_key`
pub data Key : Type 0 where
  metadata_key : String → Key
  history_key : String → ℕ → Key

abbrev pub same_key : Key → Key → Bool
same_key (metadata_key p) (metadata_key q) = p == q
same_key (history_key p i) (history_key q j) = (p == q) && (i == j)
same_key _ _ = false

path_of : Key → String
path_of (metadata_key p) = p
path_of (history_key p i) = p

counter_of : Key → ℕ
counter_of (metadata_key p) = 0
counter_of (history_key p i) = i

both_true : (a b : Bool) → (a && b) ≡ true → (a ≡ true) × (b ≡ true)
both_true true b h = (refl, h)
both_true false b h = absurd (cc h)

both_keys : {p q : String} {i j : ℕ} → p ≡ q → i ≡ j → history_key p i ≡ history_key q j
both_keys h k = cc

pub same_key_lem : (x y : Key) → (same_key x y ≡ true) ↔ (x ≡ y)
unfolding path_of counter_of
same_key_lem (metadata_key p) (metadata_key q) =
    (λ h. ap metadata_key ((string_eq.reflects p q).0 h), λ h. (string_eq.reflects p q).1 (cc h))
same_key_lem (history_key p i) (history_key q j) = (
  λ h.
      let (a, b) = both_true (p == q) (i == j) h in
      both_keys ((string_eq.reflects p q).0 a) ((nat_eq.reflects i j).0 b),
  λ h.
      let a = (string_eq.reflects p q).1 (ap path_of h) in
      let b = (nat_eq.reflects i j).1 (ap counter_of h) in rw (a, b) refl,
)
same_key_lem (metadata_key p) (history_key q j) = (λ h. absurd (cc h), λ h. absurd (cc h))
same_key_lem (history_key p i) (metadata_key q) = (λ h. absurd (cc h), λ h. absurd (cc h))

instance abbrev pub key_eq : Eq Key
key_eq = record { equals = same_key; reflects = same_key_lem }

pub record Metadata : Type 0 where
  pub entries : List ℕ
  pub counter : ℕ

-- A value is a JSON text: that of the metadata under a metadata key, or else that of a content.
pub data Value : Type 0 where
  of_metadata : Metadata → Value
  of_content : String → Value

abbrev pub no_metadata : Metadata
no_metadata = record { entries = []; counter = 0 }

abbrev pub as_metadata : Option Value → Metadata
as_metadata (some (of_metadata m)) = m
as_metadata _ = no_metadata

abbrev pub as_content : Option Value → Option String
as_content (some (of_content s)) = some s
as_content _ = none

-- `entries.pop()`: the entries before the last one, and that one.
unfoldable pub pop_entry : List ℕ → Option (List ℕ × ℕ)
pop_entry [] = none
pop_entry (i ∷ entries) = elim (pop_entry entries) [
  | none ↦ some ([], i)
  | some (before, j) ↦ some (i ∷ before, j)
]

-- `size_of` is that of the cache.
module _ (size_of : Key → Value → ℕ) where
  -- The `while` loop of `add_history`.
  unfoldable pub trim : ℕ → String → List ℕ → Cache Key Value → List ℕ × Cache Key Value
  trim max path [] c = ([], c)
  trim max path (i ∷ entries) c =
      let rest = trim max path entries (delete size_of (history_key path i) c) in
      if ltb max (suc (length entries)) then rest else (i ∷ entries, c)

  unfoldable pub add_history : ℕ → String → String → Cache Key Value → Cache Key Value
  unfolding trim
  add_history max_history_per_file path content c =
      let (found, read) = get (metadata_key path) c in
      let m = as_metadata found in
      let added = set size_of (history_key path m.counter) (of_content content) read in
      let (entries, trimmed) = trim max_history_per_file path (m.entries ++ m.counter ∷ []) added in
      set size_of (metadata_key path)
        (of_metadata (record { entries = entries; counter = suc m.counter })) trimmed

  abbrev pub delete_found : String → ℕ → Option String → Cache Key Value → Cache Key Value
  delete_found path i none c = c
  delete_found path i (some content) c = delete size_of (history_key path i) c

  unfoldable pub pop_last_history : String → Cache Key Value → Option String × Cache Key Value
  pop_last_history path c =
      let (found, read) = get (metadata_key path) c in
      let m = as_metadata found in
      elim (pop_entry m.entries) [
        | none ↦ (none, read)
        | some (before, last) ↦
            let (value, again) = get (history_key path last) read in
            let content = as_content value in
            (
              content,
              set size_of (metadata_key path)
                  (of_metadata (record { entries = before; counter = m.counter }))
                  (delete_found path last content again),
            )
      ]

  unfoldable pub delete_all : String → List ℕ → Cache Key Value → Cache Key Value
  delete_all path [] c = c
  delete_all path (i ∷ entries) c = delete_all path entries (delete size_of (history_key path i) c)

  unfoldable pub clear_history : String → Cache Key Value → Cache Key Value
  unfolding delete_all
  clear_history path c =
      let (found, read) = get (metadata_key path) c in
      set size_of (metadata_key path) (of_metadata no_metadata)
        (delete_all path (as_metadata found).entries read)

abbrev pub cons_found : Option String → List String → List String
cons_found none rest = rest
cons_found (some content) rest = content ∷ rest

-- The loop of `get_all_history`.
unfoldable pub contents : String → List ℕ → Cache Key Value → List String
contents path [] c = []
contents path (i ∷ entries) c =
    let (value, read) = get (history_key path i) c in
    cons_found (as_content value) (contents path entries read)

unfoldable pub get_all_history : String → Cache Key Value → List String
unfolding contents
get_all_history path c =
    let (found, read) = get (metadata_key path) c in contents path (as_metadata found).entries read
