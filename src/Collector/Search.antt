-- ===== src/Collector/Search.antt =====
-- `Collector.find_binary` of src/diamond/collector.py.
use fullerite.Base.{
  ◌≡◌, refl, ◌⊎◌, inl, inr, Bool, true, ◌&&◌, Bool-cases, List, [], ◌∷◌, ◌++◌, map, arith,
  if◌then◌else◌,
}
use fullerite.Base.Text.{Str, codes, str_mem, split}
use fullerite.Loader.{join_path}

-- `os.path.basename(binary)`: what stands behind the last slash
abbrev last_of : List Str → Str
last_of [] = []
last_of (p ∷ []) = p
last_of (p ∷ q ∷ ps) = last_of (q ∷ ps)

abbrev pub base_name : Str → Str
unfolding split
base_name s = last_of (split b'/' s)

-- `default_paths`, where a missing comma joins two literals
abbrev pub default_paths : List Str
default_paths =
    map codes ("/usr/bin" ∷ "/bin/usr/local/bin" ∷ "/usr/sbin" ∷ "/sbin/usr/local/sbin" ∷ [])

abbrev pub append_new : List Str → List Str → List Str
append_new paths [] = paths
append_new paths (p ∷ ps) = append_new (if str_mem p paths then paths else paths ++ p ∷ []) ps

-- the directories that are searched, for the value of PATH
unfoldable pub search_paths : Str → List Str
unfolding split
search_paths path = append_new (split b':' path) default_paths

-- For the files and the directories that exist, the loop over the paths, and then the argument.
unfoldable pub search : (Str → Bool) → (Str → Bool) → Str → Str → List Str → Str
search exists is_dir binary name [] = binary
search exists is_dir binary name (p ∷ ps) =
    let rest = search exists is_dir binary name ps in
    let file = join_path p name in if is_dir p && exists file then file else rest

unfoldable pub find_binary : (Str → Bool) → (Str → Bool) → Str → Str → Str
unfolding search search_paths base_name
find_binary exists is_dir path binary =
    if exists binary
    then binary
    else search exists is_dir binary (base_name binary) (search_paths path)

search_lem :
    (exists is_dir : Str → Bool) (binary name : Str) (ps : List Str)
    → (exists (search exists is_dir binary name ps) ≡ true)
      ⊎ (search exists is_dir binary name ps ≡ binary)
unfolding search
search_lem exists is_dir binary name [] = inr refl
search_lem exists is_dir binary name (p ∷ ps) =
    elim (Bool-cases (is_dir p && exists (join_path p name))) [
      | inl found ↦ ground arith
      | inr next ↦ ground (arith, search_lem exists is_dir binary name ps)
    ]

-- `find_binary` returns a file that exists, or its argument as it was given.
pub find_binary_lem :
    (exists is_dir : Str → Bool) (path binary : Str)
    → (exists (find_binary exists is_dir path binary) ≡ true)
      ⊎ (find_binary exists is_dir path binary ≡ binary)
unfolding find_binary
find_binary_lem exists is_dir path binary = elim (Bool-cases (exists binary)) [
  | inl here ↦ ground arith
  | inr missing ↦
      ground (arith, search_lem exists is_dir binary (base_name binary) (search_paths path))
]
