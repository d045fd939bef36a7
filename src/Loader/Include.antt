-- ===== src/Loader/Include.antt =====
-- The list that `load_include_path` of src/diamond/utils/classes.py makes.
use fullerite.Base.{Option, none, some, List, [], ◌∷◌, arith}
use fullerite.Base.Text.{Str, str_eq_sym, NoRepeat}
use fullerite.Loader.{
  Entry, Entries, file, directory, other, end, entry, join_path, include, include_entry,
  include_entries, load_include_path,
}

include-NoRepeat : (p : Str) (ps : List Str) → NoRepeat ps → NoRepeat (include p ps)
include-NoRepeat p [] h = ground arith
include-NoRepeat p (q ∷ ps) h = ground (arith, str_eq_sym p q)

mutual
  unfolding include_entry

  include_entry-NoRepeat :
      (e : Entry) (path : Str) (ps : List Str) → NoRepeat ps → NoRepeat (include_entry path e ps)
  include_entry-NoRepeat (file f) path ps h = h
  include_entry-NoRepeat (other f) path ps h = h
  include_entry-NoRepeat (directory f es) path ps h =
      include_entries-NoRepeat es (join_path path f) (include (join_path path f) ps)
        (include-NoRepeat (join_path path f) ps h)

  include_entries-NoRepeat :
      (es : Entries) (path : Str) (ps : List Str)
      → NoRepeat ps
      → NoRepeat (include_entries path es ps)
  include_entries-NoRepeat end path ps h = h
  include_entries-NoRepeat (entry e es) path ps h =
      include_entries-NoRepeat es path (include_entry path e ps)
        (include_entry-NoRepeat e path ps h)

-- Whatever the trees, the include path holds no directory twice if it held none twice before.
pub load_include_path-NoRepeat :
    (roots : List (Str × Option Entries)) (ps : List Str)
    → NoRepeat ps
    → NoRepeat (load_include_path roots ps)
unfolding load_include_path
load_include_path-NoRepeat [] ps h = h
load_include_path-NoRepeat ((path, none) ∷ rs) ps h = load_include_path-NoRepeat rs ps h
load_include_path-NoRepeat ((path, some es) ∷ rs) ps h =
    load_include_path-NoRepeat rs (include_entries path es (include path ps))
      (include_entries-NoRepeat es path (include path ps) (include-NoRepeat path ps h))
