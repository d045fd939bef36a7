-- ===== src/Rpc.antt =====
-- The NFS collectors: nfs/nfs.py and nfsd/nfsd.py of src/diamond/collectors.
pub mod Layouts
pub mod Columns
use fullerite.Base.{
  String, Bool, true, false, Option, none, some, List, [], ◌∷◌, ◌++◌, ℕ, if◌then◌else◌,
}
use fullerite.Base.Text.{Str, codes, str_eq, words}
use fullerite.Base.Dict.{Dict, insert}
use fullerite.Base.Result.{Result, ok, err, index_error, bind}
use fullerite.Base.Exec.{pure, lift, ◌>>=◌, ◌>>◌}
use fullerite.Python.{Num, long, flt, num, str}
use fullerite.Python.Convert.{value_float, value_int}
use fullerite.Collector.State.{World, Collector, Action}
use fullerite.Collector.Derivative.{default_counting, derivative}
use fullerite.Collector.Publish.{publish}
use fullerite.Collector.Run.{sample}
use fullerite.Snmp.{fill}
use fullerite.Rpc.Layouts.{Layout, nfs_layouts, nfsd_layouts}

abbrev pub find_layout : Str → List Layout → Option Layout
find_layout kind [] = none
find_layout kind (l ∷ ls) =
    let rest = find_layout kind ls in if str_eq kind l.kind then some l else rest

-- `line.pop(1)`, where the line has such a field
abbrev pub drop_count : Bool → List Str → Result (List Str)
drop_count false values = ok values
drop_count true [] = err index_error
drop_count true (v ∷ vs) = ok vs

-- the values behind those of the given names
abbrev pub behind : List Str → List Str → List Str
behind [] vs = vs
behind (n ∷ ns) [] = []
behind (n ∷ ns) (v ∷ vs) = behind ns vs

-- `try: results[name] = line[i]`, `except IndexError: pass`, for names in a row
unfoldable pub fill_some : List Str → List Str → Dict Str → Dict Str
fill_some [] vs m = m
fill_some (n ∷ ns) [] m = m
fill_some (n ∷ ns) (v ∷ vs) m = fill_some ns vs (insert n v m)

-- the assignments for one kind of line
unfoldable pub read_columns : Layout → List Str → Dict Str → Result (Dict Str)
unfolding fill fill_some
read_columns l values m =
    bind (drop_count l.counted values)
      λ vs. bind (fill l.names vs m) λ m'. ok (fill_some l.optional (behind l.names vs) m')

abbrev pub read_found : Option Layout → List Str → Dict Str → Result (Dict Str)
unfolding read_columns
read_found none values m = ok m
read_found (some l) values m = read_columns l values m

abbrev pub read_words : List Layout → List Str → Dict Str → Result (Dict Str)
unfolding read_columns
read_words layouts [] m = err index_error
read_words layouts (kind ∷ values) m = read_found (find_layout kind layouts) values m

-- the loop over the lines
unfoldable pub read_lines : List Layout → List Str → Dict Str → Result (Dict Str)
unfolding read_columns
read_lines layouts [] m = ok m
read_lines layouts (l ∷ ls) m = bind (read_words layouts (words l) m) λ m'. read_lines layouts ls m'

module _ (w : World) (depth : ℕ) where
  open w use {float, float.{Carrier}}

  -- `long(float(text))`, and the rate of that counter
  unfoldable pub publish_stat : Str → Str → Action w Unit
  publish_stat name text = do
    x ← lift (value_float float (str text))
    n ← lift (value_int float (num (flt x)))
    rate ← derivative w name (long n) default_counting
    publish w depth (sample name (num rate) (codes "GAUGE"))

  -- The loop over the results, in the order in which they were found, with what the names begin
  -- with; the source leaves the order open.
  unfoldable pub publish_stats : Str → Dict Str → Action w Unit
  publish_stats prefix [] = pure tt
  publish_stats prefix ((name, text) ∷ rest) = do
    publish_stat (prefix ++ name) text
    publish_stats prefix rest

  abbrev pub collect_file : Str → List Layout → Option (List Str) → Action w Unit
  collect_file prefix layouts none = pure tt
  collect_file prefix layouts (some lines) = do
    results ← lift (read_lines layouts lines [])
    publish_stats prefix results

  unfoldable pub collect_nfs : Option (List Str) → Action w Unit
  collect_nfs file = collect_file [] nfs_layouts file

  unfoldable pub collect_nfsd : Option (List Str) → Action w Unit
  collect_nfsd file = collect_file (codes ".") nfsd_layouts file
