-- ===== src/Snmp/Tables.antt =====
-- What the tables of /proc/net give the collectors tcp.py, ip.py and udp.py.
use fullerite.Base.{
  ℕ, ◌≡◌, ap, refl, ◌∙◌, true, false, Option, some, List, [], ◌∷◌, ◌++◌, All, length, leb, arith,
  if◌then◌else◌,
}
use fullerite.Base.Text.{Str, str_eq, starts_with, words}
use fullerite.Base.Dict.{Dict, insert, update}
use fullerite.Base.Result.{ok, err, index_error}
use fullerite.Collector.State.{World, Collector}
use fullerite.Snmp.{find_table, fill, behind_first, first_line, add_found, add_lines}

-- the columns of a table
abbrev pub columns : List Str → List Str → Dict Str
columns [] ds = []
columns (h ∷ hs) [] = []
columns (h ∷ hs) (d ∷ ds) = (h, d) ∷ columns hs ds

pub fill-columns :
    (hs ds : List Str) (m : Dict Str)
    → fill hs ds m
      ≡ (if leb (length hs) (length ds) then ok (update m (columns hs ds)) else err index_error)
unfolding fill update
fill-columns [] ds m = ground arith
fill-columns (h ∷ hs) [] m = ground arith
fill-columns (h ∷ hs) (d ∷ ds) m = ground (arith, fill-columns hs ds (insert h d m))

-- no line of another table is taken for the header
abbrev pub Other : Str → Str → Type 0
Other prefix l = (str_eq l [] ≡ false) × (starts_with l prefix ≡ false)

find_table-append :
    (prefix header : Str) (before after : List Str)
    → All (Other prefix) before
    → str_eq header [] ≡ false
    → starts_with header prefix ≡ true
    → find_table prefix (before ++ header ∷ after) ≡ some (header, first_line after)
unfolding find_table
find_table-append prefix header [] after o h s = ground arith
find_table-append prefix header (l ∷ before) after o h s =
    ground (arith, find_table-append prefix header before after o.1 h s)

module _ (w : World) (depth : ℕ) (files : Str → Option (List Str)) where
  open w use {float, float.{Carrier}}

  -- Whatever stands before and behind the table, a file's first line with the prefix as a header,
  -- and the line behind it, which is not empty, give each name of the header the value below it,
  -- if there are as many; if a value is missing, reading raises an IndexError.
  pub add_lines-columns :
      (prefix header values : Str) (before after : List Str) (m : Dict Str) (c : Collector Carrier)
      → All (Other prefix) before
      → str_eq header [] ≡ false
      → starts_with header prefix ≡ true
      → str_eq values [] ≡ false
      → let hs = behind_first (words header) in
        let ds = behind_first (words values) in
        add_lines w depth files prefix (before ++ header ∷ values ∷ after) m c ≡ (
          (if leb (length hs) (length ds) then ok (update m (columns hs ds)) else err index_error),
          c,
        )
  unfolding add_lines
  add_lines-columns prefix header values before after m c o h s d =
      let hs = behind_first (words header) in
      let ds = behind_first (words values) in
      let e = find_table-append prefix header before (values ∷ after) o h s in
      ap (λ o. add_found w depth files o m c) e ∙ rw (d, fill-columns hs ds m) refl
