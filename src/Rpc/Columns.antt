-- ===== src/Rpc/Columns.antt =====
-- Which column a result of nfs.py and nfsd.py comes from.
use fullerite.Base.{◌≡◌, refl, inl, inr, List, [], ◌∷◌, arith}
use fullerite.Base.Text.{Str}
use fullerite.Base.Dict.{Dict, lookup, insert, update, or_else, lookup_last, lookup-update}
use fullerite.Base.Result.{Result-cases, ok}
use fullerite.Snmp.{fill}
use fullerite.Snmp.Tables.{columns, fill-columns}
use fullerite.Rpc.Layouts.{Layout}
use fullerite.Rpc.{drop_count, behind, fill_some, read_columns}

fill_some-columns : (ns vs : List Str) (m : Dict Str) → fill_some ns vs m ≡ update m (columns ns vs)
unfolding fill_some update
fill_some-columns [] vs m = refl
fill_some-columns (n ∷ ns) [] m = refl
fill_some-columns (n ∷ ns) (v ∷ vs) m = fill_some-columns ns vs (insert n v m)

-- A line that is read gives each name the value of the last column that has this name, the
-- optional columns after the others, and leaves what no column names as it was.
pub read_columns-lookup :
    (l : Layout) (values vs : List Str) (m n : Dict Str) (j : Str)
    → drop_count l.counted values ≡ ok vs
    → read_columns l values m ≡ ok n
    → lookup j n
      ≡ or_else
          (lookup_last j (columns l.optional (behind l.names vs)))
          (or_else (lookup_last j (columns l.names vs)) (lookup j m))
unfolding read_columns
read_columns-lookup l values vs m n j d h = elim (Result-cases (fill l.names vs m)) [
  | inr (x, e) ↦ ground arith
  | inl (k, e) ↦
      let last : fill_some l.optional (behind l.names vs) k ≡ n = ground arith in
      let required : update m (columns l.names vs) ≡ k =
        ground (arith, fill-columns l.names vs m) in
      rw
        (
          ← last,
          fill_some-columns l.optional (behind l.names vs) k,
          lookup-update,
          ← required,
          lookup-update,
        )
        refl
]
