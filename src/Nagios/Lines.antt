-- ===== src/Nagios/Lines.antt =====
-- About the lines of performance data.
use fullerite.Base.{ℕ, false, none, List, ◌∷◌, ◌≡◌, refl, arith}
use fullerite.Base.Text.{Str, codes}
use fullerite.Base.Dict.{Dict, lookup, has_key}
use fullerite.Base.Result.{err, key_error}
use fullerite.Collector.State.{World, Collector}
use fullerite.Nagios.{extract_fields, fields_valid, read_fields, process_line, process_lines}

fields_valid-no_host : (d : Dict Str) → lookup (codes "HOSTNAME") d ≡ none → fields_valid d ≡ false
unfolding fields_valid has_key
fields_valid-no_host d h = ground arith

module _ (w : World) (depth : ℕ) (find : Str → List (Str × Str × Str)) where
  open w use {float, float.{Carrier}}

  -- A line without a host is not valid, and ends the file with a KeyError.
  process_lines-no_host :
      (line : Str) (lines : List Str) (c : Collector Carrier)
      → lookup (codes "HOSTNAME") (extract_fields line) ≡ none
      → (fields_valid (extract_fields line) ≡ false)
        × (process_lines w depth find (line ∷ lines) c ≡ (err key_error, c))
  unfolding process_lines process_line read_fields
  process_lines-no_host line lines c h = (fields_valid-no_host (extract_fields line) h, rw h refl)
