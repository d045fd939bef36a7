-- ===== src/MySql/Stats.antt =====
-- `get_stats` of src/diamond/collectors/mysqlstat/mysqlstat.py, for the rows that the database
-- returns.
use fullerite.Base.{
  Bool, true, false, ◌&&◌, not, Option, none, some, List, [], ◌∷◌, ◌++◌, if◌then◌else◌,
}
use fullerite.Base.Int.{ℤ, pos}
use fullerite.Base.Text.{Str, codes, str_eq, str_mem, contains}
use fullerite.Base.Dict.{Dict, insert}
use fullerite.Base.Result.{Result, ok, err, type_error}
use fullerite.Python.{Float, Num, int, flt, Value, nil, bool, num, str, strs, pattern}
use fullerite.Python.Arith.{num_lt}
use fullerite.Python.Convert.{value_float}
use fullerite.MySql.Keys.{ignore_keys}

-- A row of SHOW PROCESSLIST, whose columns are turned into texts first, but for the time.
pub record Process (F : Type 0) : Type 0 where
  pub command : Str
  pub info : Str
  pub user : Str
  pub time : Value F

-- A metric with its own dimensions.
pub record Entry (F : Type 0) : Type 0 where
  pub metric_name : Str
  pub metric_value : Value F
  pub dimensions : Dict (Value F)

-- The metrics of one key of the dict.
pub data Group (F : Type 0) : Type 0 where
  plain : Dict F → Group F
  entries : List (Entry F) → Group F

module _ (fl : Float) where
  open fl use {Carrier, of_int}

  -- `try: d[name] = float(v)`, with a bare `except`
  abbrev pub put_float : Str → Value Carrier → Dict Carrier → Dict Carrier
  unfolding value_float insert
  put_float name v d = elim (value_float fl v) [ err e ↦ d | ok x ↦ insert name x d ]

  -- SHOW GLOBAL STATUS: a name and a value for each row
  unfoldable pub read_global_status : List (Str × Value Carrier) → Dict Carrier → Dict Carrier
  unfolding value_float insert
  read_global_status [] d = d
  read_global_status ((name, v) ∷ rows) d = read_global_status rows (put_float name v d)

  -- the items of one row of SHOW MASTER STATUS or SHOW SLAVE STATUS
  unfoldable pub read_row : Dict (Value Carrier) → Dict Carrier → Dict Carrier
  unfolding value_float insert
  read_row [] d = d
  read_row ((key, v) ∷ row) d =
      read_row row (if str_mem key ignore_keys then d else put_float key v d)

  unfoldable pub read_status_rows : List (Dict (Value Carrier)) → Dict Carrier → Dict Carrier
  unfolding read_row
  read_status_rows [] d = d
  read_status_rows (row ∷ rows) d = read_status_rows rows (read_row row d)

  -- `x < v` for a number that is at hand and a configured value: Python 2 orders None below the
  -- numbers and texts above them.
  abbrev pub above : Num Carrier → Value Carrier → Bool
  unfolding num_lt
  above x nil = true
  above x (bool true) = num_lt fl (int (pos 1)) x
  above x (bool false) = num_lt fl (int (pos 0)) x
  above x (num n) = num_lt fl n x
  above x (str s) = false
  above x (strs l) = false
  above x (pattern p) = false

  -- `user not in self.config['ignore_users']`, negated
  unfoldable pub is_ignored : Str → Value Carrier → Result Bool
  is_ignored user (strs l) = ok (str_mem user l)
  is_ignored user (str s) = ok (contains s user)
  is_ignored user v = err type_error

  -- the running time, 0 where the column is None
  unfoldable pub running_time : Value Carrier → Result (Num Carrier)
  unfolding value_float
  running_time nil = ok (int (pos 0))
  running_time v = elim (value_float fl v) [ err e ↦ err e | ok x ↦ ok (flt x) ]

  abbrev pub idle_entry : Process Carrier → Num Carrier → Entry Carrier
  idle_entry p t = record {
    metric_name = codes "MySQL_idle_threads";
    metric_value = num t;
    dimensions = (codes "user", str p.user) ∷ [];
  }

  abbrev pub query_entry : Process Carrier → Num Carrier → Entry Carrier
  query_entry p t = record {
    metric_name = codes "MySQL_long_queries";
    metric_value = num t;
    dimensions = (codes "user", str p.user) ∷ (codes "query", str p.info) ∷ [];
  }

  -- The configured limits and users.
  pub record Limits : Type 0 where
    pub idle_threshold : Value Carrier
    pub query_threshold : Value Carrier
    pub ignore_users : Value Carrier

  -- a thread that is neither ignored nor asleep
  unfoldable pub busy_thread : Limits → Process Carrier → Num Carrier → Bool → List (Entry Carrier)
  unfolding num_lt
  busy_thread k p t ignored =
      if not ignored && above t k.query_threshold then query_entry p t ∷ [] else []

  -- the entries of one row
  unfoldable pub read_process : Limits → Process Carrier → Result (List (Entry Carrier))
  unfolding running_time is_ignored busy_thread num_lt
  read_process k p = elim (str_mem p.command ignore_keys) [
    | true ↦ ok []
    | false ↦ elim (running_time p.time) [
      | err e ↦ err e
      | ok t ↦ elim (str_eq p.command (codes "Sleep")) [
        | true ↦ ok (if above t k.idle_threshold then idle_entry p t ∷ [] else [])
        | false ↦ elim (is_ignored p.user k.ignore_users) [
          | err e ↦ err e
          | ok b ↦ ok (busy_thread k p t b)
        ]
      ]
    ]
  ]

  -- The loop. An exception ends it, is logged, and leaves what was read before.
  unfoldable pub read_processes :
      Limits → List (Process Carrier) → List (Entry Carrier) → List (Entry Carrier) × Bool
  unfolding read_process
  read_processes k [] found = (found, false)
  read_processes k (p ∷ ps) found = elim (read_process k p) [
    | err e ↦ (found, true)
    | ok more ↦ read_processes k ps (found ++ more)
  ]

  -- the sizes of the temporary tables' files; none is a file whose `os.stat` fails
  unfoldable pub read_temp_tables :
      List (Option ℤ) → List (Entry Carrier) → List (Entry Carrier) × Bool
  unfolding value_float
  read_temp_tables [] found = (found, false)
  read_temp_tables (none ∷ files) found = (found, true)
  read_temp_tables (some size ∷ files) found = elim (of_int size) [
    | none ↦ (found, true)
    | some x ↦ read_temp_tables files (
        found
        ++ record {
          metric_name = codes "MySQL_temptable_size";
          metric_value = num (flt x);
          dimensions = [];
        }
          ∷ [])
  ]
