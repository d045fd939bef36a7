-- ===== src/Convertor.antt =====
-- src/diamond/convertor.py: the classes `binary` and `time`, which keep a value in one unit and
-- set and get it in others.
pub mod Binary
pub mod Time
use fullerite.Base.{ℕ, Bool, Option, none, some, List, [], ◌∷◌, if◌then◌else◌}
use fullerite.Base.Text.{Str, str_mem}

-- A ladder of `if unit in [...]: return self.method(value)`: each row has a test's names and its
-- method, and the first row that has the unit is taken.
unfoldable pub select {ℓ} : {M : Type ℓ} → List (List Str × M) → Str → Option M
select [] unit = none
select ((names, m) ∷ rows) unit = if str_mem unit names then some m else select rows unit
