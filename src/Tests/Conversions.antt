-- ===== src/Tests/Conversions.antt =====
-- Instances of the theorems on convertor.py.
use fullerite.Base.{◌≡◌, refl, none, some, arith}
use fullerite.Base.Int.{pos, floor_div}
use fullerite.Base.Text.{codes}
use fullerite.Base.Result.{ok}
use fullerite.Convertor.{select}
use fullerite.Python.{int}
use fullerite.Python.Arith.{to_float}
use fullerite.Convertor.Binary
use fullerite.Convertor.Binary.RoundTrip
use fullerite.Convertor.Time
use fullerite.Convertor.Time.Store.{set_int, over}
use fullerite.Tests.Floats.{whole, scaling}

-- 3 MB are 24 * 1024 kilobits.
convert_lem_example :
    Binary.convert whole (some (int (pos 3))) (some (codes "MB")) (some (codes "kbit"))
    ≡ ok (some 24_576)
unfolding select to_float
convert_lem_example =
    RoundTrip.convert_lem whole scaling (codes "MB") (codes "kbit") 23 10 (int (pos 3)) 3 refl refl
      (omega arith) refl tt

-- 1999 microseconds are stored as one millisecond.
set_int_example : Time.set whole (int (pos 1_999)) (some (codes "us")) none ≡ (ok none, some 1)
unfolding select floor_div
set_int_example = set_int whole (codes "us") (over 1_000) (pos 1_999) 1 none refl refl
