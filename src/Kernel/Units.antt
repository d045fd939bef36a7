-- ===== src/Kernel/Units.antt =====
-- The unit in which src/diamond/collectors/memory/memory.py publishes.
use fullerite.Base.{ℕ, ◌≡◌, ◌-◌, ◌≤◌, refl, some, arith}
use fullerite.Base.Int.{ℤ}
use fullerite.Base.Text.{Str, codes}
use fullerite.Base.Result.{ok}
use fullerite.Python.{int, flt, num}
use fullerite.Python.Arith.{to_float}
use fullerite.Python.Scaling.{Scaling}
use fullerite.Convertor.Binary.RoundTrip.{exponent, convert_lem}
use fullerite.Collector.State.{World}
use fullerite.Collector.Run.{sample}
use fullerite.Kernel.Memory.{memory_sample}

module _ (w : World) (depth : ℕ) (sc : Scaling w.float) where
  open w use {float, float.{Carrier, mul, of_int}}
  open sc use {Fits, pow2}

  -- A memory value in kilobytes is published in a unit of 2^d bits, d at most 13, as the value's
  -- float times 2^(13 - d), for floats that scale exactly by powers of two and a product in range.
  pub memory_sample_k_b :
      (name unit : Str) (value : ℤ) (x : Carrier) (d : ℕ)
      → exponent unit ≡ some d
      → d ≤ 13
      → of_int value ≡ some x
      → Fits x 13
      → memory_sample w depth name value (codes "kB") unit
        ≡ ok (sample name (num (flt (mul x (pow2 (13 - d))))) (codes "GAUGE"))
  unfolding memory_sample to_float
  memory_sample_k_b name unit value x d u le v fits =
      let exact =
        convert_lem float sc (codes "kB") unit 13 d (int value) x refl u le (ground arith) fits in
      rw exact refl
