-- ===== src/Disk/Blocks.antt =====
-- About file systems without blocks.
use fullerite.Base.{ℕ, false, none, some, ◌∷◌, ◌++◌, ◌≡◌, refl, ap, ◌∙◌}
use fullerite.Base.Int.{ℤ, pos, ◌+ℤ◌, ◌-ℤ◌, int_laws}
use fullerite.Base.Text.{Str, codes}
use fullerite.Base.Result.{ok, err, zero_division}
use fullerite.Base.Exec.{bind_err}
use fullerite.Python.Arith.{to_float}
use fullerite.Collector.State.{World, Collector}
use fullerite.Disk.Space.{
  Statvfs, percent, gauge_2, publish_sizes, publish_unit, publish_inodes_free,
}

back_to_zero : (b : ℤ) → b +ℤ (pos 0 -ℤ b) ≡ pos 0
back_to_zero b = grind int_laws

module _ (w : World) (depth : ℕ) where
  open w use {float, float.{Carrier, of_int, div, int_lt}}

  -- Python's float zero: it divides nothing, and it is not above the integer zero.
  pub record Zero (z : Carrier) : Type 0 where
    pub zero_float : of_int (pos 0) ≡ some z
    pub no_quotient : (x : Carrier) → div x z ≡ none
    pub not_above : int_lt (pos 0) z ≡ false

  percent-Zero :
      (z : Carrier) (b : ℤ) (x : Carrier)
      → Zero z
      → of_int b ≡ some x
      → percent w depth b (pos 0) ≡ err zero_division
  unfolding percent to_float
  percent-Zero z b x h e = rw (e, h.zero_float, h.no_quotient x) refl

  -- For a file system with no blocks and no inodes, whose free blocks have a float, the metrics of
  -- a unit end with a ZeroDivisionError and nothing published, while the metric of the free inodes
  -- is passed over.
  pub publish_unit-no_blocks :
      (z x : Carrier) (name unit : Str) (s : Statvfs) (c : Collector Carrier)
      → Zero z
      → s.f_blocks ≡ pos 0
      → s.f_files ≡ pos 0
      → of_int s.f_bfree ≡ some x
      → (publish_unit w depth name s unit c ≡ (err zero_division, c))
        × (publish_inodes_free w depth name s c ≡ (ok tt, c))
  unfolding publish_unit to_float
  publish_unit-no_blocks z x name unit s c h blocks files free =
      let whole : s.f_bfree +ℤ (s.f_blocks -ℤ s.f_bfree) ≡ pos 0 =
        ap (λ b. s.f_bfree +ℤ (b -ℤ s.f_bfree)) blocks ∙ back_to_zero s.f_bfree in
      let fails = ap (percent w depth s.f_bfree) whole ∙ percent-Zero z s.f_bfree x h free in
      (
        bind_err
            (gauge_2 w depth (name ++ b'.' ∷ unit ++ codes "_percentfree")
              (percent w depth s.f_bfree (s.f_bfree +ℤ (s.f_blocks -ℤ s.f_bfree))))
            (λ _. publish_sizes w depth name s unit)
            (ap (λ r. gauge_2 w depth (name ++ b'.' ∷ unit ++ codes "_percentfree") r c) fails),
        rw (files, h.zero_float, h.not_above) refl,
      )
