-- ===== src/Icinga/Tallies.antt =====
-- About the tally of one entity.
use fullerite.Base.{
  ℕ, zero, suc, ◌+◌, ◌≤◌, Option, none, some, ◌≡◌, refl, ◌⊎◌, inl, inr, arith, Option-cases,
}
use fullerite.Base.Int.{ℤ, pos, negsuc}
use fullerite.Base.Result.{Error, ok, err, type_error}
use fullerite.Python.{Float}
use fullerite.Icinga.Parse.{Entity}
use fullerite.Icinga.Entities.{
  Sane, Tally, zero_or_one, passive_beside, trans_binary, trans_dtime, grow, tally_entity,
  sanitize_entity,
}

-- The four values that are read as integers without a test for None.
pub record Complete (s : Sane) : Type 0 where
  pub flapping : ℤ
  pub in_downtime : ℤ
  pub checked : ℤ
  pub scheduled : ℤ
  pub flapping_some : s.flapping ≡ some flapping
  pub in_downtime_some : s.in_downtime ≡ some in_downtime
  pub checked_some : s.checked ≡ some checked
  pub scheduled_some : s.scheduled ≡ some scheduled

-- The tally `t'` has `n` entities more than `t`, each counted at most once.
pub record Grew (n : ℕ) (t t' : Tally) : Type 0 where
  pub total : t'.total ≡ t.total + n
  pub flapping : t'.flapping ≤ t.flapping + n
  pub checked : t'.checked ≤ t.checked + n
  pub scheduled : t'.scheduled ≤ t.scheduled + n
  pub checks : t'.active_checks + t'.passive_checks ≤ t.active_checks + t.passive_checks + n

zero_or_one_le : (v : Option ℤ) → zero_or_one v ≤ 1
zero_or_one_le none = omega arith
zero_or_one_le (some (negsuc n)) = omega arith
zero_or_one_le (some (pos zero)) = omega arith
zero_or_one_le (some (pos (suc zero))) = omega arith
zero_or_one_le (some (pos (suc (suc n)))) = omega arith

passive_le : (a : ℕ) (v : Option ℤ) → a ≤ 1 → a + passive_beside a v ≤ 1
passive_le zero v h = omega (arith, zero_or_one_le v)
passive_le (suc n) v h = omega arith

dtime_some : (d : ℤ) → (n : ℕ) × (trans_dtime (some d) ≡ ok n)
unfolding trans_dtime
dtime_some (pos n) = (n, refl)
dtime_some (negsuc n) = (0, refl)

pub sane_checks :
    (fl : Float) (e : Entity)
    → Sane.active_checks (sanitize_entity fl e) + Sane.passive_checks (sanitize_entity fl e) ≤ 1
unfolding sanitize_entity
sane_checks fl e = passive_le _ _ (zero_or_one_le _)

pub Complete-tally_entity :
    (s : Sane) (t : Tally)
    → s.active_checks + s.passive_checks ≤ 1
    → Complete s
    → (t' : Tally) × (tally_entity s t ≡ ok t') × Grew 1 t t'
unfolding tally_entity trans_binary
Complete-tally_entity s t small c =
    let (n, e) = dtime_some c.in_downtime in
    (
      grow s (zero_or_one (some c.flapping)) n (zero_or_one (some c.checked))
          (zero_or_one (some c.scheduled)) t,
      rw (c.flapping_some, c.in_downtime_some, c.checked_some, c.scheduled_some, e) refl,
      record {
        total = refl;
        flapping = omega (arith, zero_or_one_le (some c.flapping));
        checked = omega (arith, zero_or_one_le (some c.checked));
        scheduled = omega (arith, zero_or_one_le (some c.scheduled));
        checks = omega arith;
      },
    )

trans_binary_err : (v : Option ℤ) {e : Error} → trans_binary v ≡ err e → e ≡ type_error
unfolding trans_binary
trans_binary_err none h = cc
trans_binary_err (some n) h = cc

trans_dtime_err : (v : Option ℤ) {e : Error} → trans_dtime v ≡ err e → e ≡ type_error
unfolding trans_dtime
trans_dtime_err none h = cc
trans_dtime_err (some (pos n)) h = cc
trans_dtime_err (some (negsuc n)) h = cc

-- Either all four values are there, or the entity raises.
pub Complete-cases : (s : Sane) (t : Tally) → Complete s ⊎ (tally_entity s t ≡ err type_error)
unfolding tally_entity trans_binary
Complete-cases s t = elim (Option-cases s.flapping) [
  | inl f ↦ inr (rw f refl)
  | inr (f, ef) ↦ elim (Option-cases s.in_downtime) [
    | inl d ↦ inr (unfold trans_dtime in rw (ef, d) refl)
    | inr (d, ed) ↦
        let (n, en) = dtime_some d in
        elim (Option-cases s.checked) [
          | inl c ↦ inr (rw (ef, ed, en, c) refl)
          | inr (c, ec) ↦ elim (Option-cases s.scheduled) [
            | inl p ↦ inr (rw (ef, ed, en, ec, p) refl)
            | inr (p, ep) ↦ inl (record {
              flapping = f;
              in_downtime = d;
              checked = c;
              scheduled = p;
              flapping_some = ef;
              in_downtime_some = ed;
              checked_some = ec;
              scheduled_some = ep;
            })
          ]
        ]
  ]
]
