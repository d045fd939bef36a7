-- ===== src/HaProxy/Rows.antt =====
-- About the rows of the statistics.
use fullerite.Base.{
  ℕ, zero, suc, ◌≤◌, ◌<◌, List, [], ◌∷◌, length, ◌≡◌, refl, ap, ◌∙◌, inl, inr, ◌⊎◌, arith,
}
use native.Mathlib.Decide.{dec_lt}
use fullerite.Base.Text.{Str, lower}
use fullerite.Base.Result.{Result, ok, err, index_error, bind}
use fullerite.Kernel.{item}
use fullerite.Nagios.{sanitize}
use fullerite.HaProxy.{Labels, label, row_labels}

item_short : (i : ℕ) (row : List Str) → length row ≤ i → item i row ≡ err index_error
item_short i [] h = refl
item_short zero (s ∷ row) h = absurd (omega arith)
item_short (suc i) (s ∷ row) h = item_short i row (omega arith)

item_long : (i : ℕ) (row : List Str) → i < length row → (s : Str) × (item i row ≡ ok s)
item_long i [] h = absurd (omega arith)
item_long zero (s ∷ row) h = (s, refl)
item_long (suc i) (s ∷ row) h = item_long i row (omega arith)

label_short : (i : ℕ) (row : List Str) → length row ≤ i → label i row ≡ err index_error
label_short i row h = ap (λ r. bind r λ s. ok (sanitize (lower s))) (item_short i row h)

label_long : (i : ℕ) (row : List Str) → i < length row → (s : Str) × (label i row ≡ ok s)
label_long i row h =
    let (s, e) = item_long i row h in
    (sanitize (lower s), ap (λ r. bind r λ s. ok (sanitize (lower s))) e)

-- A missing cell and what is made of the cell raise the same.
label-bind :
    (i : ℕ) (row : List Str) (f : Str → Result Labels)
    → ((s : Str) → f s ≡ err index_error)
    → bind (label i row) f ≡ err index_error
label-bind i row f h = elim (dec_lt i (length row)) [
  | yes lt ↦ let (s, e) = label_long i row lt in ap (λ r. bind r f) e ∙ h s
  | no ge ↦ ap (λ r. bind r f) (label_short i row (omega arith))
]

-- A row is read exactly if it has more than 37 cells; otherwise it raises an IndexError.
row_labels-cases :
    (row : List Str)
    → ((37 < length row) × ((l : Labels) × (row_labels row ≡ ok l)))
      ⊎ ((length row ≤ 37) × (row_labels row ≡ err index_error))
unfolding row_labels
row_labels-cases row = elim (dec_lt 37 (length row)) [
  | yes lt ↦
      let (p, e0) = label_long 0 row (omega arith) in
      let (q, e1) = label_long 1 row (omega arith) in
      let (r, e17) = label_long 17 row (omega arith) in
      let (s, e36) = label_long 36 row (omega arith) in
      let (t, e37) = label_long 37 row lt in
      inl (
        lt,
        (
          record { proxy_name = p; server_name = q; status = r; check_status = s; check_code = t },
          rw (e0, e1, e17, e36, e37) refl,
        ),
      )
  | no ge ↦ inr (
    omega arith,
    label-bind 0 row _ λ p. label-bind 1 row _ λ q. label-bind 17 row _ λ r.
        label-bind 36 row _ λ s.
          ap
            (λ x. bind x λ t. ok (record {
              proxy_name = p;
              server_name = q;
              status = r;
              check_status = s;
              check_code = t;
            }))
            (label_short 37 row (omega arith)),
  )
]
