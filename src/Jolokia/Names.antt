-- ===== src/Jolokia/Names.antt =====
-- What `clean_up` of src/diamond/collectors/jolokia/jolokia.py leaves of a name.
use fullerite.Base.{
  ◌≡◌, refl, ap, ◌∙◌, Bool, true, false, ◌&&◌, not, ◌==◌, Bool-cases, inl, inr, [], ◌∷◌, arith,
}
use fullerite.Base.Text.{Str}
use fullerite.Jolokia.{is_bracket, is_point, is_plain, is_bad, remove, collapse, clean}

-- A name that has only letters, digits and `_`, `.`, `+`, `-`, with no two dots in a row. The
-- Boolean says whether a dot stands in front.
abbrev pub Clean : Bool → Str → Type 0
Clean dot [] = Unit
Clean dot (c ∷ s) = (is_plain c ≡ true) × ((dot && (c == b'.')) ≡ false) × Clean (c == b'.') s

-- Points only as single dots.
abbrev Single : Bool → Str → Type 0
Single dot [] = Unit
Single dot (c ∷ s) =
    ((is_point c && not (c == b'.')) ≡ false)
    × ((dot && (c == b'.')) ≡ false)
    × Single (c == b'.') s

collapse-Single : (inside : Bool) (s : Str) → Single inside (collapse is_point b'.' inside s)
collapse-Single inside [] = tt
collapse-Single inside (c ∷ s) = ground (arith, collapse-Single (is_point c) s)

Single-weaken : (dot : Bool) (s : Str) → Single dot s → Single false s
Single-weaken dot [] h = tt
Single-weaken dot (c ∷ s) h = ground arith

collapse-Clean :
    (dot inside : Bool) (s : Str)
    → (dot && inside) ≡ false
    → Single dot s
    → Clean dot (collapse is_bad b'_' inside s)
collapse-Clean dot inside [] n h = tt
collapse-Clean dot inside (c ∷ s) n h = elim (Bool-cases (is_plain c)) [
  | inl plain ↦ ground (arith, collapse-Clean (c == b'.') false s)
  | inr bad ↦
      let no_dot : (c == b'.') ≡ false = ground arith in ground (arith, collapse-Clean false true s)
]

remove-Clean : (dot : Bool) (s : Str) → Clean dot s → remove is_bracket s ≡ s
remove-Clean dot [] h = refl
remove-Clean dot (c ∷ s) h = ground (arith, remove-Clean (c == b'.') s)

points-Clean : (dot : Bool) (s : Str) → Clean dot s → collapse is_point b'.' dot s ≡ s
points-Clean dot [] h = refl
points-Clean dot (c ∷ s) h = ground (arith, points-Clean (c == b'.') s)

bad-Clean : (dot inside : Bool) (s : Str) → Clean dot s → collapse is_bad b'_' inside s ≡ s
bad-Clean dot inside [] h = refl
bad-Clean dot inside (c ∷ s) h = ground (arith, bad-Clean (c == b'.') (is_bad c) s)

clean-Clean : (s : Str) → Clean false (clean s)
unfolding clean
clean-Clean s =
    collapse-Clean false false (collapse is_point b'.' false (remove is_bracket s)) refl
      (collapse-Single false (remove is_bracket s))

-- Without configured rewrites, what `clean_up` returns has only letters, digits, underscores,
-- dots, pluses and dashes, and no two dots in a row, and cleaning it again changes nothing.
pub clean-clean : (s : Str) → Clean false (clean s) × (clean (clean s) ≡ clean s)
unfolding clean
clean-clean s =
    let h = clean-Clean s in
    let t = clean s in
    (
      h,
      ap (λ (u : Str). collapse is_bad b'_' false (collapse is_point b'.' false u))
            (remove-Clean false t h)
          ∙ ap (collapse is_bad b'_' false) (points-Clean false t h)
          ∙ bad-Clean false false t h,
    )
