-- ===== src/Sys/Sums.antt =====
-- About the sums over the sockets' files.
use fullerite.Base.{
  Option, none, some, List, [], ◌∷◌, ◌++◌, ◌≡◌, ap, sym, ◌∙◌, inl, inr, Bool-cases, Option-cases,
  if◌then◌else◌,
}
use fullerite.Base.Int.{ℤ, pos, ◌+ℤ◌, int_laws}
use fullerite.Base.Text.{Str, str_eq, str_eq→eq}
use fullerite.Base.Dict.{Dict, lookup, insert, lookup-insert}
use fullerite.Base.Result.{ok, bind, or_raise, value_error, ok-injective, Result-cases}
use fullerite.Python.{Float}
use fullerite.Sys.Sockets.{count_of, add_groups, add_match, collect_stat, collect_files}

+ℤ_zero : (a : ℤ) → a +ℤ pos 0 ≡ a
+ℤ_zero a = grind int_laws

zero_+ℤ : (a : ℤ) → pos 0 +ℤ a ≡ a
zero_+ℤ a = grind int_laws

+ℤ_assoc : (a b c : ℤ) → (a +ℤ b) +ℤ c ≡ a +ℤ (b +ℤ c)
+ℤ_assoc a b c = grind int_laws

module _ (fl : Float) where
  open fl use {parse_int}

  -- what a group adds to a key's count
  abbrev pub value_of : Str → Str × Option Str → ℤ
  value_of key (k, none) = pos 0
  value_of key (k, some []) = pos 0
  value_of key (k, some (c ∷ s)) = if str_eq k key then count_of (parse_int (c ∷ s)) else pos 0

  unfoldable pub total : Str → List (Str × Option Str) → ℤ
  total key [] = pos 0
  total key (g ∷ groups) = value_of key g +ℤ total key groups

  -- The count of a key after a number has been added to that of another, or to its own.
  count_insert :
      (key k : Str) (n : ℤ) (d : Dict ℤ)
      → count_of (lookup key (insert k (count_of (lookup k d) +ℤ n) d))
        ≡ count_of (lookup key d) +ℤ (if str_eq k key then n else pos 0)
  count_insert key k n d =
      ap count_of (lookup-insert k key (count_of (lookup k d) +ℤ n) d)
      ∙ (elim (Bool-cases (str_eq k key)) [
        | inl e ↦ rw e (ap (λ j. count_of (lookup j d) +ℤ n) (str_eq→eq k key e))
        | inr e ↦ rw e (sym (+ℤ_zero _))
      ])

  add_groups-total :
      (key : Str) (groups : List (Str × Option Str)) (d r : Dict ℤ)
      → add_groups fl groups d ≡ ok r
      → count_of (lookup key r) ≡ count_of (lookup key d) +ℤ total key groups
  unfolding add_groups total
  add_groups-total key [] d r h =
      ap (λ x. count_of (lookup key x)) (sym (ok-injective h)) ∙ sym (+ℤ_zero _)
  add_groups-total key ((k, none) ∷ groups) d r h =
      add_groups-total key groups d r h ∙ ap (λ n. count_of (lookup key d) +ℤ n) (sym (zero_+ℤ _))
  add_groups-total key ((k, some []) ∷ groups) d r h =
      add_groups-total key groups d r h ∙ ap (λ n. count_of (lookup key d) +ℤ n) (sym (zero_+ℤ _))
  add_groups-total key ((k, some (c ∷ s)) ∷ groups) d r h =
      elim (Option-cases (parse_int (c ∷ s))) [
        | inl e ↦
            let fails =
              ap
                (λ o.
                  bind (or_raise o value_error)
                    λ n. add_groups fl groups (insert k (count_of (lookup k d) +ℤ n) d))
                e in
            cc
        | inr (n, e) ↦
            let next = insert k (count_of (lookup k d) +ℤ n) d in
            add_groups-total key groups next r (
              sym (
                ap
                  (λ o.
                    bind (or_raise o value_error)
                      λ m. add_groups fl groups (insert k (count_of (lookup k d) +ℤ m) d))
                  e)
              ∙ h)
            ∙ ap (λ m. m +ℤ total key groups) (count_insert key k n d)
            ∙ +ℤ_assoc (count_of (lookup key d)) (if str_eq k key then n else pos 0)
                (total key groups)
            ∙ ap
                (λ o.
                  count_of (lookup key d)
                  +ℤ ((if str_eq k key then count_of o else pos 0) +ℤ total key groups))
                (sym e)
      ]

  total-append :
      (key : Str) (g h : List (Str × Option Str)) → total key (g ++ h) ≡ total key g +ℤ total key h
  unfolding total
  total-append key [] h = sym (zero_+ℤ _)
  total-append key (x ∷ g) h =
      ap (λ n. value_of key x +ℤ n) (total-append key g h)
      ∙ sym (+ℤ_assoc (value_of key x) (total key g) (total key h))

  module _ (match : Str → Option (List (Str × Option Str))) where
    abbrev groups_or_none : Option (List (Str × Option Str)) → List (Str × Option Str)
    groups_or_none none = []
    groups_or_none (some groups) = groups

    -- the groups of all lines that match, and of all files that can be read
    unfoldable pub line_groups : List Str → List (Str × Option Str)
    line_groups [] = []
    line_groups (l ∷ ls) = groups_or_none (match l) ++ line_groups ls

    unfoldable pub file_groups : List (Option (List Str)) → List (Str × Option Str)
    file_groups [] = []
    file_groups (none ∷ files) = file_groups files
    file_groups (some lines ∷ files) = line_groups lines ++ file_groups files

    -- one step of a sum: what a part adds, and what the rest adds
    sum_step :
        (key : Str) (g h : List (Str × Option Str)) (a b c : ℤ)
        → b ≡ a +ℤ total key g
        → c ≡ b +ℤ total key h
        → c ≡ a +ℤ total key (g ++ h)
    sum_step key g h a b c p q =
        q
        ∙ ap (λ n. n +ℤ total key h) p
        ∙ +ℤ_assoc a (total key g) (total key h)
        ∙ ap (λ n. a +ℤ n) (sym (total-append key g h))

    add_match-total :
        (key : Str) (o : Option (List (Str × Option Str))) (d r : Dict ℤ)
        → add_match fl o d ≡ ok r
        → count_of (lookup key r) ≡ count_of (lookup key d) +ℤ total key (groups_or_none o)
    unfolding add_match total
    add_match-total key none d r h =
        ap (λ x. count_of (lookup key x)) (sym (ok-injective h)) ∙ sym (+ℤ_zero _)
    add_match-total key (some groups) d r h = add_groups-total key groups d r h

    collect_stat-total :
        (key : Str) (lines : List Str) (d r : Dict ℤ)
        → collect_stat fl match lines d ≡ ok r
        → count_of (lookup key r) ≡ count_of (lookup key d) +ℤ total key (line_groups lines)
    unfolding collect_stat line_groups total
    collect_stat-total key [] d r h =
        ap (λ x. count_of (lookup key x)) (sym (ok-injective h)) ∙ sym (+ℤ_zero _)
    collect_stat-total key (l ∷ ls) d r h = elim (Result-cases (add_match fl (match l) d)) [
      | inr (x, e) ↦ let fails = ap (λ m. bind m (collect_stat fl match ls)) e in cc
      | inl (next, e) ↦
          sum_step key (groups_or_none (match l)) (line_groups ls) _ _ _
            (add_match-total key (match l) d next e)
            (collect_stat-total key ls next r
              (sym (ap (λ m. bind m (collect_stat fl match ls)) e) ∙ h))
    ]

    collect_files_from :
        (key : Str) (files : List (Option (List Str))) (d r : Dict ℤ)
        → collect_files fl match files d ≡ ok r
        → count_of (lookup key r) ≡ count_of (lookup key d) +ℤ total key (file_groups files)
    unfolding collect_files file_groups total
    collect_files_from key [] d r h =
        ap (λ x. count_of (lookup key x)) (sym (ok-injective h)) ∙ sym (+ℤ_zero _)
    collect_files_from key (none ∷ files) d r h = collect_files_from key files d r h
    collect_files_from key (some lines ∷ files) d r h =
        elim (Result-cases (collect_stat fl match lines d)) [
          | inr (x, e) ↦ let fails = ap (λ m. bind m (collect_files fl match files)) e in cc
          | inl (next, e) ↦
              sum_step key (line_groups lines) (file_groups files) _ _ _
                (collect_stat-total key lines d next e)
                (collect_files_from key files next r
                  (sym (ap (λ m. bind m (collect_files fl match files)) e) ∙ h))
        ]

    -- If the socket files are read without an exception, the count of a key is the sum of its
    -- numbers over all groups of all lines that match in all files that can be read.
    pub collect_files-total :
        (key : Str) (files : List (Option (List Str))) (r : Dict ℤ)
        → collect_files fl match files [] ≡ ok r
        → count_of (lookup key r) ≡ total key (file_groups files)
    unfolding lookup
    collect_files-total key files r h = collect_files_from key files [] r h ∙ zero_+ℤ _
