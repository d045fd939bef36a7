-- ===== src/Base/Text.antt =====
-- Python's `str`: a list of code points, since the program splits and joins its paths.
use fullerite.Base.Tests.{◌==◌, leb, if◌then◌else◌, Bool-cases}
use fullerite.Base.Lists.{All}
use Prim.Native.Nat.{ℕ, zero, suc, ◌+◌, ◌/◌, ◌%◌}
use Prim.Native.Char.{code}
use Prim.Native.String.{String}
use mathlib.Core.Path.{◌≡◌, refl, ap, sym, ◌∙◌}
use mathlib.Core.Logic.{◌≢◌, inl, inr}
use mathlib.Core.Bool.{Bool, true, false, ◌&&◌, ◌||◌}
use mathlib.Core.List.{List, [], ◌∷◌, ◌++◌, map, reverse}
use native.Mathlib.Omega.{arith}

abbrev pub Str : Type 0
Str = List ℕ

-- A literal's code points.
abbrev pub codes : String → Str
codes String.[] = []
codes (String.◌∷◌ c s) = code c ∷ codes s

-- `s == t`
abbrev pub str_eq : Str → Str → Bool
str_eq [] [] = true
str_eq [] (d ∷ t) = false
str_eq (c ∷ s) [] = false
str_eq (c ∷ s) (d ∷ t) = (c == d) && str_eq s t

pub str_eq→eq : (s t : Str) → str_eq s t ≡ true → s ≡ t
str_eq→eq [] [] h = refl
str_eq→eq [] (d ∷ t) h = cc
str_eq→eq (c ∷ s) [] h = cc
str_eq→eq (c ∷ s) (d ∷ t) h = ground (arith, str_eq→eq s t)

pub str_eq_refl : (s : Str) → str_eq s s ≡ true
str_eq_refl [] = refl
str_eq_refl (c ∷ s) = ground (arith, str_eq_refl s)

-- `s in list`
abbrev pub str_mem : Str → List Str → Bool
str_mem s [] = false
str_mem s (t ∷ ts) = str_eq s t || str_mem s ts

-- No text stands twice in the list.
abbrev pub NoRepeat : List Str → Type 0
NoRepeat [] = Unit
NoRepeat (p ∷ ps) = (str_mem p ps ≡ false) × NoRepeat ps

-- `s.startswith(t)`
abbrev pub starts_with : Str → Str → Bool
starts_with s [] = true
starts_with [] (d ∷ t) = false
starts_with (c ∷ s) (d ∷ t) = (c == d) && starts_with s t

-- `sub in s`
abbrev pub contains : Str → Str → Bool
contains [] sub = starts_with [] sub
contains (c ∷ s) sub = starts_with (c ∷ s) sub || contains s sub

-- `s.endswith(t)`
abbrev pub ends_with : Str → Str → Bool
ends_with s t = starts_with (reverse s) (reverse t)

-- `'.'.join(parts)`, for any one-character separator.
abbrev pub join : ℕ → List Str → Str
join d [] = []
join d (s ∷ []) = s
join d (s ∷ t ∷ ts) = s ++ d ∷ join d (t ∷ ts)

-- puts a character in front of the first part
abbrev pub cons_head : ℕ → List Str → List Str
cons_head c [] = (c ∷ []) ∷ []
cons_head c (p ∷ ps) = (c ∷ p) ∷ ps

-- `s.split('.')`, for any one-character separator: always at least one part.
unfoldable pub split : ℕ → Str → List Str
split d [] = [] ∷ []
split d (c ∷ s) = let rest = split d s in if c == d then [] ∷ rest else cons_head c rest

-- `s.replace(a, b)` for single characters
abbrev pub replace_char : ℕ → ℕ → Str → Str
replace_char a b [] = []
replace_char a b (c ∷ s) = (if c == a then b else c) ∷ replace_char a b s

-- `s.lower()`, on ASCII
abbrev pub lower_char : ℕ → ℕ
lower_char c = if leb b'A' c && leb c b'Z' then c + 32 else c

abbrev pub lower : Str → Str
lower = map lower_char

-- white space, on ASCII: tab, newline, vertical tab, form feed, return, space
abbrev pub is_space : ℕ → Bool
is_space c = (leb 9 c && leb c 13) || (c == 32)

abbrev pub lstrip : Str → Str
lstrip [] = []
lstrip (c ∷ s) = let rest = lstrip s in if is_space c then rest else c ∷ s

-- `s.strip()`
abbrev pub strip : Str → Str
strip s = reverse (lstrip (reverse (lstrip s)))

-- the words of the rest of a text, where `word` is the reversed word being read
abbrev pub words_from : Str → Str → List Str
words_from word [] = elim word [ [] ↦ [] | c ∷ w ↦ reverse (c ∷ w) ∷ [] ]
words_from word (c ∷ s) =
    let flushed = words_from [] s in
    let longer = words_from (c ∷ word) s in
    if is_space c then elim word [ [] ↦ flushed | d ∷ w ↦ reverse (d ∷ w) ∷ flushed ] else longer

-- `s.split()`: the words between runs of white space
abbrev pub words : Str → List Str
words = words_from []

-- No character of the text is `d`.
abbrev pub Lacks : ℕ → Str → Type 0
Lacks d = All (λ c. c ≢ d)

-- Splitting what was joined gives the first part back, if that has no separator.
pub split-append : (d : ℕ) (s t : Str) → Lacks d s → split d (s ++ d ∷ t) ≡ s ∷ split d t
unfolding split
split-append d [] t h = ground arith
split-append d (c ∷ s) t h = ground (arith, split-append d s t h.1)

pub split-Lacks : (d : ℕ) (s : Str) → Lacks d s → split d s ≡ s ∷ []
unfolding split
split-Lacks d [] h = refl
split-Lacks d (c ∷ s) h = ground (arith, split-Lacks d s h.1)

-- `split` gives at least one part.
pub split_cons : (d : ℕ) (s : Str) → (p : Str) × (ps : List Str) × (split d s ≡ p ∷ ps)
unfolding split
split_cons d [] = ([], [], refl)
split_cons d (c ∷ s) = elim (Bool-cases (c == d)) [
  | inl here ↦ ([], split d s, rw here)
  | inr there ↦ let (p, ps, e) = split_cons d s in (c ∷ p, ps, rw (there, e))
]

join-cons_head :
    (d c : ℕ) (p : Str) (ps : List Str) → join d (cons_head c (p ∷ ps)) ≡ c ∷ join d (p ∷ ps)
join-cons_head d c p [] = refl
join-cons_head d c p (q ∷ ps) = refl

-- Joining what was split gives the text back.
pub join-split : (d : ℕ) (s : Str) → join d (split d s) ≡ s
unfolding split
join-split d [] = refl
join-split d (c ∷ s) =
    let (p, ps, e) = split_cons d s in
    elim (Bool-cases (c == d)) [
      | inl here ↦ ground (arith, e, join-split d s)
      | inr there ↦
          rw (there, e)
            (join-cons_head d c p ps
              ∙ ap (λ (t : Str). c ∷ t) (ap (join d) (sym e) ∙ join-split d s))
    ]

-- The longest prefix of characters that pass the test, and the rest.
abbrev pub span : (ℕ → Bool) → Str → Str × Str
span p [] = ([], [])
span p (c ∷ s) = let (a, b) = span p s in if p c then (c ∷ a, b) else ([], c ∷ s)

-- The decimal digits of a number, in front of a text; the fuel bounds the number of digits.
abbrev pub digits_from : ℕ → ℕ → Str → Str
digits_from zero n s = s
digits_from (suc f) n s =
    let t = (48 + n % 10) ∷ s in
    let rest = digits_from f (n / 10) t in if n / 10 == 0 then t else rest

-- `str(n)` of a number that is not negative; a number has at most as many digits as itself plus one.
abbrev pub decimal : ℕ → Str
decimal n = digits_from (suc n) n []

pub str_eq_sym : (s t : Str) → str_eq s t ≡ str_eq t s
str_eq_sym [] [] = refl
str_eq_sym [] (d ∷ t) = refl
str_eq_sym (c ∷ s) [] = refl
str_eq_sym (c ∷ s) (d ∷ t) = ground (arith, str_eq_sym s t)
