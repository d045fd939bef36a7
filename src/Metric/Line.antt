-- ===== src/Metric/Line.antt =====
-- `Metric.__repr__` and `Metric.parse` of src/diamond/metric.py.
use fullerite.Base.{
  ℕ, zero, suc, ◌+◌, ◌/◌, ◌%◌, ◌≡◌, refl, ap, ◌∙◌, Bool, true, false, ◌&&◌, ◌||◌, Option, none,
  some, [], ◌∷◌, ◌++◌, All, arith, leb, ◌==◌, if◌then◌else◌,
}
use fullerite.Base.Int.{ℤ, pos}
use fullerite.Base.Text.{Str, codes, is_space, span, decimal, digits_from}
use fullerite.Base.Result.{Result, ok, err, diamond_exception, ◌>>=◌}
use fullerite.Python.{Float, flt, Value, nil, num, str}
use fullerite.Python.Convert.{value_float, value_int, show_int}
use fullerite.Metric.{
  Metric, no_dimensions, new_metric, metric_value, metric_timestamp, metric_dimensions,
}

-- `[A-Za-z0-9\.\-_]`
abbrev pub is_name_char : ℕ → Bool
is_name_char c =
    (leb b'A' c && leb c b'Z')
    || (leb b'a' c && leb c b'z')
    || (leb b'0' c && leb c b'9')
    || (c == b'.')
    || (c == b'-')
    || (c == b'_')

-- `[0-9\.]`
abbrev pub is_number_char : ℕ → Bool
is_number_char c = (leb b'0' c && leb c b'9') || (c == b'.')

-- A part of the pattern, one or more characters of a class, and what is behind them.
unfoldable pub some_of : (ℕ → Bool) → Str → Option (Str × Str)
some_of p s = let (a, b) = span p s in elim a [ [] ↦ none | c ∷ w ↦ some (c ∷ w, b) ]

-- `(\n?)$`, where the end may have a newline behind it
abbrev pub is_end : Str → Bool
is_end [] = true
is_end (c ∷ []) = c == b'\n'
is_end (c ∷ d ∷ []) = (c == b'\n') && (d == b'\n')
is_end s = false

abbrev bind_some : {A B : Type 0} → Option A → (A → Option B) → Option B
bind_some none f = none
bind_some (some a) f = f a

-- The groups of the pattern. The classes next to one another have no character in common, so each
-- part is the longest one.
unfoldable pub match_line : Str → Option (Str × Str × Str)
unfolding some_of
match_line s = bind_some (some_of is_name_char s) λ n. bind_some (some_of is_space n.1) λ g.
    bind_some (some_of is_number_char g.1) λ v. bind_some (some_of is_space v.1) λ h.
      bind_some (some_of is_number_char h.1) λ t. if is_end t.1 then some (n.0, v.0, t.0) else none

-- `except: raise DiamondException`
abbrev pub any_to_diamond {ℓ} : {A : Type ℓ} → Result A → Result A
any_to_diamond (ok a) = ok a
any_to_diamond (err e) = err diamond_exception

module _ (fl : Float) where
  open fl use {Carrier}

  -- What is made of the groups, with the constructor's defaults; `now` is `int(time.time())`.
  abbrev pub metric_of : ℤ → Option (Str × Str × Str) → Result (Metric Carrier)
  unfolding value_float new_metric
  metric_of now none = err diamond_exception
  metric_of now (some (name, value, stamp)) = any_to_diamond do
    t ← value_float fl (str stamp)
    new_metric fl now (some name) (str value) nil (num (flt t)) 0 (codes "COUNTER") none
        no_dimensions

  unfoldable pub parse : ℤ → Str → Result (Metric Carrier)
  unfolding match_line
  parse now s = metric_of now (match_line s)

  -- `__repr__`; `fixed` writes a value with as many digits behind the point as the precision says.
  unfoldable pub print : (ℕ → Value Carrier → Str) → Metric Carrier → Str
  unfolding show_int
  print fixed m =
      m.path ++ b' ' ∷ (fixed m.precision m.value ++ b' ' ∷ (show_int m.timestamp ++ b'\n' ∷ []))

-- a text with at least one character, all of a class
abbrev pub Word : (ℕ → Bool) → Str → Type 0
Word p [] = ⊥
Word p (c ∷ s) = (p c ≡ true) × All (λ d. p d ≡ true) s

span-All :
    (p : ℕ → Bool) (s : Str) (d : ℕ) (t : Str)
    → All (λ c. p c ≡ true) s
    → p d ≡ false
    → span p (s ++ d ∷ t) ≡ (s, d ∷ t)
span-All p [] d t h n = ground arith
span-All p (c ∷ s) d t h n = ground (arith, span-All p s d t h.1 n)

some_of-Word :
    (p : ℕ → Bool) (s : Str) (d : ℕ) (t : Str)
    → Word p s
    → p d ≡ false
    → some_of p (s ++ d ∷ t) ≡ some (s, d ∷ t)
unfolding some_of
some_of-Word p [] d t h n = elim h [ ]
some_of-Word p (c ∷ s) d t h n = ground (arith, span-All p s d t h.1 n)

-- one blank in front of a word
some_of-blank :
    (p : ℕ → Bool) (s t : Str)
    → Word p s
    → ((c : ℕ) → p c ≡ true → is_space c ≡ false)
    → some_of is_space (b' ' ∷ (s ++ t)) ≡ some (b' ' ∷ [], s ++ t)
unfolding some_of
some_of-blank p [] t h n = elim h [ ]
some_of-blank p (c ∷ s) t h n = ground (arith, n c h.0)

number_not_space : (c : ℕ) → is_number_char c ≡ true → is_space c ≡ false
number_not_space c h = ground arith

match_line-words :
    (name value stamp : Str)
    → Word is_name_char name
    → Word is_number_char value
    → Word is_number_char stamp
    → match_line (name ++ b' ' ∷ (value ++ b' ' ∷ (stamp ++ b'\n' ∷ [])))
      ≡ some (name, value, stamp)
unfolding match_line
match_line-words name value stamp n v s = ground (
  arith,
  some_of-Word is_name_char name b' ' (value ++ b' ' ∷ (stamp ++ b'\n' ∷ [])) n refl,
  some_of-blank is_number_char value (b' ' ∷ (stamp ++ b'\n' ∷ [])) v number_not_space,
  some_of-Word is_number_char value b' ' (stamp ++ b'\n' ∷ []) v refl,
  some_of-blank is_number_char stamp (b'\n' ∷ []) s number_not_space,
  some_of-Word is_number_char stamp b'\n' [] s refl,
)

All-digits :
    (f n : ℕ) (s : Str)
    → All (λ c. is_number_char c ≡ true) s
    → Word is_number_char (digits_from (suc f) n s)
All-digits zero n s h = ground arith
All-digits (suc f) n s h = ground (arith, All-digits f (n / 10) ((48 + n % 10) ∷ s))

decimal-Word : (n : ℕ) → Word is_number_char (decimal n)
decimal-Word n = All-digits n n [] tt

module _ (fl : Float) (fixed : ℕ → Value fl.Carrier → Str) where
  open fl use {Carrier, round, trunc}

  -- A printed metric whose path has only letters, digits, dots, dashes and underscores, whose
  -- value is printed with digits and dots and read as a float x, and whose timestamp is not
  -- negative and read exactly, is parsed as a COUNTER with the same path and timestamp, the value
  -- x rounded to a whole number, and no time to live, dimensions or raw value.
  pub parse-print :
      (now : ℤ) (m : Metric Carrier) (k : ℕ) (x t : Carrier)
      → Word is_name_char m.path
      → Word is_number_char (fixed m.precision m.value)
      → fl.parse (fixed m.precision m.value) ≡ some x
      → m.timestamp ≡ pos k
      → fl.parse (decimal k) ≡ some t
      → trunc t ≡ some (pos k)
      → parse fl now (print fl fixed m)
        ≡ ok (record {
          path = m.path;
          value = num (flt (round x));
          raw_value = nil;
          timestamp = m.timestamp;
          precision = 0;
          metric_type = codes "COUNTER";
          ttl = none;
          dimensions = none;
        })
  unfolding parse print new_metric metric_value metric_timestamp metric_dimensions value_int
  parse-print now m k x t name value exact stamp read whole =
      let text = fixed m.precision m.value in
      ap (λ z. parse fl now (m.path ++ b' ' ∷ (text ++ b' ' ∷ (show_int z ++ b'\n' ∷ [])))) stamp
      ∙ ap (metric_of fl now) (match_line-words m.path text (decimal k) name value (decimal-Word k))
      ∙ ground (arith, exact, read, whole, stamp)
