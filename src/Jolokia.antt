-- ===== src/Jolokia.antt =====
-- The texts of src/diamond/collectors/jolokia/jolokia.py: the names of metrics, and what is sent in
-- a request.
pub mod Names
pub mod Escape
pub mod Beans
pub mod Collect
pub mod Hosts
pub mod Options
use fullerite.Base.{
  ℕ, Bool, true, false, ◌&&◌, ◌||◌, not, ◌==◌, leb, Option, none, some, List, [], ◌∷◌, ◌++◌,
  if◌then◌else◌,
}
use fullerite.Base.Text.{Str, codes, split, contains}
use fullerite.Base.Dict.{Dict, insert}
use fullerite.Base.Result.{Result, ok, err, value_error, bind}

-- `["\'(){}<>\[\]]`
abbrev pub is_bracket : ℕ → Bool
is_bracket c =
    (c == b'"')
    || (c == 39)
    || (c == b'(')
    || (c == b')')
    || (c == b'{')
    || (c == b'}')
    || (c == b'<')
    || (c == b'>')
    || (c == b'[')
    || (c == b']')

-- `[:,.]`
abbrev pub is_point : ℕ → Bool
is_point c = (c == b':') || (c == b',') || (c == b'.')

-- `[a-zA-Z0-9_.+-]`
abbrev pub is_plain : ℕ → Bool
is_plain c =
    (leb b'a' c && leb c b'z')
    || (leb b'A' c && leb c b'Z')
    || (leb b'0' c && leb c b'9')
    || (c == b'_')
    || (c == b'.')
    || (c == b'+')
    || (c == b'-')

-- `re.sub` of a class of characters by nothing
abbrev pub remove : (ℕ → Bool) → Str → Str
remove p [] = []
remove p (c ∷ s) = let rest = remove p s in if p c then rest else c ∷ rest

-- `re.sub` of the runs of a class by one character; the Boolean says whether a run has begun.
abbrev pub collapse : (ℕ → Bool) → ℕ → Bool → Str → Str
collapse p d inside [] = []
collapse p d inside (c ∷ s) =
    let rest = collapse p d (p c) s in if p c then (if inside then rest else d ∷ rest) else c ∷ rest

abbrev pub is_bad : ℕ → Bool
is_bad c = not (is_plain c)

-- `clean_up` without the configured rewrites
unfoldable pub clean : Str → Str
clean s = collapse is_bad b'_' false (collapse is_point b'.' false (remove is_bracket s))

-- the configured rewrites, for `re.sub`
unfoldable pub rewrite : (Str → Str → Str → Str) → List (Str × Str) → Str → Str
rewrite sub [] s = s
rewrite sub ((old, new) ∷ rules) s = rewrite sub rules (sub old new s)

abbrev pub clean_up : (Str → Str → Str → Str) → List (Str × Str) → Str → Str
unfolding clean rewrite
clean_up sub rules s = rewrite sub rules (clean s)

-- `re.sub` of one character by itself with an exclamation mark in front
abbrev pub mark : ℕ → Str → Str
mark d [] = []
mark d (c ∷ s) = let rest = mark d s in if c == d then b'!' ∷ c ∷ rest else c ∷ rest

-- `escape_domain`, for `urllib.quote`
unfoldable pub escape_domain : (Str → Str) → Str → Str
escape_domain quote s = quote (mark b'"' (mark b'/' (mark b'!' s)))

-- `check_mbean_blacklist`
unfoldable pub check_mbean_blacklist : Str → List Str → Bool
check_mbean_blacklist mbean [] = true
check_mbean_blacklist mbean (line ∷ lines) =
    let rest = check_mbean_blacklist mbean lines in if contains mbean line then false else rest

-- `check_domain_for_blacklist`
unfoldable pub check_domain_for_blacklist : Str → List Str → Bool
check_domain_for_blacklist domain [] = false
check_domain_for_blacklist domain (line ∷ lines) =
    let rest = check_domain_for_blacklist domain lines in
    if contains line domain then true else rest

-- `for k, v in [kv.split('=') ...]`, for the parts of the text
unfoldable pub parse_pairs : List Str → Dict Str → Result (Dict Str)
unfolding split insert
parse_pairs [] d = ok d
parse_pairs (kv ∷ more) d = elim (split b'=' kv) [
  | [] ↦ err value_error
  | k ∷ [] ↦ err value_error
  | k ∷ v ∷ [] ↦ parse_pairs more (insert k v d)
  | k ∷ v ∷ u ∷ us ↦ err value_error
]

-- `MBean.parse_dimension`
unfoldable pub parse_dimension : Str → Result (Dict Str)
unfolding parse_pairs split
parse_dimension meta = parse_pairs (split b',' meta) []
