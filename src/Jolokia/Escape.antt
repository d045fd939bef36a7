-- ===== src/Jolokia/Escape.antt =====
-- What `escape_domain` of src/diamond/collectors/jolokia/jolokia.py sends.
use fullerite.Base.{
  ℕ, false, ◌≡◌, refl, ap, ◌∙◌, ◌==◌, Bool-cases, inl, inr, [], ◌∷◌, arith, if◌then◌else◌,
}
use fullerite.Base.Text.{Str}
use fullerite.Jolokia.{mark, escape_domain}

-- How Jolokia reads an escaped text: the character behind an exclamation mark stands for itself.
unfoldable pub unescape : Str → Str
unescape [] = []
unescape (c ∷ []) = c ∷ []
unescape (c ∷ d ∷ s) =
    let short = unescape s in
    let long = unescape (d ∷ s) in if c == b'!' then d ∷ short else c ∷ long

unescape_plain : (c : ℕ) (t : Str) → (c == b'!') ≡ false → unescape (c ∷ t) ≡ c ∷ unescape t
unfolding unescape
unescape_plain c [] h = refl
unescape_plain c (d ∷ t) h = ground arith

unescape-mark : (s : Str) → unescape (mark b'"' (mark b'/' (mark b'!' s))) ≡ s
unfolding unescape
unescape-mark [] = refl
unescape-mark (c ∷ s) =
    let rest = mark b'"' (mark b'/' (mark b'!' s)) in
    elim (Bool-cases (c == b'!')) [
      | inl here ↦ ground (arith, unescape-mark s)
      | inr there ↦ elim (Bool-cases (c == b'/')) [
        | inl slash ↦ ground (arith, unescape-mark s)
        | inr other ↦ elim (Bool-cases (c == b'"')) [
          | inl quoted ↦ ground (arith, unescape-mark s)
          | inr plain ↦ ground (arith, unescape_plain c rest there, unescape-mark s)
        ]
      ]
    ]

-- For a quoting that can be undone, an escaped domain, unquoted and read with an exclamation mark
-- standing for the character behind it, is the domain again.
pub unescape-escape_domain :
    (quote unquote : Str → Str) (s : Str)
    → ((t : Str) → unquote (quote t) ≡ t)
    → unescape (unquote (escape_domain quote s)) ≡ s
unfolding escape_domain
unescape-escape_domain quote unquote s h =
    ap unescape (h (mark b'"' (mark b'/' (mark b'!' s)))) ∙ unescape-mark s
