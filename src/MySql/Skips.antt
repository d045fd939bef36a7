-- ===== src/MySql/Skips.antt =====
-- About the keys that are tried on a line of the InnoDB status.
use fullerite.Base.{Option, some, List, [], ◌∷◌, All, ◌≡◌, refl, ap, sym, ◌∙◌}
use fullerite.Base.Text.{Str}
use fullerite.Python.{Float}
use fullerite.MySql.Innodb.{Matches, Values, last_match, after_match, read_keys}

module _ (fl : Float) (sections : List Str) (m m' : Matches) (line : Str) where
  open fl use {Carrier}

  -- The two give the same for a key in the line.
  abbrev Agree : Str → Type 0
  Agree k = m k line ≡ m' k line

  read_keys-Agree :
      (keys : List Str) (v : Values Carrier)
      → All Agree keys
      → read_keys fl sections m line keys v ≡ read_keys fl sections m' line keys v
  unfolding read_keys
  read_keys-Agree [] v h = refl
  read_keys-Agree (k ∷ []) v (h, _) = λ i. last_match fl sections (h i) k v
  read_keys-Agree (k ∷ next ∷ keys) v (h, hs) = λ i.
      after_match fl sections (h i) k next keys v (read_keys-Agree (next ∷ keys) v hs i)
        (λ u. read_keys-Agree keys u (hs.1) i)

  -- What the key after one that matches would find in the line makes no difference.
  read_keys-skips :
      (k next : Str) (keys : List Str) (v : Values Carrier) (groups : List (Option Str))
      → m k line ≡ some groups
      → Agree k
      → All Agree keys
      → read_keys fl sections m line (k ∷ next ∷ keys) v
        ≡ read_keys fl sections m' line (k ∷ next ∷ keys) v
  unfolding read_keys
  read_keys-skips k next keys v groups e h hs =
      let missed = read_keys fl sections m line (next ∷ keys) v in
      let missed' = read_keys fl sections m' line (next ∷ keys) v in
      ap (λ o. after_match fl sections o k next keys v missed (read_keys fl sections m line keys)) e
      ∙ (λ i.
          after_match fl sections (some groups) k next keys v missed'
            (λ u. read_keys-Agree keys u hs i))
      ∙ ap
          (λ o.
            after_match fl sections o k next keys v missed' (read_keys fl sections m' line keys))
          (sym e ∙ h)
