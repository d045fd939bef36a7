-- ===== src/OpenVpn/Waiting.antt =====
-- About the loop that reads the status from the management port.
use fullerite.Base.{
  ℕ, zero, suc, ◌+◌, ◌≤◌, ◌<◌, true, false, Option, none, some, List, [], ◌∷◌, ◌++◌, ◌≡◌, refl, ap,
  sym, ◌∙◌, arith, if◌then◌else◌,
}
use mathlib.Core.List.{append_assoc}
use fullerite.Base.Text.{Str, codes, starts_with}
use native.Mathlib.Decide.{dec_lt}
use fullerite.OpenVpn.Reading.{
  Stream, is_end, after_readline, after_greeting, read_until_end, read_status,
}

-- The n-th line can be read and does not end the status.
abbrev pub GoesOn : Stream → ℕ → Type 0
GoesOn s n = (line : Str) × (s.readline n ≡ some line) × (is_end line ≡ false)

after_readline-next :
    {o : Option Str} {line : Str} (lines : List Str) (rest : List Str → Option (Option (List Str)))
    → o ≡ some line
    → is_end line ≡ false
    → after_readline o lines rest ≡ rest (lines ++ line ∷ [])
after_readline-next {o} {line} lines rest e h =
    ap (λ x. after_readline x lines rest) e
    ∙ ap (λ b. if b then some (some (lines ++ line ∷ [])) else rest (lines ++ line ∷ [])) h

after_readline-last :
    {o : Option Str} {line : Str} (lines : List Str) (rest : List Str → Option (Option (List Str)))
    → o ≡ some line
    → is_end line ≡ true
    → after_readline o lines rest ≡ some (some (lines ++ line ∷ []))
after_readline-last {o} {line} lines rest e h =
    ap (λ x. after_readline x lines rest) e
    ∙ ap (λ b. if b then some (some (lines ++ line ∷ [])) else rest (lines ++ line ∷ [])) h

read_until_end-none :
    (fuel : ℕ) (s : Stream) (n : ℕ) (lines : List Str)
    → ((k : ℕ) → n ≤ k → GoesOn s k)
    → read_until_end fuel s n lines ≡ none
unfolding read_until_end
read_until_end-none zero s n lines h = refl
read_until_end-none (suc fuel) s n lines h =
    let (line, e, not_end) = h n (omega arith) in
    after_readline-next lines (read_until_end fuel s (n + 1)) e not_end
    ∙ read_until_end-none fuel s (n + 1) (lines ++ line ∷ []) (λ k le. h k (omega arith))

read_status-greeted :
    (fuel : ℕ) (s : Stream) (greeting : Str)
    → s.readline 0 ≡ some greeting
    → starts_with greeting (codes ">INFO:OpenVPN") ≡ true
    → read_status fuel s ≡ read_until_end fuel s 1 []
unfolding read_status
read_status-greeted fuel s greeting e starts =
    ap (λ o. after_greeting o (read_until_end fuel s 1 [])) e
    ∙ ap (λ b. if b then read_until_end fuel s 1 [] else some none) starts

-- If the management port greets and then closes the connection before it has sent END, the loop
-- that reads the status never ends: whatever the number of lines that may be read, it is not
-- enough.
pub read_status-closed :
    (fuel : ℕ) (s : Stream) (greeting : Str) (closed : ℕ)
    → s.readline 0 ≡ some greeting
    → starts_with greeting (codes ">INFO:OpenVPN") ≡ true
    → ((k : ℕ) → 0 < k → k < closed → GoesOn s k)
    → ((k : ℕ) → closed ≤ k → s.readline k ≡ some [])
    → read_status fuel s ≡ none
read_status-closed fuel s greeting closed e starts before after =
    read_status-greeted fuel s greeting e starts ∙ read_until_end-none fuel s 1 [] going
  where
    going : (k : ℕ) → 1 ≤ k → GoesOn s k
    going k le = elim (dec_lt k closed) [
      | yes lt ↦ before k (omega arith) lt
      | no ge ↦ ([], after k (omega arith), refl)
    ]

abbrev pub line_or_empty : Option Str → Str
line_or_empty none = []
line_or_empty (some l) = l

-- the m lines from the n-th on
unfoldable pub taken : Stream → ℕ → ℕ → List Str
taken s n zero = []
taken s n (suc m) = line_or_empty (s.readline n) ∷ taken s (n + 1) m

read_until_end-taken :
    (fuel m : ℕ) (s : Stream) (n : ℕ) (lines : List Str) (last : Str)
    → m < fuel
    → ((k : ℕ) → n ≤ k → k < n + m → GoesOn s k)
    → s.readline (n + m) ≡ some last
    → is_end last ≡ true
    → read_until_end fuel s n lines ≡ some (some (lines ++ taken s n (suc m)))
unfolding read_until_end taken
read_until_end-taken zero m s n lines last lt h e end = absurd (omega arith)
read_until_end-taken (suc fuel) zero s n lines last lt h e end =
    let here : s.readline n ≡ some last = ap s.readline (omega arith) ∙ e in
    after_readline-last lines (read_until_end fuel s (n + 1)) here end
    ∙ ap (λ o. some (some (lines ++ line_or_empty o ∷ []))) (sym here)
read_until_end-taken (suc fuel) (suc m) s n lines last lt h e end =
    let (line, q, not_end) = h n (omega arith) (omega arith) in
    after_readline-next lines (read_until_end fuel s (n + 1)) q not_end
    ∙ read_until_end-taken fuel m s (n + 1) (lines ++ line ∷ []) last (omega arith)
        (λ k a b. h k (omega arith) (omega arith)) (ap s.readline (omega arith) ∙ e) end
    ∙ ap (λ l. some (some l)) (append_assoc lines (line ∷ []) (taken s (n + 1) (suc m)))
    ∙ ap (λ o. some (some (lines ++ line_or_empty o ∷ taken s (n + 1) (suc m)))) (sym q)

-- If the management port greets, and its line after m others is the first that is END without the
-- white space around it, the loop ends as soon as more than m lines may be read, and returns these
-- lines with the END.
pub read_status-taken :
    (fuel m : ℕ) (s : Stream) (greeting last : Str)
    → m < fuel
    → s.readline 0 ≡ some greeting
    → starts_with greeting (codes ">INFO:OpenVPN") ≡ true
    → ((k : ℕ) → 0 < k → k < suc m → GoesOn s k)
    → s.readline (suc m) ≡ some last
    → is_end last ≡ true
    → read_status fuel s ≡ some (some (taken s 1 (suc m)))
read_status-taken fuel m s greeting last lt e starts before f end =
    read_status-greeted fuel s greeting e starts
    ∙ read_until_end-taken fuel m s 1 [] last lt (λ k a b. before k (omega arith) (omega arith))
        (ap s.readline (omega arith) ∙ f) end
