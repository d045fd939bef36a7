-- ===== src/Redis/Texts.antt =====
-- Texts around a separator, ports and hosts, as the addresses of
-- src/diamond/collectors/redisstat/redisstat.py have them.
use fullerite.Base.{
  ℕ, zero, suc, ◌+◌, ◌/◌, ◌%◌, ◌≤◌, ◌<◌, ◌≡◌, ◌≢◌, refl, false, none, some, [], ◌∷◌, ◌++◌, All,
  arith,
}
use fullerite.Base.Text.{Str, codes, str_eq, starts_with, Lacks, digits_from}
use fullerite.Redis.{partition}

pub partition-Lacks : (d : ℕ) (s : Str) → Lacks d s → partition d s ≡ (s, none)
partition-Lacks d [] h = refl
partition-Lacks d (c ∷ s) h = ground (arith, partition-Lacks d s h.1)

pub partition-append : (d : ℕ) (s t : Str) → Lacks d s → partition d (s ++ d ∷ t) ≡ (s, some t)
partition-append d [] t h = ground arith
partition-append d (c ∷ s) t h = ground (arith, partition-append d s t h.1)

-- Only digits.
abbrev pub Digits : Str → Type 0
Digits = All λ c. (48 ≤ c) × (c ≤ 57)

pub digits_from-Digits : (f n : ℕ) (s : Str) → Digits s → Digits (digits_from f n s)
digits_from-Digits zero n s h = h
digits_from-Digits (suc f) n s h = ground (arith, digits_from-Digits f (n / 10) ((48 + n % 10) ∷ s))

pub Digits-Lacks : (d : ℕ) (s : Str) → Digits s → 57 < d → Lacks d s
Digits-Lacks d [] h b = tt
Digits-Lacks d (c ∷ s) h b = (omega arith, Digits-Lacks d s h.1 b)

pub Digits-Lacks_low : (d : ℕ) (s : Str) → Digits s → d < 48 → Lacks d s
Digits-Lacks_low d [] h b = tt
Digits-Lacks_low d (c ∷ s) h b = (omega arith, Digits-Lacks_low d s h.1 b)

-- A host that is no socket's prefix, with no character that has a meaning.
pub record Plain (host : Str) : Type 0 where
  pub has_char : host ≢ []
  pub no_at : Lacks b'@' host
  pub no_slash : Lacks b'/' host
  pub no_colon : Lacks b':' host
  pub no_prefix : str_eq host (codes "unix") ≡ false

-- Such a host with a colon behind it does not begin with `unix:`.
pub not_socket :
    (host s : Str)
    → Lacks b':' host
    → str_eq host (codes "unix") ≡ false
    → starts_with (host ++ b':' ∷ s) (codes "unix:") ≡ false
not_socket [] s h n = ground arith
not_socket (a ∷ []) s h n = ground arith
not_socket (a ∷ b ∷ []) s h n = ground arith
not_socket (a ∷ b ∷ c ∷ []) s h n = ground arith
not_socket (a ∷ b ∷ c ∷ d ∷ []) s h n = ground arith
not_socket (a ∷ b ∷ c ∷ d ∷ e ∷ t) s h n = ground arith
