-- ===== src/Icinga/Slots.antt =====
-- About the external commands' statistics.
use fullerite.Base.{false, Option, none, some, [], ◌≡◌, refl, ap, sym, ◌∙◌, inl, inr, if◌then◌else◌}
use mathlib.Core.Path.{subst}
use fullerite.Base.Int.{ℤ}
use fullerite.Base.Text.{Str, codes, str_eq}
use fullerite.Base.Dict.{Dict, lookup, insert, lookup-insert}
use fullerite.Base.Result.{Result, ok, err, ok-injective, Result-cases, bind}
use fullerite.Python.{Float}
use fullerite.Icinga.Parse.{Entity}
use fullerite.Icinga.Program.{
  convert_tripplet, high_slots, total_slots, used_slots, command_stats, get_externalcmd_stats,
}

abbrev high_key : Str
high_key = codes "high_external_command_buffer_slots"

abbrev pub total_key : Str
total_key = codes "total_external_command_buffer_slots"

abbrev pub used_key : Str
used_key = codes "used_external_command_buffer_slots"

module _ (fl : Float) where
  open fl use {parse_int}

  -- The commands' own statistics leave the slots alone.
  lookup-command_stats :
      (j : Str) (o : Option Str) (d : Dict ℤ)
      → str_eq (codes "external_command.01") j ≡ false
      → str_eq (codes "external_command.05") j ≡ false
      → lookup j (command_stats fl o d) ≡ lookup j d
  unfolding command_stats
  lookup-command_stats j none d p q = refl
  lookup-command_stats j (some text) d p q =
      let (x01, x05, x15) = convert_tripplet fl text in
      let first = insert (codes "external_command.01") x01 d in
      let second = insert (codes "external_command.05") x05 first in
      lookup-insert (codes "external_command.01") j x15 second
      ∙ ap (λ b. if b then some x15 else lookup j second) p
      ∙ lookup-insert (codes "external_command.05") j x05 first
      ∙ ap (λ b. if b then some x05 else lookup j first) q
      ∙ lookup-insert (codes "external_command.01") j x01 d
      ∙ ap (λ b. if b then some x01 else lookup j d) p

  abbrev with_slots : Entity → ℤ → Dict ℤ → Dict ℤ
  unfolding insert command_stats lookup
  with_slots app n s = command_stats fl (lookup (codes "external_command_stats") app) (
      insert (codes "external_command.buffer_used") n
        (insert (codes "external_command.buffer_total") n s))

  -- the slots that stay in the result
  lookup-with_slots :
      (app : Entity) (n : ℤ) (s : Dict ℤ)
      → (lookup (codes "external_command.buffer_total") (with_slots app n s) ≡ some n)
        × (lookup (codes "external_command.buffer_used") (with_slots app n s) ≡ some n)
  unfolding with_slots
  lookup-with_slots app n s =
      let o = lookup (codes "external_command_stats") app in
      let total = insert (codes "external_command.buffer_total") n s in
      let used = insert (codes "external_command.buffer_used") n total in
      (
        lookup-command_stats (codes "external_command.buffer_total") o used refl refl
            ∙ lookup-insert (codes "external_command.buffer_used") _ n total
            ∙ lookup-insert (codes "external_command.buffer_total") _ n s,
        lookup-command_stats (codes "external_command.buffer_used") o used refl refl
            ∙ lookup-insert (codes "external_command.buffer_used") _ n total,
      )

  -- what is returned, for what the first slots give
  externalcmd_slots :
      (app : Entity) (used text : Str) (n : ℤ) (r : Result (Dict ℤ))
      → lookup used_key app ≡ some used
      → lookup total_key app ≡ some text
      → parse_int text ≡ some n
      → high_slots fl (lookup high_key app) [] ≡ r
      → get_externalcmd_stats fl app ≡ bind r (λ s. ok (with_slots app n s))
  unfolding get_externalcmd_stats total_slots used_slots with_slots
  externalcmd_slots app used text n (err x) u t p h = rw h refl
  externalcmd_slots app used text n (ok s) u t p h = rw (h, u, t) (rw p refl)

  -- If the status has both the total and the used command buffer slots, and the statistics are
  -- returned, both metrics have the value of the total.
  pub get_externalcmd_stats-used :
      (app : Entity) (used text : Str) (n : ℤ) (d : Dict ℤ)
      → lookup used_key app ≡ some used
      → lookup total_key app ≡ some text
      → parse_int text ≡ some n
      → get_externalcmd_stats fl app ≡ ok d
      → (lookup (codes "external_command.buffer_total") d ≡ some n)
        × (lookup (codes "external_command.buffer_used") d ≡ some n)
  unfolding get_externalcmd_stats total_slots used_slots
  get_externalcmd_stats-used app used text n d u t p h =
      elim (Result-cases (high_slots fl (lookup high_key app) [])) [
        | inl (s, e) ↦
            subst
              (λ r.
                (lookup (codes "external_command.buffer_total") r ≡ some n)
                × (lookup (codes "external_command.buffer_used") r ≡ some n))
              (ok-injective (sym (externalcmd_slots app used text n _ u t p e) ∙ h))
              (lookup-with_slots app n s)
        | inr (x, e) ↦ let k = externalcmd_slots app used text n _ u t p e in cc
      ]
