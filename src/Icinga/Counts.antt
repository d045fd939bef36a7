-- ===== src/Icinga/Counts.antt =====
-- About the counts over the hosts.
use fullerite.Base.{
  ℕ, zero, suc, ◌+◌, ◌≤◌, Option, none, some, List, [], ◌∷◌, ◌≡◌, refl, ap, ◌∙◌, ◌⊎◌, inl, inr,
  length, All, arith,
}
use fullerite.Base.Int.{ℤ, pos, negsuc}
use fullerite.Base.Result.{ok, err, type_error, bind}
use fullerite.Python.{Float}
use fullerite.Icinga.Parse.{Entity}
use fullerite.Icinga.Entities.{
  Tally, no_tally, HostStates, sanitize_entity, count_host_state, count_hosts,
}
use fullerite.Icinga.Tallies.{Complete, Grew, Complete-tally_entity, Complete-cases, sane_checks}

abbrev pub hosts_in : HostStates → ℕ
hosts_in h = h.up + h.down + h.unreachable

count_host_state-hosts_in :
    (v : Option ℤ) (h : HostStates) → hosts_in (count_host_state v h) ≡ hosts_in h + 1
unfolding count_host_state
count_host_state-hosts_in none h = omega arith
count_host_state-hosts_in (some (negsuc n)) h = omega arith
count_host_state-hosts_in (some (pos zero)) h = omega arith
count_host_state-hosts_in (some (pos (suc zero))) h = omega arith
count_host_state-hosts_in (some (pos (suc (suc n)))) h = omega arith

-- what the loop adds to a tally and to the counts of the states
record Counted (n : ℕ) (t : Tally) (h : HostStates) (t' : Tally) (h' : HostStates) : Type 0 where
  tally : Grew n t t'
  states : hosts_in h' ≡ hosts_in h + n

count_hosts-Counted :
    (fl : Float) (hosts : List Entity) (t : Tally) (h : HostStates)
    → All (λ e. Complete (sanitize_entity fl e)) hosts
    → (t' : Tally) × (h' : HostStates) × (count_hosts fl hosts t h ≡ ok (t', h'))
      × Counted (length hosts) t h t' h'
unfolding count_hosts
count_hosts-Counted fl [] t h c = (
  t,
  h,
  refl,
  record {
    tally = record {
      total = omega arith;
      flapping = omega arith;
      checked = omega arith;
      scheduled = omega arith;
      checks = omega arith;
    };
    states = omega arith;
  },
)
count_hosts-Counted fl (e ∷ es) t h (c, cs) =
    let s = sanitize_entity fl e in
    let (t1, e1, g) = Complete-tally_entity s t (sane_checks fl e) c in
    let more = count_host_state s.state h in
    let (t2, h2, e2, k) = count_hosts-Counted fl es t1 more cs in
    (
      t2,
      h2,
      ap (λ r. bind r λ next. count_hosts fl es next more) e1 ∙ e2,
      record {
        tally = record {
          total = omega (arith, g.total, k.tally.total);
          flapping = omega (arith, g.flapping, k.tally.flapping);
          checked = omega (arith, g.checked, k.tally.checked);
          scheduled = omega (arith, g.scheduled, k.tally.scheduled);
          checks = omega (arith, g.checks, k.tally.checks);
        };
        states = omega (arith, k.states, count_host_state-hosts_in s.state h);
      },
    )

-- the loop's end over hosts whose four values are all integers
abbrev pub AddsUp : ℕ → Tally → HostStates → Type 0
AddsUp n t h =
    (t.total ≡ n)
    × (hosts_in h ≡ n)
    × (t.active_checks + t.passive_checks ≤ n)
    × (t.flapping ≤ n)
    × (t.checked ≤ n)
    × (t.scheduled ≤ n)

abbrev pub no_hosts : HostStates
no_hosts = record { up = 0; down = 0; unreachable = 0 }

-- The loop over hosts that are all complete.
count_hosts-AddsUp :
    (fl : Float) (hosts : List Entity)
    → All (λ e. Complete (sanitize_entity fl e)) hosts
    → (t : Tally) × (h : HostStates) × (count_hosts fl hosts no_tally no_hosts ≡ ok (t, h))
      × AddsUp (length hosts) t h
count_hosts-AddsUp fl hosts c =
    let (t, h, e, k) = count_hosts-Counted fl hosts no_tally no_hosts c in
    (
      t,
      h,
      e,
      (
        omega (arith, k.tally.total),
        omega (arith, k.states),
        omega (arith, k.tally.checks),
        omega (arith, k.tally.flapping),
        omega (arith, k.tally.checked),
        omega (arith, k.tally.scheduled),
      ),
    )

-- Either all hosts are complete, or the loop raises.
Complete-or-raises :
    (fl : Float) (hosts : List Entity) (t : Tally) (h : HostStates)
    → All (λ e. Complete (sanitize_entity fl e)) hosts ⊎ (count_hosts fl hosts t h ≡ err type_error)
unfolding count_hosts
Complete-or-raises fl [] t h = inl tt
Complete-or-raises fl (e ∷ es) t h =
    let s = sanitize_entity fl e in
    let more = count_host_state s.state h in
    elim (Complete-cases s t) [
      | inr x ↦ inr (ap (λ r. bind r λ next. count_hosts fl es next more) x)
      | inl c ↦
          let (t1, e1, g) = Complete-tally_entity s t (sane_checks fl e) c in
          elim (Complete-or-raises fl es t1 more) [
            | inl cs ↦ inl (c, cs)
            | inr x ↦ inr (ap (λ r. bind r λ next. count_hosts fl es next more) e1 ∙ x)
          ]
    ]

-- All hosts are complete and add up, or the loop raises.
abbrev pub AddsUpOrRaises : Float → List Entity → Type 0
unfolding count_hosts
AddsUpOrRaises fl hosts =
    (All (λ e. Complete (sanitize_entity fl e)) hosts
      × ((t : Tally) × (h : HostStates) × (count_hosts fl hosts no_tally no_hosts ≡ ok (t, h))
          × AddsUp (length hosts) t h))
    ⊎ (count_hosts fl hosts no_tally no_hosts ≡ err type_error)

-- The count of the hosts raises a TypeError, or every host has its four values as integers, the
-- total is the number of hosts, those up, down and unreachable add up to it, the active and the
-- passive checks together are at most as many, and so are the flapping, the checked and the
-- scheduled hosts.
pub count_hosts-cases : (fl : Float) (hosts : List Entity) → AddsUpOrRaises fl hosts
unfolding AddsUpOrRaises
count_hosts-cases fl hosts = elim (Complete-or-raises fl hosts no_tally no_hosts) [
  | inl c ↦ inl (c, count_hosts-AddsUp fl hosts c)
  | inr x ↦ inr x
]
