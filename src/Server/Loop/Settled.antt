-- ===== src/Server/Loop/Settled.antt =====
-- What the rounds of src/diamond/server.py lead to.
use fullerite.Base.{◌≡◌, refl, sym, ◌∙◌, true, false, inl, inr, List, [], ◌∷◌, ◌++◌, arith}
use fullerite.Base.Text.{Str, str_eq_refl, str_mem}
use fullerite.Base.Result.{Result-cases, ok}
use fullerite.Server.{
  Site, ServerConfig, Child, child_names, to_set, difference, is_collector_name, stop_all,
  collector_classes, start_all, round,
}
use fullerite.Server.Rounds.{mem-to_set, is_started, round-mem}
use fullerite.Server.Loop.{Serving, Event, tick, hup, alive, step, serve}

difference_none :
    (a b : List Str) → ((x : Str) → str_mem x a ≡ true → str_mem x b ≡ true) → difference a b ≡ []
difference_none [] b h = refl
difference_none (n ∷ a) b h =
    ground
      (arith, h n (ground (arith, str_eq_refl n)), difference_none a b (λ x m. h x (ground arith)))

module _ (site : Site) where
  open site use {Class, Instance}

  -- the names of the processes are those of the configuration
  abbrev pub Settled : ServerConfig → List (Child Instance) → Type 0
  Settled config active = (x : Str) → str_mem x (child_names active) ≡ str_mem x config.collectors

  round_calm :
      (config : ServerConfig) (found : List Class) (active : List (Child Instance))
      → Settled config active
      → round site config found active ≡ ok active
  unfolding round stop_all start_all
  round_calm config found active h =
      let running = to_set (child_names active) in
      let wanted = to_set config.collectors in
      let surplus = difference_none running wanted (λ x m.
        ground (arith, h x, mem-to_set x (child_names active), mem-to_set x config.collectors)) in
      let missing = difference_none wanted running (λ x m.
        ground (arith, h x, mem-to_set x (child_names active), mem-to_set x config.collectors)) in
      rw (surplus, missing) refl

  -- every name that is wanted can be started, and what runs is a collector's
  pub record Startable (config : ServerConfig) (found : List Class) (active : List (Child Instance))
      : Type 0 where
    pub wanted :
        (x : Str)
        → str_mem x config.collectors ≡ true
        → is_started site config.config_path (collector_classes site found []) x ≡ true
    pub running : (x : Str) → str_mem x (child_names active) ≡ true → is_collector_name x ≡ true

  round-Settled :
      (config : ServerConfig) (found : List Class) (active after : List (Child Instance))
      → Startable config found active
      → round site config found active ≡ ok after
      → Settled config after
  round-Settled config found active after h e x =
      ground (arith, h.wanted x, h.running x, round-mem site config found active after x e)

  -- nobody dies
  abbrev pub calm : Event site
  calm = tick (λ c. false)

  alive_all : (cs : List (Child Instance)) → alive site (λ c. false) cs ≡ cs
  alive_all [] = refl
  alive_all (c ∷ cs) = ground (arith, alive_all cs)

  serve-append :
      (es fs : List (Event site)) (s t : Serving site)
      → serve site es s ≡ ok t
      → serve site (es ++ fs) s ≡ serve site fs t
  unfolding serve
  serve-append [] fs s t h = ground arith
  serve-append (e ∷ es) fs s t h = elim (Result-cases (step site e s)) [
    | inl (u, p) ↦ ground (arith, serve-append es fs u t)
    | inr (z, p) ↦ ground arith
  ]

  reload-Settled :
      (config : ServerConfig) (found : List Class) (s t : Serving site)
      → Startable config found s.active
      → serve site (hup (ok (config, found)) ∷ calm ∷ []) s ≡ ok t
      → Settled config t.active × (step site calm t ≡ ok t)
  unfolding serve step
  reload-Settled config found s t h e = elim (Result-cases (round site config found s.active)) [
    | inr (z, p) ↦ ground (arith, alive_all s.active)
    | inl (after, p) ↦
        let made : t ≡ record { config = config; found = found; active = after } =
          ground (arith, alive_all s.active) in
        let settled = round-Settled config found s.active after h p in
        rw made (settled, ground (arith, alive_all after, round_calm config found after settled))
  ]

  -- After any events, a reload and one round in which nobody dies bring the processes to the new
  -- configuration, if the round raises nothing, each wanted name can be started, and only
  -- collectors run: the names that run are those wanted, and another such round changes nothing.
  pub serve-Settled :
      (config : ServerConfig) (found : List Class) (es : List (Event site)) (s u t : Serving site)
      → serve site es s ≡ ok u
      → Startable config found u.active
      → serve site (es ++ hup (ok (config, found)) ∷ calm ∷ []) s ≡ ok t
      → Settled config t.active × (step site calm t ≡ ok t)
  serve-Settled config found es s u t before h e =
      reload-Settled config found u t h
        (sym (serve-append es (hup (ok (config, found)) ∷ calm ∷ []) s u before) ∙ e)
