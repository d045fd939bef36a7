-- ===== src/Server/Loop.antt =====
-- The loop of `Server.run` of src/diamond/server.py: rounds, and reloads on SIGHUP.
pub mod Settled
use fullerite.Base.{Bool, List, [], ◌∷◌, if◌then◌else◌}
use fullerite.Base.Result.{Result, ok, err, ◌>>=◌}
use fullerite.Server.{Site, ServerConfig, Child, round}

module _ (site : Site) where
  open site use {Class, Instance}

  -- The server's variables: `self.config`, `collectors`, and the children that are alive.
  pub record Serving : Type 0 where
    pub config : ServerConfig
    pub found : List Class
    pub active : List (Child Instance)

  -- What happens next: a round, before which some processes have died, or a SIGHUP while the server
  -- sleeps, with what `load_config` and `load_collectors` then give or raise.
  pub data Event : Type 0 where
    tick : (Child Instance → Bool) → Event
    hup : Result (ServerConfig × List Class) → Event

  -- the children that have not died
  abbrev pub alive : (Child Instance → Bool) → List (Child Instance) → List (Child Instance)
  alive died [] = []
  alive died (c ∷ cs) = let rest = alive died cs in if died c then rest else c ∷ rest

  abbrev pub reloaded : Serving → ServerConfig × List Class → Serving
  reloaded s (config, found) = record { config = config; found = found; active = s.active }

  unfoldable pub step : Event → Serving → Result Serving
  unfolding round
  step (tick died) s = do
    after ← round site s.config s.found (alive died s.active)
    ok (record s { active = after })
  step (hup loaded) s = do l ← loaded; ok (reloaded s l)

  -- An exception ends the server.
  unfoldable pub serve : List Event → Serving → Result Serving
  serve [] s = ok s
  serve (e ∷ es) s = do t ← step e s; serve es t
