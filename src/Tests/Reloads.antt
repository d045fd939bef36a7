-- ===== src/Tests/Reloads.antt =====
-- Instances of the theorems on the server's loop and on failing sends.
use mathlib.Core.Path.{subst}
use fullerite.Base.{ℕ, ◌≡◌, refl, sym, true, Bool-cases, inl, inr, some, List, [], ◌∷◌, arith}
use fullerite.Base.Int.{pos}
use fullerite.Base.Text.{Str, codes, str_eq, str_eq→eq, str_eq_sym, str_mem, split}
use fullerite.Base.Dict.{insert, lookup}
use fullerite.Base.Result.{ok, err, recursion_limit}
use fullerite.Python.{num, int}
use fullerite.Python.Convert.{value_float}
use fullerite.Python.Arith.{to_float}
use fullerite.Collector.State.{Payload}
use fullerite.Collector.Publish.{flush}
use fullerite.Collector.Endless.{Eager, flush_endless}
use fullerite.Server.{
  Site, ServerConfig, Child, is_collector_name, collector_classes, launch, initialize_collector,
  round, stop_all, terminate, start_all,
}
use fullerite.Server.Rounds.{is_started}
use fullerite.Server.Loop.{Serving, step, serve}
use fullerite.Server.Loop.Settled.{Settled, Startable, calm, serve-Settled}
use fullerite.Tests.Worlds.{broken_world, collector_with}

abbrev site : Site
site = record {
  Class = ℕ;
  Instance = ℕ;
  Settings = ℕ;
  class_name = λ c. codes "CPUCollector";
  load_config = λ s. ok 0;
  construct = λ c name s. ok c;
}

abbrev config_of : List Str → ServerConfig
config_of names = record { collectors = names; config_path = codes "/etc/fullerite" }

abbrev name_a : Str
name_a = codes "CPUCollector a"

abbrev name_b : Str
name_b = codes "CPUCollector b"

abbrev serving : ServerConfig → List (Child ℕ) → Serving site
serving config active = record { config = config; found = 1 ∷ []; active = active }

-- a collector that runs, and the one that takes its place
abbrev running : Child ℕ
running = record { name = name_b; instance' = 1 }

abbrev wanted : Child ℕ
wanted = record { name = name_a; instance' = 1 }

mem_only : (n x : Str) → str_mem x (n ∷ []) ≡ true → x ≡ n
mem_only n x h = elim (Bool-cases (str_eq x n)) [
  | inl e ↦ str_eq→eq x n e
  | inr e ↦ ground (arith, str_eq_sym x n)
]

-- What holds of a name holds of every member of the list of it alone.
only : (P : Str → Type 0) (n x : Str) → P n → str_mem x (n ∷ []) ≡ true → P x
only P n x p h = subst P (sym (mem_only n x h)) p

startable : Startable site (config_of (name_a ∷ [])) (1 ∷ []) (running ∷ [])
unfolding launch initialize_collector collector_classes insert lookup split
startable = record {
  wanted = λ x h.
      only
        (λ y.
          is_started site (codes "/etc/fullerite") (collector_classes site (1 ∷ []) []) y ≡ true)
        name_a x refl h;
  running = λ x h. only (λ y. is_collector_name y ≡ true) name_b x refl h;
}

serve-Settled_example :
    Settled site (config_of (name_a ∷ [])) (wanted ∷ [])
    × (step site (calm site) (serving (config_of (name_a ∷ [])) (wanted ∷ []))
        ≡ ok (serving (config_of (name_a ∷ [])) (wanted ∷ [])))
unfolding serve step round launch initialize_collector collector_classes insert lookup split
    stop_all terminate start_all
serve-Settled_example =
    serve-Settled site (config_of (name_a ∷ [])) (1 ∷ []) (calm site ∷ [])
      (serving (config_of (name_b ∷ [])) []) (serving (config_of (name_b ∷ [])) (running ∷ []))
      (serving (config_of (name_a ∷ [])) (wanted ∷ [])) refl startable refl

eager :
    Eager broken_world
      (codes "servers")
      (codes "cpu")
      (num (int (pos 10)))
      (num (int (pos 2)))
      10
      2
      (collector_with 1 [])
unfolding lookup value_float to_float
eager = record {
  named = record {
    has_prefix = refl;
    has_path = refl;
    has_path_suffix = refl;
    prefix_word = omega arith;
    path_word = omega arith;
    path_some = λ h. ground (arith, h);
  };
  white = refl;
  black = refl;
  interval = refl;
  multiplier = refl;
  interval_float = refl;
  multiplier_float = refl;
  limit = refl;
  connected = refl;
  reconnect = refl;
}

written : (l : List (Payload ℕ)) → (s : Str) × (broken_world.dumps l ≡ some s)
written [] = ([], refl)
written (p ∷ l) = (p.name, refl)

flush_endless_example : (flush broken_world 40 (collector_with 1 [])).0 ≡ err recursion_limit
flush_endless_example =
    flush_endless broken_world (codes "servers") (codes "cpu") (num (int (pos 10)))
      (num (int (pos 2))) 10 2 (λ n. refl) written 40 (collector_with 1 []) eager
