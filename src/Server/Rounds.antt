-- ===== src/Server/Rounds.antt =====
-- Which processes run after a round of src/diamond/server.py.
use fullerite.Base.{
  ◌≡◌, refl, Bool, true, false, ◌&&◌, ◌||◌, not, inl, inr, Option, none, some, List, [], ◌∷◌, ◌++◌,
  arith,
}
use fullerite.Base.Text.{Str, str_eq, str_eq→eq, str_eq_refl, str_mem}
use fullerite.Base.Dict.{Dict}
use fullerite.Base.Result.{Result-cases, ok, err}
use fullerite.Server.{
  Site, ServerConfig, Child, child_names, to_set, difference, is_collector_name, terminate,
  stop_all, collector_classes, launch, append_child, start_all, round,
}

pub mem-difference :
    (x : Str) (a b : List Str) → str_mem x (difference a b) ≡ (str_mem x a && not (str_mem x b))
mem-difference x [] b = refl
mem-difference x (n ∷ a) b = ground (arith, str_eq→eq x n, mem-difference x a b)

pub mem-to_set : (x : Str) (a : List Str) → str_mem x (to_set a) ≡ str_mem x a
mem-to_set x [] = refl
mem-to_set x (n ∷ a) = ground (arith, str_eq→eq x n, mem-to_set x a, mem-to_set n a)

module _ {I : Type 0} where
  pub mem-terminate :
      (x n : Str) (cs : List (Child I))
      → str_mem x (child_names (terminate n cs)) ≡ (str_mem x (child_names cs) && not (str_eq x n))
  unfolding terminate
  mem-terminate x n [] = refl
  mem-terminate x n (c ∷ cs) = ground (
    arith,
    str_eq→eq x n,
    str_eq→eq x c.name,
    str_eq→eq c.name n,
    str_eq_refl n,
    mem-terminate x n cs,
  )

  pub mem-stop_all :
      (x : Str) (ns : List Str) (cs : List (Child I))
      → str_mem x (child_names (stop_all ns cs))
        ≡ (str_mem x (child_names cs) && not (str_mem x ns && is_collector_name x))
  unfolding stop_all
  mem-stop_all x [] cs = ground arith
  mem-stop_all x (n ∷ ns) cs = ground (
    arith,
    str_eq→eq x n,
    mem-terminate x n cs,
    mem-stop_all x ns cs,
    mem-stop_all x ns (terminate n cs),
  )

  pub mem-append :
      (x : Str) (a b : List (Child I))
      → str_mem x (child_names (a ++ b)) ≡ (str_mem x (child_names a) || str_mem x (child_names b))
  mem-append x [] b = refl
  mem-append x (c ∷ a) b = ground (arith, mem-append x a b)

module _ (site : Site) where
  open site use {Class, Instance}

  -- Launching this name gives a process.
  abbrev pub is_started : Str → Dict Class → Str → Bool
  is_started path classes name = elim (launch site path classes name) [
    | ok child ↦ elim child [ none ↦ false | some c ↦ true ]
    | err e ↦ false
  ]

  -- A new child has the name that was launched.
  pub launch-name :
      (path : Str) (classes : Dict Class) (name : Str) (c : Child Instance)
      → launch site path classes name ≡ ok (some c)
      → c.name ≡ name
  unfolding launch
  launch-name path classes name c h = ground arith

  mem-append_child :
      (path : Str) (classes : Dict Class) (x n : Str) (cs : List (Child Instance))
      (child : Option (Child Instance))
      → launch site path classes n ≡ ok child
      → str_mem x (child_names (append_child site cs child))
        ≡ (str_mem x (child_names cs) || (str_eq x n && is_started path classes x))
  mem-append_child path classes x n cs none h = ground (arith, str_eq→eq x n)
  mem-append_child path classes x n cs (some c) h = ground (
    arith,
    str_eq→eq x n,
    str_eq→eq x c.name,
    launch-name path classes n c h,
    mem-append x cs (c ∷ []),
  )

  mem-start_all :
      (path : Str) (classes : Dict Class) (x : Str) (ns : List Str) (cs ds : List (Child Instance))
      → start_all site path classes ns cs ≡ ok ds
      → str_mem x (child_names ds)
        ≡ (str_mem x (child_names cs) || (str_mem x ns && is_started path classes x))
  unfolding start_all
  mem-start_all path classes x [] cs ds h = ground arith
  mem-start_all path classes x (n ∷ ns) cs ds h = elim (Result-cases (launch site path classes n)) [
    | inl (child, e) ↦ ground (
      arith,
      mem-append_child path classes x n cs child e,
      mem-start_all path classes x ns (append_child site cs child) ds,
    )
    | inr (z, e) ↦ ground arith
  ]

  -- After a round that raises nothing, a process of a given name runs exactly if it ran before and
  -- is wanted or is no collector's, or if it did not run, is wanted, and could be started.
  pub round-mem :
      (config : ServerConfig) (found : List Class) (active after : List (Child Instance)) (x : Str)
      → round site config found active ≡ ok after
      → let ran = str_mem x (child_names active) in
        let wanted = str_mem x config.collectors in
        let started = is_started config.config_path (collector_classes site found []) x in
        str_mem x (child_names after)
        ≡ ((ran && (wanted || not (is_collector_name x))) || (wanted && not ran && started))
  unfolding round
  round-mem config found active after x h =
      let running = to_set (child_names active) in
      let wanted = to_set config.collectors in
      let surplus = difference running wanted in
      let missing = difference wanted running in
      let classes = collector_classes site found [] in
      ground (
        arith,
        mem-start_all config.config_path classes x missing (stop_all surplus active) after h,
        mem-stop_all x surplus active,
        mem-difference x running wanted,
        mem-difference x wanted running,
        mem-to_set x (child_names active),
        mem-to_set x config.collectors,
      )
