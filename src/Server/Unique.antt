-- ===== src/Server/Unique.antt =====
-- The names of the processes of src/diamond/server.py, and their repetition.
use fullerite.Base.{
  ◌≡◌, refl, true, false, inl, inr, Option, none, some, List, [], ◌∷◌, ◌++◌, arith,
}
use fullerite.Base.Text.{Str, str_eq→eq, str_eq_refl, str_eq_sym, str_mem, NoRepeat}
use fullerite.Base.Dict.{Dict}
use fullerite.Base.Result.{Result-cases, ok}
use fullerite.Server.{
  Site, ServerConfig, Child, child_names, to_set, difference, terminate, stop_all,
  collector_classes, launch, append_child, start_all, round,
}
use fullerite.Server.Rounds.{
  mem-difference, mem-to_set, mem-terminate, mem-stop_all, mem-append, launch-name,
}

to_set-NoRepeat : (a : List Str) → NoRepeat (to_set a)
to_set-NoRepeat [] = tt
to_set-NoRepeat (n ∷ a) = ground (arith, to_set-NoRepeat a)

difference-NoRepeat : (a b : List Str) → NoRepeat a → NoRepeat (difference a b)
difference-NoRepeat [] b h = tt
difference-NoRepeat (n ∷ a) b h = ground (arith, mem-difference n a b, difference-NoRepeat a b h.1)

module _ {I : Type 0} where
  terminate-NoRepeat :
      (n : Str) (cs : List (Child I))
      → NoRepeat (child_names cs)
      → NoRepeat (child_names (terminate n cs))
  unfolding terminate
  terminate-NoRepeat n [] h = tt
  terminate-NoRepeat n (c ∷ cs) h =
      ground (arith, mem-terminate c.name n cs, terminate-NoRepeat n cs h.1)

  stop_all-NoRepeat :
      (ns : List Str) (cs : List (Child I))
      → NoRepeat (child_names cs)
      → NoRepeat (child_names (stop_all ns cs))
  unfolding stop_all
  stop_all-NoRepeat [] cs h = h
  stop_all-NoRepeat (n ∷ ns) cs h = ground (
    arith,
    stop_all-NoRepeat ns cs h,
    stop_all-NoRepeat ns (terminate n cs) (terminate-NoRepeat n cs h),
  )

  append-NoRepeat :
      (c : Child I) (cs : List (Child I))
      → NoRepeat (child_names cs)
      → str_mem c.name (child_names cs) ≡ false
      → NoRepeat (child_names (cs ++ c ∷ []))
  append-NoRepeat c [] h f = (refl, tt)
  append-NoRepeat c (d ∷ cs) h f =
      ground
        (arith, str_eq_sym c.name d.name, mem-append d.name cs (c ∷ []), append-NoRepeat c cs h.1)

module _ (site : Site) where
  open site use {Class, Instance}

  -- none of the names is that of a child
  abbrev Absent : List Str → List (Child Instance) → Type 0
  Absent ns cs = (x : Str) → str_mem x ns ≡ true → str_mem x (child_names cs) ≡ false

  append_child-NoRepeat :
      (path : Str) (classes : Dict Class) (n : Str) (cs : List (Child Instance))
      (child : Option (Child Instance))
      → launch site path classes n ≡ ok child
      → NoRepeat (child_names cs)
      → str_mem n (child_names cs) ≡ false
      → NoRepeat (child_names (append_child site cs child))
  append_child-NoRepeat path classes n cs none e h f = h
  append_child-NoRepeat path classes n cs (some c) e h f =
      append-NoRepeat c cs h (rw (launch-name site path classes n c e) f)

  append_child-Absent :
      (path : Str) (classes : Dict Class) (n : Str) (ns : List Str) (cs : List (Child Instance))
      (child : Option (Child Instance))
      → launch site path classes n ≡ ok child
      → str_mem n ns ≡ false
      → Absent (n ∷ ns) cs
      → Absent ns (append_child site cs child)
  append_child-Absent path classes n ns cs none e f a x m = ground (arith, a x)
  append_child-Absent path classes n ns cs (some c) e f a x m = ground (
    arith,
    a x,
    str_eq→eq x c.name,
    launch-name site path classes n c e,
    mem-append x cs (c ∷ []),
  )

  start_all-NoRepeat :
      (path : Str) (classes : Dict Class) (ns : List Str) (cs ds : List (Child Instance))
      → start_all site path classes ns cs ≡ ok ds
      → NoRepeat ns
      → NoRepeat (child_names cs)
      → Absent ns cs
      → NoRepeat (child_names ds)
  unfolding start_all
  start_all-NoRepeat path classes [] cs ds e u h a = ground arith
  start_all-NoRepeat path classes (n ∷ ns) cs ds e u h a =
      elim (Result-cases (launch site path classes n)) [
        | inr (z, q) ↦ ground arith
        | inl (child, q) ↦
            start_all-NoRepeat path classes ns (append_child site cs child) ds (ground arith) u.1
              (append_child-NoRepeat path classes n cs child q h
                (a n (ground (arith, str_eq_refl n))))
              (append_child-Absent path classes n ns cs child q u.0 a)
      ]

  -- If no two processes have the same name before a round that raises nothing, none have after it.
  pub round-NoRepeat :
      (config : ServerConfig) (found : List Class) (active after : List (Child Instance))
      → round site config found active ≡ ok after
      → NoRepeat (child_names active)
      → NoRepeat (child_names after)
  unfolding round
  round-NoRepeat config found active after e h =
      let running = to_set (child_names active) in
      let wanted = to_set config.collectors in
      let surplus = difference running wanted in
      let missing = difference wanted running in
      start_all-NoRepeat config.config_path (collector_classes site found []) missing
        (stop_all surplus active) after e
        (difference-NoRepeat wanted running (to_set-NoRepeat config.collectors))
        (stop_all-NoRepeat surplus active h)
        (λ x m. ground (
          arith,
          mem-stop_all x surplus active,
          mem-difference x wanted running,
          mem-to_set x (child_names active),
        ))
