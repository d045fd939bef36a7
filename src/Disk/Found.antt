-- ===== src/Disk/Found.antt =====
-- About the file systems that are found in /proc/mounts.
use fullerite.Base.{
  true, false, ◌||◌, Option, some, List, [], ◌∷◌, ◌++◌, All, All-append, ◌≡◌, refl, ap, sym, ◌∙◌,
  inl, inr, arith, Bool-cases, Option-cases,
}
use mathlib.Core.Path.{subst}
use mathlib.Core.Option.{some-injective}
use fullerite.Base.Text.{Str, codes, str_mem, starts_with, words}
use fullerite.Disk.{
  Device, FileSystem, System, has_device, is_wanted, mount_of, add_device, add_mount, read_mounts,
  get_file_systems,
}

-- No device stands twice.
abbrev pub Distinct : List (Device × FileSystem) → Type 0
Distinct [] = Unit
Distinct ((d, f) ∷ found) = (has_device d found ≡ false) × Distinct found

module _ (y : System) (exclude : Str) (types : List Str) where
  -- An entry's mount point is absolute, on the device of the entry, not excluded, and not one of
  -- the kernel's own; its type is one of those wanted.
  pub record Sound (e : Device × FileSystem) : Type 0 where
    pub wanted_type : str_mem e.1.fs_type types ≡ true
    pub not_excluded : System.search y exclude e.1.mount_point ≡ false
    pub not_dev : starts_with e.1.mount_point (codes "/dev") ≡ false
    pub not_proc : starts_with e.1.mount_point (codes "/proc") ≡ false
    pub not_sys : starts_with e.1.mount_point (codes "/sys") ≡ false
    pub absolute : starts_with e.1.mount_point (codes "/") ≡ true
    pub its_device : System.stat y e.1.mount_point ≡ some e.0

  wanted-Sound :
      (f : FileSystem) (d : Device)
      → is_wanted y exclude types f ≡ true
      → System.stat y f.mount_point ≡ some d
      → Sound (d, record f { device = System.realpath y f.device })
  unfolding is_wanted
  wanted-Sound f d h e = record {
    wanted_type = ground arith;
    not_excluded = ground arith;
    not_dev = ground arith;
    not_proc = ground arith;
    not_sys = ground arith;
    absolute = ground arith;
    its_device = e;
  }

  has_device-append :
      (d : Device) (xs ys : List (Device × FileSystem))
      → has_device d (xs ++ ys) ≡ (has_device d xs || has_device d ys)
  has_device-append d [] ys = refl
  has_device-append d ((e, f) ∷ xs) ys = ground (arith, has_device-append d xs ys)

  Distinct-append :
      (d : Device) (f : FileSystem) (xs : List (Device × FileSystem))
      → Distinct xs
      → has_device d xs ≡ false
      → Distinct (xs ++ (d, f) ∷ [])
  Distinct-append d f [] h n = (refl, tt)
  Distinct-append d f ((e, g) ∷ xs) (n, h) m =
      (has_device-append e xs ((d, f) ∷ []) ∙ ground arith, Distinct-append d f xs h (ground arith))

  abbrev pub IsFound : List (Device × FileSystem) → Type 0
  IsFound found = All Sound found × Distinct found

  -- What one file system on a known device adds.
  record Step (d : Device) (found next : List (Device × FileSystem)) : Type 0 where
    still : IsFound next
    keeps : (e : Device) → has_device e found ≡ true → has_device e next ≡ true
    has : has_device d next ≡ true

  add_device-Step :
      (f : FileSystem) (d : Device) (found : List (Device × FileSystem))
      → is_wanted y exclude types f ≡ true
      → System.stat y f.mount_point ≡ some d
      → IsFound found
      → Step d found (add_device y f (some d) found)
  unfolding add_device
  add_device-Step f d found h e (sound, distinct) = elim (Bool-cases (has_device d found)) [
    | inl there ↦ rw there (record { still = (sound, distinct); keeps = λ e k. k; has = there })
    | inr missing ↦
        let entry : Device × FileSystem = (d, record f { device = System.realpath y f.device }) in
        rw missing (record {
          still = (
            All-append Sound found (entry ∷ []) sound (wanted-Sound f d h e, tt),
            Distinct-append d (entry.1) found distinct missing,
          );
          keeps = λ e k. has_device-append e found (entry ∷ []) ∙ ground arith;
          has = has_device-append d found (entry ∷ []) ∙ ground arith;
        })
  ]

  -- the device of a line that is wanted and mounted
  abbrev pub IsDevice : Str → Device → Type 0
  unfolding is_wanted
  IsDevice l d =
      (f : FileSystem) × (mount_of (words l) ≡ some f)
      × (is_wanted y exclude types f ≡ true)
      × (System.stat y f.mount_point ≡ some d)

  record StepOf (l : Str) (found next : List (Device × FileSystem)) : Type 0 where
    still : IsFound next
    keeps : (e : Device) → has_device e found ≡ true → has_device e next ≡ true
    covers : (d : Device) → IsDevice l d → has_device d next ≡ true

  -- A line that adds nothing.
  same-StepOf :
      (l : Str) (found next : List (Device × FileSystem))
      → next ≡ found
      → ((d : Device) → IsDevice l d → ⊥)
      → IsFound found
      → StepOf l found next
  unfolding IsDevice
  same-StepOf l found next e idle h =
      subst (StepOf l found) (sym e)
        (record { still = h; keeps = λ d k. k; covers = λ d i. absurd (idle d i) })

  -- A line whose file system passes the tests, on a known device.
  mounted-StepOf :
      (l : Str) (f : FileSystem) (d : Device) (found : List (Device × FileSystem))
      → mount_of (words l) ≡ some f
      → is_wanted y exclude types f ≡ true
      → System.stat y f.mount_point ≡ some d
      → IsFound found
      → StepOf l found (add_device y f (some d) found)
  unfolding IsDevice
  mounted-StepOf l f d found m w e h =
      let step = add_device-Step f d found w e h in
      record {
        still = step.still;
        keeps = step.keeps;
        covers = λ d' i.
            let (f', m', w', e') = i in
            let same_f : f' ≡ f = some-injective _ _ (sym m' ∙ m) in
            let same_d : d' ≡ d =
              some-injective _ _
                (sym e' ∙ ap (λ (g : FileSystem). System.stat y g.mount_point) same_f ∙ e) in
            subst (λ k. has_device k (add_device y f (some d) found) ≡ true) (sym same_d) step.has;
      }

  add_mount-StepOf :
      (l : Str) (found : List (Device × FileSystem))
      → IsFound found
      → StepOf l found (add_mount y exclude types (mount_of (words l)) found)
  unfolding add_mount IsDevice add_device
  add_mount-StepOf l found h = elim (Option-cases (mount_of (words l))) [
    | inl m ↦ same-StepOf l found _ (rw m refl) (λ d i. let (f, m', w, e) = i in cc) h
    | inr (f, m) ↦ elim (Bool-cases (is_wanted y exclude types f)) [
      | inr w ↦
          same-StepOf l found _ (rw (m, w) refl)
            (λ d i.
              let (f', m', w', e') = i in
              let same : f' ≡ f = some-injective _ _ (sym m' ∙ m) in
              let there = sym w' ∙ ap (is_wanted y exclude types) same ∙ w in cc)
            h
      | inl w ↦ elim (Option-cases (System.stat y f.mount_point)) [
        | inl e ↦
            same-StepOf l found _ (rw (m, w, e) refl)
              (λ d i.
                let (f', m', w', e') = i in
                let same : f' ≡ f = some-injective _ _ (sym m' ∙ m) in
                let there =
                  sym e' ∙ ap (λ (g : FileSystem). System.stat y g.mount_point) same ∙ e in
                cc)
              h
        | inr (d, e) ↦
            subst (StepOf l found) (rw (m, w, e) refl) (mounted-StepOf l f d found m w e h)
      ]
    ]
  ]

  -- The loop over the lines, from file systems found before.
  read_mounts-IsFound :
      (lines : List Str) (found : List (Device × FileSystem))
      → IsFound found
      → IsFound (read_mounts y exclude types lines found)
        × All
            (λ l.
              (d : Device)
              → IsDevice l d
              → has_device d (read_mounts y exclude types lines found) ≡ true)
            lines
        × ((d : Device)
            → has_device d found ≡ true
            → has_device d (read_mounts y exclude types lines found) ≡ true)
  unfolding read_mounts
  read_mounts-IsFound [] found h = (h, tt, λ d k. k)
  read_mounts-IsFound (l ∷ ls) found h =
      let step = add_mount-StepOf l found h in
      let (all, covered, kept) = read_mounts-IsFound ls _ step.still in
      (all, ((λ d i. kept d (step.covers d i)), covered), λ d k. kept d (step.keeps d k))

  -- From the lines of /proc/mounts a list of file systems is made in which no device stands twice,
  -- each has a wanted type and an absolute mount point that is on its device, is not excluded and
  -- is not below /dev, /proc or /sys, and which has the device of every line that passes the tests
  -- and can be looked up.
  pub get_file_systems-IsFound :
      (lines : List Str) (partitions : Option (List FileSystem))
      → (found : List (Device × FileSystem)) × (get_file_systems y exclude types
            (some lines)
            partitions
          ≡ some found)
        × IsFound found
        × All (λ l. (d : Device) → IsDevice l d → has_device d found ≡ true) lines
  unfolding get_file_systems
  get_file_systems-IsFound lines partitions =
      let (h, covered, kept) = read_mounts-IsFound lines [] (tt, tt) in (_, refl, h, covered)
