-- ===== src/Loader/Finds.antt =====
-- What `load_collectors` of src/diamond/utils/classes.py has found stays found.
use fullerite.Base.{◌≡◌, inl, inr, Bool-cases, true, ◌&&◌, not, Option-cases, List, [], ◌∷◌, arith}
use fullerite.Base.Text.{Str, codes, str_eq, str_eq_refl, starts_with, join}
use fullerite.Base.Dict.{lookup, insert, update, has_key, lookup-insert}
use fullerite.Base.Result.{Result, ok, err}
use fullerite.Base.Exec.{Exec, pure, ◌>>=◌}
use fullerite.Loader.Classes.{
  Class, class_name, collector_class, Object, Module, Import, module_of, fails, interrupted, exits,
  load_dynamic_class,
}
use fullerite.Loader.{
  Entry, Entries, file, directory, other, end, entry, Log, Found, module_name, join_path, is_source,
  is_skipped, is_collector, add_class, load_attribute, load_attributes, load_module, load_file,
  load_entry, load_entries, Root, load_collectors,
}

-- What holds of the dict that an action returns, if it returns one.
abbrev pub Post : (Found → Type 0) → Result Found × Log → Type 0
Post P (ok d, log) = P d
Post P (err e, log) = Unit

abbrev pub Anything : Found → Type 0
Anything d = Unit

pub anything : (p : Result Found × Log) → Post Anything p
anything (ok d, log) = tt
anything (err e, log) = tt

pub bind-Post :
    (P Q : Found → Type 0) (m : Exec Log Found) (f : Found → Exec Log Found) (log : Log)
    → Post P (m log)
    → ((d : Found) (l : Log) → P d → Post Q (f d l))
    → Post Q ((m >>= f) log)
bind-Post P Q m f log h k = after (m log) h
  where
    after :
        (p : Result Found × Log)
        → Post P p
        → Post Q (elim p.0 [ ok a ↦ f a p.1 | err e ↦ (err e, p.1) ])
    after (ok a, l) q = k a l q
    after (err e, l) q = tt

module _ (k : Str) where
  abbrev pub Has : Found → Type 0
  Has d = has_key k d ≡ true

  insert-Has : (j : Str) (c : Class) (d : Found) → Has d → Has (insert j c d)
  unfolding has_key
  insert-Has j c d h = ground (arith, lookup-insert j k c d)

  pub insert_same-Has : (c : Class) (d : Found) → Has (insert k c d)
  unfolding has_key
  insert_same-Has c d = ground (arith, lookup-insert k k c d, str_eq_refl k)

  update-Has : (d e : Found) → Has d → Has (update d e)
  unfolding update
  update-Has d [] h = h
  update-Has d ((j, c) ∷ e) h = update-Has (insert j c d) e (insert-Has j c d h)

  pub update_right-Has : (d e : Found) → Has e → Has (update d e)
  unfolding update has_key lookup
  update_right-Has d [] h = cc
  update_right-Has d ((j, c) ∷ e) h = elim (Bool-cases (str_eq j k)) [
    | inl same ↦ update-Has (insert j c d) e (ground (arith, lookup-insert j k c d))
    | inr differs ↦ update_right-Has (insert j c d) e (ground arith)
  ]

  module _ (import' : Str → Import) where
    add_class-Has :
        (fqcn : Str) (r : Result Class) (d : Found) (log : Log)
        → Has d
        → Post Has (add_class fqcn d r log)
    unfolding add_class
    add_class-Has fqcn (ok c) d log h = insert-Has (class_name c) c d h
    add_class-Has fqcn (err e) d log h = ground arith

    load_attribute-Has :
        (modname a : Str) (o : Object) (d : Found) (log : Log)
        → Has d
        → Post Has (load_attribute import' modname a o d log)
    unfolding load_attribute
    load_attribute-Has modname a o d log h =
        let fqcn = join b'.' (modname ∷ a ∷ []) in
        elim (Bool-cases (is_collector o && not (starts_with a (codes "parent_")))) [
          | inr skipped ↦ rw skipped h
          | inl tried ↦
              rw tried
                (add_class-Has fqcn (load_dynamic_class import' fqcn collector_class) d log h)
        ]

    pub load_attributes-Has :
        (modname : Str) (m : Module) (as' : List Str) (d : Found) (log : Log)
        → Has d
        → Post Has (load_attributes import' modname m as' d log)
    unfolding load_attributes
    load_attributes-Has modname m [] d log h = h
    load_attributes-Has modname m (a ∷ as') d log h = elim (Option-cases (m.attribute a)) [
      | inl missing ↦ rw missing tt
      | inr (o, e) ↦ rw e (
          bind-Post Has Has (load_attribute import' modname a o d)
            (load_attributes import' modname m as') log (load_attribute-Has modname a o d log h)
            (λ d' l. load_attributes-Has modname m as' d' l))
    ]

    pub load_file-Has :
        (f : Str) (d : Found) (log : Log) → Has d → Post Has (load_file import' f d log)
    unfolding load_file load_module
    load_file-Has f d log h = elim (Bool-cases (is_source f)) [
      | inr skipped ↦ rw skipped h
      | inl read ↦ rw read (import-Has (import' (module_name f)))
    ]
      where
        import-Has : (i : Import) → Post Has (load_module import' (module_name f) i d log)
        import-Has (module_of m) = load_attributes-Has (module_name f) m m.names d log h
        import-Has fails = h
        import-Has interrupted = tt
        import-Has exits = tt

    mutual
      unfolding load_entry

      pub load_entry-Has :
          (e : Entry) (path : Str) (d : Found) (log : Log)
          → Has d
          → Post Has (load_entry import' path e d log)
      load_entry-Has (file f) path d log h = load_file-Has f d log h
      load_entry-Has (other f) path d log h = h
      load_entry-Has (directory f es) path d log h =
          let inner = join_path path f in
          elim (Bool-cases (is_skipped inner)) [
            | inl skip ↦ rw skip (update-Has d [] h)
            | inr kept ↦ rw kept (
                bind-Post Anything Has (load_entries import' inner es [])
                  (λ sub. pure (update d sub)) log (anything (load_entries import' inner es [] log))
                  (λ sub l q. update-Has d sub h))
          ]

      pub load_entries-Has :
          (es : Entries) (path : Str) (d : Found) (log : Log)
          → Has d
          → Post Has (load_entries import' path es d log)
      load_entries-Has end path d log h = h
      load_entries-Has (entry e es) path d log h =
          bind-Post Has Has (load_entry import' path e d) (λ d'. load_entries import' path es d')
            log (load_entry-Has e path d log h) (λ d' l. load_entries-Has es path d' l)

    pub load_collectors-Has :
        (rs : List Root) (d : Found) (log : Log)
        → Has d
        → Post Has (load_collectors import' rs d log)
    unfolding load_collectors
    load_collectors-Has [] d log h = h
    load_collectors-Has (r ∷ rs) d log h = elim (Option-cases r.listing) [
      | inl missing ↦ rw missing tt
      | inr (es, found) ↦ elim (Bool-cases (is_skipped r.path)) [
        | inl skip ↦ rw (found, skip) h
        | inr kept ↦
            rw (found, kept)
              (bind-Post Has Has (load_entries import' r.path es d)
                (λ d'. load_collectors import' rs d') log (load_entries-Has es r.path d log h)
                (λ d' l. load_collectors-Has rs d' l))
      ]
    ]
