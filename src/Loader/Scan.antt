-- ===== src/Loader/Scan.antt =====
-- The classes that `load_collectors` of src/diamond/utils/classes.py returns, and what it logs.
use mathlib.Core.Path.{subst, sym}
use fullerite.Base.{
  ◌≡◌, refl, Bool-cases, inl, inr, true, ◌&&◌, not, Option-cases, some, List, [], ◌∷◌, All,
  All-append,
}
use fullerite.Base.Text.{Str, codes, str_eq, str_eq→eq, starts_with, Lacks, join}
use fullerite.Base.Dict.{insert, update}
use fullerite.Base.Result.{Result, ok, err}
use fullerite.Base.Exec.{Exec, pure, ◌>>=◌}
use fullerite.Loader.Classes.{
  Class, class_name, collector_class, Object, class_object, other_object, Module, Import, module_of,
  fails, interrupted, exits, load_dynamic_class,
}
use fullerite.Loader.{
  Entry, Entries, file, directory, other, end, entry, Failure, module_failed, module_interrupted,
  class_failed, Log, Found, module_name, join_path, is_source, is_skipped, is_collector, add_class,
  load_attribute, load_attributes, load_module, load_file, load_entry, load_entries, Root,
  load_collectors,
}
use fullerite.Loader.Dynamic.{IsCollector, load_dynamic_class_lem, load_dynamic_class-IsCollector}

-- Each class is a collector and stands under its own name.
abbrev pub Collectors : Found → Type 0
Collectors = All (λ (k, c). (k ≡ class_name c) × IsCollector c)

-- No class failed to load.
abbrev pub Loaded : Failure → Type 0
Loaded (module_failed m) = Unit
Loaded (module_interrupted m) = Unit
Loaded (class_failed c) = ⊥

abbrev pub Outcome : Result Found × Log → Type 0
Outcome (ok found, log) = Collectors found × All Loaded log
Outcome (err e, log) = All Loaded log

insert-Collectors :
    (c : Class) (d : Found) → IsCollector c → Collectors d → Collectors (insert (class_name c) c d)
unfolding insert
insert-Collectors c [] p h = ((refl, p), tt)
insert-Collectors c ((j, b) ∷ d) p h = elim (Bool-cases (str_eq j (class_name c))) [
  | inl e ↦ rw e ((str_eq→eq j (class_name c) e, p), h.1)
  | inr e ↦ rw e (h.0, insert-Collectors c d p h.1)
]

update-Collectors : (d e : Found) → Collectors d → Collectors e → Collectors (update d e)
unfolding update
update-Collectors d [] h k = h
update-Collectors d ((j, c) ∷ e) h k =
    let (name, p) = k.0 in
    update-Collectors (insert j c d) e
      (subst (λ i. Collectors (insert i c d)) (sym name) (insert-Collectors c d p h)) k.1

-- An action followed by another.
bind-Outcome :
    (m : Exec Log Found) (f : Found → Exec Log Found) (log : Log)
    → Outcome (m log)
    → ((d : Found) (l : Log) → Collectors d → All Loaded l → Outcome (f d l))
    → Outcome ((m >>= f) log)
bind-Outcome m f log h k = after (m log) h
  where
    after :
        (p : Result Found × Log)
        → Outcome p
        → Outcome (elim p.0 [ ok a ↦ f a p.1 | err e ↦ (err e, p.1) ])
    after (ok a, l) q = k a l q.0 q.1
    after (err e, l) q = q

module _ (import' : Str → Import) where
  -- The attributes of the module whose names are tried have no dots.
  module _ (modname : Str) (m : Module) (imports : import' modname ≡ module_of m) where
    load_attribute-Outcome :
        (a : Str) (o : Object) (d : Found) (log : Log)
        → Lacks b'.' a
        → m.attribute a ≡ some o
        → Collectors d
        → All Loaded log
        → Outcome (load_attribute import' modname a o d log)
    unfolding load_attribute is_collector add_class
    load_attribute-Outcome a other_object d log n e h k = (h, k)
    load_attribute-Outcome a (class_object c) d log n e h k =
        let fqcn = join b'.' (modname ∷ a ∷ []) in
        elim (Bool-cases (is_collector (class_object c) && not (starts_with a (codes "parent_")))) [
          | inr skipped ↦ rw skipped (h, k)
          | inl tried ↦
              let loaded : load_dynamic_class import' fqcn collector_class ≡ ok c =
                load_dynamic_class_lem import' modname a m c n imports e tried in
              rw (tried, loaded)
                (insert-Collectors c d (load_dynamic_class-IsCollector import' fqcn c loaded) h, k)
        ]

    load_attributes-Outcome :
        (as' : List Str) (d : Found) (log : Log)
        → All (Lacks b'.') as'
        → Collectors d
        → All Loaded log
        → Outcome (load_attributes import' modname m as' d log)
    unfolding load_attributes
    load_attributes-Outcome [] d log n h k = (h, k)
    load_attributes-Outcome (a ∷ as') d log n h k = elim (Option-cases (m.attribute a)) [
      | inl missing ↦ rw missing k
      | inr (o, e) ↦ rw e (
          bind-Outcome (load_attribute import' modname a o d)
            (load_attributes import' modname m as') log (load_attribute-Outcome a o d log n.0 e h k)
            (λ d' l. load_attributes-Outcome as' d' l n.1))
    ]

  load_module-Outcome :
      (modname : Str) (i : Import) (d : Found) (log : Log)
      → import' modname ≡ i
      → ((m : Module) → i ≡ module_of m → All (Lacks b'.') m.names)
      → Collectors d
      → All Loaded log
      → Outcome (load_module import' modname i d log)
  unfolding load_module
  load_module-Outcome modname (module_of m) d log e n h k =
      load_attributes-Outcome modname m e m.names d log (n m refl) h k
  load_module-Outcome modname fails d log e n h k =
      (h, All-append Loaded log (module_failed modname ∷ []) k (tt, tt))
  load_module-Outcome modname interrupted d log e n h k =
      All-append Loaded log (module_interrupted modname ∷ []) k (tt, tt)
  load_module-Outcome modname exits d log e n h k =
      All-append Loaded log (module_interrupted modname ∷ []) k (tt, tt)

  -- No module that is a source file has an attribute with a dot in its name.
  abbrev pub Undotted : Type 0
  Undotted =
      (f : Str) (m : Module)
      → is_source f ≡ true
      → import' (module_name f) ≡ module_of m
      → All (Lacks b'.') m.names

  module _ (undotted : Undotted) where
    load_file-Outcome :
        (f : Str) (d : Found) (log : Log)
        → Collectors d
        → All Loaded log
        → Outcome (load_file import' f d log)
    unfolding load_file
    load_file-Outcome f d log h k = elim (Bool-cases (is_source f)) [
      | inr skipped ↦ rw skipped (h, k)
      | inl read ↦ rw read (
          load_module-Outcome (module_name f) (import' (module_name f)) d log refl
            (λ m. undotted f m read) h k)
    ]

    mutual
      unfolding load_entry

      load_entry-Outcome :
          (e : Entry) (path : Str) (d : Found) (log : Log)
          → Collectors d
          → All Loaded log
          → Outcome (load_entry import' path e d log)
      load_entry-Outcome (file f) path d log h k = load_file-Outcome f d log h k
      load_entry-Outcome (other f) path d log h k = (h, k)
      load_entry-Outcome (directory f es) path d log h k =
          let inner = join_path path f in
          elim (Bool-cases (is_skipped inner)) [
            | inl skip ↦ rw skip (update-Collectors d [] h tt, k)
            | inr kept ↦ rw kept (
                bind-Outcome (load_entries import' inner es []) (λ sub. pure (update d sub)) log
                  (load_entries-Outcome es inner [] log tt k)
                  (λ sub l q r. (update-Collectors d sub h q, r)))
          ]

      load_entries-Outcome :
          (es : Entries) (path : Str) (d : Found) (log : Log)
          → Collectors d
          → All Loaded log
          → Outcome (load_entries import' path es d log)
      load_entries-Outcome end path d log h k = (h, k)
      load_entries-Outcome (entry e es) path d log h k =
          bind-Outcome (load_entry import' path e d) (λ d'. load_entries import' path es d') log
            (load_entry-Outcome e path d log h k) (λ d' l. load_entries-Outcome es path d' l)

    -- Let no attribute of a module that is a source file have a dot in its name. If the dict given
    -- has only classes that stand under their own names, are derived from `Collector` by a chain
    -- of base classes, and are not `Collector`, and the log given tells of no class that failed to
    -- load, then so do the dict that `load_collectors` returns and the log after it, and the log
    -- also where it raises.
    pub load_collectors-Outcome :
        (rs : List Root) (d : Found) (log : Log)
        → Collectors d
        → All Loaded log
        → Outcome (load_collectors import' rs d log)
    unfolding load_collectors
    load_collectors-Outcome [] d log h k = (h, k)
    load_collectors-Outcome (r ∷ rs) d log h k = elim (Option-cases r.listing) [
      | inl missing ↦ rw missing k
      | inr (es, found) ↦ elim (Bool-cases (is_skipped r.path)) [
        | inl skip ↦ rw (found, skip) (h, k)
        | inr kept ↦
            rw (found, kept)
              (bind-Outcome (load_entries import' r.path es d) (λ d'. load_collectors import' rs d')
                log (load_entries-Outcome es r.path d log h k)
                (λ d' l. load_collectors-Outcome rs d' l))
      ]
    ]
