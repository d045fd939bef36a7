-- ===== src/Loader/Complete.antt =====
-- `load_collectors` of src/diamond/utils/classes.py finds every collector that is there.
use fullerite.Base.{
  ◌≡◌, ◌⊎◌, inl, inr, Bool-cases, true, false, ◌&&◌, not, Option-cases, some, List, [], ◌∷◌, arith,
  ◌∙◌,
}
use mathlib.Core.Path.{sym, ap}
use fullerite.Base.Text.{Str, codes, str_eq, str_eq→eq, str_mem, starts_with, Lacks}
use fullerite.Base.Dict.{update}
use fullerite.Base.Result.{Result}
use fullerite.Base.Exec.{pure}
use fullerite.Loader.Classes.{Class, class_name, class_object, Module, Import, module_of}
use fullerite.Loader.{
  Entry, Entries, file, directory, other, end, entry, Log, Found, module_name, join_path, is_source,
  is_skipped, is_collector, add_class, load_attribute, load_attributes, load_module, load_file,
  load_entry, load_entries, Root, load_collectors,
}
use fullerite.Loader.Dynamic.{IsCollector, IsCollector→is_collector, load_dynamic_class_lem}
use fullerite.Loader.Finds.{
  Post, Anything, anything, bind-Post, Has, insert_same-Has, update_right-Has, load_attributes-Has,
  load_entries-Has, load_collectors-Has,
}

-- A file stands in a directory or below it, and no directory on the way is skipped.
abbrev mutual
  pub InEntry : Str → Str → Entry → Type 0
  InEntry f path (file g) = f ≡ g
  InEntry f path (other g) = ⊥
  InEntry f path (directory g es) =
      (is_skipped (join_path path g) ≡ false) × InEntries f (join_path path g) es

  pub InEntries : Str → Str → Entries → Type 0
  InEntries f path end = ⊥
  InEntries f path (entry e es) = InEntry f path e ⊎ InEntries f path es

-- A file stands below one of the paths, and none of the paths up to that one is skipped.
abbrev pub Below : Str → List Root → Type 0
Below f [] = ⊥
Below f (r ∷ rs) =
    (is_skipped r.path ≡ false)
    × (((es : Entries) × (r.listing ≡ some es) × InEntries f r.path es) ⊎ Below f rs)

-- The class is a collector, and the value of an attribute of the module that the file's import
-- gives; the attribute's name has no dot and does not begin with `parent_`.
pub record Defines (import' : Str → Import) (f a : Str) (m : Module) (c : Class) : Type 0 where
  pub source : is_source f ≡ true
  pub imports : import' (module_name f) ≡ module_of m
  pub listed : str_mem a m.names ≡ true
  pub value : m.attribute a ≡ some (class_object c)
  pub collector : IsCollector c
  pub undotted : Lacks b'.' a
  pub no_parent : starts_with a (codes "parent_") ≡ false

module _ (import' : Str → Import) (f a : Str) (m : Module) (c : Class)
    (defines : Defines import' f a m c) where
  abbrev Finds : Result Found × Log → Type 0
  Finds = Post (Has (class_name c))

  load_attribute-Finds :
      (d : Found) (log : Log)
      → Finds (load_attribute import' (module_name f) a (class_object c) d log)
  unfolding load_attribute add_class
  load_attribute-Finds d log =
      let tried : (is_collector (class_object c) && not (starts_with a (codes "parent_"))) ≡ true =
        ground (arith, IsCollector→is_collector c defines.collector, defines.no_parent) in
      let loaded =
        load_dynamic_class_lem import' (module_name f) a m c defines.undotted defines.imports
          defines.value tried in
      rw (tried, loaded) (insert_same-Has (class_name c) c d)

  load_attributes-Finds :
      (as' : List Str) (d : Found) (log : Log)
      → str_mem a as' ≡ true
      → Finds (load_attributes import' (module_name f) m as' d log)
  unfolding load_attributes
  load_attributes-Finds [] d log h = cc
  load_attributes-Finds (b ∷ as') d log h = elim (Option-cases (m.attribute b)) [
    | inl missing ↦ rw missing tt
    | inr (o, e) ↦ rw e (elim (Bool-cases (str_eq a b)) [
      | inl same ↦
          let name = str_eq→eq a b same in
          let value : o ≡ class_object c =
            (let both = sym e ∙ ap m.attribute (sym name) ∙ defines.value in cc) in
          bind-Post (Has (class_name c)) (Has (class_name c))
            (load_attribute import' (module_name f) b o d)
            (load_attributes import' (module_name f) m as') log
            (rw (← name, value) (load_attribute-Finds d log))
            (λ d' l. load_attributes-Has (class_name c) import' (module_name f) m as' d' l)
      | inr differs ↦
          bind-Post Anything (Has (class_name c)) (load_attribute import' (module_name f) b o d)
            (load_attributes import' (module_name f) m as') log
            (anything (load_attribute import' (module_name f) b o d log))
            (λ d' l q. load_attributes-Finds as' d' l (ground arith))
    ])
  ]

  load_file-Finds : (d : Found) (log : Log) → Finds (load_file import' f d log)
  unfolding load_file load_module
  load_file-Finds d log =
      rw (defines.source, defines.imports) (load_attributes-Finds m.names d log defines.listed)

  mutual
    unfolding load_entry

    load_entry-Finds :
        (e : Entry) (path : Str) (d : Found) (log : Log)
        → InEntry f path e
        → Finds (load_entry import' path e d log)
    load_entry-Finds (file g) path d log h = rw (← h) (load_file-Finds d log)
    load_entry-Finds (other g) path d log h = absurd h
    load_entry-Finds (directory g es) path d log h =
        let inner = join_path path g in
        rw h.0 (
          bind-Post (Has (class_name c)) (Has (class_name c)) (load_entries import' inner es [])
            (λ sub. pure (update d sub)) log (load_entries-Finds es inner [] log h.1)
            (λ sub l q. update_right-Has (class_name c) d sub q))

    load_entries-Finds :
        (es : Entries) (path : Str) (d : Found) (log : Log)
        → InEntries f path es
        → Finds (load_entries import' path es d log)
    load_entries-Finds end path d log h = absurd h
    load_entries-Finds (entry e es) path d log (inl h) =
        bind-Post (Has (class_name c)) (Has (class_name c)) (load_entry import' path e d)
          (λ d'. load_entries import' path es d') log (load_entry-Finds e path d log h)
          (λ d' l. load_entries-Has (class_name c) import' es path d' l)
    load_entries-Finds (entry e es) path d log (inr h) =
        bind-Post Anything (Has (class_name c)) (load_entry import' path e d)
          (λ d'. load_entries import' path es d') log (anything (load_entry import' path e d log))
          (λ d' l q. load_entries-Finds es path d' l h)

  -- Let a source file stand below one of the paths, with no directory on the way, nor a path up to
  -- that one, skipped; and let the file's module have an attribute, whose name has no dot and does
  -- not begin with `parent_`, that is a class derived from `Collector` by a chain of base classes,
  -- and not `Collector`. Then if `load_collectors` returns, the dict has the class's name as a
  -- key.
  pub load_collectors-Finds :
      (rs : List Root) (d : Found) (log : Log)
      → Below f rs
      → Finds (load_collectors import' rs d log)
  unfolding load_collectors
  load_collectors-Finds [] d log h = absurd h
  load_collectors-Finds (r ∷ rs) d log (kept, inl (es, found, h)) =
      rw (found, kept)
        (bind-Post (Has (class_name c)) (Has (class_name c)) (load_entries import' r.path es d)
          (λ d'. load_collectors import' rs d') log (load_entries-Finds es r.path d log h)
          (λ d' l. load_collectors-Has (class_name c) import' rs d' l))
  load_collectors-Finds (r ∷ rs) d log (kept, inr h) = elim (Option-cases r.listing) [
    | inl missing ↦ rw missing tt
    | inr (es, found) ↦
        rw (found, kept)
          (bind-Post Anything (Has (class_name c)) (load_entries import' r.path es d)
            (λ d'. load_collectors import' rs d') log
            (anything (load_entries import' r.path es d log))
            (λ d' l q. load_collectors-Finds rs d' l h))
  ]
