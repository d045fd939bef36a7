-- ===== src/Loader/Dynamic.antt =====
-- What `load_dynamic_class` of src/diamond/utils/classes.py returns, and that it finds a class.
use fullerite.Base.{
  ℕ, ◌≡◌, refl, ◌∙◌, ap, ◌≢◌, Bool-cases, inl, inr, true, ◌&&◌, not, some, List, [], ◌∷◌, ◌++◌,
  arith,
}
use fullerite.Base.Text.{
  Str, codes, starts_with, Lacks, split, join, split_cons, split-Lacks, join-split,
}
use fullerite.Base.Result.{Result-cases, ok}
use fullerite.Loader.Classes.{
  Class, Classes, class, no_base, base, identity, issubclass, any_subclass, collector_class,
  class_object, Module, Import, module_of, split_last, load_class_from_name, load_dynamic_class,
}
use fullerite.Loader.{is_collector}

-- A chain of base classes leads from a class to another one.
mutual
  pub data Derived : Class → Class → Type 0 where
    itself : {c d : Class} → identity c ≡ identity d → Derived c d
    by_base :
        {i : ℕ} {n : Str} {bs : Classes} {d : Class} → SomeDerived bs d → Derived (class i n bs) d

  pub data SomeDerived : Classes → Class → Type 0 where
    here : {b : Class} {bs : Classes} {d : Class} → Derived b d → SomeDerived (base b bs) d
    there : {b : Class} {bs : Classes} {d : Class} → SomeDerived bs d → SomeDerived (base b bs) d

mutual
  unfolding issubclass

  issubclass→Derived : (c d : Class) → issubclass c d ≡ true → Derived c d
  issubclass→Derived (class i n bs) d h = elim (Bool-cases (any_subclass bs d)) [
    | inl e ↦ by_base (any_subclass→SomeDerived bs d e)
    | inr e ↦ itself (ground arith)
  ]

  any_subclass→SomeDerived :
      (bs : Classes) (d : Class) → any_subclass bs d ≡ true → SomeDerived bs d
  any_subclass→SomeDerived no_base d h = cc
  any_subclass→SomeDerived (base b bs) d h = elim (Bool-cases (issubclass b d)) [
    | inl e ↦ here (issubclass→Derived b d e)
    | inr e ↦ there (any_subclass→SomeDerived bs d (ground arith))
  ]

-- A collector: a class derived from `Collector`, and another one.
pub record IsCollector (c : Class) : Type 0 where
  pub derived : Derived c collector_class
  pub proper : identity c ≢ identity collector_class

mutual
  unfolding issubclass

  Derived→issubclass : {c d : Class} → Derived c d → issubclass c d ≡ true
  Derived→issubclass {c = class i n bs} (itself e) = ground arith
  Derived→issubclass (by_base s) = ground (arith, SomeDerived→any_subclass s)

  SomeDerived→any_subclass :
      {bs : Classes} {d : Class} → SomeDerived bs d → any_subclass bs d ≡ true
  SomeDerived→any_subclass (here h) = ground (arith, Derived→issubclass h)
  SomeDerived→any_subclass (there h) = ground (arith, SomeDerived→any_subclass h)

pub IsCollector→is_collector : (c : Class) → IsCollector c → is_collector (class_object c) ≡ true
unfolding issubclass is_collector
IsCollector→is_collector (class i n bs) h =
    let p = h.proper in let q = Derived→issubclass h.derived in ground arith

split-append-split : (d : ℕ) (s t : Str) → split d (s ++ d ∷ t) ≡ split d s ++ split d t
unfolding split
split-append-split d [] t = ground arith
split-append-split d (c ∷ s) t =
    let (p, ps, e) = split_cons d s in ground (arith, split-append-split d s t, e)

split_last-append : (xs : List Str) (s : Str) → split_last (xs ++ s ∷ []) ≡ (xs, s)
split_last-append [] s = refl
split_last-append (x ∷ []) s = refl
split_last-append (x ∷ y ∷ ys) s = rw (split_last-append (y ∷ ys) s)

-- The module and the attribute are read back from the class's full name.
split_last-join :
    (m a : Str)
    → Lacks b'.' a
    → split_last (split b'.' (join b'.' (m ∷ a ∷ []))) ≡ (split b'.' m, a)
split_last-join m a h =
    ap split_last (
      split-append-split b'.' m a ∙ ap (λ (l : List Str). split b'.' m ++ l) (split-Lacks b'.' a h))
    ∙ split_last-append (split b'.' m) a

module _ (import' : Str → Import) where
  load_class_from_name_lem :
      (modname a : Str) (m : Module) (c : Class)
      → Lacks b'.' a
      → import' modname ≡ module_of m
      → m.attribute a ≡ some (class_object c)
      → load_class_from_name import' (join b'.' (modname ∷ a ∷ [])) ≡ ok c
  unfolding load_class_from_name
  load_class_from_name_lem modname a m c h i e =
      rw (split_last-join modname a h, join-split b'.' modname, i, e)

  -- A class that the loop tries is loaded.
  pub load_dynamic_class_lem :
      (modname a : Str) (m : Module) (c : Class)
      → Lacks b'.' a
      → import' modname ≡ module_of m
      → m.attribute a ≡ some (class_object c)
      → (is_collector (class_object c) && not (starts_with a (codes "parent_"))) ≡ true
      → load_dynamic_class import' (join b'.' (modname ∷ a ∷ [])) collector_class ≡ ok c
  unfolding load_dynamic_class is_collector
  load_dynamic_class_lem modname a m c h i e t =
      rw (load_class_from_name_lem modname a m c h i e) (ground arith)

  -- What `load_dynamic_class` returns is a collector.
  pub load_dynamic_class-IsCollector :
      (fqcn : Str) (c : Class)
      → load_dynamic_class import' fqcn collector_class ≡ ok c
      → IsCollector c
  unfolding load_dynamic_class
  load_dynamic_class-IsCollector fqcn c h =
      elim (Result-cases (load_class_from_name import' fqcn)) [
        | inr (x, e) ↦ ground arith
        | inl (b, e) ↦ record {
          derived = issubclass→Derived c collector_class (ground arith);
          proper = ground arith;
        }
      ]
